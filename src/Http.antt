-- ===== src/Http.antt =====
-- HTTP as the program speaks it: source/http_server.c, source/http_response.c and the requests of
-- source/outgoing_transfer.c.
pub mod Text
pub mod Query
pub mod Request
pub mod Network
pub mod Response
pub mod Upload
pub mod Server
