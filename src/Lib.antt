-- ===== src/Lib.antt =====
-- A model of LocalSend3DS, a LocalSend peer for the Nintendo 3DS.
--
-- The program finds peers on the local network and keeps them in a registry, reads and writes the
-- JSON messages of the protocol, and receives one file at a time: a prepare request waits for the
-- user, who accepts it; then a name is made safe, a free destination is chosen, two random
-- identifiers are drawn, and the bytes go to a part file, are hashed, and get their final name.
--
-- Prelude: shared types, Boolean tests on native numbers, lists and byte strings.
-- Device: the data of include/device.h.
-- Registry: source/device_registry.c. The array of 16 entries is a list; the result of a call is
--   a pair with the table behind it. The pruning works in place on the array; its rounds are
--   counted down from the number of entries. Oldest, Upsert, Map, Compact and Prune hold the proofs.
-- Utf8: `append_codepoint` and `valid_utf8_length` of source/localsend_protocol.c, and
--   `utf8_sequence_length` of source/filesystem.c and source/settings.c, which differ from the
--   second in form only. Bytes are numbers below 256, shifts and masks are divisions.
-- Json: the cursor, the string scanner, the skipping of values and the writer of
--   source/localsend_protocol.c. The cursor is the rest of the text. A loop runs on fuel that
--   starts with the length of the text, of which each round takes a byte at least. An output buffer
--   is its capacity with the bytes written.
-- Protocol: the messages of source/localsend_protocol.c. A parse result is an error or a value. Object
--   is the loop over members that three parsers share, Device and Prepare are the messages that come
--   in, Response is the answer, Write the messages that go out; Accepts and Accepted say what a
--   parser lets through, and Decimal that written numbers are read back.
-- Sha256: source/sha256.c. Words are numbers below 2 ^ 32, sums are taken `% 2 ^ 32`. The fuel of
--   the update loop is the length of the input, of which each round takes a byte at least.
-- Random: `ls_secure_random_uuid` of source/secure_random.c.
-- Filesystem: source/filesystem.c. The 10000 rounds of the search for a free path are the fuel.
-- Platform: the calls of the C library and the system, a parameter, with the laws that are relied
--   on in the record Reliable; Platform.Card is a platform that meets them. Paths are compared byte
--   by byte there: that the card's file system ignores case is outside the model.
-- Transfer: source/transfer.c. `LsIncomingTransfer` is a record, and a call gives the record and the
--   world behind it. Calls joins calls to histories; Invariant, Files, Spared, Credentials and
--   Received hold the proofs.
-- Http: source/http_server.c and source/http_response.c. Text, Query and Request read the texts
--   of a request; `query_encode` of source/outgoing_transfer.c stands beside what reads it.
--   Network is the socket calls, a parameter as Platform is, with the laws Orderly and Polite.
--   Server is `LsHttpServer` with the registry and the world, its four connections are a list, and
--   a handler gives the state behind it; Approval, Stream, Routes and Loop hold the handlers. A
--   chunked body has a round of fuel for each byte, and Refines.Fuel gives its loop without fuel,
--   as a relation. Refines compares each handler with a machine
--   that only makes calls on the transfer and on sockets, Events joins the calls of the
--   application to histories, from the state that a start sets up. Response is the parser of a
--   peer's answers: Head and Chunked hold the code, the others the proofs. Upload is
--   `build_upload_request` of source/outgoing_transfer.c; Request.Read and Request.Split follow
--   the server's parser over lines of the form that it writes.
-- Settings: the text of the file of source/settings.c, as it is read and written. A line takes a
--   byte at least, so the length of the text is the fuel; the calls on files are left out.
-- UiModel: the list window and the percentage of source/ui_model.c.
--
-- C strings in fixed buffers are the lists of their bytes before the NUL; null pointers, which the
-- functions refuse first, and log lines are left out, and times are unbounded numbers. Not
-- modelled are the set-up of the listening socket, the state machine of the sender, discovery,
-- TLS, the saving and recovery of settings files, the file browser, the rest of ui_model.c and the
-- drawing: much of these is sockets, drawing, and calls of libraries that the repository does not
-- hold.
pub mod Prelude
pub mod Device
pub mod Registry
pub mod Settings
pub mod Utf8
pub mod Sha256
pub mod Platform
pub mod Filesystem
pub mod Random
pub mod Transfer
pub mod Json
pub mod Protocol
pub mod UiModel
pub mod Http
