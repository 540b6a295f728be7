-- ===== src/Device.antt =====
-- include/device.h: the data that describes a peer.
use localsend3ds.Prelude.{ℕ, Bool, Bytes}

pub data DeviceType : Type 0 where
  mobile desktop web headless server : DeviceType

pub data Protocol : Type 0 where
  http https : Protocol

-- `LsDevice`
pub record Device : Type 0 where
  pub alias : Bytes
  pub version : Bytes
  pub device_model : Bytes
  pub device_type : DeviceType
  pub fingerprint : Bytes
  pub ip_address : Bytes
  pub port : ℕ
  pub protocol : Protocol
  pub download : Bool
  pub announce : Bool
  pub last_seen_ms : ℕ

-- The values of the enumerators, by which C compares them.
abbrev pub type_code : DeviceType → ℕ
type_code mobile = 0
type_code desktop = 1
type_code web = 2
type_code headless = 3
type_code server = 4

abbrev pub protocol_code : Protocol → ℕ
protocol_code http = 0
protocol_code https = 1
