-- ===== src/Deploy/Plan.antt =====
-- What the probe reports and what a preset asks for (deploy/types.go). The JSON objects `Settings`
-- and `Stream` are records of the fields that the presets put into them.
use zenith_panel.Common.{ℕ, Text, List, Option, Bool}

-- A signed integer; `negsuc n` is -1 - n.
pub data ℤ : Type 0 where
  pos : ℕ → ℤ
  negsuc : ℕ → ℤ

-- An advice of the CPU report: its level and its text.
pub record Advice : Type 0 where
  pub level : Text
  pub text : Text

-- The part of `ProbeResult` that the presets read.
pub record ProbeResult : Type 0 where
  pub is_root : Bool
  pub has_cake : Bool
  pub v4 : Text
  pub v6 : Text
  pub cpu_cores : ℕ
  pub advice : List Advice
  pub nic_primary : Text
  pub link_speed_mbps : ℤ
  pub rx_queues : ℕ
  pub port_avail : List (ℕ × Bool)
  pub inbound_ports : List ℕ

-- `Input`, with the two texts of `Options` that are read; a missing one is empty.
pub record Input : Type 0 where
  pub domain : Text
  pub email : Text
  pub port_override : ℕ
  pub reality_target : Text
  pub cert_path_option : Text
  pub key_path_option : Text

pub record CertInput : Type 0 where
  pub domain : Text
  pub email : Text
  pub public_ip : Text
  pub cert_path : Text
  pub key_path : Text

pub record CertResult : Type 0 where
  pub cert_path : Text
  pub key_path : Text
  pub self_signed : Bool

pub record TuneSpec : Type 0 where
  pub op_name : Text
  pub params : List (Text × Text)

-- The `tls` object of a stream.
pub record TlsStream : Type 0 where
  pub server_name : Text
  pub certificate_path : Text
  pub key_path : Text
  pub insecure : Bool

pub record RealitySettings : Type 0 where
  pub dest : Text
  pub server_names : List Text
  pub private_key : Text
  pub public_key : Text
  pub short_ids : List Text

-- The one user of an inbound.
pub data Settings : Type 0 where
  vless : (client_id email : Text) → Settings
  hysteria2 : (name password : Text) → Settings
  tuic : (user_id password name : Text) → Settings

pub record InboundSpec : Type 0 where
  pub engine : Text
  pub protocol : Text
  pub tag : Text
  pub port : ℕ
  pub network : Text
  pub settings : Settings
  pub reality : Option RealitySettings
  pub tls : Option TlsStream
  pub remark : Text
  pub server_address : Text

pub record DeployPlan : Type 0 where
  pub preset_id : Text
  pub inbounds : List InboundSpec
  pub tuning : List TuneSpec
  pub cert_mode : Text
  pub cert_input : CertInput
  pub firewall_allow_port : List ℕ
  pub notes : List Text
