-- ===== src/Model.antt =====
-- The rows of the database that the modelled parts read and write (backend/internal/model).
-- Columns that no modelled code reads are left out; SQLite's integers are not bounded here.
use zenith_panel.Common.{ℕ, Text, Bool}

pub record Inbound : Type 0 where
  pub id : ℕ
  pub tag : Text
  pub protocol : Text
  pub listen : Text
  pub server_address : Text
  pub server_address_ipv4 : Text
  pub server_address_ipv6 : Text
  pub port : ℕ
  pub network : Text
  pub settings : Text
  pub stream : Text
  pub enable : Bool
  pub remark : Text

pub record Client : Type 0 where
  pub id : ℕ
  pub inbound_id : ℕ
  pub email : Text
  pub uuid : Text
  pub enable : Bool
  pub up_load : ℕ
  pub down_load : ℕ
  pub total : ℕ
  pub expiry_time : ℕ
  pub reset_day : ℕ
