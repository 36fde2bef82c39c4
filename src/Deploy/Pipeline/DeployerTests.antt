-- ===== src/Deploy/Pipeline/DeployerTests.antt =====
-- The theorem on failed deployments at work: the tuner leaves its files behind, the inbounds are gone.
use zenith_panel.Common.{
  ℕ, suc, ◌+◌, ◌≤◌, ◌<◌, All, ◌≡◌, ◌≢◌, refl, List, [], ◌∷◌, Option, none, some, Bool, true, false,
  Text, codes, Result, ok, err, arith, keep_if, text_beq,
}
use zenith_panel.Deploy.Plan.{DeployPlan, InboundSpec, Settings}
use zenith_panel.Deploy.Orchestrator.{
  run_cert, opened, take_cert, record_cert, run_tune, take_tune, record_tune, run_inbound,
  take_inbound, record_inbound, fail_op, inject_cert_paths, save_row, Faults, World,
}
use zenith_panel.Deploy.Pipeline.{
  Answers, apply, drive, execute, run_tunes, run_inbounds, rollback_ops, fail_deployment,
  mark_deployment, revert_one, rollback_each, rollback_op, save_outcome, set_address, store_ids,
  with_cert, with_ids, with_tunes,
}
use zenith_panel.Common.Assoc.{lookup, assign}
use zenith_panel.Deploy.Deployer.{
  Tuner, Database, Inbound, Tables, panel_host, create_inbound, delete_inbound,
}
use zenith_panel.Deploy.Deployer.Removal.{Counts}
use zenith_panel.Deploy.Deployer.Restored.{apply-deployed}

abbrev messy : Tuner
messy = record {
  State = List Text;
  Snap = Text;
  tune = λ ts s. (ok ts.op_name, ts.op_name ∷ s);
  untune = λ snap s. (some (codes "read-only"), s);
}

abbrev row_sum : List Inbound → ℕ
row_sum [] = 0
row_sum (row ∷ rows) = row.id + row_sum rows

abbrev user_sum : List (ℕ × Settings) → ℕ
user_sum [] = 0
user_sum ((id, s) ∷ users) = id + user_sum users

abbrev database : Database
database = record {
  new_id = λ t. suc (row_sum t.inbounds + user_sum t.users);
  refuses_create = λ spec. none;
  refuses_delete = λ id. none;
}

rows_below :
    (n : ℕ) (rows : List Inbound) → row_sum rows ≤ n → All (λ (r : Inbound). r.id < suc n) rows
rows_below n [] h = tt
rows_below n (row ∷ rows) h = (omega (arith, h), rows_below n rows (omega (arith, h)))

users_below :
    (n : ℕ) (users : List (ℕ × Settings))
    → user_sum users ≤ n
    → All (λ (u : ℕ × Settings). u.0 < suc n) users
users_below n [] h = tt
users_below n ((id, s) ∷ users) h = (omega (arith, h), users_below n users (omega (arith, h)))

counts : Counts database
counts = record {
  positive = λ t. omega arith;
  unused = λ t. rows_below (row_sum t.inbounds + user_sum t.users) t.inbounds (omega arith);
  unowned = λ t. users_below (row_sum t.inbounds + user_sum t.users) t.users (omega arith);
  deletes = λ id. refl;
}

abbrev no_faults : Faults
no_faults call = none

abbrev one_inbound : InboundSpec
one_inbound = record {
  engine = codes "singbox";
  protocol = codes "hysteria2";
  tag = codes "hy2";
  port = 443;
  network = codes "udp";
  settings = Settings.hysteria2 (codes "default") (codes "one");
  reality = none;
  tls = none;
  remark = [];
  server_address = [];
}

abbrev plan : DeployPlan
plan = record {
  preset_id = codes "speed";
  inbounds = one_inbound ∷ [];
  tuning = record { op_name = codes "bbr_fq"; params = [] } ∷ [];
  cert_mode = codes "self_signed";
  cert_input = record { domain = []; email = []; public_ip = []; cert_path = []; key_path = [] };
  firewall_allow_port = 443 ∷ [];
  notes = [];
}

-- The runtime refuses the new inbound.
abbrev answers : Answers
answers = record {
  expanded = ok plan;
  is_root = true;
  v4 = codes "192.0.2.1";
  v6 = [];
  domain = [];
  provisioned = ok (record { cert_path = codes "/c"; key_path = codes "/k"; self_signed = true });
  has_runtime = true;
  activated = some (codes "port busy");
  reactivated = none;
}

abbrev old_row : Inbound
old_row = record { id = 1; port = 8443; enable = true; spec = one_inbound }

abbrev before : Tables
before = record { inbounds = old_row ∷ []; users = (1, one_inbound.settings) ∷ [] }

abbrev world : World (panel_host messy database)
world = record {
  host = record { tuned = []; tables = before };
  ops = [];
  deployments = [];
  next_id = 3;
}

refused :
    (apply (panel_host messy database) no_faults answers world).0.1
    ≡ some (codes "proxy activation: port busy\nrevert bbr_fq: read-only")
unfolding create_inbound delete_inbound apply drive execute run_cert opened take_cert record_cert
    run_tunes run_tune take_tune record_tune run_inbounds run_inbound take_inbound record_inbound
    lookup assign rollback_ops keep_if text_beq fail_op inject_cert_paths save_row fail_deployment
    mark_deployment revert_one rollback_each rollback_op save_outcome set_address store_ids
    with_cert with_ids with_tunes zenith_panel.Common.any
refused = refl

apply-deployed_example :
    (apply (panel_host messy database) no_faults answers world).1.host.tables ≡ before
apply-deployed_example =
    apply-deployed messy database no_faults answers world _ counts tt refl refl refused
