-- ===== src/Deploy/Pipeline/Tests.antt =====
-- The theorem on rollbacks at work on a host whose changes are a stack of names.
use zenith_panel.Common.{
  ℕ, ◌≡◌, ◌≢◌, refl, List, [], ◌∷◌, Option, none, some, Bool, true, false, Text, codes, Result, ok,
  err, arith, keep_if, text_beq,
}
use zenith_panel.Deploy.Plan.{DeployPlan, InboundSpec, Settings}
use zenith_panel.Deploy.Orchestrator.{Host, Faults, DeployStatus, World}
use zenith_panel.Deploy.Pipeline.{
  Answers, apply, rollback, drive, execute, run_tunes, run_inbounds, rollback_ops, fail_deployment,
  mark_deployment, revert_one, rollback_each, rollback_op, save_outcome, set_address, store_ids,
  with_cert, with_ids, with_tunes,
}
use zenith_panel.Common.Assoc.{lookup, assign}
use zenith_panel.Deploy.Pipeline.Outcomes.{rollback_once}

abbrev tail : List Text → List Text
tail [] = []
tail (t ∷ s) = s

abbrev stack_host : Host
stack_host = record {
  State = List Text;
  Snap = Text;
  tune = λ ts s. (ok ts.op_name, ts.op_name ∷ s);
  untune = λ snap s. (none, tail s);
  create = λ spec s. (ok 1, spec.tag ∷ s);
  delete = λ id s. (none, tail s);
}

abbrev no_faults : Faults
no_faults call = none

abbrev one_inbound : InboundSpec
one_inbound = record {
  engine = codes "singbox";
  protocol = codes "hysteria2";
  tag = codes "hy2";
  port = 443;
  network = codes "udp";
  settings = Settings.hysteria2 (codes "default") (codes "one");
  reality = none;
  tls = none;
  remark = [];
  server_address = [];
}

abbrev plan : DeployPlan
plan = record {
  preset_id = codes "speed";
  inbounds = one_inbound ∷ [];
  tuning = record { op_name = codes "bbr_fq"; params = [] } ∷ [];
  cert_mode = codes "self_signed";
  cert_input = record { domain = []; email = []; public_ip = []; cert_path = []; key_path = [] };
  firewall_allow_port = 443 ∷ [];
  notes = [];
}

-- The runtime refuses the new inbound.
abbrev answers : Answers
answers = record {
  expanded = ok plan;
  is_root = true;
  v4 = codes "192.0.2.1";
  v6 = [];
  domain = [];
  provisioned = ok (record { cert_path = codes "/c"; key_path = codes "/k"; self_signed = true });
  has_runtime = true;
  activated = some (codes "port busy");
  reactivated = none;
}

abbrev empty_world : World stack_host
empty_world = record { host = codes "before" ∷ []; ops = []; deployments = []; next_id = 3 }

abbrev failed_world : World stack_host
failed_world = record empty_world {
  deployments =
      (2, record { status = DeployStatus.failed; inbound_ids = []; error = codes "x" }) ∷ [];
}

abbrev calm : Answers
calm = record answers { activated = none }

settled : (rollback stack_host no_faults calm 2 failed_world).0 ≡ (some 2, none)
unfolding rollback zenith_panel.Common.Assoc.lookup zenith_panel.Deploy.Pipeline.rollback_ops
    zenith_panel.Deploy.Pipeline.rollback_each zenith_panel.Common.keep_if
    zenith_panel.Deploy.Pipeline.mark_deployment
settled = refl

rollback_once_example :
    rollback stack_host no_faults calm 2 (rollback stack_host no_faults calm 2 failed_world).1
    ≡ ((some 2, none), (rollback stack_host no_faults calm 2 failed_world).1)
rollback_once_example =
    rollback_once stack_host no_faults no_faults calm calm 2 failed_world settled refl refl
