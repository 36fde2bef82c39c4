-- ===== src/Deploy/Deployer.antt =====
-- `dbInboundDeployer` of deploy/orchestrator.go: the inbounds of a deployment are rows of the panel's
-- database, each with its one user. The tuner is an interface. The database gives out the ids and may
-- refuse a transaction. A new row stands at the head of its table.
pub mod Removal
pub mod Restored
use zenith_panel.Common.{
  ℕ, List, [], ◌∷◌, ◌++◌, Option, none, some, Bool, true, not, ◌&&◌, Text, codes, nat_eq, any,
  keep_if, if◌then◌else◌, ◌==◌, Result, ok, err,
}
use zenith_panel.Common.Decimal.{format_uint}
use zenith_panel.Deploy.Plan.{TuneSpec, InboundSpec, Settings}
use zenith_panel.Deploy.Orchestrator.{Host}

pub record Inbound : Type 0 where
  pub id : ℕ
  pub port : ℕ
  pub enable : Bool
  pub spec : InboundSpec

pub record Tables : Type 0 where
  pub inbounds : List Inbound
  pub users : List (ℕ × Settings)

-- `Tuner`.
pub record Tuner : Type 1 where
  pub State : Type 0
  pub Snap : Type 0
  pub tune : TuneSpec → State → Result Snap × State
  pub untune : Snap → State → Option Text × State

-- The id of the next inbound, and the errors of the two transactions.
pub record Database : Type 0 where
  pub new_id : Tables → ℕ
  pub refuses_create : InboundSpec → Option Text
  pub refuses_delete : ℕ → Option Text

pub record Panel (tuner : Tuner) : Type 0 where
  pub tuned : tuner.State
  pub tables : Tables

unfoldable pub create_inbound : Database → InboundSpec → Tables → Result ℕ × Tables
create_inbound db spec t = elim (db.refuses_create spec) [
  | some e ↦ (err e, t)
  | none ↦
      if any (λ row. row.enable && row.port == spec.port) t.inbounds
      then (
        err (
            codes "port "
            ++ (format_uint spec.port ++ codes " is already used by an enabled inbound")),
        t,
      )
      else (
        ok (db.new_id t),
        record {
          inbounds =
              record { id = db.new_id t; port = spec.port; enable = true; spec = spec }
              ∷ t.inbounds;
          users = (db.new_id t, spec.settings) ∷ t.users;
        },
      )
]

unfoldable pub delete_inbound : Database → ℕ → Tables → Option Text × Tables
delete_inbound db id t = elim (db.refuses_delete id) [
  | some e ↦ (some e, t)
  | none ↦ (
    none,
    record {
      inbounds = keep_if (λ row. not (row.id == id)) t.inbounds;
      users = keep_if (λ u. not (u.0 == id)) t.users;
    },
  )
]

abbrev pub panel_host : Tuner → Database → Host
panel_host tuner db = record {
  State = Panel tuner;
  Snap = tuner.Snap;
  tune = λ ts p. let (r, s) = tuner.tune ts p.tuned in (r, record p { tuned = s });
  untune = λ snap p. let (e, s) = tuner.untune snap p.tuned in (e, record p { tuned = s });
  create = λ spec p. let (r, t) = create_inbound db spec p.tables in (r, record p { tables = t });
  delete = λ id p. let (e, t) = delete_inbound db id p.tables in (e, record p { tables = t });
}
