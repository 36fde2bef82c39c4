-- ===== src/Deploy/Orchestrator.antt =====
-- The deployment pipeline with its durable log and its rollback (deploy/orchestrator.go).
-- The host is an interface: the tuner and the inbound deployer of the source. The log keeps what
-- the source stores as JSON as values. `faults` says which database statement fails. The table of
-- operations has its newest row first, which is the order `sequence DESC` of one deployment.
use zenith_panel.Common.{
  ℕ, List, [], ◌∷◌, ◌++◌, Option, none, some, true, ◌&&◌, Text, codes, text_eq, nat_eq,
  if◌then◌else◌, ◌==◌, Result, ok, err,
}
use zenith_panel.Deploy.Plan.{CertResult, TuneSpec, InboundSpec, TlsStream}

-- `Tuner` and `InboundDeployer`.
pub record Host : Type 1 where
  pub State : Type 0
  pub Snap : Type 0
  pub tune : TuneSpec → State → Result Snap × State
  pub untune : Snap → State → Option Text × State
  pub create : InboundSpec → State → Result ℕ × State
  pub delete : ℕ → State → Option Text × State

pub data OpStatus : Type 0 where
  pending applied failed reverted revert_failed : OpStatus

pub data DeployStatus : Type 0 where
  running succeeded rolled_back failed : DeployStatus

pub record Deployment : Type 0 where
  pub status : DeployStatus
  pub inbound_ids : List ℕ
  pub error : Text

pub data DbCall : Type 0 where
  create_deployment find_deployment update_inbound_ids find_ops save_deployment : DbCall
  create_op save_applied save_failed save_reverted : ℕ → DbCall

abbrev pub Faults : Type 0
Faults = DbCall → Option Text

-- `injectCertPaths`; a stream without a `tls` object is left alone.
inject_tls : Option TlsStream → CertResult → Option TlsStream
inject_tls none res = none
inject_tls (some tls) res = some (record tls {
  certificate_path = res.cert_path;
  key_path = res.key_path;
  insecure = if res.self_signed then true else tls.insecure;
})

unfoldable pub inject_cert_paths : InboundSpec → Option CertResult → InboundSpec
unfolding inject_tls
inject_cert_paths spec none = spec
inject_cert_paths spec (some res) =
    if res.cert_path == [] then spec else record spec { tls = inject_tls spec.tls res }

module _ (h : Host) where
  open h use {State, Snap, tune, untune, create, delete}

  -- The `PostValue` of an operation that was applied, by its type.
  pub data Post : Type 0 where
    empty : Post
    cert : CertResult → Post
    tuned : Snap → Post
    inbound : ℕ → Post

  pub record Op : Type 0 where
    pub deployment_id : ℕ
    pub sequence : ℕ
    pub op_name : Text
    pub post : Post
    pub status : OpStatus
    pub error : Text

  pub record World : Type 0 where
    pub host : State
    pub ops : List Op
    pub deployments : List (ℕ × Deployment)
    pub next_id : ℕ

  -- Steps that may fail and keep what they changed.
  abbrev pub Exec : Type 0 → Type 0
  Exec A = World → Result A × World

  -- `db.Save(op)`: the row with this key is written anew.
  unfoldable pub save_row : Op → List Op → List Op
  save_row row [] = []
  save_row row (op ∷ ops) =
      if op.deployment_id == row.deployment_id && op.sequence == row.sequence
      then row ∷ ops
      else op ∷ save_row row ops

  -- The row that is written before a side effect.
  abbrev pub pending_row : ℕ → ℕ → Text → Op
  pending_row dep seq name = record {
    deployment_id = dep;
    sequence = seq;
    op_name = name;
    post = empty;
    status = pending;
    error = [];
  }

  -- `errors.Join` of the failed write and the undo.
  abbrev pub undone : {A : Type 0} → Text → Option Text → Result A
  undone e none = err e
  undone e (some x) = err (e ++ codes "\n" ++ x)

  -- The write of `failOp`, whose own error is ignored.
  unfoldable pub fail_op : Option Text → Op → Text → World → World
  fail_op none row e w = record w {
    ops = save_row (record row { status = failed; error = e }) w.ops;
  }
  fail_op (some _) row e w = w

  -- The row of an operation that took effect.
  abbrev pub applied_row : Op → Post → Op
  applied_row row post = record row { status = applied; post = post }

  -- The last write of `runCert`.
  unfoldable pub record_cert : Option Text → Op → CertResult → Exec CertResult
  record_cert none row res w =
      (ok res, record w { ops = save_row (applied_row row (cert res)) w.ops })
  record_cert (some e) row res w = (err e, w)

  -- The last write of `runTune`; where it fails the change is taken back at once.
  unfoldable pub record_tune : Option Text → Op → Snap → Exec (Unit {0})
  record_tune none row snap w =
      (ok tt, record w { ops = save_row (applied_row row (tuned snap)) w.ops })
  record_tune (some e) row snap w =
      (undone e (untune snap w.host).0, record w { host = (untune snap w.host).1 })

  -- The last write of `runInbound`.
  unfoldable pub record_inbound : Option Text → Op → ℕ → Exec ℕ
  record_inbound none row id w =
      (ok id, record w { ops = save_row (applied_row row (inbound id)) w.ops })
  record_inbound (some e) row id w =
      (undone e (delete id w.host).0, record w { host = (delete id w.host).1 })

  module _ (faults : Faults) where
    unfoldable pub take_cert : Result CertResult → Op → Exec CertResult
    take_cert (err e) row w = (err e, fail_op (faults (save_failed row.sequence)) row e w)
    take_cert (ok res) row w = record_cert (faults (save_applied row.sequence)) row res w

    unfoldable pub take_tune : Result Snap → Op → Exec (Unit {0})
    take_tune (err e) row w = (err e, fail_op (faults (save_failed row.sequence)) row e w)
    take_tune (ok snap) row w = record_tune (faults (save_applied row.sequence)) row snap w

    unfoldable pub take_inbound : Result ℕ → Op → Exec ℕ
    take_inbound (err e) row w = (err e, fail_op (faults (save_failed row.sequence)) row e w)
    take_inbound (ok id) row w = record_inbound (faults (save_applied row.sequence)) row id w

    -- The row is written first; nothing else happens where that fails.
    unfoldable pub opened : {A : Type 0} → Option Text → Op → Exec A → Exec A
    opened none row body w = body (record w { ops = row ∷ w.ops })
    opened (some e) row body w = (err e, w)

    unfoldable pub run_cert : Result CertResult → ℕ → ℕ → Exec CertResult
    run_cert answer dep seq =
        let row = pending_row dep seq (codes "cert.provision") in
        opened (faults (create_op seq)) row (take_cert answer row)

    unfoldable pub run_tune : ℕ → ℕ → TuneSpec → Exec (Unit {0})
    run_tune dep seq ts =
        let row = pending_row dep seq ts.op_name in
        opened (faults (create_op seq)) row
          λ w. take_tune (tune ts w.host).0 row (record w { host = (tune ts w.host).1 })

    unfoldable pub run_inbound : ℕ → ℕ → InboundSpec → Exec ℕ
    run_inbound dep seq spec =
        let row = pending_row dep seq (codes "inbound." ++ spec.protocol) in
        opened (faults (create_op seq)) row
          λ w. take_inbound (create spec w.host).0 row (record w { host = (create spec w.host).1 })
