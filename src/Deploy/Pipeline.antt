-- ===== src/Deploy/Pipeline.antt =====
-- `execute`, `rollbackOps`, `Apply` and `Rollback` of deploy/orchestrator.go.
-- The expansion of the preset, the certificate manager and the runtime coordinator answer through
-- arguments. The lock over both entry points makes each call one step.
pub mod Undo
pub mod Restores
pub mod Outcomes
mod Tests
mod DeployerTests
use zenith_panel.Common.{
  join_errors, ℕ, suc, ◌+◌, List, [], ◌∷◌, ◌++◌, Option, none, some, Bool, true, false, ◌&&◌, ◌||◌,
  Text, codes, text_eq, nat_eq, if◌then◌else◌, ◌==◌, Result, ok, err, wrap, keep_if, length, map,
}
use zenith_panel.Common.Assoc.{lookup, assign}
use zenith_panel.Deploy.Plan.{DeployPlan, CertResult, TuneSpec, InboundSpec, TlsStream}
use zenith_panel.Deploy.Orchestrator.{
  Host, Faults, OpStatus, DeployStatus, Deployment, DbCall, inject_cert_paths, Post, empty, cert,
  tuned, inbound, Op, World, Exec, run_cert, run_tune, run_inbound, save_row,
}

-- What the rest of the program answers during one call.
pub record Answers : Type 0 where
  pub expanded : Result DeployPlan
  pub is_root : Bool
  pub v4 : Text
  pub v6 : Text
  pub domain : Text
  pub provisioned : Result CertResult
  pub has_runtime : Bool
  pub activated : Option Text
  pub reactivated : Option Text

-- The loop over the planned inbounds in `Apply`.
pub set_address : Answers → InboundSpec → InboundSpec
set_address ans spec = record spec {
  server_address = if ans.v4 == [] then if ans.v6 == [] then ans.domain else ans.v6 else ans.v4;
}

-- A `nil` deployment or the id of one, and the error.
abbrev pub Reply : Type 0
Reply = Option ℕ × Option Text

abbrev new_deployment : Deployment
new_deployment = record { status = DeployStatus.running; inbound_ids = []; error = [] }

is_rolled_back : DeployStatus → Bool
is_rolled_back DeployStatus.rolled_back = true
is_rolled_back _ = false

module _ (h : Host) where
  pub revert_one : Post h → Exec h (Unit {0})
  revert_one empty w = (ok tt, w)
  revert_one (cert res) w = (ok tt, w)
  revert_one (tuned snap) w =
      let (e, host') = h.untune snap w.host in
      (elim e [ none ↦ ok tt | some x ↦ err x ], record w { host = host' })
  revert_one (inbound id) w =
      let (e, host') = h.delete id w.host in
      if id == 0
      then (ok tt, w)
      else (elim e [ none ↦ ok tt | some x ↦ err x ], record w { host = host' })

  -- `status IN (applied, revert_failed)` of this deployment.
  abbrev pub is_live : OpStatus → Bool
  is_live OpStatus.applied = true
  is_live OpStatus.revert_failed = true
  is_live _ = false

  abbrev pub to_revert : ℕ → Op h → Bool
  to_revert dep op = op.deployment_id == dep && is_live op.status

module _ (h : Host) (faults : Faults) where
  -- The tuning operations, the first under the number `seq`.
  pub run_tunes : ℕ → ℕ → List TuneSpec → Exec h ℕ
  run_tunes dep seq [] w = (ok seq, w)
  run_tunes dep seq (ts ∷ tuning) w =
      let (r, w') = run_tune h faults dep seq ts w in
      elim r [
        | ok _ ↦ run_tunes dep (suc seq) tuning w'
        | err e ↦ (err (codes "tune " ++ ts.op_name ++ codes ": " ++ e), w')
      ]

  -- The inbounds, with the certificate's paths filled in; the ids come back.
  pub run_inbounds : ℕ → ℕ → CertResult → List InboundSpec → Exec h (List ℕ)
  run_inbounds dep seq res [] w = (ok [], w)
  run_inbounds dep seq res (spec ∷ specs) w =
      let (r, w') = run_inbound h faults dep seq (inject_cert_paths spec (some res)) w in
      elim r [
        | ok id ↦
            let (r', w'') = run_inbounds dep (suc seq) res specs w' in
            (elim r' [ ok ids ↦ ok (id ∷ ids) | err e ↦ err e ], w'')
        | err e ↦ (err (codes "inbound " ++ spec.tag ++ codes ": " ++ e), w')
      ]

  -- The stored row; the caller's copy of it is not modelled.
  store_ids : ℕ → List ℕ → Exec h (Unit {0})
  store_ids dep ids w = elim (faults DbCall.update_inbound_ids) [
    | some e ↦ (err e, w)
    | none ↦ elim (lookup dep w.deployments) [
      | none ↦ (ok tt, w)
      | some d ↦ (
        ok tt,
        record w { deployments = assign dep (record d { inbound_ids = ids }) w.deployments },
      )
    ]
  ]

  -- What `execute` does behind each of its stages.
  with_ids : ℕ → Result (List ℕ) × World h → Result (Unit {0}) × World h
  unfolding store_ids
  with_ids dep (ok ids, w) = store_ids dep ids w
  with_ids dep (err e, w) = (err e, w)

  with_tunes : ℕ → DeployPlan → CertResult → Result ℕ × World h → Result (Unit {0}) × World h
  unfolding with_ids
  with_tunes dep plan res (ok seq, w) = with_ids dep (run_inbounds dep seq res plan.inbounds w)
  with_tunes dep plan res (err e, w) = (err e, w)

  with_cert : ℕ → DeployPlan → Result CertResult × World h → Result (Unit {0}) × World h
  unfolding with_tunes
  with_cert dep plan (ok res, w) = with_tunes dep plan res (run_tunes dep 1 plan.tuning w)
  with_cert dep plan (err e, w) = (err (codes "cert: " ++ e), w)

  pub execute : Result CertResult → ℕ → DeployPlan → Exec h (Unit {0})
  unfolding with_cert
  execute answer dep plan w = with_cert dep plan (run_cert h faults answer dep 0 w)

  -- `db.Save(op)` with the outcome of the revert.
  save_outcome : Op h → Result (Unit {0}) → World h → Option Text × World h
  save_outcome op r w =
      let row : Op h = elim r [
        | ok _ ↦ record op { status = OpStatus.reverted }
        | err e ↦ record op { status = OpStatus.revert_failed; error = e }
      ] in
      elim (faults (DbCall.save_reverted op.sequence)) [
        | some e ↦ (some e, w)
        | none ↦ (none, record w { ops = save_row h row w.ops })
      ]

  -- One round of the loop in `rollbackOps`.
  pub rollback_op : Op h → World h → Option Text × World h
  unfolding save_outcome
  rollback_op op w =
      let (r, w') = revert_one h op.post w in
      let (saved, w'') = save_outcome op r w' in
      (
        join_errors
            (elim r [
              | ok _ ↦ none
              | err e ↦ some (codes "revert " ++ op.op_name ++ codes ": " ++ e)
            ])
            saved,
        w'',
      )

  pub rollback_each : List (Op h) → World h → Option Text × World h
  rollback_each [] w = (none, w)
  rollback_each (op ∷ ops) w =
      let (e, w') = rollback_op op w in
      let (e', w'') = rollback_each ops w' in (join_errors e e', w'')

  pub rollback_ops : ℕ → World h → Option Text × World h
  rollback_ops dep w = elim (faults DbCall.find_ops) [
    | some e ↦ (some e, w)
    | none ↦ rollback_each (keep_if (to_revert h dep) w.ops) w
  ]

  -- The status and the error message; the row stays as it was where the write fails.
  pub mark_deployment : ℕ → DeployStatus → Option Text → World h → Option Text × World h
  mark_deployment dep status e w = elim (faults DbCall.save_deployment) [
    | some x ↦ (some x, w)
    | none ↦ elim (lookup dep w.deployments) [
      | none ↦ (none, w)
      | some d ↦
          let marked = record d { status = status; error = elim e [ none ↦ [] | some x ↦ x ] } in
          (none, record w { deployments = assign dep marked w.deployments })
    ]
  ]

  fail_deployment : ℕ → Option Text → World h → Reply × World h
  fail_deployment dep e w =
      let (e', w') = mark_deployment dep DeployStatus.failed e w in
      ((some dep, join_errors e e'), w')

  -- The part of `Apply` behind the deployment's row.
  pub drive : Answers → ℕ → DeployPlan → World h → Reply × World h
  unfolding fail_deployment
  drive ans dep plan w =
      let (r, w1) = execute ans.provisioned dep plan w in
      elim r [
        | err e ↦
            let (e', w2) = rollback_ops dep w1 in fail_deployment dep (join_errors (some e) e') w2
        | ok _ ↦ elim ans.activated [
          | some e ↦
              let (e', w2) = rollback_ops dep w1 in
              let e'' = join_errors (some (codes "proxy activation: " ++ e)) e' in
              fail_deployment dep
                (elim ans.reactivated [
                  | none ↦ e''
                  | some x ↦ join_errors e'' (some (codes "runtime after rollback: " ++ x))
                ])
                w2
          | none ↦
              let (e, w2) = mark_deployment dep DeployStatus.succeeded none w1 in
              ((some dep, e), w2)
        ]
      ]

  pub apply : Answers → World h → Reply × World h
  apply ans w =
      if ans.has_runtime
      then elim ans.expanded [
        | err e ↦ ((none, some e), w)
        | ok plan ↦
            if ans.is_root
            then elim (faults DbCall.create_deployment) [
              | some e ↦ ((none, some e), w)
              | none ↦
                  drive ans w.next_id
                    (record plan { inbounds = map (set_address ans) plan.inbounds })
                    (record w {
                      deployments = assign w.next_id new_deployment w.deployments;
                      next_id = suc w.next_id;
                    })
            ]
            else ((none, some (codes "deploy refused: panel is not running as root")), w)
      ]
      else ((none, some (codes "proxy runtime coordinator is unavailable")), w)

  -- What `Rollback` does behind the reverts and the activation.
  conclude : ℕ → Option Text → World h → Reply × World h
  unfolding fail_deployment
  conclude dep (some x) w = fail_deployment dep (some x) w
  conclude dep none w =
      let (e, w') = mark_deployment dep DeployStatus.rolled_back none w in ((some dep, e), w')

  pub rollback : Answers → ℕ → World h → Reply × World h
  unfolding conclude is_rolled_back
  rollback ans dep w =
      if ans.has_runtime
      then elim (faults DbCall.find_deployment) [
        | some e ↦ ((none, some e), w)
        | none ↦ elim (lookup dep w.deployments) [
          | none ↦ ((none, some (codes "record not found")), w)
          | some d ↦
              if is_rolled_back d.status
              then ((some dep, none), w)
              else (let (e, w') = rollback_ops dep w in
                  conclude dep (join_errors e ans.activated) w')
        ]
      ]
      else ((none, some (codes "proxy runtime coordinator is unavailable")), w)
