-- ===== src/Deploy/Pipeline/Restores.antt =====
-- Failed deployments, seen through the part of the host that the laws are about.
use zenith_panel.Common.{
  ℕ, suc, ◌≡◌, refl, ◌∙◌, ap, nat_beq, nat_beq_iff, List, [], ◌∷◌, Option, none, some, Text,
  text_eq, nat_eq, ◌<◌, ◌⊎◌, All, Result, ok, err, keep_if, arith, inl, inr, Bool-cases,
  Result-cases, Option-cases,
}
use zenith_panel.Deploy.Plan.{DeployPlan, CertResult, TuneSpec, InboundSpec}
use zenith_panel.Deploy.Orchestrator.{
  Host, Faults, DeployStatus, DbCall, Post, empty, cert, tuned, inbound, Op, World, run_tune,
  run_inbound, inject_cert_paths,
}
use zenith_panel.Deploy.Pipeline.{
  Answers, revert_one, to_revert, run_tunes, run_inbounds, store_ids, with_ids, with_tunes,
  with_cert, execute, save_outcome, rollback_op, rollback_each, rollback_ops, mark_deployment,
  fail_deployment, drive, apply, Reply,
}
use zenith_panel.Deploy.Pipeline.Undo.{
  Undoes, Back, Leads, start, skip, back, run_cert-Safe, run_tune-Safe, run_inbound-Safe,
}

module _ (h : Host) where
  -- No row of the log belongs to a deployment that is still to come.
  abbrev pub IsFresh : World h → Type 0
  IsFresh w = All (λ op. op.deployment_id < w.next_id) w.ops

module _ (h : Host) (law : Undoes h) (faults : Faults) where
  abbrev Safe : ℕ → law.View → World h → Type 0
  Safe dep origin w = Leads h law dep origin w.ops (law.view w.host)

  run_tunes-Safe :
      (dep seq : ℕ) (tuning : List TuneSpec) (origin : law.View) (w : World h)
      → Safe dep origin w
      → Safe dep origin (run_tunes h faults dep seq tuning w).1
  unfolding run_tunes
  run_tunes-Safe dep seq [] origin w safe = safe
  run_tunes-Safe dep seq (ts ∷ tuning) origin w safe =
      let one = run_tune-Safe h law faults dep seq ts origin w safe in
      elim (Result-cases (run_tune h faults dep seq ts w).0) [
        | inl (u, e) ↦
            rw (e, run_tunes)
              (run_tunes-Safe dep (suc seq) tuning origin (run_tune h faults dep seq ts w).1 one)
        | inr (x, e) ↦ rw (e, run_tunes) one
      ]

  run_inbounds-Safe :
      (dep seq : ℕ) (res : CertResult) (specs : List InboundSpec) (origin : law.View) (w : World h)
      → Safe dep origin w
      → Safe dep origin (run_inbounds h faults dep seq res specs w).1
  unfolding run_inbounds
  run_inbounds-Safe dep seq res [] origin w safe = safe
  run_inbounds-Safe dep seq res (spec ∷ specs) origin w safe =
      let spec' = inject_cert_paths spec (some res) in
      let one = run_inbound-Safe h law faults dep seq spec' origin w safe in
      elim (Result-cases (run_inbound h faults dep seq spec' w).0) [
        | inl (u, e) ↦
            rw (e, run_inbounds)
              (run_inbounds-Safe dep (suc seq) res specs origin
                (run_inbound h faults dep seq spec' w).1 one)
        | inr (x, e) ↦ rw (e, run_inbounds) one
      ]

  store_ids-same :
      (dep : ℕ) (ids : List ℕ) (w : World h)
      → ((store_ids h faults dep ids w).1.ops ≡ w.ops)
        × ((store_ids h faults dep ids w).1.host ≡ w.host)
  unfolding store_ids
  store_ids-same dep ids w = ground arith

  with_ids-Safe :
      (dep : ℕ) (r : Result (List ℕ)) (origin : law.View) (w : World h)
      → Safe dep origin w
      → Safe dep origin (with_ids h faults dep (r, w)).1
  unfolding with_ids
  with_ids-Safe dep (err e) origin w safe = safe
  with_ids-Safe dep (ok ids) origin w safe = let (o, s) = store_ids-same dep ids w in rw (o, s) safe

  with_tunes-Safe :
      (dep : ℕ) (plan : DeployPlan) (res : CertResult) (r : Result ℕ) (origin : law.View)
      (w : World h)
      → Safe dep origin w
      → Safe dep origin (with_tunes h faults dep plan res (r, w)).1
  unfolding with_tunes
  with_tunes-Safe dep plan res (err e) origin w safe = safe
  with_tunes-Safe dep plan res (ok seq) origin w safe =
      with_ids-Safe dep _ origin _ (run_inbounds-Safe dep seq res plan.inbounds origin w safe)

  with_cert-Safe :
      (dep : ℕ) (plan : DeployPlan) (r : Result CertResult) (origin : law.View) (w : World h)
      → Safe dep origin w
      → Safe dep origin (with_cert h faults dep plan (r, w)).1
  unfolding with_cert
  with_cert-Safe dep plan (err e) origin w safe = safe
  with_cert-Safe dep plan (ok res) origin w safe =
      with_tunes-Safe dep plan res _ origin _ (run_tunes-Safe dep 1 plan.tuning origin w safe)

  -- However far `execute` gets, the log leads back.
  execute-Safe :
      (r : Result CertResult) (dep : ℕ) (plan : DeployPlan) (origin : law.View) (w : World h)
      → Safe dep origin w
      → Safe dep origin (execute h faults r dep plan w).1
  unfolding execute
  execute-Safe r dep plan origin w safe =
      with_cert-Safe dep plan _ origin _ (run_cert-Safe h law faults r dep 0 origin w safe)

  revert_one-Back :
      (post : Post h) (w : World h) (t : law.View)
      → Back h law post (law.view w.host) t
      → law.view (revert_one h post w).1.host ≡ t
  unfolding revert_one
  revert_one-Back empty w t b = b
  revert_one-Back (cert res) w t b = b
  revert_one-Back (tuned snap) w t b = law.untune_view snap w.host ∙ b
  revert_one-Back (inbound id) w t b = elim (Bool-cases (nat_beq id 0)) [
    | inl e ↦ absurd (b.0 ((nat_beq_iff id 0).0 e))
    | inr e ↦ rw e (b.1 w.host refl)
  ]

  save_outcome-host :
      (op : Op h) (r : Result (Unit {0})) (w : World h)
      → (save_outcome h faults op r w).1.host ≡ w.host
  unfolding save_outcome
  save_outcome-host op r w = ground arith

  rollback_op-Back :
      (op : Op h) (w : World h) (t : law.View)
      → Back h law op.post (law.view w.host) t
      → law.view (rollback_op h faults op w).1.host ≡ t
  unfolding rollback_op
  rollback_op-Back op w t b =
      ap law.view (save_outcome-host op (revert_one h op.post w).0 (revert_one h op.post w).1)
      ∙ revert_one-Back op.post w t b

  -- Reverting the live operations newest first takes the view back.
  rollback_each-restores :
      (dep : ℕ) (origin : law.View) {ops : List (Op h)} {s : law.View}
      → Leads h law dep origin ops s
      → (w : World h) → law.view w.host ≡ s
      → law.view (rollback_each h faults (keep_if (to_revert h dep) ops) w).1.host ≡ origin
  unfolding rollback_each keep_if
  rollback_each-restores dep origin start w e = e
  rollback_each-restores dep origin (skip op not rest) w e =
      rw not (rollback_each-restores dep origin rest w e)
  rollback_each-restores dep origin (back op {ops = ops} s t live b rest) w e =
      let moved = rollback_op-Back op w t (rw e b) in
      rw live (rollback_each-restores dep origin rest (rollback_op h faults op w).1 moved)

  rollback_ops-restores :
      (dep : ℕ) (origin : law.View) (w : World h)
      → faults DbCall.find_ops ≡ none
      → Safe dep origin w
      → law.view (rollback_ops h faults dep w).1.host ≡ origin
  unfolding rollback_ops
  rollback_ops-restores dep origin w found safe =
      rw (found, rollback_ops) (rollback_each-restores dep origin safe w refl)

  mark-host :
      (dep : ℕ) (st : DeployStatus) (e : Option Text) (w : World h)
      → ((mark_deployment h faults dep st e w).1.host ≡ w.host)
        × ((mark_deployment h faults dep st e w).0 ≡ faults DbCall.save_deployment)
  unfolding mark_deployment
  mark-host dep st e w = ground arith

  fail-host :
      (dep : ℕ) (e : Option Text) (w : World h) → (fail_deployment h faults dep e w).1.host ≡ w.host
  unfolding fail_deployment
  fail-host dep e w = (mark-host dep DeployStatus.failed e w).0

  -- The outcome of `drive`: the error is absent, or the host is what it was.
  abbrev Undone : law.View → Reply × World h → Type 0
  Undone origin (reply, w) = (reply.1 ≡ none) ⊎ (law.view w.host ≡ origin)

  drive-Undone :
      (ans : Answers) (dep : ℕ) (plan : DeployPlan) (origin : law.View) (w : World h)
      → faults DbCall.find_ops ≡ none
      → faults DbCall.save_deployment ≡ none
      → Safe dep origin w
      → Undone origin (drive h faults ans dep plan w)
  unfolding drive
  drive-Undone ans dep plan origin w found marked safe =
      let (r, w1) = execute h faults ans.provisioned dep plan w in
      let home =
        rollback_ops-restores dep origin w1 found
          (execute-Safe ans.provisioned dep plan origin w safe) in
      elim (Result-cases r) [
        | inr (x, e) ↦ rw (e, drive) (inr (ap law.view (fail-host dep _ _) ∙ home))
        | inl (u, e) ↦ elim (Option-cases ans.activated) [
          | inr (x, f) ↦ rw (e, f, drive) (inr (ap law.view (fail-host dep _ _) ∙ home))
          | inl f ↦
              rw (e, f, drive) (inl ((mark-host dep DeployStatus.succeeded none w1).1 ∙ marked))
        ]
      ]

  fresh-Leads :
      (dep : ℕ) (s : law.View) (ops : List (Op h))
      → All (λ op. op.deployment_id < dep) ops
      → Leads h law dep s ops s
  fresh-Leads dep s [] f = start
  fresh-Leads dep s (op ∷ ops) f = skip op (ground arith) (fresh-Leads dep s ops f.1)

  apply-Undone :
      (ans : Answers) (w : World h)
      → IsFresh h w
      → faults DbCall.find_ops ≡ none
      → faults DbCall.save_deployment ≡ none
      → Undone (law.view w.host) (apply h faults ans w)
  unfolding apply
  apply-Undone ans w fresh found marked = elim (Bool-cases ans.has_runtime) [
    | inr a ↦ rw (a, apply) (inr refl)
    | inl a ↦ elim (Result-cases ans.expanded) [
      | inr (x, b) ↦ rw (a, b, apply) (inr refl)
      | inl (plan, b) ↦ elim (Bool-cases ans.is_root) [
        | inr c ↦ rw (a, b, c, apply) (inr refl)
        | inl c ↦ elim (Option-cases (faults DbCall.create_deployment)) [
          | inr (x, d) ↦ rw (a, b, c, d, apply) (inr refl)
          | inl d ↦
              rw (a, b, c, d, apply)
                (drive-Undone _ w.next_id _ (law.view w.host) _ found marked
                  (fresh-Leads w.next_id (law.view w.host) w.ops fresh))
        ]
      ]
    ]
  ]

  -- When `Apply` reports an error, at whichever stage, what is looked at is as it was before: every
  -- inbound has been taken back. That holds for a part of the host that tuning leaves alone and that a
  -- deletion restores, and with a log of earlier deployments only. The log could be read for the
  -- rollback, and the deployment's own status could be written.
  pub apply_restores :
      (ans : Answers) (w : World h) (e : Text)
      → IsFresh h w
      → faults DbCall.find_ops ≡ none
      → faults DbCall.save_deployment ≡ none
      → (apply h faults ans w).0.1 ≡ some e
      → law.view (apply h faults ans w).1.host ≡ law.view w.host
  apply_restores ans w e fresh found marked is = elim (apply-Undone ans w fresh found marked) [
    | inl clean ↦ absurd (cc (clean, is))
    | inr home ↦ home
  ]
