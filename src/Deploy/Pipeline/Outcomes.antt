-- ===== src/Deploy/Pipeline/Outcomes.antt =====
-- Rolling back a second time does nothing.
use zenith_panel.Common.{
  ℕ, ◌≡◌, refl, ◌∙◌, List, [], ◌∷◌, Option, none, some, true, Text, nat_eq, Result, keep_if, arith,
  inl, inr, Bool-cases, eq_self, Option-cases,
}
use zenith_panel.Common.Assoc.{lookup, lookup-assign}
use zenith_panel.Deploy.Orchestrator.{
  Host, Faults, Deployment, DeployStatus, DbCall, Post, empty, cert, tuned, inbound, Op, World,
}
use zenith_panel.Deploy.Pipeline.{
  Answers, Reply, revert_one, to_revert, save_outcome, rollback_op, rollback_each, rollback_ops,
  mark_deployment, fail_deployment, is_rolled_back, conclude, rollback,
}

module _ (h : Host) (faults : Faults) where
  revert_one-deployments :
      (post : Post h) (w : World h) → (revert_one h post w).1.deployments ≡ w.deployments
  unfolding revert_one
  revert_one-deployments empty w = refl
  revert_one-deployments (cert res) w = refl
  revert_one-deployments (tuned snap) w = refl
  revert_one-deployments (inbound id) w = ground arith

  save_outcome-deployments :
      (op : Op h) (r : Result (Unit {0})) (w : World h)
      → (save_outcome h faults op r w).1.deployments ≡ w.deployments
  unfolding save_outcome
  save_outcome-deployments op r w = ground arith

  rollback_op-deployments :
      (op : Op h) (w : World h) → (rollback_op h faults op w).1.deployments ≡ w.deployments
  unfolding rollback_op
  rollback_op-deployments op w =
      save_outcome-deployments op (revert_one h op.post w).0 (revert_one h op.post w).1
      ∙ revert_one-deployments op.post w

  rollback_each-deployments :
      (ops : List (Op h)) (w : World h)
      → (rollback_each h faults ops w).1.deployments ≡ w.deployments
  unfolding rollback_each
  rollback_each-deployments [] w = refl
  rollback_each-deployments (op ∷ ops) w =
      rollback_each-deployments ops (rollback_op h faults op w).1 ∙ rollback_op-deployments op w

  rollback_ops-deployments :
      (dep : ℕ) (w : World h) → (rollback_ops h faults dep w).1.deployments ≡ w.deployments
  unfolding rollback_ops
  rollback_ops-deployments dep w =
      ground (arith, rollback_each-deployments (keep_if (to_revert h dep) w.ops) w)

  -- The deployment's row says that it is rolled back.
  abbrev IsBack : ℕ → World h → Type 0
  IsBack dep w =
      (d : Deployment) × (lookup dep w.deployments ≡ some d) × (d.status ≡ DeployStatus.rolled_back)

  mark-IsBack :
      (dep : ℕ) (d : Deployment) (w : World h)
      → lookup dep w.deployments ≡ some d
      → (mark_deployment h faults dep DeployStatus.rolled_back none w).0 ≡ none
      → IsBack dep (mark_deployment h faults dep DeployStatus.rolled_back none w).1
  unfolding mark_deployment
  mark-IsBack dep d w row is = elim (Option-cases (faults DbCall.save_deployment)) [
    | inr (x, e) ↦ absurd (ground (arith, e, is))
    | inl e ↦
        rw (e, row, mark_deployment)
          (
            record d { status = DeployStatus.rolled_back; error = [] },
            ground (
              arith,
              eq_self dep,
              lookup-assign dep dep (record d { status = DeployStatus.rolled_back; error = [] })
                  w.deployments,
            ),
            refl,
          )
  ]

  abbrev IsSettled : ℕ → Reply × World h → Type 0
  IsSettled dep (reply, w) = reply ≡ (some dep, none)

  conclude-IsBack :
      (dep : ℕ) (d : Deployment) (e : Option Text) (w : World h)
      → lookup dep w.deployments ≡ some d
      → IsSettled dep (conclude h faults dep e w)
      → IsBack dep (conclude h faults dep e w).1
  unfolding conclude fail_deployment
  conclude-IsBack dep d none w row is = mark-IsBack dep d w row (ground (arith, is))
  conclude-IsBack dep d (some x) w row is =
      elim (Option-cases (mark_deployment h faults dep DeployStatus.failed (some x) w).0) [
        | inl e ↦ absurd (ground (arith, is, e))
        | inr (y, e) ↦ absurd (ground (arith, is, e))
      ]

  rolled_back_cases : (s : DeployStatus) → is_rolled_back s ≡ true → s ≡ DeployStatus.rolled_back
  unfolding is_rolled_back
  rolled_back_cases DeployStatus.rolled_back is = refl
  rolled_back_cases DeployStatus.running is = absurd (ground (arith, is))
  rolled_back_cases DeployStatus.succeeded is = absurd (ground (arith, is))
  rolled_back_cases DeployStatus.failed is = absurd (ground (arith, is))

  rollback-IsBack :
      (ans : Answers) (dep : ℕ) (w : World h)
      → IsSettled dep (rollback h faults ans dep w)
      → IsBack dep (rollback h faults ans dep w).1
  unfolding rollback
  rollback-IsBack ans dep w = elim (Bool-cases ans.has_runtime) [
    | inr a ↦ rw (a, rollback) (λ e. absurd (ground (arith, e)))
    | inl a ↦ elim (Option-cases (faults DbCall.find_deployment)) [
      | inr (x, b) ↦ rw (a, b, rollback) (λ e. absurd (ground (arith, e)))
      | inl b ↦ elim (Option-cases (lookup dep w.deployments)) [
        | inr (d, c) ↦ elim (Bool-cases (is_rolled_back d.status)) [
          | inl s ↦ rw (a, b, c, s, rollback) (λ e. (d, c, rolled_back_cases d.status s))
          | inr s ↦
              rw (a, b, c, s, rollback)
                (conclude-IsBack dep d _ (rollback_ops h faults dep w).1
                  (rw (rollback_ops-deployments dep w) c))
        ]
        | inl c ↦ rw (a, b, c, rollback) (λ e. absurd (ground (arith, e)))
      ]
    ]
  ]

  -- The same call once more, where the row says that it is rolled back.
  rollback-again :
      (ans : Answers) (dep : ℕ) (w : World h)
      → IsBack dep w
      → ans.has_runtime ≡ true
      → faults DbCall.find_deployment ≡ none
      → rollback h faults ans dep w ≡ ((some dep, none), w)
  unfolding rollback is_rolled_back
  rollback-again ans dep w (d, row, s) a b = rw (a, b, row, rollback, s, is_rolled_back) refl

-- Once `Rollback` has returned a deployment without an error, a second `Rollback` of it, whatever
-- the database loses on the way, returns the same and changes nothing, as long as the second call
-- finds the coordinator and can read the row.
pub rollback_once :
    (h : Host) (faults later : Faults) (ans ans' : Answers) (dep : ℕ) (w : World h)
    → (rollback h faults ans dep w).0 ≡ (some dep, none)
    → ans'.has_runtime ≡ true
    → later DbCall.find_deployment ≡ none
    → rollback h later ans' dep (rollback h faults ans dep w).1
      ≡ ((some dep, none), (rollback h faults ans dep w).1)
rollback_once h faults later ans ans' dep w settled present readable =
    rollback-again h later ans' dep (rollback h faults ans dep w).1
      (rollback-IsBack h faults ans dep w settled) present readable
