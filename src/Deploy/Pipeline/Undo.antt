-- ===== src/Deploy/Pipeline/Undo.antt =====
-- The laws of a part of the host that its deployers restore, and what each step of the pipeline keeps: the
-- applied operations of the log, newest first, lead back to the view as it was.
use zenith_panel.Common.{
  ℕ, ◌≡◌, ◌≢◌, refl, List, [], ◌∷◌, ◌++◌, Option, none, some, true, false, Text, codes, text_eq,
  nat_eq, Result, ok, err, arith, eq_self,
}
use zenith_panel.Deploy.Plan.{CertResult, TuneSpec, InboundSpec}
use zenith_panel.Deploy.Orchestrator.{
  Host, Faults, OpStatus, DbCall, Post, empty, cert, tuned, inbound, Op, World, Exec, run_cert,
  run_tune, run_inbound, save_row, fail_op, pending_row, applied_row, take_tune, take_inbound,
  take_cert, record_tune, record_cert, record_inbound, opened,
}
use zenith_panel.Deploy.Pipeline.{to_revert}

-- What the deployers promise of the part of the host that is looked at: tuning leaves it alone, a
-- creation that fails does too, and a deletion takes a creation back. Inbound ids are not zero.
pub record Undoes (h : Host) : Type 1 where
  pub View : Type 0
  pub view : h.State → View
  pub tune_view : (ts : TuneSpec) (s : h.State) → view (h.tune ts s).1 ≡ view s
  pub untune_view : (snap : h.Snap) (s : h.State) → view (h.untune snap s).1 ≡ view s
  pub create_undo :
      (spec : InboundSpec) (id : ℕ) (s : h.State)
      → (h.create spec s).0 ≡ ok id
      → (id ≢ 0)
        × ((s' : h.State) → view s' ≡ view (h.create spec s).1 → view (h.delete id s').1 ≡ view s)
  pub create_err :
      (spec : InboundSpec) (e : Text) (s : h.State)
      → (h.create spec s).0 ≡ err e
      → view (h.create spec s).1 ≡ view s

module _ (h : Host) (law : Undoes h) where
  -- Reverting this operation takes the view from `s` to `t`.
  abbrev pub Back : Post h → law.View → law.View → Type 0
  Back empty s t = s ≡ t
  Back (cert res) s t = s ≡ t
  Back (tuned snap) s t = s ≡ t
  Back (inbound id) s t =
      (id ≢ 0) × ((x : h.State) → law.view x ≡ s → law.view (h.delete id x).1 ≡ t)

module _ (h : Host) (law : Undoes h) (dep : ℕ) (origin : law.View) where
  -- Reverting the live operations, newest first, takes the view from `s` to `origin`.
  pub data Leads : List (Op h) → law.View → Type 0 where
    start : Leads [] origin
    skip :
        (op : Op h) {ops : List (Op h)} {s : law.View}
        → to_revert h dep op ≡ false
        → Leads ops s
        → Leads (op ∷ ops) s
    back :
        (op : Op h) {ops : List (Op h)} (s t : law.View)
        → to_revert h dep op ≡ true
        → Back h law op.post s t
        → Leads ops t
        → Leads (op ∷ ops) s

module _ (h : Host) where
  pub save_head :
      (row row' : Op h) (ops : List (Op h))
      → row'.deployment_id ≡ row.deployment_id
      → row'.sequence ≡ row.sequence
      → save_row h row' (row ∷ ops) ≡ row' ∷ ops
  unfolding save_row
  save_head row row' ops d s = ground (arith, d, s)

module _ (h : Host) (law : Undoes h) where
  abbrev Safe : ℕ → law.View → World h → Type 0
  Safe dep origin w = Leads h law dep origin w.ops (law.view w.host)

  fail_op-Safe :
      (o : Option Text) (dep seq : ℕ) (name e : Text) (origin : law.View) (w : World h)
      (ops : List (Op h))
      → w.ops ≡ pending_row h dep seq name ∷ ops
      → Leads h law dep origin ops (law.view w.host)
      → Safe dep origin (fail_op h o (pending_row h dep seq name) e w)
  unfolding fail_op
  fail_op-Safe none dep seq name e origin w ops is safe =
      rw
        (
          is,
          save_head h (pending_row h dep seq name)
              (record {
                deployment_id = dep;
                sequence = seq;
                op_name = name;
                post = empty;
                status = OpStatus.failed;
                error = e;
              })
              ops refl refl,
        )
        (skip _ (ground arith) safe)
  fail_op-Safe (some x) dep seq name e origin w ops is safe = rw is (skip _ (ground arith) safe)

  pending-Safe :
      (dep seq : ℕ) (name : Text) (origin s : law.View) (ops : List (Op h))
      → Leads h law dep origin ops s
      → Leads h law dep origin (pending_row h dep seq name ∷ ops) s
  pending-Safe dep seq name origin s ops safe = skip _ (ground arith) safe

  applied-Safe :
      (dep seq : ℕ) (name : Text) (post : Post h) (origin s t : law.View) (ops : List (Op h))
      → Back h law post s t
      → Leads h law dep origin ops t
      → Leads h law dep origin
          (save_row h
            (applied_row h (pending_row h dep seq name) post)
            (pending_row h dep seq name ∷ ops))
          s
  applied-Safe dep seq name post origin s t ops b safe =
      rw
        (save_head h (pending_row h dep seq name) (applied_row h (pending_row h dep seq name) post)
          ops refl refl)
        (back _ s t (ground (arith, eq_self dep)) b safe)

  module _ (faults : Faults) where
    take_tune-Safe :
        (r : Result h.Snap) (o : Option Text) (dep seq : ℕ) (ts : TuneSpec) (origin : law.View)
        (w : World h)
        → (h.tune ts w.host).0 ≡ r
        → Safe dep origin w
        → (faults (DbCall.save_applied seq) ≡ o)
        → Safe dep origin
            (take_tune h faults r (pending_row h dep seq ts.op_name) (record w {
              ops = pending_row h dep seq ts.op_name ∷ w.ops;
              host = (h.tune ts w.host).1;
            })).1
    unfolding take_tune record_tune
    take_tune-Safe (err e) o dep seq ts origin w is safe f =
        fail_op-Safe (faults (DbCall.save_failed seq)) dep seq ts.op_name e origin _ w.ops refl
          (rw (law.tune_view ts w.host) safe)
    take_tune-Safe (ok snap) none dep seq ts origin w is safe f =
        rw (f, record_tune)
          (applied-Safe dep seq ts.op_name (tuned snap) origin _ (law.view w.host) w.ops
            (law.tune_view ts w.host) safe)
    take_tune-Safe (ok snap) (some x) dep seq ts origin w is safe f =
        rw (f, record_tune)
          (pending-Safe dep seq ts.op_name origin _ w.ops
            (rw (law.untune_view snap (h.tune ts w.host).1, law.tune_view ts w.host) safe))

    take_inbound-Safe :
        (r : Result ℕ) (o : Option Text) (dep seq : ℕ) (name : Text) (spec : InboundSpec)
        (origin : law.View) (w : World h)
        → (h.create spec w.host).0 ≡ r
        → Safe dep origin w
        → (faults (DbCall.save_applied seq) ≡ o)
        → Safe dep origin
            (take_inbound h faults r (pending_row h dep seq name) (record w {
              ops = pending_row h dep seq name ∷ w.ops;
              host = (h.create spec w.host).1;
            })).1
    unfolding take_inbound record_inbound
    take_inbound-Safe (err e) o dep seq name spec origin w is safe f =
        fail_op-Safe (faults (DbCall.save_failed seq)) dep seq name e origin _ w.ops refl
          (rw (law.create_err spec e w.host is) safe)
    take_inbound-Safe (ok id) none dep seq name spec origin w is safe f =
        rw (f, record_inbound)
          (applied-Safe dep seq name (inbound id) origin _ (law.view w.host) w.ops
            (law.create_undo spec id w.host is) safe)
    take_inbound-Safe (ok id) (some x) dep seq name spec origin w is safe f =
        rw (f, record_inbound)
          (pending-Safe dep seq name origin _ w.ops
            (rw ((law.create_undo spec id w.host is).1 (h.create spec w.host).1 refl) safe))

    take_cert-Safe :
        (r : Result CertResult) (o : Option Text) (dep seq : ℕ) (name : Text) (origin : law.View)
        (w : World h)
        → Safe dep origin w
        → (faults (DbCall.save_applied seq) ≡ o)
        → Safe dep origin
            (take_cert h faults r
              (pending_row h dep seq name)
              (record w { ops = pending_row h dep seq name ∷ w.ops })).1
    unfolding take_cert record_cert
    take_cert-Safe (err e) o dep seq name origin w safe f =
        fail_op-Safe (faults (DbCall.save_failed seq)) dep seq name e origin _ w.ops refl safe
    take_cert-Safe (ok res) none dep seq name origin w safe f =
        rw (f, record_cert)
          (applied-Safe dep seq name (cert res) origin (law.view w.host) (law.view w.host) w.ops
            refl safe)
    take_cert-Safe (ok res) (some x) dep seq name origin w safe f =
        rw (f, record_cert) (pending-Safe dep seq name origin (law.view w.host) w.ops safe)

    opened-Safe :
        {A : Type 0} (o : Option Text) (row : Op h) (body : Exec h A) (dep : ℕ) (origin : law.View)
        (w : World h)
        → Safe dep origin w
        → Safe dep origin (body (record w { ops = row ∷ w.ops })).1
        → Safe dep origin (opened h faults o row body w).1
    unfolding opened
    opened-Safe none row body dep origin w safe b = b
    opened-Safe (some e) row body dep origin w safe b = safe

    -- Each kind of operation keeps the log leading back to the view as it was.
    pub run_cert-Safe :
        (r : Result CertResult) (dep seq : ℕ) (origin : law.View) (w : World h)
        → Safe dep origin w
        → Safe dep origin (run_cert h faults r dep seq w).1
    unfolding run_cert
    run_cert-Safe r dep seq origin w safe =
        opened-Safe (faults (DbCall.create_op seq)) _
          (take_cert h faults r (pending_row h dep seq (codes "cert.provision"))) dep origin w safe
          (take_cert-Safe r _ dep seq _ origin w safe refl)

    pub run_tune-Safe :
        (dep seq : ℕ) (ts : TuneSpec) (origin : law.View) (w : World h)
        → Safe dep origin w
        → Safe dep origin (run_tune h faults dep seq ts w).1
    unfolding run_tune
    run_tune-Safe dep seq ts origin w safe =
        opened-Safe (faults (DbCall.create_op seq)) (pending_row h dep seq ts.op_name)
          (λ v.
            take_tune h faults (h.tune ts v.host).0 (pending_row h dep seq ts.op_name)
              (record v { host = (h.tune ts v.host).1 }))
          dep origin w safe
          (take_tune-Safe (h.tune ts w.host).0 _ dep seq ts origin w refl safe refl)

    pub run_inbound-Safe :
        (dep seq : ℕ) (spec : InboundSpec) (origin : law.View) (w : World h)
        → Safe dep origin w
        → Safe dep origin (run_inbound h faults dep seq spec w).1
    unfolding run_inbound
    run_inbound-Safe dep seq spec origin w safe =
        let row = pending_row h dep seq (codes "inbound." ++ spec.protocol) in
        opened-Safe (faults (DbCall.create_op seq)) row
          (λ v.
            take_inbound h faults (h.create spec v.host).0 row
              (record v { host = (h.create spec v.host).1 }))
          dep origin w safe
          (take_inbound-Safe (h.create spec w.host).0 _ dep seq _ spec origin w refl safe refl)
