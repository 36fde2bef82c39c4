-- ===== src/Proxy/Runtime/Adapter/Reliability.antt =====
-- The adapter keeps the promises that the transition relies on, whatever the system answers.
use zenith_panel.Common.{
  ℕ, ◌≡◌, refl, ◌∙◌, [], Option, none, some, Bool, true, false, Text, ok, arith, Bool-cases, inl,
  inr, is_some, sym, ap, check, bind_eq_ok, ok_inj,
}
use zenith_panel.Proxy.Runtime.{EngineSnapshot}
use zenith_panel.Proxy.Runtime.Stages.{Reliable}
use zenith_panel.Proxy.Runtime.Adapter.{
  Core, OsCall, Os, attempt, start_if, put_file, seen, snapshot, prepare, stop, write_config,
  launch_core, launch_after, start, remove_config, put, restore, adapter,
}

abbrev content : Option Text → Text
content none = []
content (some b) = b

-- What is seen of a core.
abbrev pub view : Core → EngineSnapshot
view c = record {
  config = content c.file;
  exists = is_some c.file;
  running = c.is_up;
  dual = c.is_dual;
}

attempt-works :
    (e : Option Text) (old new : Core)
    → (attempt e old new).0 ≡ none
    → view (attempt e old new).1 ≡ view new
unfolding attempt
attempt-works none old new is = refl
attempt-works (some x) old new is = absurd (ground (arith, is))

module _ (os : Os) where
  snapshot_keeps : (c : Core) → view (snapshot os c).1 ≡ view c
  unfolding snapshot
  snapshot_keeps c = refl

  seen_reads :
      (file : Option Text) (up dual : Bool) (n : ℕ) (p : EngineSnapshot)
      → seen os (record { file = file; is_up = up; is_dual = dual; clock = n }) ≡ ok p
      → p ≡ view (record { file = file; is_up = up; is_dual = dual; clock = n })
  unfolding seen
  seen_reads (some b) up dual n p is = ok_inj (sym is)
  seen_reads none true dual n p is = absurd (ground (arith, is))
  seen_reads none false dual n p is = ok_inj (sym is)

  snapshot_reads : (c : Core) (p : EngineSnapshot) → (snapshot os c).0 ≡ ok p → p ≡ view c
  unfolding snapshot
  snapshot_reads c p is =
      seen_reads c.file c.is_up c.is_dual c.clock p
        (bind_eq_ok (check (os.fails OsCall.read_file c.clock)) (λ _. seen os c) is).2

  prepare_keeps : (dual : Bool) (c : Core) → view (prepare os dual c).1 ≡ view c
  unfolding prepare
  prepare_keeps dual c = refl

  stop-down : (c : Core) → (stop os c).0 ≡ none → (view (stop os c).1).running ≡ false
  unfolding stop attempt
  stop-down c is = elim (Bool-cases c.is_up) [
    | inl u ↦ ground (arith, is, u)
    | inr u ↦ ground (arith, is, u)
  ]

  write_config-view :
      (s : Text) (c : Core)
      → (write_config os s c).0 ≡ none
      → view (write_config os s c).1 ≡ view (record c { file = some s })
  unfolding write_config
  write_config-view s c is =
      attempt-works (os.fails OsCall.write_file c.clock) c (record c { file = some s }) is

  launch_after-view :
      (s : Text) (dual : Bool) (r : Option Text × Core)
      → (launch_after os dual r).0 ≡ none
      → (r.0 ≡ none → r.1.file ≡ some s)
      → view (launch_after os dual r).1
        ≡ record { config = s; exists = true; running = true; dual = dual }
  unfolding launch_after launch_core
  launch_after-view s dual (some e, c) is written = absurd (ground (arith, is))
  launch_after-view s dual (none, c) is written =
      attempt-works (os.fails OsCall.launch c.clock) (record c { is_dual = dual })
        (record c { is_dual = dual; is_up = true }) is
      ∙ ap (λ f. view (record c { file = f; is_dual = dual; is_up = true })) (written refl)

  write_config-file :
      (s : Text) (c : Core) → (write_config os s c).0 ≡ none → (write_config os s c).1.file ≡ some s
  unfolding write_config attempt
  write_config-file s c is = ground (arith, is)

  start_if-view :
      (up : Bool) (s : Text) (dual : Bool) (c : Core)
      → (start_if os up s dual c).0 ≡ none
      → view (start_if os up s dual c).1
        ≡ record { config = s; exists = true; running = true; dual = dual }
  unfolding start_if
  start_if-view true s dual c is = absurd (ground (arith, is))
  start_if-view false s dual c is =
      launch_after-view s dual (write_config os s c) is (write_config-file s c)

  start-view :
      (s : Text) (dual : Bool) (c : Core)
      → (start os s dual c).0 ≡ none
      → view (start os s dual c).1
        ≡ record { config = s; exists = true; running = true; dual = dual }
  unfolding start
  start-view s dual c is = start_if-view c.is_up s dual c is

  remove_config-view :
      (c : Core)
      → (remove_config os c).0 ≡ none
      → view (remove_config os c).1 ≡ view (record c { file = none })
  unfolding remove_config
  remove_config-view c is =
      attempt-works (os.fails OsCall.remove_file c.clock) c (record c { file = none }) is

  -- What a snapshot can report: nothing runs without a file.
  abbrev IsReal : EngineSnapshot → Type 0
  IsReal p = p.exists ≡ false → (p.config ≡ []) × (p.running ≡ false)

  seen-IsReal :
      (file : Option Text) (up dual : Bool) (n : ℕ) (p : EngineSnapshot)
      → seen os (record { file = file; is_up = up; is_dual = dual; clock = n }) ≡ ok p
      → IsReal p
  unfolding seen
  seen-IsReal (some b) up dual n p is = λ e. absurd (cc (e, is))
  seen-IsReal none true dual n p is = absurd (ground (arith, is))
  seen-IsReal none false dual n p is = λ e. (cc (is), cc (is))

  put_file-view :
      (exists running dual : Bool) (config : Text) (c : Core)
      → c.is_up ≡ false
      → IsReal (record { config = config; exists = exists; running = running; dual = dual })
      → (put_file os exists running
          (record { config = config; exists = exists; running = running; dual = dual })
          (record c { is_dual = dual })).0
        ≡ none
      → view
          (put_file os exists running
            (record { config = config; exists = exists; running = running; dual = dual })
            (record c { is_dual = dual })).1
        ≡ record { config = config; exists = exists; running = running; dual = dual }
  unfolding put_file
  put_file-view false running dual config c down real is =
      remove_config-view (record c { is_dual = dual }) is ∙ cc (down, (real refl).0, (real refl).1)
  put_file-view true true dual config c down real is =
      start-view config dual (record c { is_dual = dual }) is
  put_file-view true false dual config c down real is =
      write_config-view config (record c { is_dual = dual }) is ∙ cc (down)

  put-view :
      (p : EngineSnapshot) (r : Option Text × Core)
      → IsReal p
      → (r.0 ≡ none → (view r.1).running ≡ false)
      → (put os p r).0 ≡ none
      → view (put os p r).1 ≡ p
  unfolding put
  put-view p (some e, c) real down is = absurd (ground (arith, is))
  put-view p (none, c) real down is =
      put_file-view p.exists p.running p.dual p.config c (down refl) real is

  restore-view :
      (s t : Core) (p : EngineSnapshot)
      → (snapshot os s).0 ≡ ok p
      → (restore os p t).0 ≡ none
      → view (restore os p t).1 ≡ p
  unfolding restore snapshot
  restore-view s t p taken is =
      put-view p (stop os t)
        (seen-IsReal s.file s.is_up s.is_dual s.clock p
          (bind_eq_ok (check (os.fails OsCall.read_file s.clock)) (λ _. seen os s) taken).2)
        (stop-down t) is

  pub adapter-Reliable : Reliable (adapter os)
  adapter-Reliable = record {
    view = view;
    snapshot_keeps = snapshot_keeps;
    snapshot_reads = snapshot_reads;
    prepare_keeps = prepare_keeps;
    stops = stop-down;
    starts = λ s dual c is. start-view s dual c is;
    restores = restore-view;
  }
