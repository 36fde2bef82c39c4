-- ===== src/Proxy/Runtime/Rollback.antt =====
-- A transition that fails puts every engine back, and one that succeeds leaves the engines as
-- they were asked for.
use zenith_panel.Common.{
  ℕ, zero, ◌≡◌, refl, ◌∙◌, sym, List, [], ◌∷◌, Option, none, some, Bool, true, false, not, ◌&&◌,
  ◌||◌, Text, codes, text_eq, eq_self, join_errors, All, map, arith, Option-cases, inl, inr,
}
use zenith_panel.Proxy.Runtime.{
  Engine, same, Target, Outcome, fits, preflight, Step, note, unless, on_engine, stop, start,
  release, restore, go_on, until_error, collect, for_each, is_none, go_back, after_start,
  after_stop, after_preflight, transition_runtime, hash_input,
}
use zenith_panel.Proxy.Runtime.Stages.{
  Reliable, views, ask, pasts, IsReady, Carried, rest, stop-KeepsReady, start-KeepsReady,
  release-KeepsReady, restore-KeepsReady, until_error-Carried, for_each-Carried, IsFine,
  preflight-IsFine,
}

join_none : (a b : Option Text) → join_errors a b ≡ none → (a ≡ none) × (b ≡ none)
join_none none b is = (refl, is)
join_none (some x) none is = absurd (ground (arith, is))
join_none (some x) (some y) is = absurd (ground (arith, is))

is_none_cases : (e : Option Text) → is_none e ≡ true → e ≡ none
is_none_cases none is = refl
is_none_cases (some x) is = absurd (ground (arith, is))

and_right : (a b : Bool) → (a && b) ≡ true → b ≡ true
and_right true b is = is
and_right false b is = absurd (ground (arith, is))

same_self : (b : Bool) → same b b ≡ true
same_self true = refl
same_self false = refl

module _ (E : Engine) (rel : Reliable E) where
  open rel use {view}

  note-none : (what : Text) (t : Target E) (e : Option Text) → note E what t e ≡ none → e ≡ none
  note-none what t none is = refl
  note-none what t (some x) is = absurd (ground (arith, is))

  -- One engine put back.
  put_back :
      (t : Target E) (skip : Bool)
      → IsReady E rel t
      → t.unchanged ≡ skip
      → (unless E skip t (on_engine E (codes "rollback ") t (E.restore t.previous t.state))).0
        ≡ none
      → view
          (unless E skip t
            (on_engine E (codes "rollback ") t (E.restore t.previous t.state))).1.state
        ≡ t.previous
  unfolding unless on_engine
  put_back t true r u is = r.idle u
  put_back t false r u is =
      rel.restores r.taken.0 t.state t.previous r.taken.1 (note-none (codes "rollback ") t _ is)

  restore-back :
      (t : Target E)
      → IsReady E rel t
      → (restore E t).0 ≡ none
      → view (restore E t).1.state ≡ t.previous
  unfolding restore
  restore-back t r is = put_back t t.unchanged r refl is

  for_each-restore :
      (ts : List (Target E))
      → All (IsReady E rel) ts
      → (for_each E (restore E) ts).0 ≡ none
      → views E rel (for_each E (restore E) ts).1 ≡ pasts E rel ts
  unfolding for_each collect
  for_each-restore [] r is = refl
  for_each-restore (t ∷ ts) (r, rs) is =
      let both = join_none (restore E t).0 (for_each E (restore E) ts).0 is in
      cc (restore-back t r both.0, for_each-restore ts rs both.1)

  -- What holds of a transition's result, from the targets behind the preflight.
  record Ends (ts : List (Target E)) (o : Outcome E) : Type 0 where
    back : o.rolled_back ≡ true → views E rel o.targets ≡ pasts E rel ts
    served : o.error ≡ none → All (λ t. fits E t (view t.state) ≡ true) o.targets
    asked : map (ask E rel) o.targets ≡ map (ask E rel) ts

  go_back-Ends :
      (revision x : Text) (ts : List (Target E))
      → All (IsReady E rel) ts
      → Ends ts (go_back E revision x ts)
  unfolding go_back
  go_back-Ends revision x ts r =
      let released = for_each-Carried E rel (release E) (release-KeepsReady E rel) ts r in
      let freed = (for_each E (release E) ts).1 in
      let restored =
        for_each-Carried E rel (restore E) (restore-KeepsReady E rel) freed released.ready in
      record {
        back = λ is.
            let both =
              join_none (for_each E (release E) ts).0 (for_each E (restore E) freed).0
                (is_none_cases _ is) in
            for_each-restore freed released.ready both.1 ∙ released.past;
        served = λ is. absurd (ground (arith, (join_none (some x) _ is).0));
        asked = restored.asked ∙ released.asked;
      }

  -- A target that changes is stopped; one that stays is not looked at.
  IsStopped : Target E → Type 0
  IsStopped t = t.unchanged ≡ false → (view t.state).running ≡ false

  go_on-All :
      (P : Target E → Type 0) (r : Option Text × Target E) (others : Option Text × List (Target E))
      (ts : List (Target E))
      → (r.0 ≡ none → P r.1)
      → (others.0 ≡ none → All P others.1)
      → (go_on E r ts others).0 ≡ none
      → All P (go_on E r ts others).1
  unfolding go_on
  go_on-All P (some x, u) others ts p ps is = absurd (ground (arith, is))
  go_on-All P (none, u) (e, us) ts p ps is = (p refl, ps is)

  until_error-All :
      (P Q : Target E → Type 0) (f : Step E)
      → ((t : Target E) → Q t → (f t).0 ≡ none → P (f t).1)
      → (ts : List (Target E)) → All Q ts
      → (until_error E f ts).0 ≡ none
      → All P (until_error E f ts).1
  unfolding until_error go_on
  until_error-All P Q f each [] q = λ is. tt
  until_error-All P Q f each (t ∷ ts) (q, qs) =
      go_on-All P (f t) (until_error E f ts) ts (each t q) (until_error-All P Q f each ts qs)

  halted :
      (t : Target E) (skip : Bool)
      → t.unchanged ≡ skip
      → (unless E skip t (on_engine E (codes "stop ") t (E.stop t.state))).0 ≡ none
      → IsStopped (unless E skip t (on_engine E (codes "stop ") t (E.stop t.state))).1
  unfolding unless on_engine IsStopped
  halted t true u is = λ v. absurd (cc (u, v))
  halted t false u is = λ v. rel.stops t.state (note-none (codes "stop ") t _ is)

  stop-IsStopped : (t : Target E) → IsReady E rel t → (stop E t).0 ≡ none → IsStopped (stop E t).1
  unfolding stop
  stop-IsStopped t r is = halted t t.unchanged refl is

  both :
      (P Q : Target E → Type 0) (ts : List (Target E))
      → All P ts
      → All Q ts
      → All (λ t. P t × Q t) ts
  both P Q [] p q = tt
  both P Q (t ∷ ts) (p, ps) (q, qs) = ((p, q), both P Q ts ps qs)

  -- The engine of a target is as the target asks for.
  abbrev pub Serves : Target E → Type 0
  Serves t = fits E t (view t.state) ≡ true

  stays_fits : (t : Target E) → IsReady E rel t → t.unchanged ≡ true → Serves t
  stays_fits t r u = rw (r.idle u) (and_right (not t.force) _ (sym r.agreed ∙ u))

  launched :
      (t : Target E) (wanted stays : Bool)
      → IsReady E rel t
      → IsStopped t
      → t.wanted ≡ wanted
      → t.unchanged ≡ stays
      → (unless E
          (not wanted || stays)
          t
          (on_engine E (codes "start ") t (E.start t.candidate t.dual t.state))).0
        ≡ none
      → Serves
          (unless E
            (not wanted || stays)
            t
            (on_engine E (codes "start ") t (E.start t.candidate t.dual t.state))).1
  unfolding unless on_engine IsStopped
  launched t false true r s w u is = stays_fits t r u
  launched t true true r s w u is = stays_fits t r u
  launched t false false r s w u is = ground (arith, s u, w)
  launched t true false r s w u is =
      rw (rel.starts t.candidate t.dual t.state (note-none (codes "start ") t _ is))
        (ground (arith, w, eq_self t.candidate, same_self t.dual))

  start-Serves :
      (t : Target E) → IsReady E rel t × IsStopped t → (start E t).0 ≡ none → Serves (start E t).1
  unfolding start
  start-Serves t (r, s) is = launched t t.wanted t.unchanged r s refl refl is

  Ends-well :
      (revision : Text) (ts us : List (Target E))
      → Carried E rel ts us
      → All Serves us
      → Ends ts (record { revision = revision; rolled_back = false; error = none; targets = us })
  Ends-well revision ts us c s = record {
    back = λ is. absurd (cc);
    served = λ is. s;
    asked = c.asked;
  }

  from_carried :
      (ts us : List (Target E)) (o : Outcome E) → Carried E rel ts us → Ends us o → Ends ts o
  from_carried ts us o c e = record {
    back = λ is. e.back is ∙ c.past;
    served = e.served;
    asked = e.asked ∙ c.asked;
  }

  module _ (digest : Text → Text) (verify : List (Target E) → Option Text) where
    after_start-Ends :
        (revision : Text) (r : Option Text × List (Target E))
        → All (IsReady E rel) r.1
        → (r.0 ≡ none → All Serves r.1)
        → Ends r.1 (after_start E digest verify revision r)
    unfolding after_start
    after_start-Ends revision (some x, ts) ready served = go_back-Ends revision x ts ready
    after_start-Ends revision (none, ts) ready served = elim (Option-cases (verify ts)) [
      | inl e ↦ rw (e, after_start) (Ends-well revision ts ts (rest E rel ts ready) (served refl))
      | inr (x, e) ↦ rw (e, after_start) (go_back-Ends revision x ts ready)
    ]

    after_stop-Ends :
        (revision : Text) (r : Option Text × List (Target E))
        → All (IsReady E rel) r.1
        → (r.0 ≡ none → All IsStopped r.1)
        → Ends r.1 (after_stop E digest verify revision r)
    unfolding after_stop
    after_stop-Ends revision (some x, ts) ready stopped = go_back-Ends revision x ts ready
    after_stop-Ends revision (none, ts) ready stopped =
        let c = until_error-Carried E rel (start E) (start-KeepsReady E rel) ts ready in
        from_carried ts _ _ c (
          after_start-Ends revision (until_error E (start E) ts) c.ready
            (until_error-All _ _ (start E) start-Serves ts (both _ _ ts ready (stopped refl))))

    switched :
        (revision : Text) (ts : List (Target E))
        → All (IsReady E rel) ts
        → Ends ts (after_stop E digest verify revision (until_error E (stop E) ts))
    switched revision ts ready =
        let c = until_error-Carried E rel (stop E) (stop-KeepsReady E rel) ts ready in
        from_carried ts _ _ c (
          after_stop-Ends revision (until_error E (stop E) ts) c.ready
            (until_error-All _ _ (stop E) stop-IsStopped ts ready))

    -- The whole transition, from the targets that the caller gave.
    pub record Transits (ts : List (Target E)) (r : Option Text × List (Target E)) (o : Outcome E)
        : Type 0 where
      pub untouched : (x : Text) → r.0 ≡ some x → views E rel o.targets ≡ views E rel ts
      pub back : o.rolled_back ≡ true → views E rel o.targets ≡ views E rel ts
      pub served : o.error ≡ none → All Serves o.targets
      pub asked : map (ask E rel) o.targets ≡ map (ask E rel) ts

    after_preflight-Transits :
        (ts : List (Target E)) (r : Option Text × List (Target E))
        → IsFine E rel ts r
        → Transits ts r (after_preflight E digest verify r)
    unfolding after_preflight
    after_preflight-Transits ts (some x, us) f = record {
      untouched = λ y is. f.seen;
      back = λ is. absurd (cc);
      served = λ is. absurd (cc);
      asked = f.asked;
    }
    after_preflight-Transits ts (none, us) (m, ready, p) =
        let e = switched (digest (hash_input E us)) us ready in
        record {
          untouched = λ y is. absurd (cc);
          back = λ is. e.back is ∙ p;
          served = e.served;
          asked = e.asked ∙ m.asked;
        }

    transition-Transits :
        (gone : ℕ → Option Text) (ts : List (Target E))
        → Transits ts (preflight E gone zero ts) (transition_runtime E digest verify gone ts)
    unfolding transition_runtime
    transition-Transits gone ts =
        after_preflight-Transits ts (preflight E gone zero ts) (preflight-IsFine E rel gone zero ts)

    -- Where the engines are `Reliable`, a transition that reports a rollback leaves every engine, the ones it did not switch included,
    -- with the configuration, the mode and the running state that it had before.
    pub transition-rollback :
        (gone : ℕ → Option Text) (ts : List (Target E))
        → (transition_runtime E digest verify gone ts).rolled_back ≡ true
        → views E rel (transition_runtime E digest verify gone ts).targets ≡ views E rel ts
    transition-rollback gone ts is = (transition-Transits gone ts).back is

    -- Where the engines are `Reliable`, a transition whose preflight fails (a snapshot, a candidate, or a caller that has gone away)
    -- leaves every engine with the configuration, the mode and the running state that it had.
    pub transition-untouched :
        (gone : ℕ → Option Text) (ts : List (Target E)) (x : Text)
        → (preflight E gone zero ts).0 ≡ some x
        → views E rel (transition_runtime E digest verify gone ts).targets ≡ views E rel ts
    transition-untouched gone ts x is = (transition-Transits gone ts).untouched x is

    -- Where the engines are `Reliable`, after a transition without an error every wanted engine runs its candidate in the mode asked
    -- for and every other engine is stopped; the targets ask for what the caller asked for.
    pub transition-Serves :
        (gone : ℕ → Option Text) (ts : List (Target E))
        → (transition_runtime E digest verify gone ts).error ≡ none
        → All Serves (transition_runtime E digest verify gone ts).targets
          × (map (ask E rel) (transition_runtime E digest verify gone ts).targets
              ≡ map (ask E rel) ts)
    transition-Serves gone ts is =
        ((transition-Transits gone ts).served is, (transition-Transits gone ts).asked)
