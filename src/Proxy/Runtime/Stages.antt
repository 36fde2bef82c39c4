-- ===== src/Proxy/Runtime/Stages.antt =====
-- What the stages of a transition keep of the targets: the preflight moves no engine, and a target
-- behind it stays fit to be put back.
use zenith_panel.Common.{
  ℕ, suc, ◌≡◌, refl, ◌∙◌, sym, ap, subst, List, [], ◌∷◌, Option, none, some, Bool, true, false, not,
  ◌||◌, Text, codes, text_eq, Result, ok, err, All, map, arith,
}
use zenith_panel.Proxy.Runtime.{
  EngineSnapshot, Engine, Target, is_unchanged, settle, after_prepare, after_snapshot, preflight,
  Step, unless, on_engine, stop, start, release, restore, go_on, until_error, advance, collect,
  for_each, prepare_if,
}

-- What an engine's methods promise, seen through its configuration, its mode and whether it runs.
pub record Reliable (E : Engine) : Type 0 where
  pub view : E.State → EngineSnapshot
  pub snapshot_keeps : (s : E.State) → view (E.snapshot s).1 ≡ view s
  pub snapshot_reads : (s : E.State) (p : EngineSnapshot) → (E.snapshot s).0 ≡ ok p → p ≡ view s
  pub prepare_keeps : (dual : Bool) (s : E.State) → view (E.prepare dual s).1 ≡ view s
  pub stops : (s : E.State) → (E.stop s).0 ≡ none → (view (E.stop s).1).running ≡ false
  pub starts :
      (c : Text) (dual : Bool) (s : E.State)
      → (E.start c dual s).0 ≡ none
      → view (E.start c dual s).1
        ≡ record { config = c; exists = true; running = true; dual = dual }
  pub restores :
      (s t : E.State) (p : EngineSnapshot)
      → (E.snapshot s).0 ≡ ok p
      → (E.restore p t).0 ≡ none
      → view (E.restore p t).1 ≡ p

module _ (E : Engine) (rel : Reliable E) where
  open rel use {view}

  abbrev pub views : List (Target E) → List EngineSnapshot
  views ts = map (λ t. view t.state) ts

  -- What the caller asked for.
  abbrev pub ask : Target E → Text × Bool × Bool
  ask t = (t.name, t.wanted, t.dual)

  abbrev pub pasts : List (Target E) → List EngineSnapshot
  pasts ts = map (λ t. t.previous) ts

  -- A target behind the preflight: it can be put back, and it is where it was if it stays.
  pub record IsReady (t : Target E) : Type 0 where
    pub taken : (s : E.State) × ((E.snapshot s).0 ≡ ok t.previous)
    pub idle : t.unchanged ≡ true → view t.state ≡ t.previous
    pub agreed : t.unchanged ≡ is_unchanged E t

  -- What a step behind the preflight keeps of a target, and a loop of all.
  pub record Kept (t u : Target E) : Type 0 where
    pub ready : IsReady u
    pub past : u.previous ≡ t.previous
    pub asked : ask u ≡ ask t

  pub record Carried (ts us : List (Target E)) : Type 0 where
    pub ready : All IsReady us
    pub past : pasts us ≡ pasts ts
    pub asked : map ask us ≡ map ask ts

  next :
      (t u : Target E) (ts us : List (Target E))
      → Kept t u
      → Carried ts us
      → Carried (t ∷ ts) (u ∷ us)
  next t u ts us k c = record {
    ready = (k.ready, c.ready);
    past = cc (k.past, c.past);
    asked = cc (k.asked, c.asked);
  }

  pub rest : (ts : List (Target E)) → All IsReady ts → Carried ts ts
  rest ts r = record { ready = r; past = refl; asked = refl }

  abbrev pub KeepsReady : Step E → Type 0
  KeepsReady f = (t : Target E) → IsReady t → Kept t (f t).1

  stay : (t : Target E) → IsReady t → Kept t t
  stay t r = record { ready = r; past = refl; asked = refl }

  moved :
      (t : Target E) (s : E.State)
      → IsReady t
      → t.unchanged ≡ false
      → Kept t (record t { state = s })
  moved t s r changed = record {
    ready = record { taken = r.taken; idle = λ u. absurd (cc (u, changed)); agreed = r.agreed };
    past = refl;
    asked = refl;
  }

  unless-Kept :
      (t : Target E) (what : Text) (skip : Bool) (r : Option Text × E.State)
      → IsReady t
      → (skip ≡ false → t.unchanged ≡ false)
      → Kept t (unless E skip t (on_engine E what t r)).1
  unfolding unless on_engine
  unless-Kept t what true r ready changes = stay t ready
  unless-Kept t what false (e, s) ready changes = moved t s ready (changes refl)

  pub stop-KeepsReady : KeepsReady (stop E)
  unfolding stop
  stop-KeepsReady t r = unless-Kept t (codes "stop ") t.unchanged (E.stop t.state) r (λ u. u)

  pub start-KeepsReady : KeepsReady (start E)
  unfolding start
  start-KeepsReady t r =
      unless-Kept t (codes "start ") (not t.wanted || t.unchanged)
        (E.start t.candidate t.dual t.state) r (λ u. ground (arith, u))

  pub release-KeepsReady : KeepsReady (release E)
  unfolding release
  release-KeepsReady t r =
      unless-Kept t (codes "rollback stop ") t.unchanged (E.stop t.state) r (λ u. u)

  pub restore-KeepsReady : KeepsReady (restore E)
  unfolding restore
  restore-KeepsReady t r =
      unless-Kept t (codes "rollback ") t.unchanged (E.restore t.previous t.state) r (λ u. u)

  go_on-Carried :
      (r : Option Text × Target E) (others : Option Text × List (Target E)) (t : Target E)
      (ts : List (Target E))
      → Kept t r.1
      → All IsReady ts
      → Carried ts others.1
      → Carried (t ∷ ts) (go_on E r ts others).1
  unfolding go_on
  go_on-Carried (some x, u) (e, us) t ts k r c = next t u ts ts k (rest ts r)
  go_on-Carried (none, u) (e, us) t ts k r c = next t u ts us k c

  pub until_error-Carried :
      (f : Step E)
      → KeepsReady f
      → (ts : List (Target E)) → All IsReady ts
      → Carried ts (until_error E f ts).1
  unfolding until_error
  until_error-Carried f keeps [] r = rest [] tt
  until_error-Carried f keeps (t ∷ ts) (r, rs) =
      go_on-Carried (f t) (until_error E f ts) t ts (keeps t r) rs
        (until_error-Carried f keeps ts rs)

  pub for_each-Carried :
      (f : Step E)
      → KeepsReady f
      → (ts : List (Target E)) → All IsReady ts
      → Carried ts (for_each E f ts).1
  unfolding for_each collect
  for_each-Carried f keeps [] r = rest [] tt
  for_each-Carried f keeps (t ∷ ts) (r, rs) =
      next t (f t).1 ts (for_each E f ts).1 (keeps t r) (for_each-Carried f keeps ts rs)

  -- The preflight: nothing that can be seen changes, and behind it every target is ready.
  pub record Prepared (t u : Target E) : Type 0 where
    pub seen : view u.state ≡ view t.state
    pub asked : ask u ≡ ask t

  settle-IsReady :
      (t : Target E) (s : E.State)
      → (E.snapshot s).0 ≡ ok t.previous
      → view t.state ≡ t.previous
      → IsReady (settle E t)
  unfolding settle
  settle-IsReady t s taken seen = record { taken = (s, taken); idle = λ u. seen; agreed = refl }

  -- What holds of a target and of the loop's result, whether or not it went well.
  abbrev IsGood : Target E → Option Text × Target E → Type 0
  IsGood t (some x, u) = Prepared t u
  IsGood t (none, u) = Prepared t u × IsReady u × (u.previous ≡ view t.state)

  after_prepare-IsGood :
      (t u : Target E) (r : Result Text × E.State)
      → ask u ≡ ask t
      → view r.1 ≡ view t.state
      → (E.snapshot t.state).0 ≡ ok u.previous
      → IsGood t (after_prepare E r u)
  unfolding after_prepare settle
  after_prepare-IsGood t u (err e, s) asked seen taken = record { seen = seen; asked = asked }
  after_prepare-IsGood t u (ok c, s) asked seen taken =
      let read = rel.snapshot_reads t.state u.previous taken in
      (
        record { seen = seen; asked = asked },
        settle-IsReady (record u { candidate = c; state = s }) t.state taken (seen ∙ sym read),
        read,
      )

  prepare_if-IsGood :
      (wanted : Bool) (t u : Target E) (r : Result Text × E.State)
      → ask u ≡ ask t
      → view r.1 ≡ view t.state
      → view u.state ≡ view t.state
      → (E.snapshot t.state).0 ≡ ok u.previous
      → IsGood t (prepare_if E wanted r u)
  unfolding prepare_if settle
  prepare_if-IsGood true t u r asked seen was taken = after_prepare-IsGood t u r asked seen taken
  prepare_if-IsGood false t u r asked seen was taken =
      let read = rel.snapshot_reads t.state u.previous taken in
      (record { seen = was; asked = asked }, settle-IsReady u t.state taken (was ∙ sym read), read)

  after_snapshot-IsGood :
      (t : Target E) (r : Result EngineSnapshot × E.State)
      → E.snapshot t.state ≡ r
      → IsGood t (after_snapshot E r t)
  unfolding after_snapshot
  after_snapshot-IsGood t (err e, s) is = record {
    seen = subst (λ z. view z.1 ≡ view t.state) is (rel.snapshot_keeps t.state);
    asked = refl;
  }
  after_snapshot-IsGood t (ok p, s) is =
      let seen = subst (λ z. view z.1 ≡ view t.state) is (rel.snapshot_keeps t.state) in
      prepare_if-IsGood t.wanted t (record t { previous = p; state = s }) (E.prepare t.dual s) refl
        (rel.prepare_keeps t.dual s ∙ seen) seen (ap (λ z. z.0) is)

  -- The targets behind a loop of the preflight.
  pub record Unmoved (ts us : List (Target E)) : Type 0 where
    pub seen : views us ≡ views ts
    pub asked : map ask us ≡ map ask ts

  abbrev pub IsFine : List (Target E) → Option Text × List (Target E) → Type 0
  IsFine ts (some x, us) = Unmoved ts us
  IsFine ts (none, us) = Unmoved ts us × All IsReady us × (pasts us ≡ views ts)

  Unmoved-next :
      (t u : Target E) (ts us : List (Target E))
      → Prepared t u
      → Unmoved ts us
      → Unmoved (t ∷ ts) (u ∷ us)
  Unmoved-next t u ts us p m = record { seen = cc (p.seen, m.seen); asked = cc (p.asked, m.asked) }

  same_targets : (ts : List (Target E)) → Unmoved ts ts
  same_targets ts = record { seen = refl; asked = refl }

  go_on-IsFine :
      (t : Target E) (ts : List (Target E)) (r : Option Text × Target E)
      (others : Option Text × List (Target E))
      → IsGood t r
      → IsFine ts others
      → IsFine (t ∷ ts) (go_on E r ts others)
  unfolding go_on
  go_on-IsFine t ts (some x, u) others g f = Unmoved-next t u ts ts g (same_targets ts)
  go_on-IsFine t ts (none, u) (some x, us) (g, ready, p) f = Unmoved-next t u ts us g f
  go_on-IsFine t ts (none, u) (none, us) (g, ready, p) (m, readies, ps) =
      (Unmoved-next t u ts us g m, (ready, readies), cc (p, ps))

  advance-IsFine :
      (gone : Option Text) (t : Target E) (ts : List (Target E)) (r : Option Text × Target E)
      (others : Option Text × List (Target E))
      → IsGood t r
      → IsFine ts others
      → IsFine (t ∷ ts) (advance E gone t ts r others)
  unfolding advance
  advance-IsFine (some x) t ts r others g f = same_targets (t ∷ ts)
  advance-IsFine none t ts r others g f = go_on-IsFine t ts r others g f

  ended-IsFine : (e : Option Text) → IsFine [] (e, [])
  ended-IsFine none = (same_targets [], tt, refl)
  ended-IsFine (some x) = same_targets []

  pub preflight-IsFine :
      (gone : ℕ → Option Text) (n : ℕ) (ts : List (Target E)) → IsFine ts (preflight E gone n ts)
  unfolding preflight
  preflight-IsFine gone n [] = ended-IsFine (gone n)
  preflight-IsFine gone n (t ∷ ts) =
      advance-IsFine (gone n) t ts (after_snapshot E (E.snapshot t.state) t)
        (preflight E gone (suc n) ts) (after_snapshot-IsGood t (E.snapshot t.state) refl)
        (preflight-IsFine gone (suc n) ts)
