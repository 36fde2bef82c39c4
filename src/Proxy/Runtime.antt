-- ===== src/Proxy/Runtime.antt =====
-- `transitionRuntime` of proxy/runtime.go: both engines change together or go back together. An
-- engine and the checks of the new runtime are an interface. `verify` is `verifyRuntime` or, where
-- the caller passes nil, `λ ts. none`.
pub mod Adapter
pub mod Stages
pub mod Rollback
mod Tests
use zenith_panel.Common.{
  ℕ, zero, suc, List, [], ◌∷◌, ◌++◌, Option, none, some, Bool, true, false, not, ◌&&◌, ◌||◌, Text,
  codes, text_eq, if◌then◌else◌, ◌==◌, Result, ok, err, length, join_errors,
}

pub record EngineSnapshot : Type 0 where
  pub config : Text
  pub exists : Bool
  pub running : Bool
  pub dual : Bool

-- `runtimeEngine`, with the state that its methods work on.
pub record Engine : Type 1 where
  pub State : Type 0
  pub snapshot : State → Result EngineSnapshot × State
  pub prepare : Bool → State → Result Text × State
  pub stop : State → Option Text × State
  pub start : Text → Bool → State → Option Text × State
  pub restore : EngineSnapshot → State → Option Text × State

-- `a == b` on flags.
abbrev pub same : Bool → Bool → Bool
same true b = b
same false b = not b

abbrev pub is_none : Option Text → Bool
is_none none = true
is_none (some x) = false

abbrev show_bool : Bool → Text
show_bool true = codes "true"
show_bool false = codes "false"

module _ (E : Engine) where
  pub record Target : Type 0 where
    pub name : Text
    pub wanted : Bool
    pub dual : Bool
    pub force : Bool
    pub previous : EngineSnapshot
    pub candidate : Text
    pub unchanged : Bool
    pub state : E.State

  -- What `transitionRuntime` returns, and the targets as it leaves them.
  pub record Outcome : Type 0 where
    pub revision : Text
    pub rolled_back : Bool
    pub error : Option Text
    pub targets : List Target

module _ (E : Engine) where
  -- An engine in this condition is what the target asks for.
  abbrev pub fits : Target E → EngineSnapshot → Bool
  fits t p =
      same p.running t.wanted
      && (not t.wanted || (p.exists && p.config == t.candidate && same p.dual t.dual))

  -- The target needs no switch.
  abbrev pub is_unchanged : Target E → Bool
  is_unchanged t = not t.force && fits t t.previous

  -- The first loop's body behind the snapshot and behind the candidate.
  abbrev blame : Text → Target E → Text → Option Text
  blame what t e = some (what ++ t.name ++ codes ": " ++ e)

  pub settle : Target E → Target E
  settle t = record t { unchanged = is_unchanged t }

  after_prepare : Result Text × E.State → Target E → Option Text × Target E
  unfolding settle
  after_prepare (err e, s) t = (blame (codes "preflight ") t e, record t { state = s })
  after_prepare (ok c, s) t = (none, settle (record t { candidate = c; state = s }))

  -- A target that is not wanted needs no candidate.
  prepare_if : Bool → Result Text × E.State → Target E → Option Text × Target E
  unfolding after_prepare settle
  prepare_if true r t = after_prepare r t
  prepare_if false r t = (none, settle t)

  after_snapshot : Result EngineSnapshot × E.State → Target E → Option Text × Target E
  unfolding prepare_if
  after_snapshot (err e, s) t = (blame (codes "snapshot ") t e, record t { state = s })
  after_snapshot (ok p, s) t =
      prepare_if t.wanted (E.prepare t.dual s) (record t { previous = p; state = s })

  abbrev keep : Target E → Option Text × List (Target E) → Option Text × List (Target E)
  keep t (e, ts) = (e, t ∷ ts)

  hash_input : List (Target E) → Text
  hash_input [] = []
  hash_input (t ∷ ts) =
      t.name
      ++ codes ":"
      ++ show_bool t.wanted
      ++ codes ":"
      ++ show_bool t.dual
      ++ codes ":"
      ++ t.candidate
      ++ codes "\n"
      ++ hash_input ts

  abbrev note : Text → Target E → Option Text → Option Text
  note what t none = none
  note what t (some x) = blame what t x

  -- A step of one of the four loops: on the engine of a target that it does not skip.
  abbrev pub Step : Type 0
  Step = Target E → Option Text × Target E

  on_engine : Text → Target E → Option Text × E.State → Option Text × Target E
  on_engine what t (e, s) = (note what t e, record t { state = s })

  unless : Bool → Target E → Option Text × Target E → Option Text × Target E
  unless true t r = (none, t)
  unless false t r = r

  pub stop : Step
  unfolding unless on_engine
  stop t = unless t.unchanged t (on_engine (codes "stop ") t (E.stop t.state))

  pub start : Step
  unfolding unless on_engine
  start t =
      unless (not t.wanted || t.unchanged) t
        (on_engine (codes "start ") t (E.start t.candidate t.dual t.state))

  pub release : Step
  unfolding unless on_engine
  release t = unless t.unchanged t (on_engine (codes "rollback stop ") t (E.stop t.state))

  pub restore : Step
  unfolding unless on_engine
  restore t = unless t.unchanged t (on_engine (codes "rollback ") t (E.restore t.previous t.state))

  -- A loop that returns at the first error.
  go_on :
      Option Text × Target E
      → List (Target E)
      → Option Text × List (Target E)
      → Option Text × List (Target E)
  go_on (some x, t) ts others = (some x, t ∷ ts)
  go_on (none, t) ts others = keep t others

  pub until_error : Step → List (Target E) → Option Text × List (Target E)
  unfolding go_on
  until_error f [] = (none, [])
  until_error f (t ∷ ts) = go_on (f t) ts (until_error f ts)

  -- The targets from the first to the last, until one fails or the caller has gone away; `gone n`
  -- is the context's error at its check number `n`.
  advance :
      Option Text
      → Target E
      → List (Target E)
      → Option Text × Target E
      → Option Text × List (Target E)
      → Option Text × List (Target E)
  unfolding go_on
  advance (some x) t ts r others = (some x, t ∷ ts)
  advance none t ts r others = go_on r ts others

  pub preflight : (ℕ → Option Text) → ℕ → List (Target E) → Option Text × List (Target E)
  unfolding after_snapshot advance
  preflight gone n [] = (gone n, [])
  preflight gone n (t ∷ ts) =
      advance (gone n) t ts (after_snapshot (E.snapshot t.state) t) (preflight gone (suc n) ts)

  -- A loop of the deferred function, which collects the errors.
  collect : Option Text × Target E → Option Text × List (Target E) → Option Text × List (Target E)
  collect (e, t) (e', ts) = (join_errors e e', t ∷ ts)

  pub for_each : Step → List (Target E) → Option Text × List (Target E)
  unfolding collect
  for_each f [] = (none, [])
  for_each f (t ∷ ts) = collect (f t) (for_each f ts)

  pub go_back : Text → Text → List (Target E) → Outcome E
  unfolding for_each
  go_back revision x ts =
      let (e, ts1) = for_each release ts in
      let (e', ts2) = for_each restore ts1 in
      record {
        revision = revision;
        rolled_back = is_none (join_errors e e');
        error = join_errors (some x) (join_errors e e');
        targets = ts2;
      }

module _ (E : Engine) (digest : Text → Text) (verify : List (Target E) → Option Text) where
  after_start : Text → Option Text × List (Target E) → Outcome E
  unfolding go_back
  after_start revision (some x, ts) = go_back E revision x ts
  after_start revision (none, ts) = elim (verify ts) [
    | some x ↦ go_back E revision x ts
    | none ↦ record { revision = revision; rolled_back = false; error = none; targets = ts }
  ]

  after_stop : Text → Option Text × List (Target E) → Outcome E
  unfolding after_start
  after_stop revision (some x, ts) = go_back E revision x ts
  after_stop revision (none, ts) = after_start revision (until_error E (start E) ts)

  after_preflight : Option Text × List (Target E) → Outcome E
  unfolding after_stop hash_input
  after_preflight (some x, ts) = record {
    revision = [];
    rolled_back = false;
    error = some x;
    targets = ts;
  }
  after_preflight (none, ts) = after_stop (digest (hash_input E ts)) (until_error E (stop E) ts)

  pub transition_runtime : (ℕ → Option Text) → List (Target E) → Outcome E
  unfolding after_preflight
  transition_runtime gone targets = after_preflight (preflight E gone zero targets)
