-- ===== src/Proxy/Runtime/Tests.antt =====
-- The theorems on transitions at work on one engine whose process does not come up.
use zenith_panel.Common.{
  ℕ, zero, ◌≡◌, refl, List, [], ◌∷◌, Option, none, some, Bool, true, false, Text, codes, Result, ok,
  err, All, map, nat_beq, if◌then◌else◌,
}
use zenith_panel.Proxy.Runtime.{EngineSnapshot, Target, Outcome, preflight, transition_runtime}
use zenith_panel.Proxy.Runtime.Stages.{views, ask}
use zenith_panel.Proxy.Runtime.Rollback.{
  Serves, transition-rollback, transition-untouched, transition-Serves,
}
use zenith_panel.Proxy.Runtime.Adapter.{Core, OsCall, Os, adapter}
use zenith_panel.Proxy.Runtime.Adapter.Reliability.{adapter-Reliable}

abbrev no_failure : OsCall → ℕ → Option Text
no_failure call n = none

-- The process that is launched as the fourth call crashes.
abbrev one_crash : OsCall → ℕ → Option Text
one_crash OsCall.launch n = if nat_beq n 4 then some (codes "crashed") else none
one_crash _ n = none

abbrev system : (OsCall → ℕ → Option Text) → Option Text → Os
system fails invalid = record {
  fails = fails;
  generate = λ dual n. ok (codes "new");
  validate = λ c n. invalid;
}

abbrev crashing : Os
crashing = system one_crash none

abbrev rejecting : Os
rejecting = system no_failure (some (codes "bad json"))

abbrev calm : Os
calm = system no_failure none

abbrev before : Core
before = record { file = some (codes "old"); is_up = true; is_dual = false; clock = 0 }

abbrev xray : (os : Os) → Target (adapter os)
xray os = record {
  name = codes "xray";
  wanted = true;
  dual = true;
  force = false;
  previous = record { config = []; exists = false; running = false; dual = false };
  candidate = [];
  unchanged = false;
  state = before;
}

abbrev present : ℕ → Option Text
present n = none

abbrev no_digest : Text → Text
no_digest t = t

rolled_back :
    (transition_runtime
      (adapter crashing)
      no_digest
      (λ ts. none)
      present
      (xray crashing ∷ [])).rolled_back
    ≡ true
unfolding transition_runtime preflight adapter zenith_panel.Proxy.Runtime.until_error
    zenith_panel.Proxy.Runtime.stop zenith_panel.Common.text_beq zenith_panel.Proxy.Runtime.start
    zenith_panel.Proxy.Runtime.release zenith_panel.Proxy.Runtime.restore
    zenith_panel.Proxy.Runtime.Adapter.snapshot zenith_panel.Proxy.Runtime.Adapter.prepare
    zenith_panel.Proxy.Runtime.Adapter.stop zenith_panel.Proxy.Runtime.Adapter.start
    zenith_panel.Proxy.Runtime.Adapter.restore
rolled_back = refl

transition-rollback_example :
    views
      (adapter crashing)
      (adapter-Reliable crashing)
      (transition_runtime
        (adapter crashing)
        no_digest
        (λ ts. none)
        present
        (xray crashing ∷ [])).targets
    ≡ views (adapter crashing) (adapter-Reliable crashing) (xray crashing ∷ [])
transition-rollback_example =
    transition-rollback (adapter crashing) (adapter-Reliable crashing) no_digest (λ ts. none)
      present (xray crashing ∷ []) rolled_back

rejected :
    (preflight (adapter rejecting) present zero (xray rejecting ∷ [])).0
    ≡ some (codes "preflight xray: bad json")
unfolding preflight zenith_panel.Proxy.Runtime.Adapter.snapshot
    zenith_panel.Proxy.Runtime.Adapter.prepare
rejected = refl

transition-untouched_example :
    views
      (adapter rejecting)
      (adapter-Reliable rejecting)
      (transition_runtime
        (adapter rejecting)
        no_digest
        (λ ts. none)
        present
        (xray rejecting ∷ [])).targets
    ≡ views (adapter rejecting) (adapter-Reliable rejecting) (xray rejecting ∷ [])
transition-untouched_example =
    transition-untouched (adapter rejecting) (adapter-Reliable rejecting) no_digest (λ ts. none)
      present (xray rejecting ∷ []) (codes "preflight xray: bad json") rejected

switched_over :
    (transition_runtime (adapter calm) no_digest (λ ts. none) present (xray calm ∷ [])).error ≡ none
unfolding transition_runtime preflight adapter zenith_panel.Proxy.Runtime.until_error
    zenith_panel.Proxy.Runtime.stop zenith_panel.Common.text_beq zenith_panel.Proxy.Runtime.start
    zenith_panel.Proxy.Runtime.Adapter.snapshot zenith_panel.Proxy.Runtime.Adapter.prepare
    zenith_panel.Proxy.Runtime.Adapter.stop zenith_panel.Proxy.Runtime.Adapter.start
switched_over = refl

transition-Serves_example :
    All
      (Serves (adapter calm) (adapter-Reliable calm))
      (transition_runtime (adapter calm) no_digest (λ ts. none) present (xray calm ∷ [])).targets
    × (map
          (ask (adapter calm) (adapter-Reliable calm))
          (transition_runtime
            (adapter calm)
            no_digest
            (λ ts. none)
            present
            (xray calm ∷ [])).targets
        ≡ map (ask (adapter calm) (adapter-Reliable calm)) (xray calm ∷ []))
transition-Serves_example =
    transition-Serves (adapter calm) (adapter-Reliable calm) no_digest (λ ts. none) present
      (xray calm ∷ []) switched_over
