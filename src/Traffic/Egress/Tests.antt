-- ===== src/Traffic/Egress/Tests.antt =====
-- The theorems on the egress log at work on two flows, one transaction that fails and one flush.
use zenith_panel.Common.{
  ℕ, zero, suc, ◌≤◌, arith, ◌≡◌, refl, List, [], ◌∷◌, Option, none, some, Bool, true, false, Text,
  codes, is_some,
}
use zenith_panel.Traffic.Egress.{
  DestKey, DestStat, Stats, EgressCollector, World, FlushCall, new_egress_collector, add_stat, add,
  take_batch, write_batch,
}
use zenith_panel.Traffic.Egress.Limit.{
  Steps, adds, takes, writes, stop, go, IsWithin, steps-IsWithin,
}
use zenith_panel.Traffic.Egress.Account.{holdings, steps_accept, steps-holdings}

abbrev new_world : World
new_world = record { collector = new_egress_collector; batch = []; rows = [] }

abbrev site : Text → DestKey
site host = record {
  instance_name = codes "sing-box";
  user = codes "zc:7";
  host = host;
  ip = codes "192.0.2.9";
  direction = codes "egress";
  bucket = 0;
}

abbrev moved : ℕ → DestStat
moved up = record { bytes = record { up = up; down = 0 }; hits = 1 }

abbrev after_adds : World
after_adds = record new_world {
  collector =
      add 600 (site (codes "b")) (moved 7)
        (add 600 (site (codes "a")) (moved 5) new_egress_collector);
}

abbrev after_failure : World
after_failure = write_batch (λ k. some (codes "locked")) (take_batch after_adds)

abbrev end : World
end = write_batch (λ k. none) (take_batch after_failure)

-- Two deltas come in, the first transaction fails, and the second succeeds.
one_failure : Steps new_world end
unfolding write_batch take_batch add zenith_panel.Common.Assoc.lookup
    zenith_panel.Common.Assoc.assign zenith_panel.Traffic.Egress.key_beq
    zenith_panel.Common.text_beq
one_failure = go (adds 600 (site (codes "a")) (moved 5)) (
    go (adds 600 (site (codes "b")) (moved 7)) (
      go (takes refl) (
        go (writes (λ k. some (codes "locked"))) (go (takes refl) (go (writes (λ k. none)) stop)))))

new_world-IsWithin : IsWithin new_world
new_world-IsWithin = record { counted = refl; room = omega arith }

steps-IsWithin_example : IsWithin end
steps-IsWithin_example = steps-IsWithin one_failure new_world-IsWithin

steps-holdings_example : holdings end ≡ add_stat (holdings new_world) (steps_accept one_failure)
steps-holdings_example = steps-holdings one_failure

-- Both deltas are in the table.
end_holds : holdings end ≡ record { bytes = record { up = 12; down = 0 }; hits = 2 }
unfolding write_batch take_batch add zenith_panel.Common.Assoc.lookup
    zenith_panel.Common.Assoc.assign zenith_panel.Traffic.Egress.key_beq
    zenith_panel.Common.text_beq
end_holds = refl

abbrev call : FlushCall
call = record {
  enabled = true;
  drained =
      (record { user = codes "zc:7"; host = codes "c"; ip = [] }, record { up = 9; down = 1 }) ∷ [];
  now = 600;
  expired = λ n. false;
  refuses = λ n k. none;
}
