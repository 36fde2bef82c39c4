-- ===== src/Traffic/Egress/Drain.antt =====
-- Without failures a flush leaves nothing to write.
use zenith_panel.Common.{
  ◌≡◌, List, Option, none, some, Bool, ◌&&◌, ◌==◌, nat_eq, if◌then◌else◌, Option-cases,
  Result-cases, is_some,
}
use zenith_panel.Common.Assoc.{length-assign-le}
use zenith_panel.Traffic.Egress.{DestStat, World, key_eq}
use zenith_panel.Traffic.Egress.Account.{total}
use zenith_panel.Traffic.Egress.Ends.{left}

-- The flush has ended, nothing waits, and the table holds `d`.
abbrev pub Drained : DestStat → Option World → Type 0
Drained d none = ⊥
Drained d (some w) = (left w ≡ 0) × (total w.rows ≡ d)
