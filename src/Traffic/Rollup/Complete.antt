-- ===== src/Traffic/Rollup/Complete.antt =====
-- Which hours a call of the rollup counts.
use zenith_panel.Common.{ℕ, ◌+◌, ◌%◌, ◌≤◌, ◌<◌, ◌≡◌, List, none, All}
use zenith_panel.Common.Assoc.{lookup}
use zenith_panel.Traffic.Egress.{DestStat}
use zenith_panel.Traffic.Rollup.{
  hour_secs, HotRow, HourKey, hour_key_eq, Hourly, Tables, groups, Ended,
}

-- Every hour of the table is over at `now`.
abbrev pub IsOver : ℕ → Hourly → Type 0
IsOver now m = All (λ (x : HourKey × DestStat). x.0.hour + hour_secs ≤ now) m

-- What no call goes beyond.
abbrev pub IsReached : ℕ → Tables → Type 0
IsReached now t = (t.watermark + hour_secs ≤ now) × IsOver now t.hourly

-- All hours behind the first that are over at `now`.
abbrev pub IsComplete : ℕ → ℕ → List HotRow → Hourly → Type 0
IsComplete first now hot m =
    (k : HourKey)
    → first < k.hour
    → k.hour + hour_secs ≤ now
    → k.hour % hour_secs ≡ 0
    → lookup k m ≡ lookup k (groups k.hour hot)

abbrev Completes : ℕ → ℕ → List HotRow → Ended → Type 0
Completes first now hot r = r.0 ≡ none → IsComplete first now hot r.1.hourly
