-- ===== src/Traffic/Rollup/Tests.antt =====
-- The theorem on the rollup at work on two hours, where the first call cannot store its watermark.
use zenith_panel.Common.{ℕ, ◌≤◌, ◌≡◌, refl, List, [], ◌∷◌, none, some, codes}
use zenith_panel.Traffic.Rollup.{HotRow, HourKey, Tables, RoundAnswers, groups, rollup_once}
use zenith_panel.Traffic.Rollup.Once.{RollupCall, rollups}

abbrev row : ℕ → ℕ → HotRow
row bucket up = record {
  bucket = bucket;
  instance_name = codes "sing-box";
  user = codes "zc:7";
  host = [];
  rdns = codes "example.org";
  asn = [];
  direction = codes "egress";
  stat = record { bytes = record { up = up; down = 0 }; hits = 1 };
}

abbrev hot : List HotRow
hot = row 7200 5 ∷ row 7500 6 ∷ row 10800 7 ∷ []

abbrev fresh : Tables
fresh = record { hot = hot; hourly = []; watermark = 0 }

abbrev calls : List RollupCall
calls =
    record {
      rounds = λ h. record { reads = none; inserts = none; stores = some (codes "locked") };
      reads = none;
      stores = none;
      now = 14500;
    }
    ∷ []

abbrev good : RollupCall
good = record {
  rounds = λ h. record { reads = none; inserts = none; stores = none };
  reads = none;
  stores = none;
  now = 14500;
}

-- Both hours are there.
rolled : (rollups (good ∷ []) (rollups calls fresh)).watermark ≡ 10800
unfolding zenith_panel.Traffic.Rollup.rollup_once groups zenith_panel.Common.Assoc.assign
    zenith_panel.Traffic.Rollup.hour_key_beq zenith_panel.Common.text_beq
rolled = refl
