-- ===== src/Traffic/Xray.antt =====
-- The Xray half of the accountant (`flushXray` and what it calls in traffic/accountant.go).
-- One flush reads a `Poll`: what the runtime, the clock, `xray api statsquery` and the database
-- answer during it. Times are whole seconds, as the source truncates them. The JSON coder of the
-- stored baseline is a parameter. `none` is a nil database handle.
pub mod Stages
pub mod ExactlyOnce
pub mod CatchUp
use zenith_panel.Common.{
  ℕ, ◌+◌, ◌≡◌, List, [], ◌∷◌, ◌++◌, Option, none, some, Bool, true, false, not, ◌||◌, Text, codes,
  text_eq, nat_eq, ltb, if◌then◌else◌, ◌==◌, Result, ok, err, ◌>>=◌, ◌>>◌, check, wrap, is_some,
}
use zenith_panel.Common.Assoc.{lookup, assign}
use zenith_panel.Traffic.Delta.{Delta, Counters, counter_at}
use zenith_panel.Traffic.Accountant.{
  Faults, load_setting, Db, Committed, xray_deltas, apply_deltas_with_persist,
}

-- `persistedXrayBaseline`.
pub record Baseline : Type 0 where
  pub epoch : ℕ
  pub totals : Counters

pub record Accountant : Type 0 where
  pub xray_last : Counters
  pub xray_start : Option ℕ
  pub baseline_loaded : Bool
  pub baseline_found : Bool
  pub last_xray_ok : Option ℕ
  pub last_err : Text

-- The fields as `NewAccountant` leaves them.
abbrev pub new_accountant : Accountant
new_accountant = record {
  xray_last = [];
  xray_start = none;
  baseline_loaded = false;
  baseline_found = false;
  last_xray_ok = none;
  last_err = [];
}

pub record Poll : Type 0 where
  pub running : Bool
  pub external : Bool
  pub started : Option ℕ
  pub local_start : ℕ
  pub now : ℕ
  pub stats : Result Counters
  pub faults : Faults

-- A flush, or a new panel process over the same database.
pub data Event : Type 0 where
  poll : Poll → Event
  restart : Event

abbrev pub xray_epoch : Option ℕ → ℕ
xray_epoch none = 0
xray_epoch (some seconds) = seconds

-- Local mode: the start moved by more than a second. The zero time is always further away.
pub start_moved : ℕ → Option ℕ → Bool
start_moved start none = true
start_moved start (some last) = ltb (last + 1) start || ltb (start + 1) last

-- `for ident := range settled { xrayLast[ident] = totals[ident] }`
pub settle : Committed → Counters → Counters → Counters
settle [] totals last = last
settle ((ident, b) ∷ settled) totals last =
    assign ident (counter_at ident totals) (settle settled totals last)

-- Identities with no new traffic are already in sync.
pub sync : Counters → Counters → Counters → Counters
sync [] deltas last = last
sync ((ident, t) ∷ totals) deltas last =
    let rest = sync totals deltas last in
    if is_some (lookup ident deltas) then rest else assign ident t rest

module _ {Raw : Type 0} where
  -- The identities that are settled; none where the transaction fails.
  pub apply_deltas : Faults → Counters → Option (Db Raw) → Committed × Option (Db Raw)
  apply_deltas fails deltas db = elim (apply_deltas_with_persist fails deltas none db) [
    | ok r ↦ (r.1, some r.0)
    | err e ↦ ([], db)
  ]

  pub flush_local : Poll → Accountant × Option (Db Raw) → Accountant × Option (Db Raw)
  flush_local p (a, db) =
      let changed = start_moved p.local_start a.xray_start in
      let known = if changed then [] else a.xray_last in
      elim p.stats [
        | err e ↦ (record a { xray_last = known; last_err = e }, db)
        | ok totals ↦
            let deltas = xray_deltas totals known in
            let (settled, db') = apply_deltas p.faults deltas db in
            (
              record a {
                xray_last = sync totals deltas (settle settled totals known);
                xray_start = if changed then some p.local_start else a.xray_start;
                last_xray_ok = some p.now;
                last_err = [];
              },
              db',
            )
      ]

module _ {Raw : Type 0} (encode : Baseline → Raw) (decode : Raw → Result Baseline) where
  restore : Accountant → Option Raw → Result Accountant
  restore a none = ok (record a { baseline_loaded = true; baseline_found = false })
  restore a (some raw) = do
    b ← wrap (codes "decode Xray traffic baseline: ") (decode raw)
    ok (record a {
      xray_last = b.totals;
      xray_start = some b.epoch;
      baseline_loaded = true;
      baseline_found = true;
    })

  pub load_external_xray_baseline : Faults → Option (Db Raw) → Accountant → Result Accountant
  unfolding restore
  load_external_xray_baseline fails none a =
      err (codes "load Xray traffic baseline: database unavailable")
  load_external_xray_baseline fails (some db) a = do
    wrap (codes "load Xray traffic baseline: ") (check (fails load_setting))
    restore a db.baseline

  pub persist_external_xray_snapshot :
      Faults → Counters → Counters → ℕ → Accountant × Option (Db Raw) → Result (Accountant × Db Raw)
  persist_external_xray_snapshot fails totals deltas start (a, db) = do
    r ← wrap (codes "persist Xray traffic snapshot: ") (
        apply_deltas_with_persist fails deltas
          (some (encode (record { epoch = start; totals = totals }))) db)
    ok (
      record a {
        xray_last = totals;
        xray_start = some start;
        baseline_loaded = true;
        baseline_found = true;
      },
      r.0,
    )

  -- The epoch of the runner, and the stored baseline where it is not loaded yet.
  pub begin_external : Poll → Option (Db Raw) → Accountant → Result (ℕ × Accountant)
  begin_external p db a = elim p.started [
    | none ↦ err (codes "read external Xray runner epoch")
    | some start ↦
        if a.baseline_loaded
        then ok (start, a)
        else load_external_xray_baseline p.faults db a >>= λ a'. ok (start, a')
  ]

  pub commit_external :
      Faults → Counters → ℕ → Accountant × Option (Db Raw) → Accountant × Option (Db Raw)
  commit_external fails totals start (a, db) =
      let deltas = if a.baseline_found then xray_deltas totals a.xray_last else [] in
      elim (persist_external_xray_snapshot fails totals deltas start (a, db)) [
        | err e ↦ (record a { last_err = e }, db)
        | ok (a', db') ↦ (a', some db')
      ]

  pub poll_external : Poll → ℕ → Accountant × Option (Db Raw) → Accountant × Option (Db Raw)
  poll_external p start (a, db) =
      let known = if start == xray_epoch a.xray_start then a.xray_last else [] in
      elim p.stats [
        | err e ↦ (record a { xray_last = known; last_err = e }, db)
        | ok totals ↦
            commit_external p.faults totals start
              (record a { xray_last = known; last_xray_ok = some p.now; last_err = [] }, db)
      ]

  pub flush_external : Poll → Accountant × Option (Db Raw) → Accountant × Option (Db Raw)
  flush_external p (a, db) = elim (begin_external p db a) [
    | err e ↦ (record a { last_err = e }, db)
    | ok (start, a') ↦ poll_external p start (a', db)
  ]

  pub flush_xray : Poll → Accountant × Option (Db Raw) → Accountant × Option (Db Raw)
  flush_xray p st =
      if p.running then if p.external then flush_external p st else flush_local p st else st

  pub step : Event → Accountant × Option (Db Raw) → Accountant × Option (Db Raw)
  step (poll p) st = flush_xray p st
  step restart (a, db) = (new_accountant, db)

  pub run : List Event → Accountant × Option (Db Raw) → Accountant × Option (Db Raw)
  run [] st = st
  run (e ∷ events) st = run events (step e st)
