-- ===== src/Traffic/Xray/CatchUp.antt =====
-- A flush during which everything answers brings the baseline up to the reading.
use zenith_panel.Common.{
  ℕ, ◌+◌, ◌≡◌, refl, ◌∙◌, sym, ap, [], Option, none, some, true, Text, text_eq, nat_eq,
  if◌then◌else◌, Result, ok, arith, inl, inr, Bool-cases,
}
use zenith_panel.Common.Assoc.{lookup}
use zenith_panel.Model.{Client}
use zenith_panel.Traffic.Delta.{Counters, counter_at}
use zenith_panel.Traffic.Accountant.{Faults, Db, xray_deltas, by_ident, name_rows, load_setting}
use zenith_panel.Traffic.Accountant.Apply.{find_client}
use zenith_panel.Traffic.Xray.{
  Baseline, Accountant, Poll, load_external_xray_baseline, persist_external_xray_snapshot,
  begin_external, commit_external, poll_external, flush_external, flush_xray, poll, step,
}
use zenith_panel.Traffic.Xray.Stages.{Agrees}
use zenith_panel.Traffic.Accountant.Apply.{apply_persist_total}
use zenith_panel.Traffic.Accountant.{Statement}
use zenith_panel.Traffic.Xray.ExactlyOnce.{IsFair, step-Exact_at}

some_eq : {A : Type 0} {a b : A} → some a ≡ some b → a ≡ b
some_eq e = cc

module _ {Raw : Type 0} (encode : Baseline → Raw) (decode : Raw → Result Baseline) where
  -- The reading is stored.
  abbrev Stored : Baseline → Accountant × Option (Db Raw) → Type 0
  Stored b st = (db : Db Raw) × (st.1 ≡ some db) × (db.baseline ≡ some (encode b))

  commit-Stored :
      (fails : Faults) (totals : Counters) (start : ℕ) (a : Accountant) (db : Db Raw)
      → ((s : Statement) → fails s ≡ none)
      → Stored
          (record { epoch = start; totals = totals })
          (commit_external encode decode fails totals start (a, some db))
  unfolding commit_external persist_external_xray_snapshot
  commit-Stored fails totals start a db fine =
      let (r, done, kept) =
        apply_persist_total fails (if a.baseline_found then xray_deltas totals a.xray_last else [])
          (encode (record { epoch = start; totals = totals })) db fine in
      (r.0, rw (done, commit_external), kept)

  poll-Stored :
      (p : Poll) (totals : Counters) (start : ℕ) (a : Accountant) (db : Db Raw)
      → p.stats ≡ ok totals
      → ((s : Statement) → p.faults s ≡ none)
      → Stored
          (record { epoch = start; totals = totals })
          (poll_external encode decode p start (a, some db))
  unfolding poll_external
  poll-Stored p totals start a db read fine =
      rw (read, poll_external) (commit-Stored p.faults totals start _ db fine)

  begin_total :
      (p : Poll) (start : ℕ) (a : Accountant) (db : Db Raw) (b : Baseline)
      → p.started ≡ some start
      → ((s : Statement) → p.faults s ≡ none)
      → Agrees encode decode a db b
      → (a' : Accountant) × (begin_external encode decode p (some db) a ≡ ok (start, a'))
  unfolding begin_external load_external_xray_baseline
  begin_total p start a db b began fine g = elim (Bool-cases a.baseline_loaded) [
    | inl e ↦ (a, rw (began, begin_external) (ground (arith, e)))
    | inr e ↦ (
      record a {
        xray_last = b.totals;
        xray_start = some b.epoch;
        baseline_loaded = true;
        baseline_found = true;
      },
      rw (began, begin_external) (ground (arith, e, fine load_setting, g.stored, g.decoded)),
    )
  ]

  flush-Stored :
      (p : Poll) (totals : Counters) (start : ℕ) (a : Accountant) (db : Db Raw) (b : Baseline)
      → p.running ≡ true
      → p.external ≡ true
      → p.started ≡ some start
      → p.stats ≡ ok totals
      → ((s : Statement) → p.faults s ≡ none)
      → Agrees encode decode a db b
      → Stored (record { epoch = start; totals = totals }) (flush_xray encode decode p (a, some db))
  unfolding flush_xray flush_external
  flush-Stored p totals start a db b up ext began read fine g =
      let (a', e) = begin_total p start a db b began fine g in
      simp (up, ext) (rw (e, flush_external) (poll-Stored p totals start a' db read fine))

  module _ (decode-encode : (b : Baseline) → decode (encode b) ≡ ok b) where
    -- One flush in which the runner, the statistics and the database answer charges the client
    -- for everything up to the reading, where the identity is the only one reported for it.
    pub flush_charges_all :
        (p : Poll) (totals : Counters) (a : Accountant) (db : Db Raw) (id : ℕ) (ident : Text)
        (b : Baseline) (c : Client)
        → p.running ≡ true
        → p.started ≡ some b.epoch
        → p.stats ≡ ok totals
        → ((s : Statement) → p.faults s ≡ none)
        → Agrees encode decode a db b
        → IsFair (name_rows db.clients) id ident b.epoch (counter_at ident b.totals) p
        → lookup ident (by_ident (name_rows db.clients)) ≡ some id
        → find_client id db.clients ≡ some c
        → (db' : Db Raw) × (c' : Client) × ((flush_xray encode decode p (a, some db)).1 ≡ some db')
          × (find_client id db'.clients ≡ some c')
          × (c'.up_load + (counter_at ident b.totals).up ≡ c.up_load + (counter_at ident totals).up)
          × (c'.down_load + (counter_at ident b.totals).down
              ≡ c.down_load + (counter_at ident totals).down)
    unfolding step
    flush_charges_all p totals a db id ident b c up began read fine g fair own found =
        let ex =
          step-Exact_at encode decode decode-encode (poll p) (a, some db) db id ident b c
            (counter_at ident b.totals) (name_rows db.clients) b.epoch refl refl refl g fair own
            found (omega arith) (omega arith) in
        let (db', is', kept) = flush-Stored p totals b.epoch a db b up fair.0 began read fine g in
        let same : ex.db ≡ db' = some_eq (sym ex.is_db ∙ is') in
        let snapshot : Baseline = record { epoch = b.epoch; totals = totals } in
        let based : ex.base ≡ snapshot = cc (
          sym ex.agrees.stored ∙ ap (λ d. d.baseline) same ∙ kept,
          ex.agrees.decoded,
          decode-encode snapshot,
        ) in
        let counted = ap (λ x. counter_at ident x.totals) based in
        (
          ex.db,
          ex.client,
          ex.is_db,
          ex.is_client,
          ground (arith, ex.up_exact, counted),
          ground (arith, ex.down_exact, counted),
        )
