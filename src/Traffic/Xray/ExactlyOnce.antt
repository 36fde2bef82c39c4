-- ===== src/Traffic/Xray/ExactlyOnce.antt =====
-- An external runner's bytes are charged once: across failed reads, failed writes and restarts of
-- the panel, a client's counter grows by what the stored baseline grows by.
use zenith_panel.Common.{
  ℕ, ◌+◌, ◌≤◌, ◌≡◌, refl, ◌∙◌, sym, ap, subst, List, [], ◌∷◌, ◌++◌, Option, some, true, Text, codes,
  text_eq, nat_eq, Result, ok, err, arith, inl, inr, Bool-cases, eq_self, Result-cases,
}
use zenith_panel.Common.Assoc.{lookup}
use zenith_panel.Model.{Client}
use zenith_panel.Traffic.Delta.{Delta, Counters, counter_at, Distinct}
use zenith_panel.Traffic.Accountant.{
  Faults, Db, Committed, xray_deltas, apply_deltas_with_persist, by_ident, name_rows,
}
use zenith_panel.Proxy.Identity.{NameRow}
use zenith_panel.Traffic.Accountant.Diff.{xray_deltas-Distinct, xray_deltas-All}
use zenith_panel.Traffic.Accountant.Apply.{find_client, credited, Sole}
use zenith_panel.Traffic.Xray.{
  Baseline, Accountant, Poll, persist_external_xray_snapshot, begin_external, commit_external,
  poll_external, flush_external, flush_xray, Event, poll, restart, step, run, new_accountant,
}
use zenith_panel.Traffic.Accountant.Apply.{apply_persist-Grew}
use zenith_panel.Traffic.Xray.Stages.{
  counter-xray_deltas, Agrees, Holds, begin-Holds, Holds-Agrees, Agrees-last_err, fresh-Agrees,
}

-- A reading of the counters that succeeded.
abbrev pub IsFairReading : List NameRow → ℕ → Text → Delta → Result Counters → Type 0
IsFairReading rows id ident lo (err e) = Unit
IsFairReading rows id ident lo (ok totals) =
    Distinct totals
    × Sole (by_ident rows) id ident totals
    × (lo.up ≤ (counter_at ident totals).up)
    × (lo.down ≤ (counter_at ident totals).down)

-- What the identity's counter read, or the reading before where this one failed.
abbrev pub reading : Text → Delta → Result Counters → Delta
reading ident lo (err e) = lo
reading ident lo (ok totals) = counter_at ident totals

-- What the environment does in a flush of one runner: its start does not change, its counters
-- do not fall below `lo`, and no other identity that it reports stands for the client.
abbrev pub IsFair : List NameRow → ℕ → Text → ℕ → Delta → Poll → Type 0
IsFair rows id ident epoch lo p =
    (p.external ≡ true)
    × ((start : ℕ) → p.started ≡ some start → start ≡ epoch)
    × IsFairReading rows id ident lo p.stats

abbrev pub IsFairEvent : List NameRow → ℕ → Text → ℕ → Delta → Event → Type 0
IsFairEvent rows id ident epoch lo (poll p) = IsFair rows id ident epoch lo p
IsFairEvent rows id ident epoch lo restart = Unit

abbrev pub after : Text → Delta → Event → Delta
after ident lo (poll p) = reading ident lo p.stats
after ident lo restart = lo

abbrev pub AllFair : List NameRow → ℕ → Text → ℕ → Delta → List Event → Type 0
AllFair rows id ident epoch lo [] = Unit
AllFair rows id ident epoch lo (e ∷ events) =
    IsFairEvent rows id ident epoch lo e × AllFair rows id ident epoch (after ident lo e) events

abbrev pub last_reading : Text → Delta → List Event → Delta
last_reading ident lo [] = lo
last_reading ident lo (e ∷ events) = last_reading ident (after ident lo e) events

reading-ge :
    (rows : List NameRow) (id : ℕ) (ident : Text) (lo : Delta) (r : Result Counters)
    → IsFairReading rows id ident lo r
    → (lo.up ≤ (reading ident lo r).up) × (lo.down ≤ (reading ident lo r).down)
reading-ge rows id ident lo (err e) h = (omega arith, omega arith)
reading-ge rows id ident lo (ok totals) h = (h.2, h.3)

module _ {Raw : Type 0} (encode : Baseline → Raw) (decode : Raw → Result Baseline) where
  -- What holds of the state after some events, for one client and its identity: the baseline has
  -- grown by exactly what the client was charged, and to no more than the last reading `top`.
  pub record Exact (id : ℕ) (ident : Text) (b : Baseline) (c : Client) (rows : List NameRow)
      (top : Delta) (st : Accountant × Option (Db Raw)) : Type 0 where
    pub db : Db Raw
    pub base : Baseline
    pub client : Client
    pub is_db : st.1 ≡ some db
    pub agrees : Agrees encode decode st.0 db base
    pub same_epoch : base.epoch ≡ b.epoch
    pub same_rows : name_rows db.clients ≡ rows
    pub is_client : find_client id db.clients ≡ some client
    pub up_exact :
        client.up_load + (counter_at ident b.totals).up
        ≡ c.up_load + (counter_at ident base.totals).up
    pub down_exact :
        client.down_load + (counter_at ident b.totals).down
        ≡ c.down_load + (counter_at ident base.totals).down
    pub up_top : (counter_at ident base.totals).up ≤ top.up
    pub down_top : (counter_at ident base.totals).down ≤ top.down

  -- Nothing was charged and the baseline stands.
  unmoved :
      (id : ℕ) (ident : Text) (b : Baseline) (c : Client) (db : Db Raw) (top : Delta)
      (a : Accountant)
      → Agrees encode decode a db b
      → find_client id db.clients ≡ some c
      → (counter_at ident b.totals).up ≤ top.up
      → (counter_at ident b.totals).down ≤ top.down
      → Exact id ident b c (name_rows db.clients) top (a, some db)
  unmoved id ident b c db top a g f u d = record {
    db = db;
    base = b;
    client = c;
    is_db = refl;
    agrees = g;
    same_epoch = refl;
    same_rows = refl;
    is_client = f;
    up_exact = refl;
    down_exact = refl;
    up_top = u;
    down_top = d;
  }

  -- A commit either fails and leaves the database alone, or stores the snapshot with the charges.
  commit_cases {ℓ} :
      (P : Accountant × Option (Db Raw) → Type ℓ) (fails : Faults) (totals : Counters) (start : ℕ)
      (a : Accountant) (db : Db Raw)
      → a.baseline_found ≡ true
      → ((e : Text) → P (record a { last_err = e }, some db))
      → ((r : Db Raw × Committed)
          → apply_deltas_with_persist fails
              (xray_deltas totals a.xray_last)
              (some (encode (record { epoch = start; totals = totals })))
              (some db)
            ≡ ok r
          → P (
            record a {
              xray_last = totals;
              xray_start = some start;
              baseline_loaded = true;
              baseline_found = true;
            },
            some r.0,
          ))
      → P (commit_external encode decode fails totals start (a, some db))
  unfolding commit_external persist_external_xray_snapshot
  commit_cases P fails totals start a db found bad good =
      elim (Result-cases (
        apply_deltas_with_persist fails (xray_deltas totals a.xray_last)
          (some (encode (record { epoch = start; totals = totals }))) (some db))) [
            | inl (r, e) ↦ rw (found, commit_external) (rw e (good r e))
            | inr (x, e) ↦
                rw (found, commit_external)
                  (rw e (bad (codes "persist Xray traffic snapshot: " ++ x)))
          ]

  module _ (decode-encode : (b : Baseline) → decode (encode b) ≡ ok b) where
    commit-Exact :
        (fails : Faults) (totals : Counters) (a : Accountant) (db : Db Raw) (id : ℕ) (ident : Text)
        (b : Baseline) (c : Client)
        → Holds encode decode a b
        → Agrees encode decode a db b
        → Distinct totals
        → Sole (by_ident (name_rows db.clients)) id ident totals
        → lookup ident (by_ident (name_rows db.clients)) ≡ some id
        → find_client id db.clients ≡ some c
        → (counter_at ident b.totals).up ≤ (counter_at ident totals).up
        → (counter_at ident b.totals).down ≤ (counter_at ident totals).down
        → Exact id ident b c
            (name_rows db.clients)
            (counter_at ident totals)
            (commit_external encode decode fails totals b.epoch (a, some db))
    commit-Exact fails totals a db id ident b c hold g dist sole own found u d =
        commit_cases (Exact id ident b c (name_rows db.clients) (counter_at ident totals)) fails
          totals b.epoch a db hold.1
          (λ e.
            unmoved id ident b c db _ (record a { last_err = e })
              (Holds-Agrees encode decode _ db b g.raw hold g.stored g.decoded) found u d)
          (λ r done.
            let deltas = xray_deltas totals a.xray_last in
            let snapshot : Baseline = record { epoch = b.epoch; totals = totals } in
            let grew =
              apply_persist-Grew fails deltas (encode snapshot) db r id ident c done
                (xray_deltas-Distinct totals a.xray_last)
                (xray_deltas-All
                  (λ t. lookup t (by_ident (name_rows db.clients)) ≡ some id → t ≡ ident) totals
                  a.xray_last sole)
                own found in
            let charged = counter-xray_deltas ident totals a.xray_last dist in
            let based = ap (counter_at ident) hold.2 in
            record {
              db = r.0;
              base = snapshot;
              client = credited c (counter_at ident deltas);
              is_db = refl;
              agrees =
                  Holds-Agrees encode decode _ r.0 snapshot (encode snapshot)
                    (refl, refl, refl, refl) grew.2 (decode-encode snapshot);
              same_epoch = refl;
              same_rows = grew.1;
              is_client = grew.0;
              up_exact = ground (arith, charged, based);
              down_exact = ground (arith, charged, based);
              up_top = omega arith;
              down_top = omega arith;
            })

    poll-Exact :
        (p : Poll) (r : Result Counters) (a : Accountant) (db : Db Raw) (id : ℕ) (ident : Text)
        (b : Baseline) (c : Client) (lo : Delta)
        → p.stats ≡ r
        → Holds encode decode a b
        → Agrees encode decode a db b
        → IsFairReading (name_rows db.clients) id ident lo r
        → lookup ident (by_ident (name_rows db.clients)) ≡ some id
        → find_client id db.clients ≡ some c
        → (counter_at ident b.totals).up ≤ lo.up
        → (counter_at ident b.totals).down ≤ lo.down
        → Exact id ident b c
            (name_rows db.clients)
            (reading ident lo r)
            (poll_external encode decode p b.epoch (a, some db))
    unfolding poll_external
    poll-Exact p (err e) a db id ident b c lo is hold g fair own found u d =
        rw (is, poll_external)
          (rw (hold.3, eq_self b.epoch)
            (unmoved id ident b c db lo _
              (Holds-Agrees encode decode _ db b g.raw hold g.stored g.decoded) found u d))
    poll-Exact p (ok totals) a db id ident b c lo is hold g fair own found u d =
        rw (is, poll_external)
          (rw (hold.3, eq_self b.epoch)
            (commit-Exact p.faults totals _ db id ident b c hold
              (Holds-Agrees encode decode _ db b g.raw hold g.stored g.decoded) fair.0 fair.1 own
              found (omega arith) (omega arith)))

    flush-Exact :
        (p : Poll) (a : Accountant) (db : Db Raw) (id : ℕ) (ident : Text) (b : Baseline)
        (c : Client) (lo : Delta)
        → Agrees encode decode a db b
        → IsFair (name_rows db.clients) id ident b.epoch lo p
        → lookup ident (by_ident (name_rows db.clients)) ≡ some id
        → find_client id db.clients ≡ some c
        → (counter_at ident b.totals).up ≤ lo.up
        → (counter_at ident b.totals).down ≤ lo.down
        → Exact id ident b c
            (name_rows db.clients)
            (reading ident lo p.stats)
            (flush_external encode decode p (a, some db))
    unfolding flush_external
    flush-Exact p a db id ident b c lo g fair own found u d =
        elim (Result-cases (begin_external encode decode p (some db) a)) [
          | inl ((start, a'), e) ↦
              let (same, hold) = begin-Holds encode decode p a a' db b start e g in
              rw (e, flush_external)
                (rw (fair.1 start same) (
                  poll-Exact p p.stats a' db id ident b c lo refl hold
                    (Holds-Agrees encode decode a' db b g.raw hold g.stored g.decoded) fair.2 own
                    found u d))
          | inr (x, e) ↦
              rw (e, flush_external)
                (unmoved id ident b c db (reading ident lo p.stats) _
                  (Agrees-last_err encode decode a db b _ g) found
                  (omega (arith, (reading-ge (name_rows db.clients) id ident lo p.stats fair.2).0))
                  (omega (arith, (reading-ge (name_rows db.clients) id ident lo p.stats fair.2).1)))
        ]

    step-Exact :
        (e : Event) (a : Accountant) (db : Db Raw) (id : ℕ) (ident : Text) (b : Baseline)
        (c : Client) (lo : Delta)
        → Agrees encode decode a db b
        → IsFairEvent (name_rows db.clients) id ident b.epoch lo e
        → lookup ident (by_ident (name_rows db.clients)) ≡ some id
        → find_client id db.clients ≡ some c
        → (counter_at ident b.totals).up ≤ lo.up
        → (counter_at ident b.totals).down ≤ lo.down
        → Exact id ident b c
            (name_rows db.clients)
            (after ident lo e)
            (step encode decode e (a, some db))
    unfolding step flush_xray
    step-Exact restart a db id ident b c lo g fair own found u d =
        unmoved id ident b c db lo new_accountant (fresh-Agrees encode decode a db b g) found u d
    step-Exact (poll p) a db id ident b c lo g fair own found u d = elim (Bool-cases p.running) [
      | inl e ↦ simp (e, fair.0) (flush-Exact p a db id ident b c lo g fair own found u d)
      | inr e ↦ rw e (
          unmoved id ident b c db (reading ident lo p.stats) a g found
            (omega (arith, (reading-ge (name_rows db.clients) id ident lo p.stats fair.2).0))
            (omega (arith, (reading-ge (name_rows db.clients) id ident lo p.stats fair.2).1)))
    ]

    -- The events after the first, from the state in which it leaves the accountant.
    chain :
        (id : ℕ) (ident : Text) (b : Baseline) (c : Client) (rows : List NameRow) (top top' : Delta)
        (st st' : Accountant × Option (Db Raw)) (one : Exact id ident b c rows top st)
        → Exact id ident one.base one.client rows top' st'
        → Exact id ident b c rows top' st'
    chain id ident b c rows top top' st st' one two = record {
      db = two.db;
      base = two.base;
      client = two.client;
      is_db = two.is_db;
      agrees = two.agrees;
      same_epoch = two.same_epoch ∙ one.same_epoch;
      same_rows = two.same_rows;
      is_client = two.is_client;
      up_exact = omega (arith, one.up_exact, two.up_exact);
      down_exact = omega (arith, one.down_exact, two.down_exact);
      up_top = two.up_top;
      down_top = two.down_top;
    }

    pub step-Exact_at :
        (e : Event) (st : Accountant × Option (Db Raw)) (db : Db Raw) (id : ℕ) (ident : Text)
        (b : Baseline) (c : Client) (lo : Delta) (rows : List NameRow) (epoch : ℕ)
        → st.1 ≡ some db
        → name_rows db.clients ≡ rows
        → b.epoch ≡ epoch
        → Agrees encode decode st.0 db b
        → IsFairEvent rows id ident epoch lo e
        → lookup ident (by_ident rows) ≡ some id
        → find_client id db.clients ≡ some c
        → (counter_at ident b.totals).up ≤ lo.up
        → (counter_at ident b.totals).down ≤ lo.down
        → Exact id ident b c rows (after ident lo e) (step encode decode e st)
    step-Exact_at e st db id ident b c lo rows epoch is names since g fair own found u d =
        subst (λ o. Exact id ident b c rows (after ident lo e) (step encode decode e (st.0, o)))
          (sym is)
          (subst
            (λ r. Exact id ident b c r (after ident lo e) (step encode decode e (st.0, some db)))
            names
            (step-Exact e st.0 db id ident b c lo g (rw (names, since) fair) (rw names own) found u
              d))

    -- Over any flushes and restarts of the panel while one external runner lives, with any failed
    -- reads and writes among them, a client's counters grow by exactly what the stored baseline
    -- grows by, and that is at most the last reading. The runner's counters do not fall, and the
    -- identity is the only one reported for the client.
    pub run-Exact :
        (events : List Event) (st : Accountant × Option (Db Raw)) (db : Db Raw) (id : ℕ)
        (ident : Text) (b : Baseline) (c : Client) (lo : Delta) (rows : List NameRow) (epoch : ℕ)
        → st.1 ≡ some db
        → name_rows db.clients ≡ rows
        → b.epoch ≡ epoch
        → Agrees encode decode st.0 db b
        → AllFair rows id ident epoch lo events
        → lookup ident (by_ident rows) ≡ some id
        → find_client id db.clients ≡ some c
        → (counter_at ident b.totals).up ≤ lo.up
        → (counter_at ident b.totals).down ≤ lo.down
        → Exact id ident b c rows (last_reading ident lo events) (run encode decode events st)
    unfolding run
    run-Exact [] st db id ident b c lo rows epoch is names since g fair own found u d = record {
      db = db;
      base = b;
      client = c;
      is_db = is;
      agrees = g;
      same_epoch = refl;
      same_rows = names;
      is_client = found;
      up_exact = refl;
      down_exact = refl;
      up_top = u;
      down_top = d;
    }
    run-Exact (e ∷ events) st db id ident b c lo rows epoch is names since g fair own found u d =
        let one =
          step-Exact_at e st db id ident b c lo rows epoch is names since g fair.0 own found u d in
        chain id ident b c rows (after ident lo e) _ (step encode decode e st) _ one (
          run-Exact events (step encode decode e st) one.db id ident one.base one.client
            (after ident lo e) rows epoch one.is_db one.same_rows (one.same_epoch ∙ since)
            one.agrees fair.1 own one.is_client one.up_top one.down_top)
