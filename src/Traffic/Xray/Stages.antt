-- ===== src/Traffic/Xray/Stages.antt =====
-- The stages of one external flush, seen from one client with one identity.
use zenith_panel.Common.{ℕ, ◌≡◌, some, true, Text, text_eq, nat_eq, Result, ok, arith}
use zenith_panel.Traffic.Delta.{Counters, counter_at, Distinct}
use zenith_panel.Traffic.Accountant.{Faults, Db, xray_deltas, delta_since}
use zenith_panel.Traffic.Accountant.Diff.{lookup-xray_deltas}
use zenith_panel.Traffic.Xray.{
  Baseline, Accountant, Poll, xray_epoch, load_external_xray_baseline, begin_external,
  new_accountant,
}

-- The counter of a charged identity is its growth.
pub counter-xray_deltas :
    (ident : Text) (totals last : Counters)
    → Distinct totals
    → counter_at ident (xray_deltas totals last)
      ≡ delta_since (counter_at ident totals) (counter_at ident last)
counter-xray_deltas ident totals last h = ground (arith, lookup-xray_deltas ident totals last h)

module _ {Raw : Type 0} (encode : Baseline → Raw) (decode : Raw → Result Baseline) where
  -- The stored baseline is `b`, and an accountant that has loaded one has that one.
  pub record Agrees (a : Accountant) (db : Db Raw) (b : Baseline) : Type 0 where
    pub raw : Raw
    pub stored : db.baseline ≡ some raw
    pub decoded : decode raw ≡ ok b
    pub found : a.baseline_loaded ≡ true → a.baseline_found ≡ true
    pub last : a.baseline_loaded ≡ true → a.xray_last ≡ b.totals
    pub epoch : a.baseline_loaded ≡ true → xray_epoch a.xray_start ≡ b.epoch

  load-Agrees :
      (fails : Faults) (a a' : Accountant) (db : Db Raw) (b : Baseline)
      → load_external_xray_baseline encode decode fails (some db) a ≡ ok a'
      → Agrees a db b
      → (a'.baseline_loaded ≡ true)
        × (a'.baseline_found ≡ true)
        × (a'.xray_last ≡ b.totals)
        × (xray_epoch a'.xray_start ≡ b.epoch)
  unfolding load_external_xray_baseline
  load-Agrees fails a a' db b h g = ground arith

  -- Past the first stage the accountant holds the stored baseline.
  abbrev pub Holds : Accountant → Baseline → Type 0
  Holds a b =
      (a.baseline_loaded ≡ true)
      × (a.baseline_found ≡ true)
      × (a.xray_last ≡ b.totals)
      × (xray_epoch a.xray_start ≡ b.epoch)

  pub begin-Holds :
      (p : Poll) (a a' : Accountant) (db : Db Raw) (b : Baseline) (start : ℕ)
      → begin_external encode decode p (some db) a ≡ ok (start, a')
      → Agrees a db b
      → (p.started ≡ some start) × Holds a' b
  unfolding begin_external
  begin-Holds p a a' db b start h g = ground (arith, load-Agrees p.faults a a' db b)

  pub Holds-Agrees :
      (a : Accountant) (db : Db Raw) (b : Baseline) (raw : Raw)
      → Holds a b
      → db.baseline ≡ some raw
      → decode raw ≡ ok b
      → Agrees a db b
  Holds-Agrees a db b raw h s d = record {
    raw = raw;
    stored = s;
    decoded = d;
    found = λ _. h.1;
    last = λ _. h.2;
    epoch = λ _. h.3;
  }

  pub Agrees-last_err :
      (a : Accountant) (db : Db Raw) (b : Baseline) (e : Text)
      → Agrees a db b
      → Agrees (record a { last_err = e }) db b
  Agrees-last_err a db b e g = record {
    raw = g.raw;
    stored = g.stored;
    decoded = g.decoded;
    found = g.found;
    last = g.last;
    epoch = g.epoch;
  }

  -- A new process has loaded nothing yet.
  pub fresh-Agrees :
      (a : Accountant) (db : Db Raw) (b : Baseline) → Agrees a db b → Agrees new_accountant db b
  fresh-Agrees a db b g = record {
    raw = g.raw;
    stored = g.stored;
    decoded = g.decoded;
    found = λ h. absurd (cc);
    last = λ h. absurd (cc);
    epoch = λ h. absurd (cc);
  }
