-- ===== src/Traffic/Rollup/Once.antt =====
-- Every completed hour is counted once.
use zenith_panel.Common.{
  ℕ, zero, suc, ◌+◌, ◌-◌, ◌*◌, ◌/◌, ◌%◌, ◌<◌, ◌≡◌, refl, ◌∙◌, sym, subst, arith, ◌⊎◌, inl, inr,
  List, [], ◌∷◌, Option, none, some, Text, nat_beq, nat_beq_iff, Bool-cases, Option-cases,
}
use zenith_panel.Traffic.Rollup.{
  hour_secs, HotRow, hour_key_eq, Tables, groups, insert_all, RoundAnswers, Ended, store_watermark,
  insert_groups, insert_rows, Hourly, roll_hour, go_on, roll_hours, min_bucket, roll_from,
  first_roll, rollup_once,
}
use zenith_panel.Traffic.Rollup.Hours.{
  IsRight, IsDone, insert_all-IsRight, insert_all-IsDone, insert_again-IsDone,
}

-- How far a call has come, and what the tables say.
pub record Progress (first wm : ℕ) (hot : List HotRow) (t : Tables) : Type 0 where
  pub same_hot : t.hot ≡ hot
  pub right : IsRight hot t.hourly
  pub aligned : wm % hour_secs ≡ 0
  pub done : IsDone first wm hot t.hourly

pub record Exact (first : ℕ) (hot : List HotRow) (t : Tables) : Type 0 where
  pub same_hot : t.hot ≡ hot
  pub right : IsRight hot t.hourly
  pub up_to :
      (t.watermark ≡ 0) ⊎ ((t.watermark % hour_secs ≡ 0) × IsDone first t.watermark hot t.hourly)

-- One hour: it is done, or an error ended the call and what was done is done.
abbrev pub Rolled : ℕ → ℕ → List HotRow → Tables → Ended → Type 0
Rolled first wm hot t (none, t') =
    Progress first (wm + hour_secs) hot t' × (t'.watermark ≡ wm + hour_secs)
Rolled first wm hot t (some e, t') = Progress first wm hot t' × (t'.watermark ≡ t.watermark)

stored-Rolled :
    (first wm : ℕ) (hot : List HotRow) (t : Tables) (stores : Option Text)
    → Progress first wm hot t
    → Rolled first wm hot t (
        store_watermark stores
          (wm + hour_secs)
          (record t { hourly = insert_all (groups (wm + hour_secs) t.hot) t.hourly }))
unfolding store_watermark
stored-Rolled first wm hot t none p = (
  record {
    same_hot = p.same_hot;
    right =
        subst (λ rows. IsRight hot (insert_all (groups (wm + hour_secs) rows) t.hourly))
          (sym p.same_hot) (insert_all-IsRight (wm + hour_secs) hot t.hourly p.right);
    aligned = omega (arith, p.aligned);
    done =
        subst
          (λ rows.
            IsDone first (wm + hour_secs) hot (insert_all (groups (wm + hour_secs) rows) t.hourly))
          (sym p.same_hot) (insert_all-IsDone first wm hot t.hourly p.aligned p.right p.done);
  },
  refl,
)
stored-Rolled first wm hot t (some e) p = (
  record {
    same_hot = p.same_hot;
    right =
        subst (λ rows. IsRight hot (insert_all (groups (wm + hour_secs) rows) t.hourly))
          (sym p.same_hot) (insert_all-IsRight (wm + hour_secs) hot t.hourly p.right);
    aligned = p.aligned;
    done =
        subst (λ rows. IsDone first wm hot (insert_all (groups (wm + hour_secs) rows) t.hourly))
          (sym p.same_hot)
          (insert_again-IsDone first wm (wm + hour_secs) hot t.hourly p.right p.done);
  },
  refl,
)

insert_rows-either :
    (db : RoundAnswers) (h : ℕ) (rows : Hourly) (t : Tables)
    → (insert_rows db h rows t
        ≡ store_watermark db.stores h (record t { hourly = insert_all rows t.hourly }))
      ⊎ ((e : Text) × (insert_rows db h rows t ≡ (some e, t)))
unfolding insert_rows insert_all
insert_rows-either db h [] t = inl refl
insert_rows-either db h (row ∷ rows) t = elim (Option-cases db.inserts) [
  | inr (e, refused) ↦ inr (e, rw (refused) refl)
  | inl stored ↦ inl (rw (stored) refl)
]

pub roll_hour-Rolled :
    (first wm : ℕ) (hot : List HotRow) (t : Tables) (db : RoundAnswers)
    → Progress first wm hot t
    → Rolled first wm hot t (roll_hour db (wm + hour_secs) t)
unfolding roll_hour insert_groups
roll_hour-Rolled first wm hot t db p = elim (Option-cases db.reads) [
  | inr (e, is) ↦ rw (is) (p, refl)
  | inl is ↦ elim (insert_rows-either db (wm + hour_secs) (groups (wm + hour_secs) t.hot) t) [
    | inr (e, refused) ↦ rw (is, refused) (p, refl)
    | inl stored ↦ rw (is, stored) (stored-Rolled first wm hot t db.stores p)
  ]
]

-- The watermark that a call finds: none yet, or the hour it starts behind.
abbrev Found : ℕ → Tables → Type 0
Found wm t = (t.watermark ≡ 0) ⊎ (t.watermark ≡ wm)

Progress-Exact :
    (first wm : ℕ) (hot : List HotRow) (t : Tables)
    → Progress first wm hot t
    → Found wm t
    → Exact first hot t
Progress-Exact first wm hot t p (inl e) = record {
  same_hot = p.same_hot;
  right = p.right;
  up_to = inl e;
}
Progress-Exact first wm hot t p (inr e) = record {
  same_hot = p.same_hot;
  right = p.right;
  up_to =
      inr (
        subst (λ w. (w % hour_secs ≡ 0) × IsDone first w hot t.hourly) (sym e) (p.aligned, p.done));
}

go_on-Exact :
    (first wm : ℕ) (hot : List HotRow) (t : Tables) (r : Ended) (next : Tables → Ended)
    → Found wm t
    → Rolled first wm hot t r
    → ((t' : Tables)
        → Progress first (wm + hour_secs) hot t'
        → Found (wm + hour_secs) t'
        → Exact first hot (next t').1)
    → Exact first hot (go_on r next).1
unfolding go_on
go_on-Exact first wm hot t (none, t') next found rolled more = more t' rolled.0 (inr rolled.1)
go_on-Exact first wm hot t (some e, t') next found rolled more =
    Progress-Exact first wm hot t' rolled.0 (same found)
  where
    same : Found wm t → Found wm t'
    same (inl z) = inl (rolled.1 ∙ z)
    same (inr z) = inr (rolled.1 ∙ z)

roll_hours-Exact :
    (first : ℕ) (hot : List HotRow) (db : ℕ → RoundAnswers) (n wm : ℕ) (t : Tables)
    → Progress first wm hot t
    → Found wm t
    → Exact first hot (roll_hours db n (wm + hour_secs) t).1
unfolding roll_hours
roll_hours-Exact first hot db zero wm t p found = Progress-Exact first wm hot t p found
roll_hours-Exact first hot db (suc n) wm t p found =
    go_on-Exact first wm hot t (roll_hour (db (wm + hour_secs)) (wm + hour_secs) t)
      (roll_hours db n (wm + hour_secs + hour_secs)) found
      (roll_hour-Rolled first wm hot t (db (wm + hour_secs)) p)
      (λ t' p' found'. roll_hours-Exact first hot db n (wm + hour_secs) t' p' found')

-- The hour before the first of the hot rows.
abbrev pub first_hour : List HotRow → ℕ
first_hour hot = min_bucket hot / hour_secs * hour_secs - hour_secs

hour_before : (b : ℕ) → (b / hour_secs * hour_secs - hour_secs) % hour_secs ≡ 0
hour_before b = omega arith

pub at_start :
    (bucket : ℕ) (hot : List HotRow) (t : Tables)
    → t.hot ≡ hot
    → IsRight hot t.hourly
    → Progress
        (bucket / hour_secs * hour_secs - hour_secs)
        (bucket / hour_secs * hour_secs - hour_secs)
        hot
        t
at_start bucket hot t same right = record {
  same_hot = same;
  right = right;
  aligned = hour_before bucket;
  done = λ k after within whole. absurd (omega (arith, after, within));
}

first_roll-Exact :
    (hot : List HotRow) (db : ℕ → RoundAnswers) (stores : Option Text) (bucket target : ℕ)
    (t : Tables)
    → 0 < bucket
    → t.hot ≡ hot
    → IsRight hot t.hourly
    → t.watermark ≡ 0
    → Exact
        (bucket / hour_secs * hour_secs - hour_secs)
        hot
        (first_roll db stores bucket target t).1
unfolding first_roll roll_from
first_roll-Exact hot db stores zero target t rows same right fresh = absurd (omega (arith, rows))
first_roll-Exact hot db stores (suc b) target t rows same right fresh =
    roll_hours-Exact first hot db ((target - first) / hour_secs) first t
      (at_start (suc b) hot t same right) (inl fresh)
  where
    first : ℕ
    first = suc b / hour_secs * hour_secs - hour_secs

later_roll-Exact :
    (first : ℕ) (hot : List HotRow) (db : ℕ → RoundAnswers) (target : ℕ) (t : Tables)
    → Exact first hot t
    → ¬ (t.watermark ≡ 0)
    → Exact first hot (roll_from db t.watermark target t).1
unfolding roll_from
later_roll-Exact first hot db target t x going = elim x.up_to [
  | inl z ↦ absurd (going z)
  | inr p ↦
      roll_hours-Exact first hot db ((target - t.watermark) / hour_secs) t.watermark t
        (record { same_hot = x.same_hot; right = x.right; aligned = p.0; done = p.1 }) (inr refl)
]

rollup_once-Exact :
    (hot : List HotRow) (db : ℕ → RoundAnswers) (reads stores : Option Text) (now : ℕ) (t : Tables)
    → 0 < min_bucket hot
    → Exact (first_hour hot) hot t
    → Exact (first_hour hot) hot (rollup_once db reads stores now t).1
unfolding rollup_once
rollup_once-Exact hot db reads stores now t rows x = elim (Bool-cases (nat_beq t.watermark 0)) [
  | inl e ↦ elim (Option-cases reads) [
    | inr (error, fails) ↦ simp (e, fails) x
    | inl read ↦
        simp (e, read, x.same_hot)
          (first_roll-Exact hot db stores (min_bucket hot) (now / hour_secs * hour_secs - hour_secs)
            t rows x.same_hot x.right ((nat_beq_iff t.watermark 0).0 e))
  ]
  | inr e ↦ simp (e) (
      later_roll-Exact (first_hour hot) hot db (now / hour_secs * hour_secs - hour_secs) t x
        (λ z. ground (arith, e, z)))
]

-- One call of the daily maintenance, with what it meets.
pub record RollupCall : Type 0 where
  pub rounds : ℕ → RoundAnswers
  pub reads : Option Text
  pub stores : Option Text
  pub now : ℕ

abbrev pub rollups : List RollupCall → Tables → Tables
rollups [] t = t
rollups (c ∷ calls) t = rollups calls (rollup_once c.rounds c.reads c.stores c.now t).1

-- Over hot rows that stay as they are, and however many calls fail at whatever statement, the hourly
-- table never holds a wrong row, and once a watermark is stored it holds for every hour behind the
-- first up to the watermark exactly the sums of that hour's hot rows: each hour is counted once.
pub rollups-Exact :
    (hot : List HotRow) (calls : List RollupCall) (t : Tables)
    → 0 < min_bucket hot
    → Exact (first_hour hot) hot t
    → Exact (first_hour hot) hot (rollups calls t)
rollups-Exact hot [] t rows x = x
rollups-Exact hot (c ∷ calls) t rows x =
    rollups-Exact hot calls (rollup_once c.rounds c.reads c.stores c.now t).1 rows
      (rollup_once-Exact hot c.rounds c.reads c.stores c.now t rows x)
