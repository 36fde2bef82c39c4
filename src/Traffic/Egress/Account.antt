-- ===== src/Traffic/Egress/Account.antt =====
-- No byte and no hit that was accepted is lost or counted twice, whichever transactions fail.
use zenith_panel.Common.{
  ℕ, add_u64, arith, ◌≡◌, refl, ◌∙◌, sym, ap, [], ◌∷◌, Option, Result, ok, err, Text, if◌then◌else◌,
  Bool-cases, inl, inr, Option-cases, leb, length,
}
use zenith_panel.Common.Sums.{sum, sum_nil, sum-credit}
use zenith_panel.Traffic.Egress.{
  DestKey, DestStat, Stats, EgressCollector, World, batch_size, add_stat, zero_stat, stat_addition,
  add_stat_assoc, accumulate, is_zero, is_full, put, dest_key, add, fill, take_batch, upsert_all,
  merge_dest_stats, after_write, write_batch, key_eq,
}
use zenith_panel.Traffic.Egress.Limit.{Step, Steps, adds, takes, writes, stop, go}

abbrev pub total : Stats → DestStat
total m = sum stat_addition m

total-accumulate :
    (k : DestKey) (d : DestStat) (m : Stats) → total (accumulate k d m) ≡ add_stat (total m) d
unfolding accumulate
total-accumulate k d m = sum-credit stat_addition k d m

-- Everything that waits, in either map.
abbrev pub waiting : EgressCollector → DestStat
waiting c = add_stat (total c.retry) (total c.pending)

-- Everything that waits, is being written or is written.
abbrev pub holdings : World → DestStat
holdings w = add_stat (add_stat (total w.rows) (total w.batch)) (waiting w.collector)

-- An equation of words, column by column.
columns :
    (a b : DestStat)
    → a.bytes.up ≡ b.bytes.up
    → a.bytes.down ≡ b.bytes.down
    → a.hits ≡ b.hits
    → a ≡ b
columns a b up down hits = cc (up, down, hits)

taken_u64 :
    (r b2 r1 p2 b1 rt p : ℕ)
    → add_u64 b2 p2 ≡ add_u64 b1 p
    → add_u64 b1 r1 ≡ add_u64 0 rt
    → add_u64 (add_u64 r b2) (add_u64 r1 p2) ≡ add_u64 (add_u64 r 0) (add_u64 rt p)
taken_u64 r b2 r1 p2 b1 rt p e f = omega (arith, e, f)

taken :
    (r b2 r1 p2 b1 rt p : DestStat)
    → add_stat b2 p2 ≡ add_stat b1 p
    → add_stat b1 r1 ≡ add_stat zero_stat rt
    → add_stat (add_stat r b2) (add_stat r1 p2) ≡ add_stat (add_stat r zero_stat) (add_stat rt p)
taken r b2 r1 p2 b1 rt p e f =
    columns _ _
      (taken_u64 r.bytes.up b2.bytes.up r1.bytes.up p2.bytes.up b1.bytes.up rt.bytes.up p.bytes.up
        (ap (λ (s : DestStat). s.bytes.up) e) (ap (λ (s : DestStat). s.bytes.up) f))
      (taken_u64 r.bytes.down b2.bytes.down r1.bytes.down p2.bytes.down b1.bytes.down rt.bytes.down
        p.bytes.down (ap (λ (s : DestStat). s.bytes.down) e)
        (ap (λ (s : DestStat). s.bytes.down) f))
      (taken_u64 r.hits b2.hits r1.hits p2.hits b1.hits rt.hits p.hits
        (ap (λ (s : DestStat). s.hits) e) (ap (λ (s : DestStat). s.hits) f))

put_back_u64 :
    (r b rt p : ℕ)
    → add_u64 (add_u64 r 0) (add_u64 (add_u64 rt b) p) ≡ add_u64 (add_u64 r b) (add_u64 rt p)
put_back_u64 r b rt p = omega arith

put_back :
    (r b rt p : DestStat)
    → add_stat (add_stat r zero_stat) (add_stat (add_stat rt b) p)
      ≡ add_stat (add_stat r b) (add_stat rt p)
put_back r b rt p =
    columns _ _ (put_back_u64 r.bytes.up b.bytes.up rt.bytes.up p.bytes.up)
      (put_back_u64 r.bytes.down b.bytes.down rt.bytes.down p.bytes.down)
      (put_back_u64 r.hits b.hits rt.hits p.hits)

pub total-fill :
    (batch source : Stats)
    → add_stat (total (fill batch source).0) (total (fill batch source).1)
      ≡ add_stat (total batch) (total source)
unfolding fill
total-fill batch [] = refl
total-fill batch ((k, v) ∷ source) = elim (Bool-cases (leb batch_size (length batch))) [
  | inl e ↦ simp (e) refl
  | inr e ↦ simp (e) (
      total-fill (accumulate k v batch) source
      ∙ ap (λ z. add_stat z (total source)) (total-accumulate k v batch)
      ∙ add_stat_assoc (total batch) v (total source))
]

total-merge :
    (dst src : Stats) → total (merge_dest_stats dst src) ≡ add_stat (total dst) (total src)
unfolding merge_dest_stats
total-merge dst [] = sym (sum_nil stat_addition dst)
total-merge dst ((k, v) ∷ src) =
    total-merge (accumulate k v dst) src
    ∙ ap (λ z. add_stat z (total src)) (total-accumulate k v dst)
    ∙ add_stat_assoc (total dst) v (total src)

-- What the transaction leaves in the table, whose old rows stay where it fails.
abbrev Written : Stats → Stats → Result Stats → Type 0
Written batch rows (ok rows') = total rows' ≡ add_stat (total rows) (total batch)
Written batch rows (err e) = Unit

Written-carry :
    (k : DestKey) (v : DestStat) (batch rows : Stats) (r : Result Stats)
    → Written batch (accumulate k v rows) r
    → Written ((k, v) ∷ batch) rows r
Written-carry k v batch rows (ok rows') is =
    is
    ∙ ap (λ z. add_stat z (total batch)) (total-accumulate k v rows)
    ∙ add_stat_assoc (total rows) v (total batch)
Written-carry k v batch rows (err e) is = tt

upsert_all-Written :
    (refuses : DestKey → Option Text) (batch rows : Stats)
    → Written batch rows (upsert_all refuses batch rows)
unfolding upsert_all
upsert_all-Written refuses [] rows = sym (sum_nil stat_addition rows)
upsert_all-Written refuses ((k, v) ∷ batch) rows = elim (Option-cases (refuses k)) [
  | inr (x, e) ↦ rw (e, upsert_all) tt
  | inl e ↦
      rw (e, upsert_all)
        (Written-carry k v batch rows (upsert_all refuses batch (accumulate k v rows))
          (upsert_all-Written refuses batch (accumulate k v rows)))
]

pub take_batch-holdings : (w : World) → w.batch ≡ [] → holdings (take_batch w) ≡ holdings w
unfolding take_batch
take_batch-holdings w empty =
    let one = fill [] w.collector.retry in
    let two = fill one.0 w.collector.pending in
    taken (total w.rows) (total two.0) (total one.1) (total two.1) (total one.0)
      (total w.collector.retry) (total w.collector.pending) (total-fill one.0 w.collector.pending)
      (total-fill [] w.collector.retry)
    ∙ ap (λ b. add_stat (add_stat (total w.rows) (total b)) (waiting w.collector)) (sym empty)

after_write-holdings :
    (w : World) (r : Result Stats)
    → Written w.batch w.rows r
    → holdings (after_write w r) ≡ holdings w
unfolding after_write
after_write-holdings w (ok rows') is =
    ap (λ z. add_stat z (waiting w.collector)) (sum_nil stat_addition rows' ∙ is)
after_write-holdings w (err e) is =
    ap (λ z. add_stat (add_stat (total w.rows) zero_stat) (add_stat z (total w.collector.pending)))
      (total-merge w.collector.retry w.batch)
    ∙ put_back (total w.rows) (total w.batch) (total w.collector.retry) (total w.collector.pending)

pub write_batch-holdings :
    (refuses : DestKey → Option Text) (w : World) → holdings (write_batch refuses w) ≡ holdings w
unfolding write_batch
write_batch-holdings refuses w =
    after_write-holdings w (upsert_all refuses w.batch w.rows)
      (upsert_all-Written refuses w.batch w.rows)

-- What of a delta is accepted: nothing where it is empty or a new key finds no room.
abbrev pub accepted : ℕ → DestKey → DestStat → EgressCollector → DestStat
accepted now k d c =
    if is_zero d then zero_stat else if is_full (dest_key now k) c then zero_stat else d

waiting_nil : (c : EgressCollector) → add_stat (waiting c) zero_stat ≡ waiting c
waiting_nil c =
    add_stat_assoc (total c.retry) (total c.pending) zero_stat
    ∙ ap (add_stat (total c.retry)) (sum_nil stat_addition c.pending)

put-waiting :
    (k : DestKey) (d : DestStat) (c : EgressCollector)
    → waiting (put k d c) ≡ add_stat (waiting c) (if is_full k c then zero_stat else d)
unfolding put
put-waiting k d c = elim (Bool-cases (is_full k c)) [
  | inl e ↦ rw (e, put) (sym (waiting_nil c))
  | inr e ↦
      rw (e, put)
        (ap (add_stat (total c.retry)) (total-accumulate k d c.pending)
          ∙ sym (add_stat_assoc (total c.retry) (total c.pending) d))
]

add-waiting :
    (now : ℕ) (k : DestKey) (d : DestStat) (c : EgressCollector)
    → waiting (add now k d c) ≡ add_stat (waiting c) (accepted now k d c)
unfolding add
add-waiting now k d c = elim (Bool-cases (is_zero d)) [
  | inl e ↦ rw (e, add) (sym (waiting_nil c))
  | inr e ↦ rw (e, add) (put-waiting (dest_key now k) d c)
]

add-holdings :
    (now : ℕ) (k : DestKey) (d : DestStat) (w : World)
    → holdings (record w { collector = add now k d w.collector })
      ≡ add_stat (holdings w) (accepted now k d w.collector)
add-holdings now k d w =
    ap (add_stat (add_stat (total w.rows) (total w.batch))) (add-waiting now k d w.collector)
    ∙ sym (
        add_stat_assoc (add_stat (total w.rows) (total w.batch)) (waiting w.collector)
          (accepted now k d w.collector))

-- What one step accepts, and what an interleaving does.
abbrev pub step_accepts : {v w : World} → Step v w → DestStat
step_accepts (adds now k d {w}) = accepted now k d w.collector
step_accepts (takes empty) = zero_stat
step_accepts (writes refuses) = zero_stat

abbrev pub steps_accept : {v w : World} → Steps v w → DestStat
steps_accept stop = zero_stat
steps_accept (go s t) = add_stat (step_accepts s) (steps_accept t)

holdings_nil : (w : World) → add_stat (holdings w) zero_stat ≡ holdings w
holdings_nil w =
    add_stat_assoc (add_stat (total w.rows) (total w.batch)) (waiting w.collector) zero_stat
    ∙ ap (add_stat (add_stat (total w.rows) (total w.batch))) (waiting_nil w.collector)

step-holdings : {v w : World} (s : Step v w) → holdings w ≡ add_stat (holdings v) (step_accepts s)
step-holdings (adds now k d {w}) = add-holdings now k d w
step-holdings (takes {w} empty) = take_batch-holdings w empty ∙ sym (holdings_nil w)
step-holdings (writes refuses {w}) = write_batch-holdings refuses w ∙ sym (holdings_nil w)

-- However adding, taking batches and writing them interleave, and whichever transactions fail, what
-- is in the table, in flight, pending and to be retried adds up to what it was and what was
-- accepted: no byte and no hit is lost or counted twice.
pub steps-holdings :
    {v w : World} (t : Steps v w) → holdings w ≡ add_stat (holdings v) (steps_accept t)
steps-holdings {v} stop = sym (holdings_nil v)
steps-holdings {v} (go s t) =
    steps-holdings t
    ∙ ap (λ z. add_stat z (steps_accept t)) (step-holdings s)
    ∙ add_stat_assoc (holdings v) (step_accepts s) (steps_accept t)
