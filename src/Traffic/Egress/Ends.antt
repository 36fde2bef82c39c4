-- ===== src/Traffic/Egress/Ends.antt =====
-- How many rounds a flush takes that no `Add` interrupts.
use zenith_panel.Common.{
  ℕ, zero, suc, ◌+◌, ◌≤◌, ◌<◌, arith, ◌≡◌, refl, List, [], ◌∷◌, Option, true, ◌&&◌, ◌==◌, nat_eq,
  Result, ok, err, Text, Bool-cases, inl, inr, leb, length, is_some,
}
use zenith_panel.Traffic.Clash.{DestAggKey}
use zenith_panel.Traffic.Delta.{Delta}
use zenith_panel.Common.Assoc.{length-assign-le}
use zenith_panel.Traffic.Egress.{
  put, dest_key, flow_key, add_flow, DestKey, DestStat, Stats, World, FlushCall, batch_size,
  accumulate, fill, take_batch, upsert_all, after_write, write_batch, key_eq, add, add_drained,
  on_batch, on_write, flush_loop, flush,
}

-- What a flush has still to write.
abbrev pub left : World → ℕ
left w = length w.collector.retry + length w.collector.pending

length-fill-rest : (batch source : Stats) → length (fill batch source).1 ≤ length source
unfolding fill
length-fill-rest batch [] = omega arith
length-fill-rest batch ((k, v) ∷ source) = elim (Bool-cases (leb batch_size (length batch))) [
  | inl e ↦ simp (e) (omega arith)
  | inr e ↦ simp (e) (omega (arith, length-fill-rest (accumulate k v batch) source))
]

-- A batch that is empty takes what there is.
fill-takes :
    (k : DestKey) (v : DestStat) (source : Stats)
    → length (fill [] ((k, v) ∷ source)).1 ≤ length source
unfolding fill
fill-takes k v source = length-fill-rest (accumulate k v []) source

-- A round that finds something takes some of it.
take-both :
    (retry pending : Stats)
    → ¬ ((fill (fill [] retry).0 pending).0 ≡ [])
    → length (fill [] retry).1 + length (fill (fill [] retry).0 pending).1
      < length retry + length pending
unfolding fill
take-both [] [] full = absurd (full refl)
take-both [] ((k, v) ∷ pending) full = omega (arith, fill-takes k v pending)
take-both ((k, v) ∷ retry) pending full =
    omega (arith, fill-takes k v retry, length-fill-rest (fill [] ((k, v) ∷ retry)).0 pending)

pub take_batch-left : (w : World) → ¬ ((take_batch w).batch ≡ []) → left (take_batch w) < left w
unfolding take_batch
take_batch-left w full = take-both w.collector.retry w.collector.pending full

pub written-left :
    (refuses : DestKey → Option Text) (w : World) (rows : Stats)
    → upsert_all refuses w.batch w.rows ≡ ok rows
    → left (write_batch refuses w) ≡ left w
unfolding write_batch after_write
written-left refuses w rows is = rw (is) refl

pub after_write-empty : (w : World) (r : Result Stats) → (after_write w r).batch ≡ []
unfolding after_write
after_write-empty w (ok rows) = refl
after_write-empty w (err e) = refl

-- What the rest of the loop needs of one round.
on_batch-is_some :
    (batch : Stats) (w : World) (next : Option World)
    → (¬ (batch ≡ []) → is_some next ≡ true)
    → is_some (on_batch batch w next) ≡ true
unfolding on_batch
on_batch-is_some [] w next more = refl
on_batch-is_some (x ∷ batch) w next more = more (λ e. ground (arith, e))

on_write-is_some :
    (r : Result Stats) (w : World) (next : Option World)
    → ((rows : Stats) → r ≡ ok rows → is_some next ≡ true)
    → is_some (on_write r w next) ≡ true
unfolding on_write
on_write-is_some (ok rows) w next more = more rows refl
on_write-is_some (err e) w next more = refl

-- Every round that goes on takes a key.
flush_loop-is_some :
    (call : FlushCall) (fuel n : ℕ) (w : World)
    → left w < fuel
    → is_some (flush_loop call fuel n w) ≡ true
unfolding flush_loop write_batch
flush_loop-is_some call zero n w short = absurd (omega (arith, short))
flush_loop-is_some call (suc fuel) n w short = elim (Bool-cases (call.expired n)) [
  | inl e ↦ rw (e, flush_loop, is_some) refl
  | inr e ↦
      let taken = take_batch w in
      let written = write_batch (call.refuses n) taken in
      rw (e, flush_loop)
        (on_batch-is_some taken.batch taken _ (λ full.
          on_write-is_some (upsert_all (call.refuses n) taken.batch taken.rows) written _ (λ rows r.
            flush_loop-is_some call fuel (suc n) written (
              omega (
                arith,
                short,
                take_batch-left w full,
                written-left (call.refuses n) taken rows r,
              )))))
]

length-accumulate-le :
    (k : DestKey) (d : DestStat) (m : Stats) → length (accumulate k d m) ≤ suc (length m)
unfolding accumulate
length-accumulate-le k d m = length-assign-le k _ m

put-left :
    (k : DestKey) (d : DestStat) (w : World)
    → left (record w { collector = put k d w.collector }) ≤ suc (left w)
unfolding put
put-left k d w = ground (arith, length-accumulate-le k d w.collector.pending)

add-left :
    (now : ℕ) (k : DestKey) (d : DestStat) (w : World)
    → left (record w { collector = add now k d w.collector }) ≤ suc (left w)
unfolding add
add-left now k d w = ground (arith, put-left (dest_key now k) d w)

add_flow-left :
    (now : ℕ) (k : DestAggKey) (d : Delta) (w : World)
    → left (record w { collector = add_flow now k d w.collector }) ≤ suc (left w)
unfolding add_flow
add_flow-left now k d w = elim (Bool-cases (d.up == 0 && d.down == 0)) [
  | inl e ↦ simp (e) (omega arith)
  | inr e ↦ simp (e) (add-left now (flow_key k) (record { bytes = d; hits = 1 }) w)
]

-- The world in which the loop starts.
abbrev pub started : FlushCall → World → World
started call w = record w { collector = add_drained call.now call.drained w.collector }

pub add_drained-left :
    (now : ℕ) (drained : List (DestAggKey × Delta)) (w : World)
    → left (record w { collector = add_drained now drained w.collector }) ≤ left w + length drained
unfolding add_drained
add_drained-left now [] w = omega arith
add_drained-left now ((k, d) ∷ drained) w = omega (
  arith,
  add_drained-left now drained (record w { collector = add_flow now k d w.collector }),
  add_flow-left now k d w,
)

-- A flush ends, whichever transactions fail and whenever its time is over: one round for each key
-- that waits or comes from the aggregator, and one more, are enough.
pub flush-is_some :
    (call : FlushCall) (fuel : ℕ) (w : World)
    → left w + length call.drained < fuel
    → is_some (flush call fuel w) ≡ true
unfolding flush
flush-is_some call fuel w enough = elim (Bool-cases call.enabled) [
  | inl e ↦
      rw (e, flush)
        (flush_loop-is_some call fuel zero (started call w)
          (omega (arith, enough, add_drained-left call.now call.drained w)))
  | inr e ↦ rw (e, flush, is_some) refl
]
