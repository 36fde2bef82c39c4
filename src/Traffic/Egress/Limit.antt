-- ===== src/Traffic/Egress/Limit.antt =====
-- However adding and flushing interleave, the collector holds at most 20000 keys.
use zenith_panel.Common.{
  ℕ, suc, ◌+◌, ◌≤◌, ◌≡◌, refl, [], ◌∷◌, Option, true, Text, Result, ok, err, length, is_some, arith,
  Bool-cases, inl, inr, leb,
}
use zenith_panel.Common.Assoc.{lookup, length-assign-le, length-assign_present}
use zenith_panel.Traffic.Egress.{
  DestKey, DestStat, Stats, EgressCollector, World, max_egress_pending_keys, batch_size, accumulate,
  is_full, put, dest_key, is_zero, add, fill, take_batch, upsert_all, merge_dest_stats, after_write,
  write_batch, key_eq,
}

-- What happens to a collector: somebody adds a delta, a flush takes a batch (one flush runs at a
-- time) or ends its transaction.
pub data Step : World → World → Type 0 where
  adds :
      (now : ℕ) (k : DestKey) (d : DestStat) {w : World}
      → Step w (record w { collector = add now k d w.collector })
  takes : {w : World} → w.batch ≡ [] → Step w (take_batch w)
  writes : (refuses : DestKey → Option Text) {w : World} → Step w (write_batch refuses w)

pub data Steps : World → World → Type 0 where
  stop : {w : World} → Steps w w
  go : {u v w : World} → Step u v → Steps v w → Steps u w

pub record IsWithin (w : World) : Type 0 where
  pub counted : w.collector.in_flight ≡ length w.batch
  pub room :
      length w.collector.pending + length w.collector.retry + length w.batch
      ≤ max_egress_pending_keys

length-accumulate-le :
    (k : DestKey) (d : DestStat) (m : Stats) → length (accumulate k d m) ≤ suc (length m)
unfolding accumulate
length-accumulate-le k d m = length-assign-le k _ m

length-accumulate_present :
    (k : DestKey) (d : DestStat) (m : Stats)
    → is_some (lookup k m) ≡ true
    → length (accumulate k d m) ≡ length m
unfolding accumulate
length-accumulate_present k d m = length-assign_present k _ m

put-room :
    (k : DestKey) (d : DestStat) (c : EgressCollector) (batch : ℕ)
    → c.in_flight ≡ batch
    → length c.pending + length c.retry + batch ≤ max_egress_pending_keys
    → ((put k d c).in_flight ≡ batch)
      × (length (put k d c).pending + length (put k d c).retry + batch ≤ max_egress_pending_keys)
unfolding put is_full
put-room k d c batch counted room =
    ground (arith, length-accumulate-le k d c.pending, length-accumulate_present k d c.pending)

add-room :
    (now : ℕ) (k : DestKey) (d : DestStat) (c : EgressCollector) (batch : ℕ)
    → c.in_flight ≡ batch
    → length c.pending + length c.retry + batch ≤ max_egress_pending_keys
    → ((add now k d c).in_flight ≡ batch)
      × (length (add now k d c).pending + length (add now k d c).retry + batch
          ≤ max_egress_pending_keys)
unfolding add
add-room now k d c batch counted room = elim (Bool-cases (is_zero d)) [
  | inl e ↦ rw (e, add) (counted, room)
  | inr e ↦ rw (e, add) (put-room (dest_key now k) d c batch counted room)
]

-- Filling moves keys from the source to the batch, and some of them meet.
pub length-fill :
    (batch source : Stats)
    → length (fill batch source).0 + length (fill batch source).1 ≤ length batch + length source
unfolding fill
length-fill batch [] = omega arith
length-fill batch ((k, v) ∷ source) = elim (Bool-cases (leb batch_size (length batch))) [
  | inl e ↦ simp (e) (omega arith)
  | inr e ↦
      simp (e)
        (omega (arith, length-fill (accumulate k v batch) source, length-accumulate-le k v batch))
]

length-merge : (dst src : Stats) → length (merge_dest_stats dst src) ≤ length dst + length src
unfolding merge_dest_stats
length-merge dst [] = omega arith
length-merge dst ((k, v) ∷ src) =
    omega (arith, length-merge (accumulate k v dst) src, length-accumulate-le k v dst)

take_batch-IsWithin : (w : World) → IsWithin w → w.batch ≡ [] → IsWithin (take_batch w)
unfolding take_batch
take_batch-IsWithin w i empty =
    let c = w.collector in
    let one = length-fill [] c.retry in
    let two = length-fill (fill [] c.retry).0 c.pending in
    record { counted = refl; room = omega (arith, one, two, i.room) }

after_write-IsWithin : (w : World) (r : Result Stats) → IsWithin w → IsWithin (after_write w r)
unfolding after_write
after_write-IsWithin w (ok rows) i = record { counted = refl; room = omega (arith, i.room) }
after_write-IsWithin w (err e) i = record {
  counted = refl;
  room = omega (arith, i.room, length-merge w.collector.retry w.batch);
}

step-IsWithin : {v w : World} → Step v w → IsWithin v → IsWithin w
unfolding write_batch
step-IsWithin (adds now k d {w}) i =
    let kept = add-room now k d w.collector (length w.batch) i.counted i.room in
    record { counted = kept.0; room = kept.1 }
step-IsWithin (takes {w} empty) i = take_batch-IsWithin w i empty
step-IsWithin (writes refuses {w}) i = after_write-IsWithin w (upsert_all refuses w.batch w.rows) i

-- However adding, taking batches and writing them interleave, the pending keys, the keys to retry
-- and the batch in flight are together at most 20000, and `inFlight` counts the batch.
pub steps-IsWithin : {v w : World} → Steps v w → IsWithin v → IsWithin w
steps-IsWithin stop i = i
steps-IsWithin (go s t) i = steps-IsWithin t (step-IsWithin s i)
