-- ===== src/Traffic/Egress.antt =====
-- `EgressCollector` of traffic/egress.go: bytes per user and destination wait in two maps until a
-- transaction has written them to the hot table. A method that holds the lock is one step; `flush`
-- is the loop over such steps, and `World` holds what the loop carries between them. The counters
-- are 64-bit words (an int64 adds as a uint64 does). `flush` runs without an `Add` between its rounds;
-- what an `Add` meanwhile does is in the steps of Limit. The names that the resolvers look up are left
-- out: they are columns that nothing adds up.
pub mod Limit
pub mod Account
pub mod Ends
pub mod Drain
mod Tests
use zenith_panel.Common.{
  ℕ, zero, suc, ◌+◌, ◌*◌, ◌/◌, List, [], ◌∷◌, Option, none, some, Bool, true, false, not, ◌&&◌,
  Text, codes, text_eq, text_beq, text_beq_iff, nat_beq, nat_beq_iff, nat_eq, ltb, leb,
  if◌then◌else◌, ◌==◌, Eq, add_u64, Result, ok, err, length, take, is_some, arith, ◌≡◌, refl, ◌↔◌,
}
use zenith_panel.Common.Assoc.{lookup, assign}
use zenith_panel.Common.Sums.{Addition, or_nil}
use zenith_panel.Traffic.Delta.{Delta, add_delta}
use zenith_panel.Traffic.Clash.{zero_delta, DestAggKey}
use zenith_panel.Traffic.Clash.Totals.{add_delta_comm, add_delta_assoc}

pub record DestKey : Type 0 where
  pub instance_name : Text
  pub user : Text
  pub host : Text
  pub ip : Text
  pub direction : Text
  pub bucket : ℕ

pub record DestStat : Type 0 where
  pub bytes : Delta
  pub hits : ℕ

abbrev pub max_egress_pending_keys : ℕ
max_egress_pending_keys = 20000

abbrev pub bucket_secs : ℕ
bucket_secs = 300

abbrev pub batch_size : ℕ
batch_size = 32

pub key_beq : DestKey → DestKey → Bool
key_beq a b =
    text_beq a.instance_name b.instance_name
    && (text_beq a.user b.user
        && (text_beq a.host b.host
            && (text_beq a.ip b.ip
                && (text_beq a.direction b.direction && nat_beq a.bucket b.bucket))))

pub key_beq_iff : (a b : DestKey) → (key_beq a b ≡ true) ↔ (a ≡ b)
unfolding key_beq
key_beq_iff a b = ground (
  arith,
  text_beq_iff a.instance_name b.instance_name,
  text_beq_iff a.user b.user,
  text_beq_iff a.host b.host,
  text_beq_iff a.ip b.ip,
  text_beq_iff a.direction b.direction,
  nat_beq_iff a.bucket b.bucket,
)

instance abbrev pub key_eq : Eq DestKey
key_eq = record { equal = key_beq; equal_iff = key_beq_iff }

-- `cur.up += stat.up; cur.down += stat.down; cur.hits += stat.hits`.
abbrev pub add_stat : DestStat → DestStat → DestStat
add_stat a b = record { bytes = add_delta a.bytes b.bytes; hits = add_u64 a.hits b.hits }

abbrev pub zero_stat : DestStat
zero_stat = record { bytes = zero_delta; hits = 0 }

pub add_stat_comm : (a b : DestStat) → add_stat a b ≡ add_stat b a
add_stat_comm a b = cc (add_delta_comm a.bytes b.bytes, hits)
  where
    hits : add_u64 a.hits b.hits ≡ add_u64 b.hits a.hits
    hits = ground arith

pub add_stat_assoc : (a b c : DestStat) → add_stat (add_stat a b) c ≡ add_stat a (add_stat b c)
add_stat_assoc a b c = cc (add_delta_assoc a.bytes b.bytes c.bytes, hits)
  where
    hits : add_u64 (add_u64 a.hits b.hits) c.hits ≡ add_u64 a.hits (add_u64 b.hits c.hits)
    hits = omega arith

abbrev pub stat_addition : Addition DestStat
stat_addition = record {
  nil = zero_stat;
  add = add_stat;
  add_comm = add_stat_comm;
  add_assoc = add_stat_assoc;
  add_nil = refl;
}

abbrev pub Stats : Type 0
Stats = List (DestKey × DestStat)

-- `s := m[k]`, the additions and `m[k] = s`.
unfoldable pub accumulate : DestKey → DestStat → Stats → Stats
accumulate k d m = assign k (add_stat (or_nil stat_addition (lookup k m)) d) m

pub record EgressCollector : Type 0 where
  pub in_flight : ℕ
  pub pending : Stats
  pub retry : Stats
  pub dropped : ℕ
  pub retries : ℕ
  pub last_err : Text

abbrev pub new_egress_collector : EgressCollector
new_egress_collector = record {
  in_flight = 0;
  pending = [];
  retry = [];
  dropped = 0;
  retries = 0;
  last_err = [];
}

unfoldable pub is_zero : DestStat → Bool
is_zero d = d.bytes.up == 0 && (d.bytes.down == 0 && d.hits == 0)

-- The key of one delta at the time `now`, every column cut to its width.
unfoldable pub dest_key : ℕ → DestKey → DestKey
dest_key now k = record {
  instance_name = take 128 k.instance_name;
  user = take 128 k.user;
  host = take 255 k.host;
  ip = take 45 k.ip;
  direction = take 32 k.direction;
  bucket = now / bucket_secs * bucket_secs;
}

-- A new key finds no room.
unfoldable pub is_full : DestKey → EgressCollector → Bool
is_full k c =
    not (is_some (lookup k c.pending))
    && leb max_egress_pending_keys (length c.pending + length c.retry + c.in_flight)

-- The locked part of `Add`.
unfoldable pub put : DestKey → DestStat → EgressCollector → EgressCollector
unfolding accumulate is_full
put k d c =
    if is_full k c
    then record c { dropped = add_u64 c.dropped 1 }
    else record c { pending = accumulate k d c.pending }

unfoldable pub add : ℕ → DestKey → DestStat → EgressCollector → EgressCollector
unfolding put dest_key is_zero
add now k d c = if is_zero d then c else put (dest_key now k) d c

-- A collector, the batch that a flush is writing, and the hot table.
pub record World : Type 0 where
  pub collector : EgressCollector
  pub batch : Stats
  pub rows : Stats

-- The inner loop of `Flush`: the batch, and what stays in the source. The keys of a map differ, so
-- that the entry visited is the one deleted.
unfoldable pub fill : Stats → Stats → Stats × Stats
unfolding accumulate
fill batch [] = (batch, [])
fill batch ((k, v) ∷ source) =
    if leb batch_size (length batch)
    then (batch, (k, v) ∷ source)
    else fill (accumulate k v batch) source

unfoldable pub take_batch : World → World
unfolding fill
take_batch w =
    let (b1, retry) = fill [] w.collector.retry in
    let (b2, pending) = fill b1 w.collector.pending in
    record w {
      collector = record w.collector { retry = retry; pending = pending; in_flight = length b2 };
      batch = b2;
    }

-- The body of the transaction; `refuses` says which upsert fails.
unfoldable pub upsert_all : (DestKey → Option Text) → Stats → Stats → Result Stats
unfolding accumulate
upsert_all refuses [] rows = ok rows
upsert_all refuses ((k, v) ∷ batch) rows = elim (refuses k) [
  | some e ↦ err e
  | none ↦ upsert_all refuses batch (accumulate k v rows)
]

unfoldable pub merge_dest_stats : Stats → Stats → Stats
unfolding accumulate
merge_dest_stats dst [] = dst
merge_dest_stats dst ((k, v) ∷ src) = merge_dest_stats (accumulate k v dst) src

-- The locked part behind the transaction.
unfoldable pub after_write : World → Result Stats → World
unfolding merge_dest_stats
after_write w (ok rows) = record {
  collector = record w.collector { in_flight = 0; last_err = [] };
  batch = [];
  rows = rows;
}
after_write w (err e) = record w {
  collector = record w.collector {
    in_flight = 0;
    retry = merge_dest_stats w.collector.retry w.batch;
    retries = add_u64 w.collector.retries 1;
    last_err = e;
  };
  batch = [];
}

unfoldable pub write_batch : (DestKey → Option Text) → World → World
unfolding upsert_all after_write
write_batch refuses w = after_write w (upsert_all refuses w.batch w.rows)

-- What one `Flush` meets: the setting, the aggregator's drained map, the time, and in each round of
-- the loop the deadline and the upsert that fails.
pub record FlushCall : Type 0 where
  pub enabled : Bool
  pub drained : List (DestAggKey × Delta)
  pub now : ℕ
  pub expired : ℕ → Bool
  pub refuses : ℕ → DestKey → Option Text

abbrev pub flow_key : DestAggKey → DestKey
flow_key k = record {
  instance_name = codes "sing-box";
  user = k.user;
  host = k.host;
  ip = k.ip;
  direction = codes "egress";
  bucket = 0;
}

-- One entry of the drained map.
unfoldable pub add_flow : ℕ → DestAggKey → Delta → EgressCollector → EgressCollector
unfolding add
add_flow now k d c =
    if d.up == 0 && d.down == 0 then c else add now (flow_key k) (record { bytes = d; hits = 1 }) c

unfoldable pub add_drained : ℕ → List (DestAggKey × Delta) → EgressCollector → EgressCollector
add_drained now [] c = c
add_drained now ((k, d) ∷ drained) c = add_drained now drained (add_flow now k d c)

-- The loop ends at an empty batch and at a failed transaction.
on_batch : Stats → World → Option World → Option World
on_batch [] w next = some w
on_batch (x ∷ batch) w next = next

on_write : Result Stats → World → Option World → Option World
on_write (ok rows) w next = next
on_write (err e) w next = some w

-- `none` where the fuel is used up.
unfoldable pub flush_loop : FlushCall → ℕ → ℕ → World → Option World
unfolding on_batch on_write take_batch write_batch
flush_loop call zero n w = none
flush_loop call (suc fuel) n w = elim (call.expired n) [
  | true ↦ some w
  | false ↦
      let taken = take_batch w in
      let written = write_batch (call.refuses n) taken in
      on_batch taken.batch taken (
        on_write (upsert_all (call.refuses n) taken.batch taken.rows) written
          (flush_loop call fuel (suc n) written))
]

unfoldable pub flush : FlushCall → ℕ → World → Option World
unfolding flush_loop add_drained
flush call fuel w =
    if call.enabled
    then flush_loop call fuel zero
        (record w { collector = add_drained call.now call.drained w.collector })
    else some (record w { collector = record w.collector { pending = []; retry = [] } })
