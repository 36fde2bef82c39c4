-- ===== src/Traffic/Rollup.antt =====
-- `RollupOnce` of traffic/egress.go: completed hours of the hot table are summed into the hourly
-- table, and a stored watermark says how far. The rows' columns are those that group or add up. A
-- stored watermark that is missing or no number counts as zero. Times are the seconds of a clock
-- that is past the first hour of 1970.
pub mod Hours
pub mod Once
pub mod Complete
mod Tests
use zenith_panel.Common.{
  ℕ, zero, suc, ◌+◌, ◌-◌, ◌*◌, ◌/◌, List, [], ◌∷◌, Option, none, some, Bool, true, false, ◌&&◌,
  Text, text_eq, text_beq, text_beq_iff, nat_beq, nat_beq_iff, nat_eq, ltb, leb, if◌then◌else◌,
  ◌==◌, Eq, Result, ok, err, is_some, arith, ◌≡◌, ◌↔◌,
}
use zenith_panel.Common.Assoc.{lookup, assign}
use zenith_panel.Common.Sums.{or_nil}
use zenith_panel.Traffic.Egress.{DestStat, add_stat, stat_addition}

abbrev pub hour_secs : ℕ
hour_secs = 3600

-- A row of the hot table; `asn` is filled in by a resolver.
pub record HotRow : Type 0 where
  pub bucket : ℕ
  pub instance_name : Text
  pub user : Text
  pub host : Text
  pub rdns : Text
  pub asn : Text
  pub direction : Text
  pub stat : DestStat

-- The unique columns of the hourly table.
pub record HourKey : Type 0 where
  pub hour : ℕ
  pub instance_name : Text
  pub user : Text
  pub host : Text
  pub asn : Text
  pub direction : Text

pub hour_key_beq : HourKey → HourKey → Bool
hour_key_beq a b =
    nat_beq a.hour b.hour
    && (text_beq a.instance_name b.instance_name
        && (text_beq a.user b.user
            && (text_beq a.host b.host
                && (text_beq a.asn b.asn && text_beq a.direction b.direction))))

pub hour_key_beq_iff : (a b : HourKey) → (hour_key_beq a b ≡ true) ↔ (a ≡ b)
unfolding hour_key_beq
hour_key_beq_iff a b = ground (
  arith,
  nat_beq_iff a.hour b.hour,
  text_beq_iff a.instance_name b.instance_name,
  text_beq_iff a.user b.user,
  text_beq_iff a.host b.host,
  text_beq_iff a.asn b.asn,
  text_beq_iff a.direction b.direction,
)

instance abbrev pub hour_key_eq : Eq HourKey
hour_key_eq = record { equal = hour_key_beq; equal_iff = hour_key_beq_iff }

abbrev pub Hourly : Type 0
Hourly = List (HourKey × DestStat)

pub record Tables : Type 0 where
  pub hot : List HotRow
  pub hourly : Hourly
  pub watermark : ℕ

-- `COALESCE(NULLIF(dest_host,''), dest_rdns)`.
host_of : Text → Text → Text
host_of [] rdns = rdns
host_of (c ∷ host) rdns = c ∷ host

group_of : ℕ → HotRow → HourKey
unfolding host_of
group_of h row = record {
  hour = h;
  instance_name = row.instance_name;
  user = row.user;
  host = host_of row.host row.rdns;
  asn = row.asn;
  direction = row.direction;
}

-- The rows of the hour `h`, grouped and added up.
unfoldable pub groups : ℕ → List HotRow → Hourly
unfolding group_of
groups h [] = []
groups h (row ∷ rows) =
    let rest = groups h rows in
    if leb h row.bucket && ltb row.bucket (h + hour_secs)
    then assign (group_of h row)
        (add_stat (or_nil stat_addition (lookup (group_of h row) rest)) row.stat) rest
    else rest

-- `ON CONFLICT DO NOTHING`.
insert_new : HourKey × DestStat → Hourly → Hourly
insert_new (k, v) m = if is_some (lookup k m) then m else assign k v m

unfoldable pub insert_all : Hourly → Hourly → Hourly
unfolding insert_new
insert_all [] m = m
insert_all (row ∷ rows) m = insert_all rows (insert_new row m)

-- What one round meets: a read, an insert and a stored setting that may fail.
pub record RoundAnswers : Type 0 where
  pub reads : Option Text
  pub inserts : Option Text
  pub stores : Option Text

-- A state with the error that ended the call.
abbrev pub Ended : Type 0
Ended = Option Text × Tables

store_watermark : Option Text → ℕ → Tables → Ended
store_watermark none h t = (none, record t { watermark = h })
store_watermark (some e) h t = (some e, t)

-- No row is inserted where there is none, and the insert cannot fail then.
unfoldable pub insert_rows : RoundAnswers → ℕ → Hourly → Tables → Ended
unfolding store_watermark insert_all
insert_rows db h [] t = store_watermark db.stores h t
insert_rows db h (row ∷ rows) t = elim db.inserts [
  | some e ↦ (some e, t)
  | none ↦ store_watermark db.stores h (record t { hourly = insert_all (row ∷ rows) t.hourly })
]

insert_groups : RoundAnswers → ℕ → Tables → Ended
unfolding insert_rows
insert_groups db h t = insert_rows db h (groups h t.hot) t

unfoldable pub roll_hour : RoundAnswers → ℕ → Tables → Ended
unfolding insert_groups
roll_hour db h t = elim db.reads [ some e ↦ (some e, t) | none ↦ insert_groups db h t ]

-- The loop of `n` hours from `h` on, which an error ends.
go_on : Ended → (Tables → Ended) → Ended
go_on (none, t) next = next t
go_on (some e, t) next = (some e, t)

unfoldable pub roll_hours : (ℕ → RoundAnswers) → ℕ → ℕ → Tables → Ended
unfolding go_on roll_hour
roll_hours db zero h t = (none, t)
roll_hours db (suc n) h t = go_on (roll_hour (db h) h t) (roll_hours db n (h + hour_secs))

-- `MIN(bucket)`, 0 for an empty table.
unfoldable pub min_bucket : List HotRow → ℕ
min_bucket [] = 0
min_bucket (row ∷ []) = row.bucket
min_bucket (row ∷ other ∷ rows) =
    let rest = min_bucket (other ∷ rows) in if leb row.bucket rest then row.bucket else rest

-- From the hour behind `wm` to `target`.
roll_from : (ℕ → RoundAnswers) → ℕ → ℕ → Tables → Ended
unfolding roll_hours
roll_from db wm target t = roll_hours db ((target - wm) / hour_secs) (wm + hour_secs) t

first_roll : (ℕ → RoundAnswers) → Option Text → ℕ → ℕ → Tables → Ended
unfolding roll_from store_watermark
first_roll db stores zero target t = store_watermark stores target t
first_roll db stores (suc bucket) target t =
    roll_from db (suc bucket / hour_secs * hour_secs - hour_secs) target t

-- A call at the second `now`: its rounds, and whether the query for the minimum and the first store
-- fail.
unfoldable pub rollup_once : (ℕ → RoundAnswers) → Option Text → Option Text → ℕ → Tables → Ended
unfolding first_roll min_bucket
rollup_once db reads stores now t =
    let target = now / hour_secs * hour_secs - hour_secs in
    if nat_beq t.watermark 0
    then (elim reads [
      | some e ↦ (some e, t)
      | none ↦ first_roll db stores (min_bucket t.hot) target t
    ])
    else roll_from db t.watermark target t
