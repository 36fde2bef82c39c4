-- ===== src/Monitor/History.antt =====
-- The network history of monitor/history.go: a ring of the last 60 samples, from which an hourly
-- job takes the latest into a table. The clock is given in nanoseconds since the epoch; the rate of
-- a number of bytes over a time is floating-point arithmetic, a parameter.
pub mod Recent
mod Tests
use zenith_panel.Common.{
  ℕ, zero, suc, ◌+◌, ◌-◌, ◌/◌, ◌%◌, List, [], ◌∷◌, ◌++◌, Option, none, some, Bool, true, false,
  ◌&&◌, ◌||◌, not, nat_beq, ltb, leb, if◌then◌else◌, length, take, drop, keep_if,
}

pub record NetworkSample : Type 0 where
  pub timestamp : ℕ
  pub in_bytes : ℕ
  pub out_bytes : ℕ
  pub in_rate : ℕ
  pub out_rate : ℕ

abbrev pub ring_size : ℕ
ring_size = 60

-- What the monitor reads: the time and the two counters.
pub record Reading : Type 0 where
  pub now : ℕ
  pub net_in : ℕ
  pub net_out : ℕ

-- `lastTime` is zero before the first reading.
pub record NetworkHistory : Type 0 where
  pub ring : List NetworkSample
  pub ring_head : ℕ
  pub ring_full : Bool
  pub last_in : ℕ
  pub last_out : ℕ
  pub last_time : Option ℕ

abbrev pub zero_sample : NetworkSample
zero_sample = record { timestamp = 0; in_bytes = 0; out_bytes = 0; in_rate = 0; out_rate = 0 }

zero_samples : ℕ → List NetworkSample
zero_samples zero = []
zero_samples (suc n) = zero_sample ∷ zero_samples n

unfoldable pub empty_history : NetworkHistory
unfolding zero_samples
empty_history = record {
  ring = zero_samples ring_size;
  ring_head = 0;
  ring_full = false;
  last_in = 0;
  last_out = 0;
  last_time = none;
}

-- `ring[i] = s`.
set_at : ℕ → NetworkSample → List NetworkSample → List NetworkSample
set_at i s [] = []
set_at zero s (x ∷ xs) = s ∷ xs
set_at (suc i) s (x ∷ xs) = x ∷ set_at i s xs

module _ (rate : ℕ → ℕ → ℕ) where
  -- The rates since the reading before, where time has passed and no counter has gone back.
  rates : Option ℕ → ℕ → ℕ → Reading → ℕ × ℕ
  rates none last_in last_out x = (0, 0)
  rates (some t) last_in last_out x =
      if ltb t x.now && (leb last_in x.net_in && leb last_out x.net_out)
      then (rate (x.net_in - last_in) (x.now - t), rate (x.net_out - last_out) (x.now - t))
      else (0, 0)

  unfoldable pub sample : Option ℕ → ℕ → ℕ → Reading → NetworkSample
  unfolding rates
  sample t last_in last_out x =
      let (in_rate, out_rate) = rates t last_in last_out x in
      record {
        timestamp = x.now / 1000000;
        in_bytes = x.net_in;
        out_bytes = x.net_out;
        in_rate = in_rate;
        out_rate = out_rate;
      }

  unfoldable pub record_network_sample : Reading → NetworkHistory → NetworkHistory
  unfolding set_at sample
  record_network_sample x h =
      let head = (h.ring_head + 1) % ring_size in
      record {
        ring = set_at h.ring_head (sample h.last_time h.last_in h.last_out x) h.ring;
        ring_head = head;
        ring_full = nat_beq head 0 || h.ring_full;
        last_in = x.net_in;
        last_out = x.net_out;
        last_time = some x.now;
      }

unfoldable pub get_network_history : NetworkHistory → List NetworkSample
get_network_history h =
    if not h.ring_full && nat_beq h.ring_head 0
    then []
    else if h.ring_full
    then drop h.ring_head h.ring ++ take h.ring_head h.ring
    else take h.ring_head h.ring

-- A row of the table.
pub record NetworkMetric : Type 0 where
  pub timestamp : ℕ
  pub in_rate : ℕ
  pub out_rate : ℕ
  pub in_bytes : ℕ
  pub out_bytes : ℕ

-- The last sample, `samples[len(samples)-1]`.
latest : List NetworkSample → Option NetworkSample
latest [] = none
latest (x ∷ []) = some x
latest (x ∷ y ∷ xs) = latest (y ∷ xs)

create_metric : ℕ → NetworkSample → NetworkMetric
create_metric now x = record {
  timestamp = now;
  in_rate = x.in_rate;
  out_rate = x.out_rate;
  in_bytes = x.in_bytes;
  out_bytes = x.out_bytes;
}

-- What the database answers: whether it stores the row, and whether it prunes.
pub record Answers : Type 0 where
  pub creates : Bool
  pub prunes : Bool

prune : Bool → ℕ → List NetworkMetric → List NetworkMetric
prune true cutoff rows = keep_if (λ m. not (ltb m.timestamp cutoff)) rows
prune false cutoff rows = rows

-- The time in seconds, and the time thirty days before.
unfoldable pub persist_hourly_snapshot :
    Answers → ℕ → ℕ → NetworkHistory → List NetworkMetric → List NetworkMetric
unfolding latest create_metric prune get_network_history
persist_hourly_snapshot db now cutoff h rows = elim (latest (get_network_history h)) [
  | none ↦ rows
  | some x ↦ prune db.prunes cutoff (if db.creates then rows ++ create_metric now x ∷ [] else rows)
]
