-- ===== src/Traffic/Tests.antt =====
-- The theorems on traffic at work on one client.
use zenith_panel.Common.{
  ℕ, ◌≡◌, ◌≤◌, ◌+◌, refl, List, [], ◌∷◌, none, some, true, false, Text, codes, Result, ok, text_eq,
  text_beq, arith,
}
use zenith_panel.Common.Assoc.{lookup, assign}
use zenith_panel.Common.Decimal.{format_uint}
use zenith_panel.Model.{Client}
use zenith_panel.Proxy.Identity.{
  NameRow, client_identity, stats_identities, stats_from, legacy_stats_identities, legacy_from,
  email_count,
}
use zenith_panel.Traffic.Delta.{Delta, Counters, counter_at}
use zenith_panel.Traffic.Accountant.{Db, Faults, name_rows, by_ident, by_ident_from, by_legacy_from}
use zenith_panel.Traffic.Accountant.Apply.{find_client, Sole}
use zenith_panel.Traffic.Clash.{ProxyAggregator}
use zenith_panel.Traffic.Xray.{
  Baseline, Poll, Event, poll, restart, new_accountant, flush_xray, run,
}
use zenith_panel.Traffic.Xray.Stages.{Agrees}
use zenith_panel.Traffic.Xray.ExactlyOnce.{Exact, AllFair, last_reading, run-Exact}
use zenith_panel.Traffic.Xray.CatchUp.{flush_charges_all}

abbrev ident : Text
ident = codes "zc:7"

abbrev bytes : ℕ → ℕ → Delta
bytes u d = record { up = u; down = d }

abbrev totals_at : ℕ → ℕ → Counters
totals_at u d = (ident, bytes u d) ∷ []

abbrev one_client : Client
one_client = record {
  id = 7;
  inbound_id = 1;
  email = codes "a@b.c";
  uuid = [];
  enable = true;
  up_load = 1000;
  down_load = 2000;
  total = 0;
  expiry_time = 0;
  reset_day = 0;
}

abbrev base : Baseline
base = record { epoch = 50; totals = totals_at 10 20 }

-- The baseline is stored as it is.
abbrev keep : Baseline → Baseline
keep b = b

abbrev read_back : Baseline → Result Baseline
read_back b = ok b

abbrev stored : Db Baseline
stored = record { clients = one_client ∷ []; baseline = some base }

abbrev no_faults : Faults
no_faults s = none

abbrev poll_at : Counters → Poll
poll_at totals = record {
  running = true;
  external = true;
  started = some 50;
  local_start = 0;
  now = 100;
  stats = ok totals;
  faults = no_faults;
}

abbrev rows : List NameRow
rows = name_rows stored.clients

one_key : lookup {V = Delta} ident [] ≡ none
unfolding lookup
one_key = refl

sole : (n m : ℕ) → Sole (by_ident rows) 7 ident (totals_at n m)
sole n m = ((λ e. refl), tt)

agrees : Agrees keep read_back new_accountant stored base
agrees = record {
  raw = base;
  stored = refl;
  decoded = refl;
  found = λ e. absurd (ground (arith, e));
  last = λ e. absurd (ground (arith, e));
  epoch = λ e. absurd (ground (arith, e));
}

seen : find_client 7 stored.clients ≡ some one_client
unfolding find_client
seen = refl

named : lookup ident (by_ident rows) ≡ some 7
unfolding name_rows by_ident lookup assign by_ident_from by_legacy_from stats_identities stats_from
    legacy_stats_identities legacy_from email_count client_identity format_uint text_beq
named = refl

abbrev waiting : ProxyAggregator
waiting = record {
  last_conn = [];
  last_totals = bytes 0 0;
  have_totals = false;
  last_conn_delta = [];
  pending_flush = totals_at 3 4;
  pending_dest = [];
  external_baseline_pending = false;
}

-- The write is refused, and the bytes wait again.
abbrev refusal : Faults
refusal s = some (codes "locked")

started_at : (start : ℕ) → some 50 ≡ some start → start ≡ 50
started_at start e = cc (e)

abbrev events : List Event
events = poll (poll_at (totals_at 110 220)) ∷ restart ∷ poll (poll_at (totals_at 150 230)) ∷ []

abbrev Below : Delta → Delta → Type 0
Below c d = (c.up ≤ d.up) × (c.down ≤ d.down)

first : Below (bytes 10 20) (counter_at ident (totals_at 110 220))
unfolding lookup text_beq
first = (omega arith, omega arith)

second : Below (counter_at ident (totals_at 110 220)) (counter_at ident (totals_at 150 230))
unfolding lookup text_beq
second = (omega arith, omega arith)

from_base : Below (counter_at ident base.totals) (counter_at ident (totals_at 110 220))
unfolding lookup text_beq
from_base = (omega arith, omega arith)

from_start : Below (counter_at ident base.totals) (bytes 10 20)
unfolding lookup text_beq
from_start = (omega arith, omega arith)

fair : AllFair rows 7 ident 50 (bytes 10 20) events
fair = (
  (refl, started_at, ((one_key, tt), sole 110 220, first.0, first.1)),
  (tt, ((refl, started_at, ((one_key, tt), sole 150 230, second.0, second.1)), tt)),
)

run-Exact_example :
    Exact keep read_back 7 ident base one_client rows
      (last_reading ident (bytes 10 20) events)
      (run keep read_back events (new_accountant, some stored))
run-Exact_example =
    run-Exact keep read_back (λ b. refl) events (new_accountant, some stored) stored 7 ident base
      one_client (bytes 10 20) rows 50 refl refl refl agrees fair named seen from_start.0
      from_start.1

flush_charges_all_example :
    (db' : Db Baseline) × (c' : Client) × ((flush_xray keep read_back
        (poll_at (totals_at 110 220))
        (new_accountant, some stored)).1
      ≡ some db')
    × (find_client 7 db'.clients ≡ some c')
    × (c'.up_load + (counter_at ident base.totals).up
        ≡ one_client.up_load + (counter_at ident (totals_at 110 220)).up)
    × (c'.down_load + (counter_at ident base.totals).down
        ≡ one_client.down_load + (counter_at ident (totals_at 110 220)).down)
flush_charges_all_example =
    flush_charges_all keep read_back (λ b. refl) (poll_at (totals_at 110 220)) (totals_at 110 220)
      new_accountant stored 7 ident base one_client refl refl refl (λ s. refl) agrees
      (refl, started_at, ((one_key, tt), sole 110 220, from_base.0, from_base.1)) named seen
