-- ===== src/Traffic/Clash/Tests.antt =====
-- The theorems on sing-box's snapshots at work on one connection that stays and one that closes.
use zenith_panel.Common.{
  ℕ, ◌≡◌, ◌≤◌, ◌<◌, ◌-◌, ◌*◌, ◌/◌, refl, List, [], ◌∷◌, Bool, true, false, Text, text_beq, codes,
  length, ltb, arith,
}
use zenith_panel.Common.Assoc.{lookup}
use zenith_panel.Traffic.Delta.{Delta, add_delta}
use zenith_panel.Traffic.Clash.{
  ClashConn, ProxyAggregator, sub_delta, no_less, gone_conns, process_connections, conn_delta,
  since,
}
use zenith_panel.Traffic.Clash.Totals.{total}
use zenith_panel.Traffic.Clash.Sums.{moved_by_all}
use zenith_panel.Traffic.Clash.Charges.{snapshot_charges_all}
use zenith_panel.Traffic.Clash.Seed.{seed_charges_none}

abbrev conn : Text → Text → ℕ → ClashConn
conn id user up = record {
  id = id;
  upload = up;
  download = 0;
  destination_ip = codes "192.0.2.9";
  host = codes "example.org";
  inbound_user = [];
  user = user;
  chains = [];
}

abbrev bytes : ℕ → ℕ → Delta
bytes u d = record { up = u; down = d }

-- The snapshot before: two connections, 150 bytes up in all.
abbrev before : ProxyAggregator
before = record {
  last_conn =
      (codes "c1", conn (codes "c1") (codes "zc:7") 100)
      ∷ (codes "c2", conn (codes "c2") (codes "zc:9") 50)
      ∷ [];
  last_totals = bytes 150 0;
  have_totals = true;
  last_conn_delta = (codes "c1", bytes 100 0) ∷ (codes "c2", bytes 50 0) ∷ [];
  pending_flush = [];
  pending_dest = [];
  external_baseline_pending = false;
}

abbrev share : ℕ → ℕ → ℕ → ℕ
share rem weight all = rem * weight / all

abbrev open_now : List (Text × List ClashConn)
open_now = (codes "zc:7", conn (codes "c1") (codes "zc:7") 130 ∷ []) ∷ []

abbrev by_id : List (Text × ClashConn)
by_id = (codes "c1", conn (codes "c1") (codes "zc:7") 130) ∷ []

covered : no_less (bytes 200 0) before.last_totals ≡ true
unfolding no_less
covered = refl

moved_up : (moved_by_all false before.last_conn open_now).up ≤ 200 - 150
unfolding conn_delta lookup text_beq since
moved_up = omega arith

moved_down : (moved_by_all false before.last_conn open_now).down ≤ 0 - 0
unfolding conn_delta lookup text_beq since
moved_down = omega arith

one_closed : ltb 0 (length (gone_conns before.last_conn by_id before.last_conn_delta)) ≡ true
unfolding gone_conns zenith_panel.Common.Assoc.lookup zenith_panel.Common.text_beq
one_closed = refl

snapshot_charges_all_example :
    total (process_connections share true [] open_now by_id (bytes 200 0) before).pending_flush
    ≡ add_delta (total before.pending_flush) (sub_delta (bytes 200 0) before.last_totals)
snapshot_charges_all_example =
    snapshot_charges_all share true [] open_now by_id (bytes 200 0) before refl refl covered
      (omega arith, omega arith) moved_up moved_down one_closed

abbrev replaced : ProxyAggregator
replaced = record before { external_baseline_pending = true }

seed_charges_none_example :
    (process_connections share true [] open_now by_id (bytes 200 0) replaced).pending_flush
    ≡ replaced.pending_flush
seed_charges_none_example =
    seed_charges_none share true [] open_now by_id (bytes 200 0) replaced refl
