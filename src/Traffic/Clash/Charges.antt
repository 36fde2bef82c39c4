-- ===== src/Traffic/Clash/Charges.antt =====
-- Every byte that sing-box counted is charged to somebody.
use zenith_panel.Common.{
  ℕ, ◌-◌, ◌<◌, ◌≤◌, ◌≡◌, ◌∙◌, sym, ap, List, [], ◌∷◌, Bool, true, false, Text, text_eq, ltb,
  Bool-cases, inl, inr, arith, add_u64, length, map,
}
use zenith_panel.Traffic.Delta.{Delta, Counters, add_delta}
use zenith_panel.Traffic.Clash.{
  ClashConn, ProxyAggregator, Tick, zero_delta, sub_u64, sub_delta, is_some_delta, count_users,
  gone_conns, deal, split_closed_remainder, no_less, sub_floor, remainder, charge_closed,
  start_tick, process_connections,
}
use zenith_panel.Traffic.Clash.Totals.{
  total, Fits, total-Fits, total_zero, total-deal, total-credit_all, add_delta_assoc,
}
use zenith_panel.Traffic.Clash.Sums.{
  zero_plus, zero-Fits, no_bytes, moved_by, moved_by_all, count_users-total, count_users-sum,
}

part_of :
    (t l s : ℕ)
    → l ≤ t
    → t < 18446744073709551616
    → s ≤ t - l
    → add_u64 s (sub_floor (t - l) s) ≡ sub_u64 t l
unfolding sub_floor
part_of t l s a b c = ground (arith, a, b, c)

no_less_le : (a b : Delta) → no_less a b ≡ true → (b.up ≤ a.up) × (b.down ≤ a.down)
unfolding no_less
no_less_le a b is = (ground (arith, is), ground (arith, is))

-- The growth of sing-box's own counters, and what the open connections leave of it.
closed_part :
    (totals last sum : Delta)
    → (no_less totals last ≡ true)
    → Fits totals
    → Fits sum
    → sum.up ≤ totals.up - last.up
    → sum.down ≤ totals.down - last.down
    → add_delta sum (remainder totals last sum) ≡ sub_delta totals last
unfolding remainder
closed_part totals last sum more f g u d = cc (
  part_of totals.up last.up sum.up (no_less_le totals last more).0 f.0 u,
  part_of totals.down last.down sum.down (no_less_le totals last more).1 f.1 d,
)

sub_zero : (d : Delta) → Fits d → add_delta zero_delta (sub_delta d zero_delta) ≡ d
sub_zero d f = cc (u, v)
  where
    u : add_u64 0 (sub_u64 d.up 0) ≡ d.up
    u = ground (arith, f)

    v : add_u64 0 (sub_u64 d.down 0) ≡ d.down
    v = ground (arith, f)

deal-all :
    (share : ℕ → ℕ → ℕ → ℕ) (n weight : ℕ) (rem : Delta) (gone : List (Text × ℕ))
    → Fits rem
    → ltb 0 (length gone) ≡ true
    → total (deal share n weight rem zero_delta gone []) ≡ rem
deal-all share n weight rem [] f is = absurd (ground (arith, is))
deal-all share n weight rem (g ∷ gone) f is =
    total-deal share n weight rem zero_delta g gone [] ∙ sub_zero rem f

split-total :
    (share : ℕ → ℕ → ℕ → ℕ) (prev cur : List (Text × ClashConn)) (last_delta : Counters)
    (rem : Delta)
    → Fits rem
    → ltb 0 (length (gone_conns prev cur last_delta)) ≡ true
    → total (split_closed_remainder share prev cur last_delta rem) ≡ rem
unfolding split_closed_remainder
split-total share prev cur last_delta rem f some_gone =
    deal-all share _ _ rem (gone_conns prev cur last_delta) f some_gone

remainder-Fits : (totals last sum : Delta) → Fits totals → Fits (remainder totals last sum)
unfolding remainder sub_floor
remainder-Fits totals last sum f = (ground (arith, f), ground (arith, f))

module _ (share : ℕ → ℕ → ℕ → ℕ) where
  charge_closed-total :
      (a : ProxyAggregator) (by_id : List (Text × ClashConn)) (totals : Delta) (t : Tick)
      → a.external_baseline_pending ≡ false
      → a.have_totals ≡ true
      → no_less totals a.last_totals ≡ true
      → Fits (remainder totals a.last_totals t.sum)
      → ltb 0 (length (gone_conns a.last_conn by_id a.last_conn_delta)) ≡ true
      → total (charge_closed share a by_id totals t)
        ≡ add_delta (total t.pending_flush) (remainder totals a.last_totals t.sum)
  unfolding charge_closed
  charge_closed-total a by_id totals t seeded have more f some_gone =
      elim (Bool-cases (is_some_delta (remainder totals a.last_totals t.sum))) [
        | inl e ↦
            simp (seeded, have, more, e)
              (total-credit_all
                  (split_closed_remainder share a.last_conn by_id a.last_conn_delta
                    (remainder totals a.last_totals t.sum))
                  t.pending_flush
                ∙ ap (add_delta (total t.pending_flush)) (
                    split-total share a.last_conn by_id a.last_conn_delta
                      (remainder totals a.last_totals t.sum) f some_gone))
        | inr e ↦
            simp (seeded, have, more, e)
              (sym (total_zero t.pending_flush)
                ∙ ap (add_delta (total t.pending_flush)) (sym (no_bytes _ e)))
      ]

  charges :
      (log_dest : Bool) (client_totals : List (Text × Text))
      (by_user : List (Text × List ClashConn)) (by_id : List (Text × ClashConn)) (totals : Delta)
      (a : ProxyAggregator)
      → a.external_baseline_pending ≡ false
      → a.have_totals ≡ true
      → no_less totals a.last_totals ≡ true
      → Fits totals
      → (moved_by_all a.external_baseline_pending a.last_conn by_user).up
        ≤ totals.up - a.last_totals.up
      → (moved_by_all a.external_baseline_pending a.last_conn by_user).down
        ≤ totals.down - a.last_totals.down
      → ltb 0 (length (gone_conns a.last_conn by_id a.last_conn_delta)) ≡ true
      → total
          (process_connections share log_dest client_totals by_user by_id totals a).pending_flush
        ≡ add_delta (total a.pending_flush) (sub_delta totals a.last_totals)
  unfolding process_connections
  charges log_dest client_totals by_user by_id totals a seeded have more fits up down some_gone =
      let seed = a.external_baseline_pending in
      let moved = moved_by_all seed a.last_conn by_user in
      let moved_fits = total-Fits (map (λ u. (u.0, moved_by seed a.last_conn u.1)) by_user) in
      let t = count_users log_dest seed a.last_conn client_totals by_user (start_tick share a) in
      let summed =
        count_users-sum log_dest seed a.last_conn client_totals by_user (start_tick share a)
          zero-Fits
        ∙ zero_plus moved moved_fits in
      charge_closed-total a by_id totals t seeded have more
        (remainder-Fits totals a.last_totals t.sum fits) some_gone
      ∙ ap (λ z. add_delta z (remainder totals a.last_totals t.sum))
          (count_users-total log_dest seed a.last_conn client_totals by_user (start_tick share a))
      ∙ ap
          (λ z.
            add_delta (add_delta (total a.pending_flush) moved) (remainder totals a.last_totals z))
          summed
      ∙ add_delta_assoc (total a.pending_flush) moved (remainder totals a.last_totals moved)
      ∙ ap (add_delta (total a.pending_flush))
          (closed_part totals a.last_totals moved more fits moved_fits up down)

  -- One snapshot after another, where sing-box did not restart, its counters cover what the open
  -- connections moved and some connection has closed: the bytes waiting for the users grow by
  -- exactly the growth of sing-box's own counters, however the conversion rounds the shares.
  pub snapshot_charges_all :
      (log_dest : Bool) (client_totals : List (Text × Text))
      (by_user : List (Text × List ClashConn)) (by_id : List (Text × ClashConn)) (totals : Delta)
      (a : ProxyAggregator)
      → a.external_baseline_pending ≡ false
      → a.have_totals ≡ true
      → no_less totals a.last_totals ≡ true
      → Fits totals
      → (moved_by_all false a.last_conn by_user).up ≤ totals.up - a.last_totals.up
      → (moved_by_all false a.last_conn by_user).down ≤ totals.down - a.last_totals.down
      → ltb 0 (length (gone_conns a.last_conn by_id a.last_conn_delta)) ≡ true
      → total
          (process_connections share log_dest client_totals by_user by_id totals a).pending_flush
        ≡ add_delta (total a.pending_flush) (sub_delta totals a.last_totals)
  snapshot_charges_all log_dest client_totals by_user by_id totals a seeded have more fits up down
        some_gone =
      charges log_dest client_totals by_user by_id totals a seeded have more fits (simp (seeded) up)
        (simp (seeded) down) some_gone
