-- ===== src/Traffic/Clash/Seed.antt =====
-- No byte that sing-box counted before the panel started is charged.
use zenith_panel.Common.{
  ℕ, ◌≡◌, refl, ◌∙◌, ap, List, [], ◌∷◌, Bool, true, Text, text_eq, Bool-cases, inl, inr, arith,
}
use zenith_panel.Traffic.Delta.{Delta, add_delta}
use zenith_panel.Traffic.Clash.{
  ClashConn, ProxyAggregator, Tick, zero_delta, conn_delta, resolve, is_some_delta, count_conns,
  flush_user, count_users, charge_closed, start_tick, process_connections,
}
use zenith_panel.Traffic.Clash.Sums.{count_conns-pending}

module _ (log_dest : Bool) (prev : List (Text × ClashConn)) where
  seed_conns :
      (user : Text) (conns : List ClashConn) (t : Tick)
      → t.user_sum ≡ zero_delta
      → (count_conns log_dest true prev user conns t).user_sum ≡ zero_delta
  unfolding count_conns conn_delta
  seed_conns user [] t is = is
  seed_conns user (c ∷ conns) t is = seed_conns user conns _ (ap (λ z. add_delta z zero_delta) is)

  flush_quiet :
      (user : Text) (t : Tick)
      → t.user_sum ≡ zero_delta
      → (flush_user log_dest true prev user t).pending_flush ≡ t.pending_flush
  unfolding flush_user is_some_delta
  flush_quiet user t is = elim (Bool-cases (is_some_delta t.user_sum)) [
    | inr e ↦ rw (e, flush_user) refl
    | inl e ↦ absurd (ground (arith, ap is_some_delta is, e))
  ]

  seed_users :
      (totals : List (Text × Text)) (by_user : List (Text × List ClashConn)) (t : Tick)
      → (count_users log_dest true prev totals by_user t).pending_flush ≡ t.pending_flush
  unfolding count_users
  seed_users totals [] t = refl
  seed_users totals ((name, conns) ∷ by_user) t =
      let user = resolve totals name in
      let t' : Tick = record t { user_sum = zero_delta } in
      seed_users totals by_user _
      ∙ flush_quiet user (count_conns log_dest true prev user conns t')
          (seed_conns user conns t' refl)
      ∙ count_conns-pending log_dest true prev user conns t'

module _ (share : ℕ → ℕ → ℕ → ℕ) where
  seeded :
      (log_dest seed have : Bool) (client_totals : List (Text × Text))
      (by_user : List (Text × List ClashConn)) (by_id : List (Text × ClashConn)) (totals : Delta)
      (a : ProxyAggregator)
      → seed ≡ true
      → a.external_baseline_pending ≡ seed
      → (process_connections share log_dest client_totals by_user by_id totals a).pending_flush
        ≡ a.pending_flush
  unfolding process_connections charge_closed
  seeded log_dest seed have client_totals by_user by_id totals a s is =
      simp (is, s) (seed_users log_dest a.last_conn client_totals by_user (start_tick share a))

  -- The first snapshot that a replaced panel takes of a runner that lives on charges nobody,
  -- whatever its connections and counters say.
  pub seed_charges_none :
      (log_dest : Bool) (client_totals : List (Text × Text))
      (by_user : List (Text × List ClashConn)) (by_id : List (Text × ClashConn)) (totals : Delta)
      (a : ProxyAggregator)
      → a.external_baseline_pending ≡ true
      → (process_connections share log_dest client_totals by_user by_id totals a).pending_flush
        ≡ a.pending_flush
  seed_charges_none log_dest client_totals by_user by_id totals a is =
      seeded log_dest true true client_totals by_user by_id totals a refl is
