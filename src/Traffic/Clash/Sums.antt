-- ===== src/Traffic/Clash/Sums.antt =====
-- What the loops over the connections add up to.
use zenith_panel.Common.{
  ◌≡◌, refl, ◌∙◌, sym, ap, subst, List, [], ◌∷◌, Bool, false, Text, text_eq, Bool-cases, inl, inr,
  arith, add_u64, map,
}
use zenith_panel.Traffic.Delta.{Delta, add_delta}
use zenith_panel.Traffic.Clash.{
  ClashConn, Tick, zero_delta, conn_delta, resolve, is_some_delta, count_conns, flush_user,
  count_users,
}
use zenith_panel.Traffic.Clash.Totals.{
  total, Fits, total-Fits, total_zero, total-credit, add_delta_assoc, add_delta_comm,
}

pub zero_plus : (d : Delta) → Fits d → add_delta zero_delta d ≡ d
zero_plus d f = cc (u, v)
  where
    u : add_u64 0 d.up ≡ d.up
    u = ground (arith, f)

    v : add_u64 0 d.down ≡ d.down
    v = ground (arith, f)

pub zero-Fits : Fits zero_delta
zero-Fits = (ground arith, ground arith)

pub add-Fits : (a b : Delta) → Fits (add_delta a b)
add-Fits a b = (ground arith, ground arith)

pub plus_zero : (d : Delta) → Fits d → add_delta d zero_delta ≡ d
plus_zero d f = add_delta_comm d zero_delta ∙ zero_plus d f

pub no_bytes : (d : Delta) → is_some_delta d ≡ false → d ≡ zero_delta
unfolding is_some_delta
no_bytes d none_moved = cc (u, v)
  where
    u : d.up ≡ 0
    u = ground (arith, none_moved)

    v : d.down ≡ 0
    v = ground (arith, none_moved)

-- What the connections of one user moved since the snapshot before, and those of all users.
module _ (seed : Bool) (prev : List (Text × ClashConn)) where
  abbrev pub moved_by : List ClashConn → Delta
  moved_by conns = total (map (λ c. (c.id, conn_delta seed prev c)) conns)

  abbrev pub moved_by_all : List (Text × List ClashConn) → Delta
  moved_by_all by_user = total (map (λ u. (u.0, moved_by u.1)) by_user)

module _ (log_dest seed : Bool) (prev : List (Text × ClashConn)) where
  abbrev measured : List ClashConn → Delta
  measured conns = moved_by seed prev conns

  abbrev measured_all : List (Text × List ClashConn) → Delta
  measured_all by_user = moved_by_all seed prev by_user

  pub count_conns-pending :
      (user : Text) (conns : List ClashConn) (t : Tick)
      → (count_conns log_dest seed prev user conns t).pending_flush ≡ t.pending_flush
  unfolding count_conns
  count_conns-pending user [] t = refl
  count_conns-pending user (c ∷ conns) t = count_conns-pending user conns _

  count_conns-sum :
      (user : Text) (conns : List ClashConn) (t : Tick)
      → Fits t.sum
      → (count_conns log_dest seed prev user conns t).sum ≡ add_delta t.sum (measured conns)
  unfolding count_conns
  count_conns-sum user [] t f = sym (plus_zero t.sum f)
  count_conns-sum user (c ∷ conns) t f =
      count_conns-sum user conns _ (add-Fits t.sum (conn_delta seed prev c))
      ∙ add_delta_assoc t.sum (conn_delta seed prev c) (measured conns)

  count_conns-user_sum :
      (user : Text) (conns : List ClashConn) (t : Tick)
      → Fits t.user_sum
      → (count_conns log_dest seed prev user conns t).user_sum
        ≡ add_delta t.user_sum (measured conns)
  unfolding count_conns
  count_conns-user_sum user [] t f = sym (plus_zero t.user_sum f)
  count_conns-user_sum user (c ∷ conns) t f =
      count_conns-user_sum user conns _ (add-Fits t.user_sum (conn_delta seed prev c))
      ∙ add_delta_assoc t.user_sum (conn_delta seed prev c) (measured conns)

  flush_user-total :
      (user : Text) (t : Tick)
      → Fits t.user_sum
      → total (flush_user log_dest seed prev user t).pending_flush
        ≡ add_delta (total t.pending_flush) t.user_sum
  unfolding flush_user
  flush_user-total user t f = elim (Bool-cases (is_some_delta t.user_sum)) [
    | inl e ↦ rw (e, flush_user) (total-credit user t.user_sum t.pending_flush)
    | inr e ↦
        rw (e, flush_user)
          (sym (total_zero t.pending_flush)
            ∙ ap (add_delta (total t.pending_flush)) (sym (no_bytes t.user_sum e)))
  ]

  flush_user-sum : (user : Text) (t : Tick) → (flush_user log_dest seed prev user t).sum ≡ t.sum
  unfolding flush_user
  flush_user-sum user t = ground arith

  -- One user's part of the loops.
  abbrev one_user : List (Text × Text) → Text → List ClashConn → Tick → Tick
  one_user totals name conns t =
      count_conns log_dest seed prev (resolve totals name) conns
        (record t { user_sum = zero_delta })

  one_user-user_sum :
      (totals : List (Text × Text)) (name : Text) (conns : List ClashConn) (t : Tick)
      → (one_user totals name conns t).user_sum ≡ measured conns
  one_user-user_sum totals name conns t =
      count_conns-user_sum (resolve totals name) conns (record t { user_sum = zero_delta })
        zero-Fits
      ∙ zero_plus (measured conns) (total-Fits (map (λ c. (c.id, conn_delta seed prev c)) conns))

  one_user-total :
      (totals : List (Text × Text)) (name : Text) (conns : List ClashConn) (t : Tick)
      → total
          (flush_user log_dest seed prev
            (resolve totals name)
            (one_user totals name conns t)).pending_flush
        ≡ add_delta (total t.pending_flush) (measured conns)
  one_user-total totals name conns t =
      flush_user-total (resolve totals name) (one_user totals name conns t) (
        subst Fits (sym (one_user-user_sum totals name conns t))
          (total-Fits (map (λ c. (c.id, conn_delta seed prev c)) conns)))
      ∙ ap (λ z. add_delta (total z) (one_user totals name conns t).user_sum)
          (count_conns-pending (resolve totals name) conns (record t { user_sum = zero_delta }))
      ∙ ap (add_delta (total t.pending_flush)) (one_user-user_sum totals name conns t)

  one_user-sum :
      (totals : List (Text × Text)) (name : Text) (conns : List ClashConn) (t : Tick)
      → Fits t.sum
      → (flush_user log_dest seed prev (resolve totals name) (one_user totals name conns t)).sum
        ≡ add_delta t.sum (measured conns)
  one_user-sum totals name conns t f =
      flush_user-sum (resolve totals name) (one_user totals name conns t)
      ∙ count_conns-sum (resolve totals name) conns (record t { user_sum = zero_delta }) f

  pub count_users-total :
      (totals : List (Text × Text)) (by_user : List (Text × List ClashConn)) (t : Tick)
      → total (count_users log_dest seed prev totals by_user t).pending_flush
        ≡ add_delta (total t.pending_flush) (measured_all by_user)
  unfolding count_users
  count_users-total totals [] t = sym (total_zero t.pending_flush)
  count_users-total totals ((name, conns) ∷ by_user) t =
      count_users-total totals by_user _
      ∙ ap (λ z. add_delta z (measured_all by_user)) (one_user-total totals name conns t)
      ∙ add_delta_assoc (total t.pending_flush) (measured conns) (measured_all by_user)

  pub count_users-sum :
      (totals : List (Text × Text)) (by_user : List (Text × List ClashConn)) (t : Tick)
      → Fits t.sum
      → (count_users log_dest seed prev totals by_user t).sum
        ≡ add_delta t.sum (measured_all by_user)
  unfolding count_users
  count_users-sum totals [] t f = sym (plus_zero t.sum f)
  count_users-sum totals ((name, conns) ∷ by_user) t f =
      let is = one_user-sum totals name conns t f in
      count_users-sum totals by_user _ (subst Fits (sym is) (add-Fits t.sum (measured conns)))
      ∙ ap (λ z. add_delta z (measured_all by_user)) is
      ∙ add_delta_assoc t.sum (measured conns) (measured_all by_user)
