-- ===== src/Access/Sessions/Revoked.antt =====
-- Sessions that were ended stay ended.
use zenith_panel.Common.{
  ℕ, suc, ◌+◌, ◌≤◌, ◌≡◌, refl, ◌∙◌, sym, ap, subst, arith, List, [], ◌∷◌, Option, none, some, Bool,
  true, false, ◌&&◌, Text, codes, text_eq, nat_eq, nat_beq, nat_beq_iff, ◌==◌, Bool-cases, inl, inr,
  All, find-Mem, some_inj,
}
use mathlib.Core.List.{Memᴰ}
use zenith_panel.Common.Decimal.{parse_uint}
use zenith_panel.Access.Reply.{reply}
use zenith_panel.Access.Jwt.{Claims}
use zenith_panel.Access.Auth.{
  AdminUser, Accounts, Env, DbAnswers, Request, AuthSource, admin_session, auth_middleware,
}
use zenith_panel.Access.Login.{update_where, update_one}
use zenith_panel.Access.Sessions.{
  update_admin_security, done_or, session_of, find_user_id, log_out_row, log_out_claims, logout_all,
}
use zenith_panel.Access.Auth.Admitted.{auth-Justified}
use zenith_panel.Access.Sessions.Versions.{From}
use zenith_panel.Access.Sessions.Steps.{SecuritySteps, steps-From}

-- The rows of an administrator, which are one, are at version `v`.
abbrev pub At : ℕ → ℕ → List AdminUser → Type 0
At id v admins = All (λ row. row.id ≡ id → row.session_version ≡ v) admins

At-Mem :
    (id v : ℕ) (admins : List AdminUser) {row : AdminUser}
    → At id v admins
    → Memᴰ row admins
    → row.id ≡ id
    → row.session_version ≡ v
At-Mem id v [] at m is = elim m [ ]
At-Mem id v (r ∷ admins) at (Memᴰ.head e) is =
    ap (λ (x : AdminUser). x.session_version) e ∙ at.0 (sym (ap (λ (x : AdminUser). x.id) e) ∙ is)
At-Mem id v (r ∷ admins) at (Memᴰ.tail m) is = At-Mem id v admins at.1 m is

From-Mem :
    (id v : ℕ) (admins : List AdminUser) {row : AdminUser}
    → From id v admins
    → Memᴰ row admins
    → row.id ≡ id
    → v ≤ row.session_version
From-Mem id v [] from m is = elim m [ ]
From-Mem id v (r ∷ admins) from (Memᴰ.head e) is =
    subst (λ (x : AdminUser). v ≤ x.session_version) (sym e)
      (from.0 (sym (ap (λ (x : AdminUser). x.id) e) ∙ is))
From-Mem id v (r ∷ admins) from (Memᴰ.tail m) is = From-Mem id v admins from.1 m is

-- The update that ends the sessions takes every row of the administrator to the next version.
bump-From :
    (id v : ℕ) (admin : AdminUser) (rows : List AdminUser)
    → admin.id ≡ id
    → admin.session_version ≡ v
    → At id v rows
    → From id
        (suc v)
        (update_where
          (λ row. row.id == admin.id && row.session_version == admin.session_version)
          (λ row. record row { id = row.id; session_version = row.session_version + 1 })
          rows).0
unfolding update_where
bump-From id v admin [] same at_v at = tt
bump-From id v admin (row ∷ rows) same at_v at =
    elim (Bool-cases
      (nat_beq row.id admin.id && nat_beq row.session_version admin.session_version)) [
        | inl e ↦ rw (e) (λ is. omega (arith, at.0 is), bump-From id v admin rows same at_v at.1)
        | inr e ↦
            rw (e)
              (λ is. absurd (no_match row e is (at.0 is)), bump-From id v admin rows same at_v at.1)
      ]
  where
    no_match :
        (r : AdminUser)
        → (nat_beq r.id admin.id && nat_beq r.session_version admin.session_version) ≡ false
        → r.id ≡ id
        → r.session_version ≡ v
        → ⊥
    no_match r e is version = ground (arith, e, is, version, same, at_v)

done_or-rows : (code : ℕ) (msg : Text) (r : Bool × List AdminUser) → (done_or code msg r).1 ≡ r.1
unfolding done_or
done_or-rows code msg (true, admins) = refl
done_or-rows code msg (false, admins) = refl

one_bumped-From :
    (id v : ℕ) (fails : Option Text) (admin : AdminUser) (rows : List AdminUser)
    → admin.id ≡ id
    → admin.session_version ≡ v
    → At id v rows
    → (done_or 500
        (codes "Failed to revoke sessions")
        (update_admin_security fails admin (λ row. row) rows)).0
      ≡ reply tt
    → From id
        (suc v)
        (done_or 500
          (codes "Failed to revoke sessions")
          (update_admin_security fails admin (λ row. row) rows)).1
unfolding update_admin_security update_one done_or
one_bumped-From id v (some e) admin rows same at_v at is = absurd (cc (is))
one_bumped-From id v none admin rows same at_v at is =
    subst (From id (suc v)) (sym (done_or-rows 500 (codes "Failed to revoke sessions") _))
      (bump-From id v admin rows same at_v at)

row_ended-From :
    (id v : ℕ) (fails : Option Text) (o : Option AdminUser) (admins : List AdminUser)
    → ((admin : AdminUser) → o ≡ some admin → (admin.id ≡ id) × (admin.session_version ≡ v))
    → At id v admins
    → (log_out_row fails o admins).0 ≡ reply tt
    → From id (suc v) (log_out_row fails o admins).1
unfolding log_out_row
row_ended-From id v fails none admins its at is = absurd (cc (is))
row_ended-From id v fails (some admin) admins its at is =
    let (same, at_v) = its admin refl in one_bumped-From id v fails admin admins same at_v at is

find_user_id-id :
    (id : ℕ) (user_id : Text) (admins : List AdminUser) (admin : AdminUser)
    → parse_uint user_id ≡ some id
    → find_user_id user_id admins ≡ some admin
    → Memᴰ admin admins × (admin.id ≡ id)
unfolding find_user_id
find_user_id-id id user_id admins admin parsed =
    rw (parsed, find_user_id)
      (λ found.
        let (m, same) = find-Mem (λ (row : AdminUser). nat_beq row.id id) admins admin found in
        (m, (nat_beq_iff admin.id id).0 same))

-- Once "log out everywhere" has answered with success, no request is admitted with the session that
-- asked for it or another of its administrator and version, whatever token it presents, whoever
-- signs in, changes the password or the second factor meanwhile. The administrator's row is one
-- (its id is the key) and the session was current.
pub logout_all-ends :
    (fails : Option Text) (claims : Claims) (source : AuthSource) (id : ℕ) (before : List AdminUser)
    → parse_uint claims.user_id ≡ some id
    → At id claims.session_version before
    → (logout_all fails (admin_session claims source) before).0 ≡ reply tt
    → (accounts : Accounts)
    → SecuritySteps (logout_all fails (admin_session claims source) before).1 accounts.admins
    → (env : Env) (db : DbAnswers) (req : Request) (other : Claims) (from : AuthSource)
    → parse_uint other.user_id ≡ some id
    → other.session_version ≡ claims.session_version
    → ¬ ((auth_middleware env db req accounts).0 ≡ reply (admin_session other from))
unfolding logout_all log_out_claims session_of
logout_all-ends fails claims source id before parsed at is accounts steps env db req other from its
      same admitted =
    let session = auth-Justified env db req accounts (admin_session other from) admitted in
    let holder = session.of_admin in
    let ended =
      row_ended-From id claims.session_version fails (find_user_id claims.user_id before) before
        (λ admin found.
          let (m, i) = find_user_id-id id claims.user_id before admin parsed found in
          (i, At-Mem id claims.session_version before at m i))
        at is in
    let later = steps-From id (suc claims.session_version) steps ended in
    let numbered : holder.admin.id ≡ id = some_inj (sym holder.numbered ∙ its) in
    absurd (
      omega (
        arith,
        holder.current,
        same,
        From-Mem id (suc claims.session_version) accounts.admins later holder.stored numbered,
      ))
