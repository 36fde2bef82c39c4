-- ===== src/Access/Sessions.antt =====
-- What changes sessions: `updateAdminSecurity` of api/admin_sessions.go, the handlers of
-- api/security_routes.go that refresh a session, end all of them and set up the second factor, and
-- the password change of api/router.go. A query that fails answers as a missing row does and changes
-- nothing; it is left out.
mod Versions
pub mod Steps
pub mod Revoked
pub mod Cap
mod Tests
use zenith_panel.Common.{
  ℕ, zero, suc, ◌+◌, ◌-◌, ◌*◌, ◌/◌, List, [], ◌∷◌, ◌++◌, Option, none, some, Bool, true, false, not,
  ◌&&◌, ◌||◌, Text, codes, text_eq, text_beq, nat_eq, ltb, leb, if◌then◌else◌, ◌==◌, Result, ok,
  err, find, length,
}
use zenith_panel.Common.Integers.{ℤ, positive}
use zenith_panel.Common.Decimal.{parse_uint}
use zenith_panel.Access.Reply.{Reply, refuse, reply, unless}
use zenith_panel.Access.Jwt.{
  Claims, JwtLibrary, second, max_session_age, at, generate_session_token,
}
use zenith_panel.Access.Auth.{AdminUser, Principal, local_root, token_principal, admin_session}
use zenith_panel.Access.Login.{Crypto, update_one, find_username}

-- The answer and the administrators' rows.
abbrev pub Changed : Type 0
Changed = Reply (Unit {0}) × List AdminUser

-- The row that was read is updated where its version still stands, and gets the next version.
unfoldable pub update_admin_security :
    Option Text → AdminUser → (AdminUser → AdminUser) → List AdminUser → Bool × List AdminUser
unfolding update_one
update_admin_security fails admin updates admins =
    update_one fails (λ row. row.id == admin.id && row.session_version == admin.session_version)
      (λ row. record (updates row) { id = row.id; session_version = row.session_version + 1 })
      admins

unfoldable pub done_or : ℕ → Text → Bool × List AdminUser → Changed
done_or code msg (true, admins) = (reply tt, admins)
done_or code msg (false, admins) = (refuse code msg, admins)

unfoldable pub session_of : Principal → Option Claims
session_of local_root = none
session_of (token_principal row) = none
session_of (admin_session claims source) = some claims

-- `c.Get("username")`, which only a session sets.
username_of : Principal → Text
unfolding session_of
username_of p = elim (session_of p) [ none ↦ [] | some claims ↦ claims.username ]

unfoldable pub find_user_id : Text → List AdminUser → Option AdminUser
find_user_id user_id admins = elim (parse_uint user_id) [
  | none ↦ none
  | some id ↦ find (λ row. row.id == id) admins
]

log_out_row : Option Text → Option AdminUser → List AdminUser → Changed
unfolding update_admin_security done_or
log_out_row fails none admins = (refuse 404 (codes "Admin not found"), admins)
log_out_row fails (some admin) admins =
    done_or 500 (codes "Failed to revoke sessions")
      (update_admin_security fails admin (λ row. row) admins)

log_out_claims : Option Text → Option Claims → List AdminUser → Changed
unfolding log_out_row find_user_id
log_out_claims fails none admins = (refuse 403 (codes "JWT administrator session required"), admins)
log_out_claims fails (some claims) admins =
    log_out_row fails (find_user_id claims.user_id admins) admins

unfoldable pub logout_all : Option Text → Principal → List AdminUser → Changed
unfolding log_out_claims session_of
logout_all fails p admins = log_out_claims fails (session_of p) admins

verify_row : Crypto → Option Text → Text → Option AdminUser → List AdminUser → Changed
unfolding update_admin_security done_or
verify_row lib fails code none admins = (refuse 404 (codes "Admin not found"), admins)
verify_row lib fails code (some admin) admins =
    if admin.totp_secret == []
    then (refuse 400 (codes "Run 2FA setup first"), admins)
    else if lib.validate_totp code admin.totp_secret
    then done_or 500 (codes "Failed to enable 2FA")
        (update_admin_security fails admin (λ row. record row { totp_enabled = true }) admins)
    else (refuse 400 (codes "Invalid code"), admins)

unfoldable pub verify_2fa : Crypto → Option Text → Principal → Text → List AdminUser → Changed
unfolding verify_row username_of
verify_2fa lib fails p code admins =
    if code == []
    then (refuse 400 (codes "Code is required"), admins)
    else verify_row lib fails code (find_username (username_of p) admins) admins

disable_row : Crypto → Option Text → Text → Option AdminUser → List AdminUser → Changed
unfolding update_admin_security done_or
disable_row lib fails password none admins = (refuse 404 (codes "Admin not found"), admins)
disable_row lib fails password (some admin) admins =
    if lib.compare_hash admin.password_hash password
    then done_or 500 (codes "Failed to disable 2FA") (
        update_admin_security fails admin
          (λ row. record row { totp_enabled = false; totp_secret = []; recovery_codes = [] })
          admins)
    else (refuse 401 (codes "Password is incorrect"), admins)

unfoldable pub disable_2fa : Crypto → Option Text → Principal → Text → List AdminUser → Changed
unfolding disable_row username_of
disable_2fa lib fails p password admins =
    if password == []
    then (refuse 400 (codes "Password is required"), admins)
    else disable_row lib fails password (find_username (username_of p) admins) admins

-- What a setup makes: the secret and the JSON of the codes' hashes, unless a library fails.
setup_row : Option Text → Option (Text × Text) → Option AdminUser → List AdminUser → Changed
unfolding update_one done_or
setup_row fails made none admins = (refuse 404 (codes "Admin not found"), admins)
setup_row fails none (some admin) admins =
    if admin.totp_enabled
    then (refuse 400 (codes "2FA is already enabled"), admins)
    else (refuse 500 (codes "Failed to generate TOTP secret"), admins)
setup_row fails (some (secret, hashes)) (some admin) admins =
    if admin.totp_enabled
    then (refuse 400 (codes "2FA is already enabled"), admins)
    else elim fails [
      | some e ↦ (refuse 500 (codes "Failed to save"), admins)
      | none ↦ done_or 409 (codes "Security settings changed; sign in and try again") (
          update_one none
            (λ row.
              row.id == admin.id
              && (row.session_version == admin.session_version && not row.totp_enabled))
            (λ row. record row { totp_secret = secret; recovery_codes = hashes }) admins)
    ]

unfoldable pub setup_2fa : Option Text → Option (Text × Text) → Principal → List AdminUser → Changed
unfolding setup_row username_of
setup_2fa fails made p admins = setup_row fails made (find_username (username_of p) admins) admins

change_row : Crypto → Option Text → Option Text → Text → Option AdminUser → List AdminUser → Changed
unfolding update_admin_security done_or
change_row lib fails hash old none admins = (refuse 404 (codes "Admin user not found"), admins)
change_row lib fails hash old (some admin) admins =
    if lib.compare_hash admin.password_hash old
    then (elim hash [
      | none ↦ (refuse 500 (codes "Failed to hash password"), admins)
      | some h ↦
          done_or 500 (codes "Failed to update password")
            (update_admin_security fails admin (λ row. record row { password_hash = h }) admins)
    ])
    else (refuse 401 (codes "Old password is incorrect"), admins)

-- `hash` is the hash of the new password, if it can be made.
unfoldable pub change_password :
    Crypto → Option Text → Option Text → Principal → Text → Text → List AdminUser → Changed
unfolding change_row username_of
change_password lib fails hash p old new admins =
    if old == [] || new == []
    then (refuse 400 (codes "Old and new passwords are required"), admins)
    else if ltb (length new) 8
    then (refuse 400 (codes "New password must be at least 8 characters"), admins)
    else change_row lib fails hash old (find_username (username_of p) admins) admins

token_or : Result Text → Reply Text
token_or (ok token) = reply token
token_or (err e) = refuse 500 (codes "Token generation failed")

refresh_at : JwtLibrary → Text → ℕ → Claims → Option ℕ → Reply Text
unfolding token_or
refresh_at jwt key now claims none =
    refuse 401 (codes "Session maximum lifetime reached; sign in again")
refresh_at jwt key now claims (some login) =
    unless (ltb now (login * second + max_session_age))
      (refuse 401 (codes "Session maximum lifetime reached; sign in again"))
      (let remaining = login * second + max_session_age - now in
        let day = 24 * 3600 * second in
        token_or (
          generate_session_token jwt key claims.user_id claims.username claims.session_version
            (at (login * second)) now (if ltb remaining day then remaining else day)))

-- A login time that is not after the epoch is long over.
unfoldable pub refresh : JwtLibrary → Text → ℕ → Principal → Reply Text
unfolding refresh_at session_of
refresh jwt key now p = elim (session_of p) [
  | none ↦ refuse 403 (codes "JWT administrator session required")
  | some claims ↦ refresh_at jwt key now claims (positive claims.logged_in_at)
]
