-- ===== src/Access/Sessions/Steps.antt =====
-- What requests do to the administrators, and that no version goes back.
use zenith_panel.Common.{
  ℕ, refl, arith, List, [], Option, none, some, true, false, Text, codes, text_eq, nat_eq, ◌==◌,
  Option-cases, inl, inr, ◌||◌, ltb, length,
}
use zenith_panel.Access.Reply.{refuse}
use zenith_panel.Access.Jwt.{Claims, JwtLibrary}
use zenith_panel.Access.Auth.{AdminUser, Principal}
use zenith_panel.Access.Login.{Crypto, Attempt, LoginState, login, find_username}
use zenith_panel.Access.Sessions.{
  username_of, update_admin_security, session_of, find_user_id, log_out_row, log_out_claims,
  logout_all, verify_row, verify_2fa, disable_row, disable_2fa, setup_row, setup_2fa, change_row,
  change_password,
}
use zenith_panel.Access.Sessions.Versions.{
  From, update_one-From, security-From, done_or-From, if-From, login-From,
}

logout_all-From :
    (id v : ℕ) (fails : Option Text) (o : Option Claims) (admins : List AdminUser)
    → From id v admins
    → From id v (log_out_claims fails o admins).1
unfolding log_out_claims log_out_row
logout_all-From id v fails none admins from = from
logout_all-From id v fails (some claims) admins from =
    elim (Option-cases (find_user_id claims.user_id admins)) [
      | inl e ↦ rw (e) from
      | inr (admin, e) ↦ rw (e) (
          done_or-From id v 500 (codes "Failed to revoke sessions")
            (update_admin_security fails admin (λ row. row) admins)
            (security-From id v fails admin (λ row. row) admins from))
    ]

verify_row-From :
    (id v : ℕ) (lib : Crypto) (fails : Option Text) (code : Text) (o : Option AdminUser)
    (admins : List AdminUser)
    → From id v admins
    → From id v (verify_row lib fails code o admins).1
unfolding verify_row
verify_row-From id v lib fails code none admins from = from
verify_row-From id v lib fails code (some admin) admins from =
    if-From id v (admin.totp_secret == []) _ _ from (
      if-From id v (lib.validate_totp code admin.totp_secret) _ _
        (done_or-From id v 500 (codes "Failed to enable 2FA") _
          (security-From id v fails admin (λ row. record row { totp_enabled = true }) admins from))
        from)

disable_row-From :
    (id v : ℕ) (lib : Crypto) (fails : Option Text) (password : Text) (o : Option AdminUser)
    (admins : List AdminUser)
    → From id v admins
    → From id v (disable_row lib fails password o admins).1
unfolding disable_row
disable_row-From id v lib fails password none admins from = from
disable_row-From id v lib fails password (some admin) admins from =
    if-From id v (lib.compare_hash admin.password_hash password) _ _
      (done_or-From id v 500 (codes "Failed to disable 2FA") _ (
        security-From id v fails admin
          (λ row. record row { totp_enabled = false; totp_secret = []; recovery_codes = [] }) admins
          from))
      from

setup_row-From :
    (id v : ℕ) (fails : Option Text) (made : Option (Text × Text)) (o : Option AdminUser)
    (admins : List AdminUser)
    → From id v admins
    → From id v (setup_row fails made o admins).1
unfolding setup_row
setup_row-From id v fails made none admins from = from
setup_row-From id v fails none (some admin) admins from =
    if-From id v admin.totp_enabled _ _ from from
setup_row-From id v (some e) (some (secret, hashes)) (some admin) admins from =
    if-From id v admin.totp_enabled _ _ from from
setup_row-From id v none (some (secret, hashes)) (some admin) admins from =
    if-From id v admin.totp_enabled _ _ from (
      done_or-From id v 409 (codes "Security settings changed; sign in and try again") _ (
        update_one-From id v none _
          (λ row. record row { totp_secret = secret; recovery_codes = hashes }) admins
          (λ row. (refl, omega arith)) from))

change_row-From :
    (id v : ℕ) (lib : Crypto) (fails hash : Option Text) (old : Text) (o : Option AdminUser)
    (admins : List AdminUser)
    → From id v admins
    → From id v (change_row lib fails hash old o admins).1
unfolding change_row
change_row-From id v lib fails hash old none admins from = from
change_row-From id v lib fails none old (some admin) admins from =
    if-From id v (lib.compare_hash admin.password_hash old) _ _ from from
change_row-From id v lib fails (some h) old (some admin) admins from =
    if-From id v (lib.compare_hash admin.password_hash old) _ _
      (done_or-From id v 500 (codes "Failed to update password") _
        (security-From id v fails admin (λ row. record row { password_hash = h }) admins from))
      from

-- What requests do to the administrators' rows.
pub data SecurityStep : List AdminUser → List AdminUser → Type 0 where
  logs_out :
      (fails : Option Text) (p : Principal) {admins : List AdminUser}
      → SecurityStep admins (logout_all fails p admins).1
  verifies :
      (lib : Crypto) (fails : Option Text) (p : Principal) (code : Text) {admins : List AdminUser}
      → SecurityStep admins (verify_2fa lib fails p code admins).1
  disables :
      (lib : Crypto) (fails : Option Text) (p : Principal) (password : Text)
      {admins : List AdminUser}
      → SecurityStep admins (disable_2fa lib fails p password admins).1
  sets_up :
      (fails : Option Text) (made : Option (Text × Text)) (p : Principal) {admins : List AdminUser}
      → SecurityStep admins (setup_2fa fails made p admins).1
  changes :
      (lib : Crypto) (fails hash : Option Text) (p : Principal) (old new : Text)
      {admins : List AdminUser}
      → SecurityStep admins (change_password lib fails hash p old new admins).1
  signs_in :
      (lib : Crypto) (jwt : JwtLibrary) (key : Text) (a : Attempt) (s : LoginState)
      → SecurityStep s.admins (login lib jwt key a s).1.admins

pub data SecuritySteps : List AdminUser → List AdminUser → Type 0 where
  rest : {admins : List AdminUser} → SecuritySteps admins admins
  next : {a b c : List AdminUser} → SecurityStep a b → SecuritySteps b c → SecuritySteps a c

step-From : (id v : ℕ) {a b : List AdminUser} → SecurityStep a b → From id v a → From id v b
unfolding logout_all verify_2fa disable_2fa setup_2fa change_password
step-From id v (logs_out fails p) from = logout_all-From id v fails (session_of p) _ from
step-From id v (verifies lib fails p code {admins}) from =
    if-From id v (code == []) _ _ from (verify_row-From id v lib fails code _ admins from)
step-From id v (disables lib fails p password {admins}) from =
    if-From id v (password == []) _ _ from (disable_row-From id v lib fails password _ admins from)
step-From id v (sets_up fails made p) from = setup_row-From id v fails made _ _ from
step-From id v (changes lib fails hash p old new {admins}) from =
    if-From id v (old == [] || new == [])
      (refuse 400 (codes "Old and new passwords are required"), admins) _ from
      (if-From id v (ltb (length new) 8)
        (refuse 400 (codes "New password must be at least 8 characters"), admins)
        (change_row lib fails hash old (find_username (username_of p) admins) admins) from
        (change_row-From id v lib fails hash old (find_username (username_of p) admins) admins
          from))
step-From id v (signs_in lib jwt key a s) from = login-From id v lib jwt key a s from

pub steps-From : (id v : ℕ) {a b : List AdminUser} → SecuritySteps a b → From id v a → From id v b
steps-From id v rest from = from
steps-From id v (next s t) from = steps-From id v t (step-From id v s from)
