-- ===== src/Access/Sessions/Versions.antt =====
-- Session versions never go back.
use zenith_panel.Common.{
  ℕ, ◌≤◌, ◌≡◌, refl, ◌∙◌, sym, arith, List, [], ◌∷◌, Option, none, some, Bool, true, false, Text,
  text_eq, nat_eq, if◌then◌else◌, ◌==◌, Bool-cases, inl, inr, All,
}
use zenith_panel.Access.Reply.{Reply}
use zenith_panel.Access.Jwt.{JwtLibrary}
use zenith_panel.Access.Auth.{AdminUser}
use zenith_panel.Access.Login.{
  Crypto, Attempt, LoginState, update_where, update_one, store_codes, try_recovery_code, login,
  Verdict, denied, needs_code, accepted, LoginForm, Failures, verdict, conclude, of_code,
  second_factor, password_check, login_form, login_unlocked, check_ip_lockout, find_username,
  SignIn,
}
use zenith_panel.Access.Sessions.{Changed, update_admin_security, done_or}

-- Every row of an administrator is at a version from `v` on.
abbrev pub From : ℕ → ℕ → List AdminUser → Type 0
From id v admins = All (λ row. row.id ≡ id → v ≤ row.session_version) admins

-- A change that keeps the id and takes no version back.
abbrev pub Rises : (AdminUser → AdminUser) → Type 0
Rises change =
    (row : AdminUser)
    → ((change row).id ≡ row.id) × (row.session_version ≤ (change row).session_version)

pub update_where-From :
    (id v : ℕ) (p : AdminUser → Bool) (change : AdminUser → AdminUser) (rows : List AdminUser)
    → Rises change
    → From id v rows
    → From id v (update_where p change rows).0
unfolding update_where
update_where-From id v p change [] rises from = tt
update_where-From id v p change (row ∷ rows) rises from = elim (Bool-cases (p row)) [
  | inl e ↦ rw (e) (
    λ is. omega (arith, (rises row).1, from.0 (sym (rises row).0 ∙ is)),
    update_where-From id v p change rows rises from.1,
  )
  | inr e ↦ rw (e) (from.0, update_where-From id v p change rows rises from.1)
]

pub update_one-From :
    (id v : ℕ) (fails : Option Text) (p : AdminUser → Bool) (change : AdminUser → AdminUser)
    (rows : List AdminUser)
    → Rises change
    → From id v rows
    → From id v (update_one fails p change rows).1
unfolding update_one
update_one-From id v (some e) p change rows rises from = from
update_one-From id v none p change rows rises from = update_where-From id v p change rows rises from

pub security-From :
    (id v : ℕ) (fails : Option Text) (admin : AdminUser) (updates : AdminUser → AdminUser)
    (rows : List AdminUser)
    → From id v rows
    → From id v (update_admin_security fails admin updates rows).1
unfolding update_admin_security
security-From id v fails admin updates rows from =
    update_one-From id v fails _ _ rows (λ row. (refl, omega arith)) from

pub done_or-From :
    (id v code : ℕ) (msg : Text) (r : Bool × List AdminUser)
    → From id v r.1
    → From id v (done_or code msg r).1
unfolding done_or
done_or-From id v code msg (true, admins) from = from
done_or-From id v code msg (false, admins) from = from

pub if-From :
    (id v : ℕ) (b : Bool) (t e : Changed)
    → From id v t.1
    → From id v e.1
    → From id v (if b then t else e).1
if-From id v true t e one two = one
if-From id v false t e one two = two

-- Sign-ins write the recovery codes alone.
store_codes-From :
    (id v : ℕ) (fails : Option Text) (lib : Crypto) (admin : AdminUser) (o : Option (List Text))
    (admins : List AdminUser)
    → From id v admins
    → From id v (store_codes fails lib admin o admins).1
unfolding store_codes
store_codes-From id v fails lib admin none admins from = from
store_codes-From id v fails lib admin (some left) admins from =
    update_one-From id v fails _ _ admins (λ row. (refl, omega arith)) from

if_pair-From :
    {A : Type 0} (id v : ℕ) (b : Bool) (t e : A × List AdminUser)
    → From id v t.1
    → From id v e.1
    → From id v (if b then t else e).1
if_pair-From id v true t e one two = one
if_pair-From id v false t e one two = two

of_code-From :
    (id v : ℕ) (admin : AdminUser) (r : Bool × List AdminUser)
    → From id v r.1
    → From id v (of_code admin r).1
unfolding of_code
of_code-From id v admin (true, admins) from = from
of_code-From id v admin (false, admins) from = from

recovery-From :
    (id v : ℕ) (fails : Option Text) (lib : Crypto) (admin : AdminUser) (code : Text)
    (admins : List AdminUser)
    → From id v admins
    → From id v (try_recovery_code fails lib admin code admins).1
unfolding try_recovery_code
recovery-From id v fails lib admin code admins from =
    if_pair-From id v (admin.recovery_codes == []) _ _ from
      (store_codes-From id v fails lib admin _ admins from)

second_factor-From :
    (id v : ℕ) (lib : Crypto) (fails : Option Text) (admin : AdminUser) (code : Text)
    (admins : List AdminUser)
    → From id v admins
    → From id v (second_factor lib fails admin code admins).1
unfolding second_factor
second_factor-From id v lib fails admin code admins from =
    if_pair-From id v _ _ _
      (if_pair-From id v (code == []) _ _ from (
        if_pair-From id v (lib.validate_totp code admin.totp_secret) _ _ from
          (of_code-From id v admin _ (recovery-From id v fails lib admin code admins from))))
      from

password_check-From :
    (id v : ℕ) (lib : Crypto) (fails : Option Text) (form : LoginForm) (o : Option AdminUser)
    (admins : List AdminUser)
    → From id v admins
    → From id v (password_check lib fails form o admins).1
unfolding password_check
password_check-From id v lib fails form none admins from = from
password_check-From id v lib fails form (some admin) admins from =
    if_pair-From id v (lib.compare_hash admin.password_hash form.password) _ _
      (second_factor-From id v lib fails admin form.totp_code admins from) from

conclude-From :
    (id v : ℕ) (jwt : JwtLibrary) (key : Text) (a : Attempt) (fs : Failures)
    (r : Verdict × List AdminUser)
    → From id v r.1
    → From id v (conclude jwt key a fs r).1.admins
unfolding conclude
conclude-From id v jwt key a fs (denied msg, admins) from = from
conclude-From id v jwt key a fs (needs_code, admins) from = from
conclude-From id v jwt key a fs (accepted admin, admins) from = from

login_form-From :
    (id v : ℕ) (lib : Crypto) (jwt : JwtLibrary) (key : Text) (a : Attempt) (o : Option LoginForm)
    (fs : Failures) (admins : List AdminUser)
    → From id v admins
    → From id v (login_form lib jwt key a o fs admins).1.admins
unfolding login_form verdict
login_form-From id v lib jwt key a none fs admins from = from
login_form-From id v lib jwt key a (some form) fs admins from =
    conclude-From id v jwt key a fs (verdict lib a form admins) (
      password_check-From id v lib a.fails form
        (if a.finds then find_username form.username admins else none) admins from)

if_state-From :
    (id v : ℕ) (b : Bool) (t e : Reply SignIn × LoginState)
    → From id v t.1.admins
    → From id v e.1.admins
    → From id v (if b then t else e).1.admins
if_state-From id v true t e one two = one
if_state-From id v false t e one two = two

login_unlocked-From :
    (id v : ℕ) (lib : Crypto) (jwt : JwtLibrary) (key : Text) (a : Attempt) (o : Option ℕ)
    (fs : Failures) (admins : List AdminUser)
    → From id v admins
    → From id v (login_unlocked lib jwt key a (o, fs) admins).1.admins
unfolding login_unlocked
login_unlocked-From id v lib jwt key a (some remaining) fs admins from = from
login_unlocked-From id v lib jwt key a none fs admins from =
    if_state-From id v a.allowed _ _ (login_form-From id v lib jwt key a a.form fs admins from) from

pub login-From :
    (id v : ℕ) (lib : Crypto) (jwt : JwtLibrary) (key : Text) (a : Attempt) (s : LoginState)
    → From id v s.admins
    → From id v (login lib jwt key a s).1.admins
unfolding login
login-From id v lib jwt key a s from =
    login_unlocked-From id v lib jwt key a (check_ip_lockout a.ip a.now s.failures).0
      (check_ip_lockout a.ip a.now s.failures).1 s.admins from
