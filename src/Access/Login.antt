-- ===== src/Access/Login.antt =====
-- Signing in (api/router.go): the lock of an address after five failures, recovery codes, the login
-- handler, and the setup wizard's login. Password hashing, one-time codes and the JSON of the
-- recovery codes are parameters; the rate limiter's answer is part of an attempt. The
-- answer to a locked address leaves out the minutes that remain.
pub mod Lockout
pub mod Recovery
pub mod Spent
mod Tests
use zenith_panel.Common.{
  ℕ, zero, suc, ◌+◌, ◌-◌, ◌*◌, ◌/◌, List, [], ◌∷◌, ◌++◌, Option, none, some, Bool, true, false, not,
  ◌&&◌, ◌||◌, Text, codes, text_eq, text_beq, nat_eq, ltb, leb, if◌then◌else◌, ◌==◌, Result, ok,
  err, find, keep_if,
}
use zenith_panel.Common.Assoc.{lookup, assign, delete}
use zenith_panel.Common.Decimal.{format_uint}
use zenith_panel.Access.Reply.{Reply, refuse, reply, unless}
use zenith_panel.Access.Jwt.{JwtLibrary, second, at, generate_session_token, generate_setup_token}
use zenith_panel.Access.Auth.{AdminUser}

pub record FailureRecord : Type 0 where
  pub count : ℕ
  pub locked_at : ℕ

abbrev pub Failures : Type 0
Failures = List (Text × FailureRecord)

abbrev pub max_login_failures : ℕ
max_login_failures = 5

-- Fifteen minutes.
abbrev pub lockout_duration : ℕ
lockout_duration = 900 * second

-- The remaining time of the lock, and the failures without a lock that has ended.
check_record : Text → ℕ → Option FailureRecord → Failures → Option ℕ × Failures
check_record ip now none fs = (none, fs)
check_record ip now (some rec) fs =
    if leb max_login_failures rec.count
    then if ltb now (rec.locked_at + lockout_duration)
      then (some (rec.locked_at + lockout_duration - now), fs)
      else (none, delete ip fs)
    else (none, fs)

unfoldable pub check_ip_lockout : Text → ℕ → Failures → Option ℕ × Failures
unfolding check_record
check_ip_lockout ip now fs = check_record ip now (lookup ip fs) fs

next_record : ℕ → Option FailureRecord → FailureRecord
next_record now none = record { count = 1; locked_at = now }
next_record now (some rec) = record { count = rec.count + 1; locked_at = now }

unfoldable pub record_login_failure : Text → ℕ → Failures → Failures
unfolding next_record
record_login_failure ip now fs = assign ip (next_record now (lookup ip fs)) fs

-- The cleanup every thirty minutes.
unfoldable pub lockout_cleanup : ℕ → Failures → Failures
lockout_cleanup now fs = keep_if (λ e. ltb now (e.1.locked_at + lockout_duration)) fs

pub record Crypto : Type 0 where
  pub compare_hash : Text → Text → Bool
  pub validate_totp : Text → Text → Bool
  pub unmarshal : Text → Option (List Text)
  pub marshal : List Text → Text

-- The codes without the first that matches.
put_back : Text → Option (List Text) → Option (List Text)
put_back stored none = none
put_back stored (some left) = some (stored ∷ left)

unfoldable pub spend : (Text → Bool) → List Text → Option (List Text)
unfolding put_back
spend matches [] = none
spend matches (stored ∷ rest) =
    if matches stored then some rest else put_back stored (spend matches rest)

-- The rows that a guarded update changes, and how many they are.
unfoldable pub update_where :
    (AdminUser → Bool) → (AdminUser → AdminUser) → List AdminUser → List AdminUser × ℕ
update_where p change [] = ([], 0)
update_where p change (row ∷ rows) =
    let (rows', n) = update_where p change rows in
    if p row then (change row ∷ rows', suc n) else (row ∷ rows', n)

-- An update that succeeds where exactly one row is affected.
unfoldable pub update_one :
    Option Text
    → (AdminUser → Bool)
    → (AdminUser → AdminUser)
    → List AdminUser
    → Bool × List AdminUser
unfolding update_where
update_one (some e) p change admins = (false, admins)
update_one none p change admins =
    let (admins', n) = update_where p change admins in (n == 1, admins')

unfoldable pub store_codes :
    Option Text → Crypto → AdminUser → Option (List Text) → List AdminUser → Bool × List AdminUser
unfolding update_one
store_codes fails lib admin none admins = (false, admins)
store_codes fails lib admin (some left) admins =
    update_one fails
      (λ row.
        row.id == admin.id
        && (row.session_version == admin.session_version
            && row.recovery_codes == admin.recovery_codes))
      (λ row. record row { recovery_codes = lib.marshal left }) admins

spend_code : Crypto → Text → Option (List Text) → Option (List Text)
unfolding spend
spend_code lib code none = none
spend_code lib code (some stored) = spend (λ hash. lib.compare_hash hash code) stored

unfoldable pub try_recovery_code :
    Option Text → Crypto → AdminUser → Text → List AdminUser → Bool × List AdminUser
unfolding store_codes spend_code
try_recovery_code fails lib admin code admins =
    if admin.recovery_codes == []
    then (false, admins)
    else store_codes fails lib admin (spend_code lib code (lib.unmarshal admin.recovery_codes))
        admins

pub record LoginForm : Type 0 where
  pub username : Text
  pub password : Text
  pub totp_code : Text

-- One attempt: the address, the time, what the limiter says, the form if it parses, whether the
-- database answers and which error an update meets.
pub record Attempt : Type 0 where
  pub ip : Text
  pub now : ℕ
  pub allowed : Bool
  pub form : Option LoginForm
  pub finds : Bool
  pub fails : Option Text

pub record LoginState : Type 0 where
  pub failures : Failures
  pub admins : List AdminUser

-- What the credentials are worth.
pub data Verdict : Type 0 where
  denied : Text → Verdict
  needs_code : Verdict
  accepted : AdminUser → Verdict

unfoldable pub of_code : AdminUser → Bool × List AdminUser → Verdict × List AdminUser
of_code admin (true, admins) = (accepted admin, admins)
of_code admin (false, admins) = (denied (codes "Invalid 2FA code"), admins)

unfoldable pub second_factor :
    Crypto → Option Text → AdminUser → Text → List AdminUser → Verdict × List AdminUser
unfolding of_code try_recovery_code
second_factor lib fails admin code admins =
    if admin.totp_enabled && not (admin.totp_secret == [])
    then if code == []
      then (needs_code, admins)
      else if lib.validate_totp code admin.totp_secret
      then (accepted admin, admins)
      else of_code admin (try_recovery_code fails lib admin code admins)
    else (accepted admin, admins)

unfoldable pub password_check :
    Crypto → Option Text → LoginForm → Option AdminUser → List AdminUser → Verdict × List AdminUser
unfolding second_factor
password_check lib fails form none admins = (denied (codes "Invalid username or password"), admins)
password_check lib fails form (some admin) admins =
    if lib.compare_hash admin.password_hash form.password
    then second_factor lib fails admin form.totp_code admins
    else (denied (codes "Invalid username or password"), admins)

-- The row of a user name.
abbrev pub find_username : Text → List AdminUser → Option AdminUser
find_username username = find (λ row. row.username == username)

unfoldable pub verdict : Crypto → Attempt → LoginForm → List AdminUser → Verdict × List AdminUser
unfolding password_check
verdict lib a form admins =
    password_check lib a.fails form (if a.finds then find_username form.username admins else none)
      admins

pub data SignIn : Type 0 where
  requires_2fa : SignIn
  signed_in : Text → SignIn

token_reply : Result Text → Reply SignIn
token_reply (ok token) = reply (signed_in token)
token_reply (err e) = refuse 500 (codes "Failed to generate token")

unfoldable pub conclude :
    JwtLibrary → Text → Attempt → Failures → Verdict × List AdminUser → Reply SignIn × LoginState
unfolding token_reply record_login_failure
conclude jwt key a fs (denied msg, admins) =
    (refuse 401 msg, record { failures = record_login_failure a.ip a.now fs; admins = admins })
conclude jwt key a fs (needs_code, admins) =
    (reply requires_2fa, record { failures = fs; admins = admins })
conclude jwt key a fs (accepted admin, admins) = (
  token_reply (
      generate_session_token jwt key (format_uint admin.id) admin.username admin.session_version
        (at a.now) a.now (24 * 3600 * second)),
  record { failures = delete a.ip fs; admins = admins },
)

unfoldable pub login_form :
    Crypto
    → JwtLibrary
    → Text
    → Attempt
    → Option LoginForm
    → Failures
    → List AdminUser
    → Reply SignIn × LoginState
unfolding verdict conclude
login_form lib jwt key a none fs admins =
    (refuse 400 (codes "Invalid parameters"), record { failures = fs; admins = admins })
login_form lib jwt key a (some form) fs admins = conclude jwt key a fs (verdict lib a form admins)

unfoldable pub login_unlocked :
    Crypto
    → JwtLibrary
    → Text
    → Attempt
    → Option ℕ × Failures
    → List AdminUser
    → Reply SignIn × LoginState
unfolding login_form
login_unlocked lib jwt key a (some remaining, fs) admins =
    (refuse 429 (codes "Too many failed attempts."), record { failures = fs; admins = admins })
login_unlocked lib jwt key a (none, fs) admins =
    if a.allowed then login_form lib jwt key a a.form fs admins else (
      refuse 429 (codes "Too many login attempts, please try again later"),
      record { failures = fs; admins = admins },
    )

unfoldable pub login : Crypto → JwtLibrary → Text → Attempt → LoginState → Reply SignIn × LoginState
unfolding login_unlocked check_ip_lockout
login lib jwt key a s =
    login_unlocked lib jwt key a (check_ip_lockout a.ip a.now s.failures) s.admins

-- The setup wizard's login; `time.Minute * 30`.
unfoldable pub setup_login : JwtLibrary → Text → Bool → Bool → Text → ℕ → Option Text → Reply Text
setup_login jwt key is_setup_complete allowed one_time_token now password =
    unless allowed (refuse 429 (codes "Too many attempts, please try again later")) (elim password [
      | none ↦ refuse 400 (codes "Invalid parameters")
      | some given ↦
          unless (not (is_setup_complete || one_time_token == []))
            (refuse 404 (codes "Endpoint not found"))
            (unless (given == one_time_token) (refuse 401 (codes "Invalid one-time password"))
              (elim (generate_setup_token jwt key now (1800 * second)) [
                | err e ↦ refuse 500 (codes "Failed to generate token")
                | ok token ↦ reply token
              ]))
    ])
