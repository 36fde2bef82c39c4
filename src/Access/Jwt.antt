-- ===== src/Access/Jwt.antt =====
-- Session and setup tokens (pkg/jwtutil/jwtutil.go). Signing and parsing are the JWT library's, a
-- parameter. Clock times are nanoseconds since the epoch, times in claims are seconds; the clock
-- stands still during one call.
use zenith_panel.Common.{
  ℕ, ◌+◌, ◌*◌, ◌/◌, [], ◌∷◌, Option, none, some, Bool, false, not, ◌&&◌, Text, codes, text_eq,
  nat_eq, ltb, leb, if◌then◌else◌, ◌==◌, Result, ok, err,
}
use zenith_panel.Common.Integers.{ℤ, pos, negsuc, positive}

abbrev pub second : ℕ
second = 1000000000

-- Seven days.
abbrev pub max_session_age : ℕ
max_session_age = 7 * 24 * 3600 * second

abbrev pub purpose_admin : Text
purpose_admin = codes "admin"

abbrev pub purpose_setup : Text
purpose_setup = codes "setup"

abbrev pub issuer_name : Text
issuer_name = codes "zenithpanel"

pub record Claims : Type 0 where
  pub user_id : Text
  pub username : Text
  pub purpose : Text
  pub session_version : ℕ
  pub logged_in_at : ℤ
  pub expires_at : ℤ
  pub issued_at : ℕ
  pub issuer : Text

-- The library under HS256: a signature over claims, and the claims of a text that has a good
-- signature, this issuer, and a lifetime around the time given.
pub record JwtLibrary : Type 0 where
  pub signed_string : Text → Claims → Result Text
  pub parse_with_claims : Text → Text → ℕ → Text → Result Claims

-- A login time; Go's zero time is far before the epoch.
pub data Login : Type 0 where
  zero_time : Login
  at : ℕ → Login

abbrev zero_time_unix : ℤ
zero_time_unix = negsuc 62135596799

unix : Login → ℤ
unix zero_time = zero_time_unix
unix (at t) = pos (t / second)

-- The zero time and seven days, which is also before the epoch.
abbrev zero_time_expiry : ℤ
zero_time_expiry = negsuc 62134991999

expiry : Text → Login → ℕ → ℕ → ℤ
expiry purpose zero_time now duration =
    if purpose == purpose_admin then zero_time_expiry else pos ((now + duration) / second)
expiry purpose (at t) now duration =
    if purpose == purpose_admin && ltb (t + max_session_age) (now + duration)
    then pos ((t + max_session_age) / second)
    else pos ((now + duration) / second)

unfoldable pub session_claims : Text → Text → Text → ℕ → Login → ℕ → ℕ → Claims
unfolding unix expiry
session_claims user_id username purpose version login now duration = record {
  user_id = user_id;
  username = username;
  purpose = purpose;
  session_version = version;
  logged_in_at = unix login;
  expires_at = expiry purpose login now duration;
  issued_at = now / second;
  issuer = issuer_name;
}

unfoldable pub generate_token :
    JwtLibrary → Text → Text → Text → Text → ℕ → Login → ℕ → ℕ → Result Text
unfolding session_claims
generate_token lib [] user_id username purpose version login now duration =
    err (codes "JWT secret not initialized")
generate_token lib (k ∷ key) user_id username purpose version login now duration =
    lib.signed_string (k ∷ key) (session_claims user_id username purpose version login now duration)

unfoldable pub generate_session_token :
    JwtLibrary → Text → Text → Text → ℕ → Login → ℕ → ℕ → Result Text
unfolding generate_token
generate_session_token lib key user_id username version zero_time now duration =
    err (codes "session login time is required")
generate_session_token lib key user_id username version (at t) now duration =
    generate_token lib key user_id username purpose_admin version (at t) now duration

unfoldable pub generate_setup_token : JwtLibrary → Text → ℕ → ℕ → Result Text
unfolding generate_token
generate_setup_token lib key now duration =
    generate_token lib key (codes "setup-admin") (codes "setup") purpose_setup 0 zero_time now
      duration

-- The login time of an administrator's session is known, not in the future and not too old.
unfoldable pub is_live_login : Option ℕ → ℕ → Bool
is_live_login none now = false
is_live_login (some login) now =
    leb (login * second) (now + second) && ltb now (login * second + max_session_age)

unfoldable pub check_claims : ℕ → Claims → Result Claims
unfolding is_live_login
check_claims now claims =
    if claims.purpose == purpose_admin && not (is_live_login (positive claims.logged_in_at) now)
    then err (codes "session absolute lifetime exceeded or invalid login time")
    else ok claims

unfoldable pub check_parsed : ℕ → Result Claims → Result Claims
unfolding check_claims
check_parsed now (ok claims) = check_claims now claims
check_parsed now (err e) = err e

unfoldable pub validate_token : JwtLibrary → Text → ℕ → Text → Result Claims
unfolding check_parsed
validate_token lib [] now token = err (codes "JWT secret not initialized")
validate_token lib (k ∷ key) now token =
    check_parsed now (lib.parse_with_claims (k ∷ key) issuer_name now token)
