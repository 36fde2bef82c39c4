-- ===== src/Access/Sessions/Cap.antt =====
-- A session lasts seven days at most, however often it is refreshed.
use zenith_panel.Common.{
  ℕ, zero, suc, ◌+◌, ◌*◌, ◌/◌, ◌≤◌, ◌<◌, ◌≡◌, refl, ◌∙◌, sym, ap, subst, arith, [], ◌∷◌, Option,
  none, some, Bool, true, false, not, ◌&&◌, Text, codes, text_eq, text_beq, text_beq_iff,
  if◌then◌else◌, Result, ok, err, some_inj, ok_inj,
}
use zenith_panel.Common.Integers.{pos, positive}
use zenith_panel.Access.Reply.{reply, unless_eq_reply, reply_inj, refuse_ne_reply}
use zenith_panel.Access.Jwt.{
  Claims, JwtLibrary, at, second, max_session_age, purpose_admin, issuer_name, session_claims,
  generate_token, generate_session_token, is_live_login, check_claims, check_parsed, validate_token,
}
use zenith_panel.Access.Auth.{AuthSource, admin_session}
use zenith_panel.Access.Sessions.{token_or, refresh_at, refresh, session_of}

-- What a signed text says is what was signed.
abbrev pub IsFaithful : JwtLibrary → Type 0
IsFaithful lib =
    (key : Text) (claims other : Claims) (now : ℕ) (token : Text)
    → lib.signed_string key claims ≡ ok token
    → lib.parse_with_claims key issuer_name now token ≡ ok other
    → other ≡ claims

-- The tokens of one session: the one of the login at `start`, and each that a refresh gave.
pub data Session (lib : JwtLibrary) (key : Text) (start : ℕ) : Text → Type 0 where
  signed_in :
      (user_id username : Text) (version now duration : ℕ) {token : Text}
      → generate_session_token lib key user_id username version (at start) now duration ≡ ok token
      → Session lib key start token
  refreshed :
      (now : ℕ) (claims : Claims) (source : AuthSource) {token next : Text}
      → Session lib key start token
      → validate_token lib key now token ≡ ok claims
      → refresh lib key now (admin_session claims source) ≡ reply next
      → Session lib key start next

-- What its tokens say: the second of the login.
pub record Says (lib : JwtLibrary) (key : Text) (start : ℕ) (token : Text) : Type 0 where
  pub claims : Claims
  pub signed : lib.signed_string key claims ≡ ok token
  pub purposed : claims.purpose ≡ purpose_admin
  pub login : claims.logged_in_at ≡ pos (start / second)

generate-Says :
    (lib : JwtLibrary) (key user_id username : Text) (version start now duration : ℕ) (token : Text)
    → generate_session_token lib key user_id username version (at start) now duration ≡ ok token
    → Says lib key start token
unfolding generate_session_token generate_token session_claims
generate-Says lib [] user_id username version start now duration token is = absurd (cc (is))
generate-Says lib (k ∷ key) user_id username version start now duration token is = record {
  claims = session_claims user_id username purpose_admin version (at start) now duration;
  signed = is;
  purposed = refl;
  login = refl;
}

passed :
    (b : Bool) (e : Text) (c claims : Claims)
    → (if b then err e else ok c) ≡ ok claims
    → (b ≡ false) × (c ≡ claims)
passed true e c claims is = absurd (cc (is))
passed false e c claims is = (refl, ok_inj is)

-- What an administrator's claims have to stand.
abbrev outlived : ℕ → Claims → Bool
outlived now c =
    text_beq c.purpose purpose_admin && not (is_live_login (positive c.logged_in_at) now)

check_parsed-ok :
    (now : ℕ) (r : Result Claims) (claims : Claims)
    → check_parsed now r ≡ ok claims
    → (r ≡ ok claims) × (outlived now claims ≡ false)
unfolding check_parsed check_claims
check_parsed-ok now (err e) claims is = absurd (cc (is))
check_parsed-ok now (ok c) claims is =
    let (fresh, same) = passed (outlived now c) _ c claims is in
    (ap ok same, subst (λ x. outlived now x ≡ false) same fresh)

-- Validation reads the claims and holds an administrator's against the clock.
validate-parses :
    (lib : JwtLibrary) (key : Text) (now : ℕ) (token : Text) (claims : Claims)
    → validate_token lib key now token ≡ ok claims
    → (lib.parse_with_claims key issuer_name now token ≡ ok claims) × (outlived now claims ≡ false)
unfolding validate_token
validate-parses lib [] now token claims is = absurd (cc (is))
validate-parses lib (k ∷ key) now token claims is =
    check_parsed-ok now (lib.parse_with_claims (k ∷ key) issuer_name now token) claims is

still : (a live : Bool) → a ≡ true → (a && not live) ≡ false → live ≡ true
still a live e f = ground (arith, e, f)

live_of :
    (n start now : ℕ)
    → is_live_login (positive (pos n)) now ≡ true
    → n * second ≤ start
    → now < start + max_session_age
unfolding is_live_login positive
live_of zero start now is early = absurd (ground (arith, is))
live_of (suc n) start now is early = ground (arith, is, early)

-- A live session started less than seven days ago.
live-recent :
    (now start : ℕ) (claims : Claims)
    → claims.purpose ≡ purpose_admin
    → claims.logged_in_at ≡ pos (start / second)
    → outlived now claims ≡ false
    → now < start + max_session_age
unfolding is_live_login
live-recent now start claims purposed login live =
    live_of (start / second) start now
      (subst (λ z. is_live_login (positive z) now ≡ true) login
        (still (text_beq claims.purpose purpose_admin) _
          ((text_beq_iff claims.purpose purpose_admin).1 purposed) live))
      (omega arith)

token_or-reply : (r : Result Text) (next : Text) → token_or r ≡ reply next → r ≡ ok next
unfolding token_or
token_or-reply (ok token) next is = ap ok (reply_inj is)
token_or-reply (err e) next is = absurd (refuse_ne_reply is)

same_second : (n : ℕ) → n * second / second ≡ n
same_second n = omega arith

-- A refresh keeps the second of the login.
refresh_at-Says :
    (lib : JwtLibrary) (key : Text) (now start : ℕ) (claims : Claims) (o : Option ℕ) (next : Text)
    → ((n : ℕ) → o ≡ some n → n ≡ start / second)
    → refresh_at lib key now claims o ≡ reply next
    → Says lib key start next
unfolding refresh_at
refresh_at-Says lib key now start claims none next login is = absurd (refuse_ne_reply is)
refresh_at-Says lib key now start claims (some n) next login is =
    let (early, made) =
      unless_eq_reply _ 401 (codes "Session maximum lifetime reached; sign in again") _ is in
    let says =
      generate-Says lib key claims.user_id claims.username claims.session_version (n * second) now _
        next (token_or-reply _ next made) in
    record {
      claims = says.claims;
      signed = says.signed;
      purposed = says.purposed;
      login = says.login ∙ ap pos (same_second n ∙ login n refl);
    }

positive_pos : (m n : ℕ) → positive (pos m) ≡ some n → n ≡ m
unfolding positive
positive_pos zero n is = absurd (cc (is))
positive_pos (suc m) n is = sym (some_inj is)

refresh-Says :
    (lib : JwtLibrary) (key : Text) (now start : ℕ) (claims : Claims) (source : AuthSource)
    (next : Text)
    → claims.logged_in_at ≡ pos (start / second)
    → refresh lib key now (admin_session claims source) ≡ reply next
    → Says lib key start next
unfolding refresh session_of
refresh-Says lib key now start claims source next login is =
    refresh_at-Says lib key now start claims (positive claims.logged_in_at) next
      (λ n e. positive_pos (start / second) n (ap positive (sym login) ∙ e)) is

Session-Says :
    (lib : JwtLibrary) (key : Text) (start : ℕ) {token : Text}
    → IsFaithful lib
    → Session lib key start token
    → Says lib key start token
Session-Says lib key start faithful (signed_in user_id username version now duration is) =
    generate-Says lib key user_id username version start now duration _ is
Session-Says lib key start faithful (refreshed now claims source {token} session valid is) =
    let says = Session-Says lib key start faithful session in
    let (read, fresh) = validate-parses lib key now token claims valid in
    let same = faithful key says.claims claims now token says.signed read in
    refresh-Says lib key now start claims source _
      (ap (λ (c : Claims). c.logged_in_at) same ∙ says.login) is

-- However often a session is refreshed, none of its tokens validates seven days or more after its
-- login, where the library reads from a token only what was signed into it.
pub refreshed_cap :
    (lib : JwtLibrary) (key : Text) (start : ℕ) (token : Text)
    → IsFaithful lib
    → Session lib key start token
    → (now : ℕ) (claims : Claims) → validate_token lib key now token ≡ ok claims
    → now < start + max_session_age
refreshed_cap lib key start token faithful session now claims valid =
    let says = Session-Says lib key start faithful session in
    let (read, fresh) = validate-parses lib key now token claims valid in
    let same = faithful key says.claims claims now token says.signed read in
    live-recent now start claims (ap (λ (c : Claims). c.purpose) same ∙ says.purposed)
      (ap (λ (c : Claims). c.logged_in_at) same ∙ says.login) fresh
