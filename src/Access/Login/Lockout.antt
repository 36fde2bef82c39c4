-- ===== src/Access/Login/Lockout.antt =====
-- Five failures in a row lock an address.
use zenith_panel.Common.{
  ℕ, suc, ◌+◌, ◌-◌, ◌≤◌, ◌<◌, ◌≡◌, refl, ◌∙◌, sym, ap, subst, arith, List, Option, none, some, Bool,
  true, false, Text, codes, text_eq, nat_eq, ltb, leb, if◌then◌else◌, ◌==◌, Result, ok, err,
  eq_self,
}
use zenith_panel.Common.Assoc.{lookup, lookup-assign, lookup-delete}
use zenith_panel.Access.Reply.{Reply, refuse, reply}
use zenith_panel.Access.Jwt.{JwtLibrary}
use zenith_panel.Access.Auth.{AdminUser}
use zenith_panel.Access.Login.{
  FailureRecord, Failures, max_login_failures, lockout_duration, check_record, check_ip_lockout,
  next_record, record_login_failure, Crypto, LoginForm, Attempt, LoginState, Verdict, denied,
  needs_code, accepted, SignIn, token_reply, conclude, login_form, login_unlocked, login,
}

-- How many failures are recorded for an address.
abbrev count_of : Option FailureRecord → ℕ
count_of none = 0
count_of (some rec) = rec.count

-- A record that a failure at `t` left.
abbrev Failed : Text → ℕ → ℕ → Failures → Type 0
Failed ip n t fs = lookup ip fs ≡ some (record { count = n; locked_at = t })

-- Refused for the credentials.
abbrev pub Refused401 : Reply SignIn → Type 0
Refused401 (refuse code msg) = code ≡ 401
Refused401 (reply a) = ⊥

token_reply-401 : (r : Result Text) → ¬ Refused401 (token_reply r)
unfolding token_reply
token_reply-401 (ok token) is = is
token_reply-401 (err e) is = absurd (omega (arith, is))

-- A step that does not refuse the credentials where it is stopped, and records them else.
if-records :
    (b : Bool) (t : Reply SignIn × LoginState) (msg : Text) (fs gs : Failures)
    (admins : List AdminUser)
    → (Refused401 t.0 → t.1.failures ≡ gs)
    → Refused401 (if b then t else (refuse 429 msg, record { failures = fs; admins = admins })).0
    → (if b then t else (refuse 429 msg, record { failures = fs; admins = admins })).1.failures ≡ gs
if-records true t msg fs gs admins records is = records is
if-records false t msg fs gs admins records is = absurd (omega (arith, is))

module _ (lib : Crypto) (jwt : JwtLibrary) (key : Text) where
  -- A refusal of the credentials is recorded.
  conclude-records :
      (a : Attempt) (fs : Failures) (v : Verdict × List AdminUser)
      → Refused401 (conclude jwt key a fs v).0
      → (conclude jwt key a fs v).1.failures ≡ record_login_failure a.ip a.now fs
  unfolding conclude token_reply
  conclude-records a fs (denied msg, admins) is = refl
  conclude-records a fs (needs_code, admins) is = absurd is
  conclude-records a fs (accepted admin, admins) is = absurd (token_reply-401 _ is)

  form-records :
      (a : Attempt) (o : Option LoginForm) (fs : Failures) (admins : List AdminUser)
      → Refused401 (login_form lib jwt key a o fs admins).0
      → (login_form lib jwt key a o fs admins).1.failures ≡ record_login_failure a.ip a.now fs
  unfolding login_form
  form-records a none fs admins is = absurd (omega (arith, is))
  form-records a (some form) fs admins is = conclude-records a fs _ is

  unlocked-records :
      (a : Attempt) (o : Option ℕ) (fs : Failures) (admins : List AdminUser)
      → Refused401 (login_unlocked lib jwt key a (o, fs) admins).0
      → (login_unlocked lib jwt key a (o, fs) admins).1.failures
        ≡ record_login_failure a.ip a.now fs
  unfolding login_unlocked
  unlocked-records a (some remaining) fs admins is = absurd (omega (arith, is))
  unlocked-records a none fs admins is =
      if-records a.allowed (login_form lib jwt key a a.form fs admins)
        (codes "Too many login attempts, please try again later") fs _ admins
        (form-records a a.form fs admins) is

  -- With fewer than five failures there is no lock to end.
  open_below :
      (ip : Text) (now : ℕ) (fs : Failures) (o : Option FailureRecord)
      → count_of o < 5
      → check_record ip now o fs ≡ (none, fs)
  unfolding check_record
  open_below ip now fs none few = refl
  open_below ip now fs (some rec) few = rw (few_of rec.count few) refl
    where
      few_of : (n : ℕ) → n < 5 → leb max_login_failures n ≡ false
      few_of n h = ground (arith, h)

  next-count :
      (now : ℕ) (o : Option FailureRecord)
      → next_record now o ≡ record { count = suc (count_of o); locked_at = now }
  unfolding next_record
  next-count now none = refl
  next-count now (some rec) = cc (omega_suc rec.count)
    where
      omega_suc : (n : ℕ) → n + 1 ≡ suc n
      omega_suc n = omega arith

  lookup-record :
      (ip : Text) (now : ℕ) (fs : Failures)
      → lookup ip (record_login_failure ip now fs)
        ≡ some (record { count = suc (count_of (lookup ip fs)); locked_at = now })
  unfolding record_login_failure
  lookup-record ip now fs =
      lookup-assign ip ip (next_record now (lookup ip fs)) fs
      ∙ ap (λ b. if b then some (next_record now (lookup ip fs)) else lookup ip fs) (eq_self ip)
      ∙ ap some (next-count now (lookup ip fs))

  -- One more refused attempt is one more failure.
  login-counts :
      (a : Attempt) (s : LoginState)
      → count_of (lookup a.ip s.failures) < 5
      → Refused401 (login lib jwt key a s).0
      → Failed a.ip
          (suc (count_of (lookup a.ip s.failures)))
          a.now
          (login lib jwt key a s).1.failures
  unfolding login check_ip_lockout record_login_failure
  login-counts a s few is =
      subst
        (λ c.
          Refused401 (login_unlocked lib jwt key a c s.admins).0
          → Failed a.ip (suc (count_of (lookup a.ip s.failures))) a.now
              (login_unlocked lib jwt key a c s.admins).1.failures)
        (sym (open_below a.ip a.now s.failures (lookup a.ip s.failures) few))
        (λ refused.
          ap (lookup a.ip) (unlocked-records a none s.failures s.admins refused)
          ∙ lookup-record a.ip a.now s.failures)
        is

  -- An attempt from another address.
  if-keeps :
      (ip : Text) (b : Bool) (t : Reply SignIn × LoginState) (msg : Text) (fs : Failures)
      (admins : List AdminUser)
      → lookup ip t.1.failures ≡ lookup ip fs
      → lookup ip
          (if b then t else (refuse 429 msg, record { failures = fs; admins = admins })).1.failures
        ≡ lookup ip fs
  if-keeps ip true t msg fs admins keeps = keeps
  if-keeps ip false t msg fs admins keeps = refl

  conclude-keeps :
      (ip : Text) (a : Attempt) (fs : Failures) (v : Verdict × List AdminUser)
      → (a.ip == ip) ≡ false
      → lookup ip (conclude jwt key a fs v).1.failures ≡ lookup ip fs
  unfolding conclude record_login_failure
  conclude-keeps ip a fs (denied msg, admins) other =
      lookup-assign a.ip ip (next_record a.now (lookup a.ip fs)) fs
      ∙ ap (λ b. if b then some (next_record a.now (lookup a.ip fs)) else lookup ip fs) other
  conclude-keeps ip a fs (needs_code, admins) other = refl
  conclude-keeps ip a fs (accepted admin, admins) other =
      lookup-delete a.ip ip fs ∙ ap (λ b. if b then none else lookup ip fs) other

  form-keeps :
      (ip : Text) (a : Attempt) (o : Option LoginForm) (fs : Failures) (admins : List AdminUser)
      → (a.ip == ip) ≡ false
      → lookup ip (login_form lib jwt key a o fs admins).1.failures ≡ lookup ip fs
  unfolding login_form
  form-keeps ip a none fs admins other = refl
  form-keeps ip a (some form) fs admins other = conclude-keeps ip a fs _ other

  check-keeps :
      (ip : Text) (a : Attempt) (o : Option FailureRecord) (fs : Failures)
      → (a.ip == ip) ≡ false
      → lookup ip (check_record a.ip a.now o fs).1 ≡ lookup ip fs
  unfolding check_record
  check-keeps ip a none fs other = refl
  check-keeps ip a (some rec) fs other = ground (arith, lookup-delete a.ip ip fs, other)

  unlocked-keeps :
      (ip : Text) (a : Attempt) (o : Option ℕ) (fs : Failures) (admins : List AdminUser)
      → (a.ip == ip) ≡ false
      → lookup ip (login_unlocked lib jwt key a (o, fs) admins).1.failures ≡ lookup ip fs
  unfolding login_unlocked
  unlocked-keeps ip a (some remaining) fs admins other = refl
  unlocked-keeps ip a none fs admins other =
      if-keeps ip a.allowed (login_form lib jwt key a a.form fs admins)
        (codes "Too many login attempts, please try again later") fs admins
        (form-keeps ip a a.form fs admins other)

  login-keeps :
      (ip : Text) (a : Attempt) (s : LoginState)
      → (a.ip == ip) ≡ false
      → lookup ip (login lib jwt key a s).1.failures ≡ lookup ip s.failures
  unfolding login check_ip_lockout
  login-keeps ip a s other =
      unlocked-keeps ip a (check_record a.ip a.now (lookup a.ip s.failures) s.failures).0 _ s.admins
        other
      ∙ check-keeps ip a (lookup a.ip s.failures) s.failures other

  -- Attempts of any addresses, where those of one are refused `n` times, the last time at `t`.
  pub data Refusals (ip : Text) : ℕ → ℕ → LoginState → LoginState → Type 0 where
    first :
        (a : Attempt) {s : LoginState}
        → a.ip ≡ ip
        → Refused401 (login lib jwt key a s).0
        → Refusals ip 1 a.now s (login lib jwt key a s).1
    again :
        (a : Attempt) {n t : ℕ} {s u : LoginState}
        → Refusals ip n t s u
        → a.ip ≡ ip
        → Refused401 (login lib jwt key a u).0
        → Refusals ip (suc n) a.now s (login lib jwt key a u).1
    other :
        (a : Attempt) {n t : ℕ} {s u : LoginState}
        → Refusals ip n t s u
        → (a.ip == ip) ≡ false
        → Refusals ip n t s (login lib jwt key a u).1

  counts-at :
      (ip : Text) (a : Attempt) (s : LoginState) (n : ℕ)
      → a.ip ≡ ip
      → count_of (lookup ip s.failures) ≡ n
      → n < 5
      → Refused401 (login lib jwt key a s).0
      → Failed ip (suc n) a.now (login lib jwt key a s).1.failures
  counts-at ip a s n same counted few is =
      subst
        (λ i.
          count_of (lookup i s.failures) ≡ n
          → Failed i (suc n) a.now (login lib jwt key a s).1.failures)
        same
        (λ c.
          subst (λ m. Failed a.ip (suc m) a.now (login lib jwt key a s).1.failures) c
            (login-counts a s (omega (arith, c, few)) is))
        counted

  Refusals-count :
      (ip : Text) {n t : ℕ} {s u : LoginState}
      → lookup ip s.failures ≡ none
      → n ≤ 5
      → Refusals ip n t s u
      → Failed ip n t u.failures
  Refusals-count ip clear few (first a same is) =
      counts-at ip a _ 0 same (ap count_of clear) (omega arith) is
  Refusals-count ip clear few (again a before same is) =
      counts-at ip a _ _ same (ap count_of (Refusals-count ip clear (omega (arith, few)) before))
        (omega (arith, few)) is
  Refusals-count ip clear few (other a before different) =
      login-keeps ip a _ different ∙ Refusals-count ip clear few before

  locked :
      (ip : Text) (now t : ℕ) (fs : Failures)
      → now < t + lockout_duration
      → check_record ip now (some (record { count = 5; locked_at = t })) fs
        ≡ (some (t + lockout_duration - now), fs)
  unfolding check_record
  locked ip now t fs early = rw (still now (t + lockout_duration) early) refl
    where
      still : (m n : ℕ) → m < n → ltb m n ≡ true
      still m n h = ground (arith, h)

  -- Five attempts of an address without a record that are refused for their credentials, whatever
  -- other addresses attempt in between, lock it: within fifteen minutes of the last every further
  -- attempt is refused unread, the right password included, and changes nothing. No cleanup runs in
  -- between.
  pub five_failures :
      (ip : Text) (t : ℕ) (s u : LoginState)
      → lookup ip s.failures ≡ none
      → Refusals ip 5 t s u
      → (b : Attempt) → b.ip ≡ ip
      → b.now < t + lockout_duration
      → login lib jwt key b u ≡ (refuse 429 (codes "Too many failed attempts."), u)
  unfolding login check_ip_lockout login_unlocked
  five_failures ip t s u clear before b same early =
      ap (λ c. login_unlocked lib jwt key b c u.admins)
        (ap (λ i. check_record i b.now (lookup i u.failures) u.failures) same
          ∙ ap (λ o. check_record ip b.now o u.failures)
              (Refusals-count ip clear (omega arith) before)
          ∙ locked ip b.now t u.failures early)
