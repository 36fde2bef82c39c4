-- ===== src/Access/Auth/Admitted.antt =====
-- Whoever gets past the middleware has a reason.
use zenith_panel.Common.{
  ℕ, zero, suc, ◌≤◌, ◌≡◌, refl, ◌∙◌, sym, ap, subst, arith, ◌⊎◌, inl, inr, [], ◌∷◌, Option, none,
  some, Bool, true, false, not, ◌&&◌, ◌||◌, Text, codes, text_eq, text_beq, text_beq_iff, nat_eq,
  nat_beq, ltb, if◌then◌else◌, Result, ok, err, has_prefix, find-Mem, if_eq_some, some_inj,
}
use mathlib.Core.List.{Memᴰ}
use zenith_panel.Common.Decimal.{parse_uint}
use zenith_panel.Access.Reply.{
  reply, unless_eq_reply, reply_inj, refuse_ne_reply, past_if, past_unless, reply_of_if,
}
use zenith_panel.Access.ApiToken.{ApiToken, token_prefix, is_well_formed}
use zenith_panel.Access.Jwt.{Claims, purpose_admin, validate_token}
use zenith_panel.Access.Auth.{
  AdminUser, Accounts, Env, DbAnswers, Request, AuthSource, header, cookie, Principal, local_root,
  token_principal, admin_session, credential, find_hash, unix_of, is_expired, found_token, recheck,
  auth_token, find_admin, same_origin_cookie_request, is_cookie, is_current, session_matches,
  auth_claims, auth_session, auth_credential, auth_middleware,
}

-- An API token that is stored, not revoked and not expired.
pub record HasToken (env : Env) (token : Text) (now : ℕ) (accounts : Accounts) (row : ApiToken)
    : Type 0 where
  pub stored : Memᴰ row accounts.tokens
  pub hashed : row.token_hash ≡ env.codec.sha256_hex token
  pub unrevoked : row.revoked ≡ false
  pub in_time : (row.expires_at ≡ 0) ⊎ (unix_of now ≤ row.expires_at)

-- The row that a session's claims name, at their version.
pub record HasAdmin (accounts : Accounts) (claims : Claims) : Type 0 where
  pub admin : AdminUser
  pub stored : Memᴰ admin accounts.admins
  pub numbered : parse_uint claims.user_id ≡ some admin.id
  pub named : admin.username ≡ claims.username
  pub current : admin.session_version ≡ claims.session_version

pub record HasSession (env : Env) (req : Request) (accounts : Accounts) (claims : Claims)
    (source : AuthSource) : Type 0 where
  pub valid : validate_token env.jwt env.key req.now (credential req).0 ≡ ok claims
  pub found : (credential req).1 ≡ source
  pub purposed : claims.purpose ≡ purpose_admin
  pub of_admin : HasAdmin accounts claims
  pub same_site : (source ≡ header) ⊎ (same_origin_cookie_request env req ≡ true)

in_time :
    (expires now : ℕ) → (ltb 0 expires && ltb expires now) ≡ false → (expires ≡ 0) ⊎ (now ≤ expires)
in_time zero now e = inl refl
in_time (suc n) now e = inr (ground (arith, e))

-- The branches of the API token path.
found_token-reply :
    (db : DbAnswers) (now : ℕ) (o : Option ApiToken) (accounts : Accounts) (p : Principal)
    → (found_token db now o accounts).0 ≡ reply p
    → (row : ApiToken) × (o ≡ some row)
      × (token_principal row ≡ p)
      × (row.revoked ≡ false)
      × ((row.expires_at ≡ 0) ⊎ (now ≤ row.expires_at))
unfolding found_token is_expired
found_token-reply db now none accounts p is = absurd (cc (is))
found_token-reply db now (some row) accounts p is =
    let (unrevoked, after) =
      past_if row.revoked 401 (codes "Token has been revoked") accounts _ is in
    let (unexpired, last) =
      past_if (is_expired row now) 401 (codes "Token has expired") accounts _ after in
    (row, refl, reply_inj last, unrevoked, in_time row.expires_at now unexpired)

recheck-some :
    (hash : Text) (o : Option ApiToken) (row : ApiToken)
    → recheck hash o ≡ some row
    → (o ≡ some row) × (row.token_hash ≡ hash)
unfolding recheck
recheck-some hash none row is = absurd (cc (is))
recheck-some hash (some r) row is =
    let (same, it) = if_eq_some (text_beq r.token_hash hash) (some r) is in
    (
      it,
      subst (λ (x : ApiToken). x.token_hash ≡ hash) (some_inj it)
          ((text_beq_iff r.token_hash hash).0 same),
    )

pub auth_token-HasToken :
    (env : Env) (db : DbAnswers) (now : ℕ) (token : Text) (accounts : Accounts) (p : Principal)
    → (auth_token env db now token accounts).0 ≡ reply p
    → (row : ApiToken) × (token_principal row ≡ p) × HasToken env token now accounts row
unfolding auth_token
auth_token-HasToken env db now token accounts p is =
    let hash = env.codec.sha256_hex token in
    let (formed, after) =
      past_unless (is_well_formed env.codec token) 401 (codes "Invalid api token") accounts _ is in
    let (row, found, same, live, timely) = found_token-reply db (unix_of now) _ accounts p after in
    let (answered, rechecked) =
      if_eq_some db.finds_token (recheck hash (find_hash hash accounts.tokens)) found in
    let (first, hashed) = recheck-some hash (find_hash hash accounts.tokens) row rechecked in
    (
      row,
      same,
      record {
        stored =
            (find-Mem (λ (r : ApiToken). text_beq r.token_hash hash) accounts.tokens row first).0;
        hashed = hashed;
        unrevoked = live;
        in_time = timely;
      },
    )

-- The branches of the session path.
is_current-some :
    (db : DbAnswers) (claims : Claims) (o : Option AdminUser)
    → is_current db claims o ≡ true
    → (admin : AdminUser) × (o ≡ some admin) × (admin.session_version ≡ claims.session_version)
unfolding is_current
is_current-some db claims none is = absurd (ground (arith, is))
is_current-some db claims (some admin) is = (admin, refl, ground (arith, is))

session_matches-HasAdmin :
    (db : DbAnswers) (claims : Claims) (o : Option ℕ) (accounts : Accounts)
    → parse_uint claims.user_id ≡ o
    → session_matches db claims o accounts.admins ≡ true
    → HasAdmin accounts claims
unfolding session_matches
session_matches-HasAdmin db claims none accounts parsed is = absurd (ground (arith, is))
session_matches-HasAdmin db claims (some id) accounts parsed is =
    let (admin, found, current) =
      is_current-some db claims (find_admin id claims.username accounts.admins) is in
    let (stored, both) = find-Mem _ accounts.admins admin found in
    record {
      admin = admin;
      stored = stored;
      numbered = parsed ∙ ap some (sym (its_id admin both));
      named = its_name admin both;
      current = current;
    }
  where
    its_id :
        (admin : AdminUser)
        → (nat_beq admin.id id && text_beq admin.username claims.username) ≡ true
        → admin.id ≡ id
    its_id admin e = ground (arith, e)

    its_name :
        (admin : AdminUser)
        → (nat_beq admin.id id && text_beq admin.username claims.username) ≡ true
        → admin.username ≡ claims.username
    its_name admin e = (text_beq_iff admin.username claims.username).0 (ground (arith, e))

-- A test passed for an administrator's session.
admin_purpose :
    (claims : Claims)
    → (text_beq claims.purpose purpose_admin && not (text_beq claims.user_id (codes "setup-admin")))
      ≡ true
    → claims.purpose ≡ purpose_admin
admin_purpose claims e = (text_beq_iff claims.purpose purpose_admin).0 (ground (arith, e))

same_site :
    (source : AuthSource) (same : Bool)
    → (not (is_cookie source) || same) ≡ true
    → (source ≡ header) ⊎ (same ≡ true)
unfolding is_cookie
same_site header same e = inl refl
same_site cookie same e = inr e

auth_claims-HasSession :
    (env : Env) (db : DbAnswers) (req : Request) (source : AuthSource) (accounts : Accounts)
    (claims : Claims) (p : Principal)
    → auth_claims env db req source accounts claims ≡ reply p
    → (claims.purpose ≡ purpose_admin)
      × HasAdmin accounts claims
      × ((source ≡ header) ⊎ (same_origin_cookie_request env req ≡ true))
      × (admin_session claims source ≡ p)
unfolding auth_claims
auth_claims-HasSession env db req source accounts claims p is =
    let (purposed, a) =
      unless_eq_reply _ 401 (codes "Setup token is not valid for the panel API") _ is in
    let (numbered, b) = unless_eq_reply _ 401 (codes "Invalid session") _ a in
    let (current, c) = unless_eq_reply _ 401 (codes "Session has been revoked") _ b in
    let (same, last) = unless_eq_reply _ 403 (codes "Cross-origin session request rejected") _ c in
    (
      admin_purpose claims purposed,
      session_matches-HasAdmin db claims (parse_uint claims.user_id) accounts refl current,
      same_site source _ same,
      reply_inj last,
    )

auth_session-HasSession :
    (env : Env) (db : DbAnswers) (req : Request) (source : AuthSource) (accounts : Accounts)
    (r : Result Claims) (p : Principal)
    → auth_session env db req source accounts r ≡ reply p
    → (claims : Claims) × (r ≡ ok claims)
      × (claims.purpose ≡ purpose_admin)
      × HasAdmin accounts claims
      × ((source ≡ header) ⊎ (same_origin_cookie_request env req ≡ true))
      × (admin_session claims source ≡ p)
unfolding auth_session
auth_session-HasSession env db req source accounts (err e) p is = absurd (refuse_ne_reply is)
auth_session-HasSession env db req source accounts (ok claims) p is =
    let (purposed, of_admin, same, last) =
      auth_claims-HasSession env db req source accounts claims p is in
    (claims, refl, purposed, of_admin, same, last)

-- Why a principal gets in.
abbrev pub Justified : Env → Request → Accounts → Principal → Type 0
Justified env req accounts local_root = req.trusted_local ≡ true
Justified env req accounts (token_principal row) =
    HasToken env (credential req).0 req.now accounts row
Justified env req accounts (admin_session claims source) = HasSession env req accounts claims source

credential-Justified :
    (env : Env) (db : DbAnswers) (req : Request) (given : Text × AuthSource) (accounts : Accounts)
    (p : Principal)
    → credential req ≡ given
    → (auth_credential env db req given accounts).0 ≡ reply p
    → Justified env req accounts p
unfolding auth_credential
credential-Justified env db req ([], source) accounts p e is = absurd (refuse_ne_reply is)
credential-Justified env db req (c ∷ token, source) accounts p e is =
    reply_of_if (has_prefix token_prefix (c ∷ token))
      (auth_token env db req.now (c ∷ token) accounts) _
      (λ from_token.
        let (row, same, has) =
          auth_token-HasToken env db req.now (c ∷ token) accounts p from_token in
        subst (Justified env req accounts) same
          (subst (λ (g : Text × AuthSource). HasToken env g.0 req.now accounts row) (sym e) has))
      (λ from_session.
        let (claims, valid, purposed, of_admin, same, last) =
          auth_session-HasSession env db req source accounts _ p from_session in
        subst (Justified env req accounts) last (record {
          valid =
              ap (λ (g : Text × AuthSource). validate_token env.jwt env.key req.now g.0) e ∙ valid;
          found = ap (λ (g : Text × AuthSource). g.1) e;
          purposed = purposed;
          of_admin = of_admin;
          same_site = same;
        }))
      is

local-Justified :
    (env : Env) (db : DbAnswers) (req : Request) (accounts : Accounts) (p : Principal) (b : Bool)
    → req.trusted_local ≡ b
    → (if b
        then (reply local_root, accounts)
        else auth_credential env db req (credential req) accounts).0
      ≡ reply p
    → Justified env req accounts p
local-Justified env db req accounts p true e is =
    subst (Justified env req accounts) (reply_inj is) e
local-Justified env db req accounts p false e is =
    credential-Justified env db req (credential req) accounts p refl is

-- Whoever gets past the middleware came over the trusted socket, or presents an API token whose
-- hash is stored in a row that is not revoked and not expired, or presents a session token that
-- validates, is for administrators, and names an administrator's row at its current session
-- version; from a cookie only with a safe method or from the panel's own origin.
pub auth-Justified :
    (env : Env) (db : DbAnswers) (req : Request) (accounts : Accounts) (p : Principal)
    → (auth_middleware env db req accounts).0 ≡ reply p
    → Justified env req accounts p
unfolding auth_middleware
auth-Justified env db req accounts p is =
    local-Justified env db req accounts p req.trusted_local refl is
