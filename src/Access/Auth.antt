-- ===== src/Access/Auth.antt =====
-- Who a request comes from: `AuthMiddleware` of api/middleware/auth_middleware.go with its
-- same-origin check, `JWTAuthMiddleware` of jwt_middleware.go and `SetupGuardMiddleware` of
-- setup_middleware.go. A `Reply` that is no refusal is what reaches the handler. Parsing URLs and
-- folding case are parameters.
pub mod Admitted
pub mod Purposes
mod Tests
use zenith_panel.Common.{
  ℕ, zero, suc, ◌+◌, ◌-◌, ◌*◌, ◌/◌, List, [], ◌∷◌, ◌++◌, Option, none, some, Bool, true, false, not,
  ◌&&◌, ◌||◌, Text, codes, text_eq, text_beq, nat_eq, ltb, leb, if◌then◌else◌, ◌==◌, Result, ok,
  err, has_prefix, trim_space, split_at, is_some, find,
}
use zenith_panel.Common.Integers.{ℤ, pos, negsuc, positive}
use zenith_panel.Common.Decimal.{parse_uint}
use zenith_panel.Access.Reply.{Reply, refuse, reply, unless}
use zenith_panel.Access.Scopes.{wildcard}
use zenith_panel.Access.ApiToken.{ApiToken, Codec, token_prefix, is_well_formed}
use zenith_panel.Access.Jwt.{Claims, JwtLibrary, purpose_admin, purpose_setup, validate_token}

pub record AdminUser : Type 0 where
  pub id : ℕ
  pub username : Text
  pub password_hash : Text
  pub totp_secret : Text
  pub totp_enabled : Bool
  pub recovery_codes : Text
  pub session_version : ℕ

pub record Accounts : Type 0 where
  pub admins : List AdminUser
  pub tokens : List ApiToken

-- The libraries and the secret that are set up at the start.
pub record Env : Type 0 where
  pub codec : Codec
  pub jwt : JwtLibrary
  pub key : Text
  pub parse_url : Text → Option (Text × Text)
  pub equal_fold : Text → Text → Bool

-- Whether the database answers a query for a token and for an administrator, and takes an update.
pub record DbAnswers : Type 0 where
  pub finds_token : Bool
  pub finds_admin : Bool
  pub touches : Bool

pub record Request : Type 0 where
  pub trusted_local : Bool
  pub authorization : Text
  pub cookie : Option Text
  pub method : Text
  pub origin : Text
  pub host : Text
  pub now : ℕ

pub data AuthSource : Type 0 where
  header : AuthSource
  cookie : AuthSource

pub data Principal : Type 0 where
  local_root : Principal
  token_principal : ApiToken → Principal
  admin_session : Claims → AuthSource → Principal

-- `c.GetString("scopes")`.
abbrev pub scopes_of : Principal → Text
scopes_of local_root = wildcard
scopes_of (token_principal row) = row.scopes
scopes_of (admin_session claims source) = wildcard

-- The text in front of the first `sep` and behind it.
cut_first : ℕ → Text → Option (Text × Text)
cut_first sep [] = none
cut_first sep (c ∷ s) =
    if c == sep
    then some ([], s)
    else (elim (cut_first sep s) [ none ↦ none | some (a, b) ↦ some (c ∷ a, b) ])

bearer_of : Option (Text × Text) → Text
bearer_of none = []
bearer_of (some (scheme, token)) = if scheme == codes "Bearer" then token else []

or_cookie : Text → Option Text → Text × AuthSource
or_cookie [] (some token) = (token, cookie)
or_cookie [] none = ([], header)
or_cookie (c ∷ token) other = (c ∷ token, header)

-- The token that a request presents, and where.
unfoldable pub credential : Request → Text × AuthSource
unfolding cut_first bearer_of or_cookie
credential req = or_cookie (bearer_of (cut_first b' ' req.authorization)) req.cookie

abbrev pub find_hash : Text → List ApiToken → Option ApiToken
find_hash hash = find (λ row. row.token_hash == hash)

-- `time.Now().Unix()`.
abbrev pub unix_of : ℕ → ℕ
unix_of now = now / 1000000000

-- The update of `last_used_at`, once a minute.
touch_row : ℕ → ApiToken → ApiToken
touch_row now row =
    if row.last_used_at == 0 || leb (row.last_used_at + 60) now
    then record row { last_used_at = now }
    else row

touch_all : ℕ → ℕ → List ApiToken → List ApiToken
unfolding touch_row
touch_all id now [] = []
touch_all id now (row ∷ rows) =
    (if row.id == id then touch_row now row else row) ∷ touch_all id now rows

touch : Bool → ApiToken → ℕ → List ApiToken → List ApiToken
unfolding touch_all
touch touches row now rows =
    if touches && (row.last_used_at == 0 || leb (row.last_used_at + 60) now)
    then touch_all row.id now rows
    else rows

is_expired : ApiToken → ℕ → Bool
is_expired row now = ltb 0 row.expires_at && ltb row.expires_at now

found_token : DbAnswers → ℕ → Option ApiToken → Accounts → Reply Principal × Accounts
unfolding touch is_expired
found_token db now none accounts = (refuse 401 (codes "Unknown api token"), accounts)
found_token db now (some row) accounts =
    if row.revoked
    then (refuse 401 (codes "Token has been revoked"), accounts)
    else if is_expired row now
    then (refuse 401 (codes "Token has expired"), accounts)
    else (
      reply (token_principal row),
      record accounts { tokens = touch db.touches row now accounts.tokens },
    )

-- The constant-time comparison repeats the query's condition.
recheck : Text → Option ApiToken → Option ApiToken
recheck hash none = none
recheck hash (some row) = if row.token_hash == hash then some row else none

unfoldable pub auth_token : Env → DbAnswers → ℕ → Text → Accounts → Reply Principal × Accounts
unfolding found_token recheck
auth_token env db now token accounts =
    if is_well_formed env.codec token
    then (let hash = env.codec.sha256_hex token in
        found_token db (unix_of now)
          (if db.finds_token then recheck hash (find_hash hash accounts.tokens) else none) accounts)
    else (refuse 401 (codes "Invalid api token"), accounts)

-- The row of a session's administrator.
abbrev pub find_admin : ℕ → Text → List AdminUser → Option AdminUser
find_admin id username = find (λ admin. admin.id == id && admin.username == username)

is_safe_method : Text → Bool
is_safe_method method =
    method == codes "GET" || (method == codes "HEAD" || method == codes "OPTIONS")

origin_matches : Env → Text → Option (Text × Text) → Bool
origin_matches env host none = false
origin_matches env host (some (scheme, origin_host)) =
    not (scheme == []) && env.equal_fold origin_host host

unfoldable pub same_origin_cookie_request : Env → Request → Bool
unfolding is_safe_method origin_matches
same_origin_cookie_request env req =
    is_safe_method req.method
    || (let origin = trim_space req.origin in
        not (origin == []) && origin_matches env req.host (env.parse_url origin))

is_cookie : AuthSource → Bool
is_cookie header = false
is_cookie cookie = true

unfoldable pub is_current : DbAnswers → Claims → Option AdminUser → Bool
is_current db claims none = false
is_current db claims (some admin) =
    db.finds_admin && admin.session_version == claims.session_version

unfoldable pub session_matches : DbAnswers → Claims → Option ℕ → List AdminUser → Bool
unfolding is_current
session_matches db claims none admins = false
session_matches db claims (some id) admins =
    is_current db claims (find_admin id claims.username admins)

-- The row is read where the id parses and the login time is known.
unfoldable pub auth_claims :
    Env → DbAnswers → Request → AuthSource → Accounts → Claims → Reply Principal
unfolding session_matches is_cookie same_origin_cookie_request
auth_claims env db req source accounts claims =
    unless (claims.purpose == purpose_admin && not (claims.user_id == codes "setup-admin"))
      (refuse 401 (codes "Setup token is not valid for the panel API"))
      (unless (is_some (parse_uint claims.user_id) && is_some (positive claims.logged_in_at))
        (refuse 401 (codes "Invalid session"))
        (unless (session_matches db claims (parse_uint claims.user_id) accounts.admins)
          (refuse 401 (codes "Session has been revoked"))
          (unless (not (is_cookie source) || same_origin_cookie_request env req)
            (refuse 403 (codes "Cross-origin session request rejected"))
            (reply (admin_session claims source)))))

auth_session : Env → DbAnswers → Request → AuthSource → Accounts → Result Claims → Reply Principal
unfolding auth_claims
auth_session env db req source accounts (err e) = refuse 401 (codes "Invalid or expired token")
auth_session env db req source accounts (ok claims) = auth_claims env db req source accounts claims

-- What a token opens.
unfoldable pub auth_credential :
    Env → DbAnswers → Request → Text × AuthSource → Accounts → Reply Principal × Accounts
unfolding auth_token auth_session
auth_credential env db req ([], source) accounts =
    (refuse 401 (codes "Authorization required"), accounts)
auth_credential env db req (c ∷ token, source) accounts =
    if has_prefix token_prefix (c ∷ token)
    then auth_token env db req.now (c ∷ token) accounts
    else (
      auth_session env db req source accounts (validate_token env.jwt env.key req.now (c ∷ token)),
      accounts,
    )

unfoldable pub auth_middleware : Env → DbAnswers → Request → Accounts → Reply Principal × Accounts
unfolding auth_credential credential
auth_middleware env db req accounts =
    if req.trusted_local
    then (reply local_root, accounts)
    else auth_credential env db req (credential req) accounts

-- The setup middleware splits the header at every space, so that a token holds none.
two_parts : List Text → Text
two_parts (scheme ∷ token ∷ []) = if scheme == codes "Bearer" then token else []
two_parts parts = []

setup_claims : Env → Request → AuthSource → Claims → Reply Claims
unfolding same_origin_cookie_request is_cookie
setup_claims env req source claims =
    unless (claims.purpose == purpose_setup && claims.user_id == codes "setup-admin")
      (refuse 403 (codes "Setup token required"))
      (unless (not (is_cookie source) || same_origin_cookie_request env req)
        (refuse 403 (codes "Cross-origin setup request rejected")) (reply claims))

setup_session : Env → Request → AuthSource → Result Claims → Reply Claims
unfolding setup_claims
setup_session env req source (err e) = refuse 401 (codes "Invalid or expired token")
setup_session env req source (ok claims) = setup_claims env req source claims

setup_credential : Env → Request → Text × AuthSource → Reply Claims
unfolding setup_session
setup_credential env req ([], source) = refuse 401 (codes "Authorization required")
setup_credential env req (c ∷ token, source) =
    setup_session env req source (validate_token env.jwt env.key req.now (c ∷ token))

unfoldable pub jwt_auth_middleware : Env → Request → Reply Claims
unfolding setup_credential two_parts or_cookie
jwt_auth_middleware env req =
    setup_credential env req (or_cookie (two_parts (split_at b' ' req.authorization)) req.cookie)

pub record PanelConfig : Type 0 where
  pub is_setup_complete : Bool
  pub setup_url_suffix : Text

-- Whether a path is served, which before the setup few are.
unfoldable pub setup_guard : PanelConfig → Text → Bool
setup_guard cfg path =
    cfg.is_setup_complete
    || (has_prefix (codes "/assets/") path || path == codes "/vite.svg")
    || (path == codes "/api/v1/health" || path == codes "/api/v1/ping")
    || (has_prefix (codes "/zenith-setup-" ++ cfg.setup_url_suffix) path
        || has_prefix (codes "/api/setup") path)
