-- ===== src/Access/Scopes.antt =====
-- Scopes of API tokens (api/middleware/scope_authorization.go, and `HasScope` in
-- api/middleware/auth_middleware.go). Texts are bytes; white space is the ASCII one.
pub mod Lists
pub mod Policy
mod Tests
use zenith_panel.Common.{
  ℕ, List, [], ◌∷◌, ◌++◌, Option, none, some, Bool, true, false, not, ◌&&◌, ◌||◌, Text, codes,
  text_eq, text_beq, if◌then◌else◌, ◌==◌, trim_space, trim_suffix, split_at, join_with, has_byte,
  has_prefix, contains, any,
}

abbrev pub scope_read : Text
scope_read = codes "read"

abbrev pub scope_write : Text
scope_write = codes "write"

abbrev pub scope_proxy_apply : Text
scope_proxy_apply = codes "proxy:apply"

abbrev pub scope_infra_read : Text
scope_infra_read = codes "infra:read"

abbrev pub scope_infra_write : Text
scope_infra_write = codes "infra:write"

abbrev pub scope_terminal : Text
scope_terminal = codes "terminal"

abbrev pub scope_admin : Text
scope_admin = codes "admin"

abbrev pub wildcard : Text
wildcard = codes "*"

abbrev pub known_scopes : List Text
known_scopes =
    scope_read ∷ scope_write ∷ scope_proxy_apply ∷ scope_infra_read ∷ scope_infra_write
    ∷ scope_terminal ∷ scope_admin ∷ []

abbrev is_nil : List Text → Bool
is_nil [] = true
is_nil (s ∷ ss) = false

-- The loop of `ValidateScopeList`. The keys of `seen` are the elements of `ordered`.
collect : Bool → List Text → List Text → Option (List Text)
collect comma ordered [] = some ordered
collect comma ordered (part ∷ parts) =
    let scope = trim_space part in
    let rest =
      collect comma (if contains ordered scope then ordered else ordered ++ scope ∷ []) parts in
    if scope == wildcard
    then if not (is_nil ordered) || comma then none else some (wildcard ∷ [])
    else if contains known_scopes scope
    then rest
    else none

-- The canonical list, or `none` where the list is refused.
finish : Option (List Text) → Option Text
finish none = none
finish (some []) = some scope_read
finish (some (scope ∷ scopes)) = some (join_with b',' (scope ∷ scopes))

unfoldable pub validate_scope_list : Text → Option Text
unfolding collect finish
validate_scope_list raw =
    let text = trim_space raw in
    if text == []
    then some scope_read
    else finish (collect (has_byte b',' text) [] (split_at b',' text))

-- `HasScope` on the scopes of the principal.
unfoldable pub has_scope : Text → Text → Bool
has_scope scopes required =
    if scopes == [] || scopes == wildcard
    then scopes == wildcard
    else any
        (λ s.
          let scope = trim_space s in
          scope == required || scope == wildcard || scope == scope_admin)
        (split_at b',' scopes)

abbrev pub method_get : Text
method_get = codes "GET"

abbrev pub method_head : Text
method_head = codes "HEAD"

unfoldable pub is_read_method : Text → Bool
is_read_method method = method == method_get || method == method_head

-- POST, PUT, PATCH and DELETE.
unfoldable pub is_write_method : Text → Bool
is_write_method method =
    method == codes "POST"
    || method == codes "PUT"
    || method == codes "PATCH"
    || method == codes "DELETE"

unfoldable pub is_terminal_path : Text → Bool
is_terminal_path path = path == codes "/api/v1/terminal" || path == codes "/api/v1/terminal/ticket"

unfoldable pub is_admin_path : Text → Bool
is_admin_path path =
    has_prefix (codes "/api/v1/admin/") path
    || has_prefix (codes "/api/v1/sites") path
    || has_prefix (codes "/api/v1/system/update/") path
    || has_prefix (codes "/api/v1/proxy/tls/") path

abbrev pub infra_prefixes : List Text
infra_prefixes =
    codes "/api/v1/docker/"
    ∷ codes "/api/v1/fs/"
    ∷ codes "/api/v1/firewall/"
    ∷ codes "/api/v1/cron/"
    ∷ codes "/api/v1/diagnostics/"
    ∷ codes "/api/v1/system/bbr/"
    ∷ codes "/api/v1/system/swap/"
    ∷ codes "/api/v1/system/sysctl/"
    ∷ codes "/api/v1/system/cleanup/"
    ∷ []

unfoldable pub is_infra_path : Text → Bool
is_infra_path path = any (λ prefix. has_prefix prefix path) infra_prefixes

unfoldable pub is_apply_path : Text → Bool
is_apply_path path =
    path == codes "/api/v1/proxy/apply"
    || path == codes "/api/v1/proxy/clash-api/enable"
    || path == codes "/api/v1/proxy/clash-api/disable"

unfoldable pub is_test_path : Text → Bool
is_test_path path = path == codes "/api/v1/proxy/test-connection"

-- The ladder of `requiredScope` over a path with no slash at its end; the empty text denies.
scope_for : Text → Text → Text
scope_for method path =
    if is_terminal_path path
    then scope_terminal
    else if is_admin_path path
    then scope_admin
    else if is_infra_path path
    then (if is_read_method method
        then scope_infra_read
        else if is_write_method method
        then scope_infra_write
        else [])
    else if method == codes "POST" && is_apply_path path
    then scope_proxy_apply
    else if method == codes "POST" && is_test_path path
    then scope_read
    else if is_read_method method
    then scope_read
    else if is_write_method method
    then scope_write
    else []

unfoldable pub required_scope : Text → Text → Text
unfolding scope_for
required_scope method path = scope_for method (trim_suffix (codes "/") path)

-- `ScopeAuthorizationMiddleware`: the next handler runs, or the request ends with 403.
unfoldable pub authorize : Text → Text → Text → Bool
authorize scopes method path =
    let required = required_scope method path in
    if required == [] || not (has_scope scopes required) then false else true
