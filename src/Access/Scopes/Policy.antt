-- ===== src/Access/Scopes/Policy.antt =====
-- What the policy lets through.
use zenith_panel.Common.{
  ◌≡◌, refl, ◌⊎◌, [], ◌∷◌, ◌++◌, true, false, Text, codes, text_eq, text_beq, trim_suffix, arith,
  any, trim_space, split_at,
}
use zenith_panel.Access.Scopes.{
  scope_read, has_scope, is_read_method, is_write_method, is_terminal_path, is_admin_path,
  is_infra_path, is_test_path, required_scope, authorize,
}

abbrev pub cut : Text → Text
cut path = trim_suffix (codes "/") path

-- A token with nothing but `read` gets through only with GET or HEAD, or with the connection test,
-- and never to the terminal, an administrator's path or the host's infrastructure.
pub read_only :
    (method path : Text)
    → authorize scope_read method path ≡ true
    → ((is_read_method method ≡ true) ⊎ (is_test_path (cut path) ≡ true))
      × (is_terminal_path (cut path) ≡ false)
      × (is_admin_path (cut path) ≡ false)
      × (is_infra_path (cut path) ≡ false)
unfolding authorize required_scope has_scope trim_space split_at any text_beq
read_only method path h = ground arith

-- A method that neither reads nor writes is refused to every principal, administrators and the
-- wildcard included, on every path but the terminal's and the administrators'.
pub unsupported_denied :
    (scopes method path : Text)
    → is_read_method method ≡ false
    → is_write_method method ≡ false
    → is_terminal_path (cut path) ≡ false
    → is_admin_path (cut path) ≡ false
    → authorize scopes method path ≡ false
unfolding authorize required_scope is_write_method text_beq
unsupported_denied scopes method path r w t a = ground arith

trim-slash : (path : Text) → trim_suffix (codes "/") (path ++ codes "/") ≡ path
unfolding trim_suffix text_beq
trim-slash [] = refl
trim-slash (c ∷ []) = ground arith
trim-slash (c ∷ d ∷ path) = ground (arith, trim-slash (d ∷ path))

-- A slash put behind a path that the router does not shorten itself changes nothing.
pub authorize_slash :
    (scopes method path : Text)
    → cut path ≡ path
    → authorize scopes method (path ++ codes "/") ≡ authorize scopes method path
unfolding authorize required_scope
authorize_slash scopes method path plain = rw (trim-slash path, plain)
