-- ===== src/Access/Scopes/Tests.antt =====
-- The theorems on scopes at work on concrete requests.
use zenith_panel.Common.{
  ◌≡◌, refl, ◌⊎◌, List, some, true, false, Text, codes, text_beq, trim_suffix, split_at, any,
  trim_space, ◌++◌, has_byte, join_with, contains, trim_left, trim_right, has_prefix,
}
use zenith_panel.Access.Scopes.{
  validate_scope_list, collect, finish, has_scope, is_read_method, is_write_method,
  is_terminal_path, is_admin_path, is_infra_path, is_test_path, required_scope, authorize,
  scope_read,
}
use zenith_panel.Access.Scopes.Lists.{Stands, validate-Stands}
use zenith_panel.Access.Scopes.Policy.{cut, read_only, unsupported_denied, authorize_slash}

abbrev status_path : Text
status_path = codes "/api/v1/system/monitor"

accepted : validate_scope_list (codes " read, proxy:apply,read ") ≡ some (codes "read,proxy:apply")
unfolding validate_scope_list collect finish text_beq trim_space split_at any has_byte join_with
    contains trim_left trim_right
accepted = refl

reads : authorize scope_read (codes "GET") status_path ≡ true
unfolding authorize text_beq required_scope is_terminal_path trim_suffix is_admin_path has_prefix
    is_infra_path any is_read_method has_scope split_at trim_space
reads = refl

no_read : is_read_method (codes "TRACE") ≡ false
unfolding is_read_method text_beq
no_read = refl

no_write : is_write_method (codes "TRACE") ≡ false
unfolding is_write_method text_beq
no_write = refl

no_terminal : is_terminal_path (cut status_path) ≡ false
unfolding is_terminal_path text_beq trim_suffix
no_terminal = refl

no_admin : is_admin_path (cut status_path) ≡ false
unfolding is_admin_path has_prefix trim_suffix text_beq
no_admin = refl

no_slash : cut status_path ≡ status_path
unfolding trim_suffix text_beq
no_slash = refl

validate-Stands_example : (scopes : List Text) × Stands (codes "read,proxy:apply") scopes
validate-Stands_example =
    validate-Stands (codes " read, proxy:apply,read ") (codes "read,proxy:apply") accepted

read_only_example :
    ((is_read_method (codes "GET") ≡ true) ⊎ (is_test_path (cut status_path) ≡ true))
    × (is_terminal_path (cut status_path) ≡ false)
    × (is_admin_path (cut status_path) ≡ false)
    × (is_infra_path (cut status_path) ≡ false)
read_only_example = read_only (codes "GET") status_path reads

unsupported_denied_example : authorize (codes "*") (codes "TRACE") status_path ≡ false
unsupported_denied_example =
    unsupported_denied (codes "*") (codes "TRACE") status_path no_read no_write no_terminal no_admin

authorize_slash_example :
    authorize (codes "read") (codes "GET") (status_path ++ codes "/")
    ≡ authorize (codes "read") (codes "GET") status_path
authorize_slash_example = authorize_slash (codes "read") (codes "GET") status_path no_slash
