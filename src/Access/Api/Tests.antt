-- ===== src/Access/Api/Tests.antt =====
-- A token with the scope `read` reads the list of clients.
use zenith_panel.Common.{◌≡◌, refl, ◌⊎◌, true, false, Text, codes}
use zenith_panel.Access.Reply.{reply}
use zenith_panel.Access.Example.{env, all_well, ci_token, ci_row, accounts, bearer}
use zenith_panel.Access.Scopes.{
  is_read_method, is_test_path, is_terminal_path, is_admin_path, is_infra_path,
}
use zenith_panel.Access.Scopes.Policy.{cut}
use zenith_panel.Access.Auth.{token_principal}
use zenith_panel.Access.Auth.Admitted.{Justified}
use zenith_panel.Access.Api.{api_request}
use zenith_panel.Access.Api.Least.{api_request-reads}

abbrev clients : Text
clients = codes "/api/v1/clients"

reads_clients :
    (api_request env all_well (bearer ci_token) clients accounts).0 ≡ reply (token_principal ci_row)
unfolding api_request zenith_panel.Access.Auth.auth_middleware zenith_panel.Common.text_beq
    zenith_panel.Common.has_prefix zenith_panel.Access.ApiToken.is_well_formed
    zenith_panel.Common.find zenith_panel.Access.Scopes.authorize
    zenith_panel.Access.Scopes.required_scope is_terminal_path zenith_panel.Common.trim_suffix
    is_admin_path is_infra_path zenith_panel.Common.any is_read_method
    zenith_panel.Access.Scopes.has_scope zenith_panel.Common.split_at zenith_panel.Common.trim_space
reads_clients = refl

api_request-reads_example :
    Justified env (bearer ci_token) accounts (token_principal ci_row)
    × ((is_read_method (codes "GET") ≡ true) ⊎ (is_test_path (cut clients) ≡ true))
    × (is_terminal_path (cut clients) ≡ false)
    × (is_admin_path (cut clients) ≡ false)
    × (is_infra_path (cut clients) ≡ false)
api_request-reads_example =
    api_request-reads env all_well (bearer ci_token) clients accounts (token_principal ci_row)
      reads_clients refl
