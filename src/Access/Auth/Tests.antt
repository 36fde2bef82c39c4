-- ===== src/Access/Auth/Tests.antt =====
-- The theorems on the middlewares at work on an API token, a session and a setup session.
use zenith_panel.Common.{◌≡◌, refl, Text}
use zenith_panel.Access.Reply.{reply}
use zenith_panel.Access.Example.{
  env, all_well, ci_token, ci_row, accounts, admin_claims, wizard_claims, bearer, token_of,
}
use zenith_panel.Access.Auth.{
  token_principal, admin_session, header, auth_middleware, jwt_auth_middleware,
}
use zenith_panel.Access.Auth.Admitted.{Justified, auth-Justified}
use zenith_panel.Access.Auth.Purposes.{purposes-disjoint}

token_admitted :
    (auth_middleware env all_well (bearer ci_token) accounts).0 ≡ reply (token_principal ci_row)
unfolding auth_middleware zenith_panel.Common.text_beq zenith_panel.Common.has_prefix
    zenith_panel.Access.ApiToken.is_well_formed zenith_panel.Common.find
token_admitted = refl

auth-Justified_example : Justified env (bearer ci_token) accounts (token_principal ci_row)
auth-Justified_example =
    auth-Justified env all_well (bearer ci_token) accounts (token_principal ci_row) token_admitted

session_admitted :
    (auth_middleware env all_well (bearer (token_of admin_claims)) accounts).0
    ≡ reply (admin_session admin_claims header)
unfolding auth_middleware zenith_panel.Common.text_beq zenith_panel.Common.has_prefix
    zenith_panel.Access.Jwt.validate_token zenith_panel.Common.Integers.positive
    zenith_panel.Common.Decimal.parse_uint zenith_panel.Common.find
session_admitted = refl

wizard_admitted : jwt_auth_middleware env (bearer (token_of wizard_claims)) ≡ reply wizard_claims
unfolding jwt_auth_middleware zenith_panel.Common.split_at zenith_panel.Common.text_beq
    zenith_panel.Access.Jwt.validate_token
wizard_admitted = refl

purposes-disjoint_example : ¬ (wizard_claims ≡ admin_claims)
purposes-disjoint_example =
    purposes-disjoint env (bearer (token_of wizard_claims)) (bearer (token_of admin_claims))
      all_well accounts wizard_claims admin_claims header wizard_admitted session_admitted
