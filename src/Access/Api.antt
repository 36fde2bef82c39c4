-- ===== src/Access/Api.antt =====
-- The two middlewares of the protected routes one behind the other (`authGroup` of api/router.go).
pub mod Least
mod Tests
use zenith_panel.Common.{ℕ, [], ◌++◌, Bool, true, false, Text, text_eq, ◌==◌, codes, if◌then◌else◌}
use zenith_panel.Access.Reply.{Reply, refuse, reply}
use zenith_panel.Access.Scopes.{authorize, required_scope}
use zenith_panel.Access.Auth.{
  Accounts, Env, DbAnswers, Request, Principal, scopes_of, auth_middleware,
}

required_or_denied : Text → Text
required_or_denied required = if required == [] then codes "explicit route policy" else required

authorized : Text → Text → Reply Principal × Accounts → Reply Principal × Accounts
unfolding required_or_denied
authorized method path (refuse code msg, accounts) = (refuse code msg, accounts)
authorized method path (reply p, accounts) =
    if authorize (scopes_of p) method path then (reply p, accounts) else (
      refuse 403 (
          codes "Scope '" ++ required_or_denied (required_scope method path) ++ codes "' required"),
      accounts,
    )

-- Who reaches the handler of `path`.
unfoldable pub api_request :
    Env → DbAnswers → Request → Text → Accounts → Reply Principal × Accounts
unfolding authorized
api_request env db req path accounts =
    authorized req.method path (auth_middleware env db req accounts)
