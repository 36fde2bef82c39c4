-- ===== src/Access/Api/Least.antt =====
-- A token gets through with its scopes, and nobody without a reason.
use zenith_panel.Common.{◌≡◌, subst, ◌⊎◌, true, false, Text}
use zenith_panel.Access.Reply.{Reply, refuse, reply, past_unless, reply_inj, refuse_ne_reply}
use zenith_panel.Access.Scopes.{
  scope_read, authorize, is_read_method, is_test_path, is_terminal_path, is_admin_path,
  is_infra_path,
}
use zenith_panel.Access.Scopes.Policy.{cut, read_only}
use zenith_panel.Access.Auth.{
  Accounts, Env, DbAnswers, Request, Principal, scopes_of, auth_middleware,
}
use zenith_panel.Access.Auth.Admitted.{Justified, auth-Justified}
use zenith_panel.Access.Api.{authorized, api_request}

authorized-reply :
    (method path : Text) (r : Reply Principal × Accounts) (p : Principal)
    → (authorized method path r).0 ≡ reply p
    → (r.0 ≡ reply p) × (authorize (scopes_of p) method path ≡ true)
unfolding authorized
authorized-reply method path (refuse code msg, accounts) p is = absurd (refuse_ne_reply is)
authorized-reply method path (reply q, accounts) p is =
    let (granted, same) = past_unless (authorize (scopes_of q) method path) 403 _ accounts _ is in
    (same, subst (λ x. authorize (scopes_of x) method path ≡ true) (reply_inj same) granted)

-- A request with the scope `read` alone that reaches a handler is justified by a stored token, reads
-- or tests a connection, and goes neither to the terminal nor to an administrator's path nor to the
-- host's infrastructure.
pub api_request-reads :
    (env : Env) (db : DbAnswers) (req : Request) (path : Text) (accounts : Accounts) (p : Principal)
    → (api_request env db req path accounts).0 ≡ reply p
    → scopes_of p ≡ scope_read
    → Justified env req accounts p
      × ((is_read_method req.method ≡ true) ⊎ (is_test_path (cut path) ≡ true))
      × (is_terminal_path (cut path) ≡ false)
      × (is_admin_path (cut path) ≡ false)
      × (is_infra_path (cut path) ≡ false)
unfolding api_request
api_request-reads env db req path accounts p is scoped =
    let (admitted, granted) =
      authorized-reply req.method path (auth_middleware env db req accounts) p is in
    let (reads, terminal, admin, infra) =
      read_only req.method path (subst (λ s. authorize s req.method path ≡ true) scoped granted) in
    (auth-Justified env db req accounts p admitted, reads, terminal, admin, infra)
