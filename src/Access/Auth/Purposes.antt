-- ===== src/Access/Auth/Purposes.antt =====
-- Setup sessions and panel sessions are two kinds.
use zenith_panel.Common.{
  ◌≡◌, ◌∙◌, sym, ap, arith, [], ◌∷◌, Bool, true, ◌&&◌, Text, codes, text_eq, text_beq_iff, Result,
  ok, err,
}
use zenith_panel.Access.Reply.{reply, unless_eq_reply, reply_inj, refuse_ne_reply}
use zenith_panel.Access.Jwt.{Claims, purpose_admin, purpose_setup}
use zenith_panel.Access.Auth.{
  Accounts, Env, DbAnswers, Request, AuthSource, admin_session, setup_claims, setup_session,
  setup_credential, jwt_auth_middleware, auth_middleware,
}
use zenith_panel.Access.Auth.Admitted.{auth-Justified}

setup_claims-purpose :
    (env : Env) (req : Request) (source : AuthSource) (claims other : Claims)
    → setup_claims env req source claims ≡ reply other
    → other.purpose ≡ purpose_setup
unfolding setup_claims
setup_claims-purpose env req source claims other is =
    let (both, rest) = unless_eq_reply _ 403 (codes "Setup token required") _ is in
    let (same_site, last) =
      unless_eq_reply _ 403 (codes "Cross-origin setup request rejected") _ rest in
    ap (λ (c : Claims). c.purpose) (sym (reply_inj last))
    ∙ (text_beq_iff claims.purpose purpose_setup).0 (first _ _ both)
  where
    first : (a b : Bool) → (a && b) ≡ true → a ≡ true
    first a b e = ground (arith, e)

setup_session-purpose :
    (env : Env) (req : Request) (source : AuthSource) (r : Result Claims) (claims : Claims)
    → setup_session env req source r ≡ reply claims
    → claims.purpose ≡ purpose_setup
unfolding setup_session
setup_session-purpose env req source (err e) claims is = absurd (refuse_ne_reply is)
setup_session-purpose env req source (ok c) claims is =
    setup_claims-purpose env req source c claims is

setup_credential-purpose :
    (env : Env) (req : Request) (given : Text × AuthSource) (claims : Claims)
    → setup_credential env req given ≡ reply claims
    → claims.purpose ≡ purpose_setup
unfolding setup_credential
setup_credential-purpose env req ([], source) claims is = absurd (refuse_ne_reply is)
setup_credential-purpose env req (c ∷ token, source) claims is =
    setup_session-purpose env req source _ claims is

-- No session opens both the setup wizard and the panel: the claims with which a request completes the
-- setup and the claims with which a request reaches the panel's API differ, at any time and in any
-- state of the accounts.
pub purposes-disjoint :
    (env : Env) (setup req : Request) (db : DbAnswers) (accounts : Accounts) (one other : Claims)
    (source : AuthSource)
    → jwt_auth_middleware env setup ≡ reply one
    → (auth_middleware env db req accounts).0 ≡ reply (admin_session other source)
    → ¬ (one ≡ other)
unfolding jwt_auth_middleware
purposes-disjoint env setup req db accounts one other source completes reaches same =
    let session = auth-Justified env db req accounts (admin_session other source) reaches in
    differ (
      sym (setup_credential-purpose env setup _ one completes)
      ∙ ap (λ (c : Claims). c.purpose) same
      ∙ session.purposed)
  where
    differ : ¬ (purpose_setup ≡ purpose_admin)
    differ e = ground (arith, e)
