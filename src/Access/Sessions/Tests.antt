-- ===== src/Access/Sessions/Tests.antt =====
-- The theorems on sessions at work on one that is refreshed and then ended.
use zenith_panel.Common.{
  ℕ, zero, suc, ◌+◌, ◌*◌, ◌<◌, ◌≡◌, refl, arith, List, [], ◌∷◌, Option, none, some, Bool, true,
  false, Text, codes, ok,
}
use zenith_panel.Common.Integers.{pos}
use zenith_panel.Common.Decimal.{parse_uint}
use zenith_panel.Access.Reply.{reply}
use zenith_panel.Access.Jwt.{Claims, second, max_session_age, validate_token}
use zenith_panel.Access.Example.{
  env, library, library-IsFaithful, key, all_well, admin, accounts, admin_claims, bearer, token_of,
}
use zenith_panel.Access.Auth.{Accounts, header, admin_session, auth_middleware}
use zenith_panel.Access.Sessions.{logout_all, refresh}
use zenith_panel.Access.Sessions.Steps.{rest}
use zenith_panel.Access.Sessions.Revoked.{logout_all-ends}
use zenith_panel.Access.Sessions.Cap.{Session, signed_in, refreshed, refreshed_cap}

ended : (logout_all none (admin_session admin_claims header) (admin ∷ [])).0 ≡ reply tt
unfolding logout_all parse_uint zenith_panel.Common.find
ended = refl

abbrev later : Accounts
later = record accounts {
  admins = (logout_all none (admin_session admin_claims header) (admin ∷ [])).1;
}

numbered : parse_uint (codes "1") ≡ some 1
unfolding parse_uint
numbered = refl

logout_all-ends_example : ¬ (
    (auth_middleware env all_well (bearer (token_of admin_claims)) later).0
    ≡ reply (admin_session admin_claims header))
logout_all-ends_example =
    logout_all-ends none admin_claims header 1 (admin ∷ []) numbered (λ e. refl, tt) ended later
      rest env all_well (bearer (token_of admin_claims)) admin_claims header numbered refl

-- A session of the second 900 that is refreshed at 1000.
abbrev fresh_claims : Claims
fresh_claims = record admin_claims { issued_at = 1000; expires_at = pos 87400 }

once_refreshed : Session library key (900 * second) (token_of fresh_claims)
unfolding zenith_panel.Access.Jwt.generate_session_token validate_token zenith_panel.Common.text_beq
    zenith_panel.Common.Integers.positive refresh
once_refreshed =
    refreshed (1000 * second) admin_claims header
      (signed_in (codes "1") (codes "root") 3 (900 * second) (86400 * second) refl) refl refl

still_valid : validate_token library key (2000 * second) (token_of fresh_claims) ≡ ok fresh_claims
unfolding validate_token zenith_panel.Common.text_beq zenith_panel.Common.Integers.positive
still_valid = refl

refreshed_cap_example : 2000 * second < 900 * second + max_session_age
refreshed_cap_example =
    refreshed_cap library key (900 * second) (token_of fresh_claims) library-IsFaithful
      once_refreshed (2000 * second) fresh_claims still_valid
