-- ===== src/Proxy/Identity/Tests.antt =====
-- The theorems on client names at work on small tables.
use zenith_panel.Common.{
  ℕ, ◌≡◌, ◌≢◌, ◌↔◌, List, [], ◌∷◌, some, codes, none, if◌then◌else◌, any, ◌==◌, nat_eq, arith,
}
use zenith_panel.Common.Assoc.{lookup}
use zenith_panel.Proxy.Identity.{NameRow, client_identity, parse_client_identity, stats_identities}
use zenith_panel.Proxy.Identity.Laws.{parse_client_identity_iff, stats_identities-lookup}

parse_client_identity_iff_example :
    (parse_client_identity (codes "zc:42") ≡ some 42)
    ↔ ((codes "zc:42" ≡ client_identity 42) × (◌≢◌ {A = ℕ} 42 0))
parse_client_identity_iff_example = parse_client_identity_iff (codes "zc:42") 42 (omega arith)

abbrev two_rows : List NameRow
two_rows = record { id = 7; email = codes "a@b.c" } ∷ record { id = 9; email = codes "d@e.f" } ∷ []

stats_identities-lookup_example :
    lookup 9 (stats_identities two_rows)
    ≡ (if any (λ c. c.id == 9) two_rows then some (client_identity 9) else none)
stats_identities-lookup_example = stats_identities-lookup two_rows 9
