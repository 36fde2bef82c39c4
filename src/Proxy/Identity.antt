-- ===== src/Proxy/Identity.antt =====
-- Engine-visible names of clients (proxy/identity.go and proxy/client_identity.go).
-- A row is the two columns that the accountant selects. `uint` has 64 bits.
pub mod Laws
mod Tests
use zenith_panel.Common.{
  ℕ, suc, List, [], ◌∷◌, ◌++◌, Option, none, some, Text, codes, nat_eq, text_eq, if◌then◌else◌,
  ◌==◌, strip_prefix, length,
}
use zenith_panel.Common.Assoc.{lookup, assign}
use zenith_panel.Common.Decimal.{format_uint, parse_uint}

abbrev pub client_identity_prefix : Text
client_identity_prefix = codes "zc:"

unfoldable pub client_identity : ℕ → Text
client_identity id = client_identity_prefix ++ format_uint id

-- The tests behind `ParseUint`: the number is not zero and prints as the same name.
accept_identity : Text → Option ℕ → Option ℕ
accept_identity value none = none
accept_identity value (some n) =
    if n == 0 then none else if client_identity n == value then some n else none

parse_rest : Text → Option Text → Option ℕ
unfolding accept_identity
parse_rest value none = none
parse_rest value (some rest) = accept_identity value (parse_uint rest)

pub parse_client_identity : Text → Option ℕ
unfolding parse_rest
parse_client_identity value = parse_rest value (strip_prefix client_identity_prefix value)

pub record NameRow : Type 0 where
  pub id : ℕ
  pub email : Text

unfoldable pub stats_from : List (ℕ × Text) → List NameRow → List (ℕ × Text)
stats_from out [] = out
stats_from out (c ∷ clients) = stats_from (assign c.id (client_identity c.id) out) clients

unfoldable pub stats_identities : List NameRow → List (ℕ × Text)
stats_identities clients = stats_from [] clients

-- How many rows have this email.
unfoldable pub email_count : Text → List NameRow → ℕ
email_count email [] = 0
email_count email (c ∷ clients) =
    let more = email_count email clients in if c.email == email then suc more else more

abbrev legacy_name : ℕ → NameRow → Text
legacy_name count c = if count == 1 then c.email else c.email ++ codes "#" ++ format_uint c.id

unfoldable pub legacy_from : List NameRow → List (ℕ × Text) → List NameRow → List (ℕ × Text)
legacy_from every out [] = out
legacy_from every out (c ∷ clients) =
    legacy_from every (assign c.id (legacy_name (email_count c.email every) c) out) clients

unfoldable pub legacy_stats_identities : List NameRow → List (ℕ × Text)
legacy_stats_identities clients = legacy_from clients [] clients
