-- ===== src/Proxy/Identity/Laws.antt =====
-- A canonical name stands for exactly one client.
use zenith_panel.Common.{
  ℕ, ◌<◌, ◌≡◌, ◌≢◌, ◌↔◌, ◌∙◌, ap, List, [], ◌∷◌, Option, none, some, arith, Text, if◌then◌else◌,
  any, nat_eq, text_eq, text_beq_iff, ◌==◌, strip_prefix, strip_prefix-append, eq_self, nat_beq_iff,
}
use zenith_panel.Common.Assoc.{lookup, assign, lookup-assign}
use zenith_panel.Common.Decimal.{format_uint, parse_uint, parse-format_uint, u64_limit}
use zenith_panel.Proxy.Identity.{
  client_identity, client_identity_prefix, parse_client_identity, accept_identity, parse_rest,
  NameRow, stats_from, stats_identities,
}

parse-client_identity :
    (n : ℕ)
    → n < u64_limit
    → parse_client_identity (client_identity n) ≡ accept_identity (client_identity n) (some n)
unfolding parse_client_identity client_identity
parse-client_identity n l =
    rw (strip_prefix-append client_identity_prefix (format_uint n))
      (ap (accept_identity (client_identity n)) (parse-format_uint n l))

accept_identity_sound :
    (value : Text) (o : Option ℕ) (n : ℕ)
    → accept_identity value o ≡ some n
    → (value ≡ client_identity n) × (n ≢ 0)
unfolding accept_identity
accept_identity_sound value none n h = absurd (cc)
accept_identity_sound value (some m) n h = ground (arith, text_beq_iff (client_identity m) value)

accept_identity_self : (n : ℕ) → n ≢ 0 → accept_identity (client_identity n) (some n) ≡ some n
unfolding accept_identity
accept_identity_self n h = ground (arith, eq_self (client_identity n))

parse_client_identity_sound :
    (value : Text) (o : Option Text) (n : ℕ)
    → parse_rest value o ≡ some n
    → (value ≡ client_identity n) × (n ≢ 0)
unfolding parse_rest
parse_client_identity_sound value none n h = absurd (cc)
parse_client_identity_sound value (some rest) n h =
    accept_identity_sound value (parse_uint rest) n h

-- A name parses to a client exactly if it is that client's canonical name and the number is not
-- zero; the number is a 64-bit one.
pub parse_client_identity_iff :
    (value : Text) (n : ℕ)
    → n < u64_limit
    → (parse_client_identity value ≡ some n) ↔ ((value ≡ client_identity n) × (n ≢ 0))
parse_client_identity_iff value n l = (sound, complete)
  where
    sound : parse_client_identity value ≡ some n → (value ≡ client_identity n) × (n ≢ 0)
    sound h =
        parse_client_identity_sound value (strip_prefix client_identity_prefix value) n
          (unfold parse_client_identity in h)

    complete : (value ≡ client_identity n) × (n ≢ 0) → parse_client_identity value ≡ some n
    complete h = rw h.0 (parse-client_identity n l ∙ accept_identity_self n h.1)

stats_from-lookup :
    (out : List (ℕ × Text)) (clients : List NameRow) (id : ℕ)
    → lookup id (stats_from out clients)
      ≡ (if any (λ c. c.id == id) clients then some (client_identity id) else lookup id out)
unfolding stats_from any
stats_from-lookup out [] id = ground arith
stats_from-lookup out (c ∷ clients) id = ground (
  arith,
  lookup-assign c.id id (client_identity c.id) out,
  nat_beq_iff c.id id,
  ap client_identity,
  stats_from-lookup (assign c.id (client_identity c.id) out) clients id,
)

-- A client of the table has its canonical name in the map, and no other id has an entry.
pub stats_identities-lookup :
    (clients : List NameRow) (id : ℕ)
    → lookup id (stats_identities clients)
      ≡ (if any (λ c. c.id == id) clients then some (client_identity id) else none)
unfolding stats_identities lookup
stats_identities-lookup clients id = stats_from-lookup [] clients id
