-- ===== src/Traffic/Delta.antt =====
-- Byte counters by identity: `pendingDelta` and `map[string]pendingDelta`
-- (traffic/proxy_users.go). The counters are uint64.
use zenith_panel.Common.{
  ℕ, ◌≡◌, refl, List, [], ◌∷◌, Option, none, some, Text, text_eq, text_beq_iff, arith, add_u64,
}
use zenith_panel.Common.Assoc.{lookup, assign, lookup-assign}

pub record Delta : Type 0 where
  pub up : ℕ
  pub down : ℕ

abbrev pub Counters : Type 0
Counters = List (Text × Delta)

-- The zero value that Go reads for a missing key.
abbrev pub or_zero : Option Delta → Delta
or_zero none = record { up = 0; down = 0 }
or_zero (some d) = d

abbrev pub counter_at : Text → Counters → Delta
counter_at ident m = or_zero (lookup ident m)

abbrev pub add_delta : Delta → Delta → Delta
add_delta a b = record { up = add_u64 a.up b.up; down = add_u64 a.down b.down }

-- The keys of a map differ.
abbrev pub Distinct {ℓ} : {V : Type ℓ} → List (Text × V) → Type ℓ
Distinct [] = Unit
Distinct ((k, v) ∷ m) = (lookup k m ≡ none) × Distinct m

pub assign-Distinct {ℓ} :
    {V : Type ℓ} (k : Text) (v : V) (m : List (Text × V)) → Distinct m → Distinct (assign k v m)
unfolding assign lookup
assign-Distinct k v [] h = (refl, tt)
assign-Distinct k v ((j, w) ∷ m) h =
    ground
      (arith, text_beq_iff j k, text_beq_iff k j, lookup-assign k j v m, assign-Distinct k v m h.1)
