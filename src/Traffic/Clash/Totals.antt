-- ===== src/Traffic/Clash/Totals.antt =====
-- The sum of a map of byte counters, as uint64 values that wrap.
use zenith_panel.Common.{
  ℕ, ◌<◌, ◌≡◌, refl, ◌∙◌, sym, ap, List, [], ◌∷◌, Option, none, some, Text, text_eq, Eq, arith,
  add_u64,
}
use zenith_panel.Common.Assoc.{lookup}
use zenith_panel.Common.Sums.{Addition, or_nil, sum, sum_nil, sum-assign}
use zenith_panel.Traffic.Delta.{Delta, Counters, or_zero, add_delta}
use zenith_panel.Traffic.Clash.{zero_delta, credit, credit_all, sub_u64, sub_delta, deal, part}

-- Both counters are uint64 values.
abbrev pub Fits : Delta → Type 0
Fits d = (d.up < 18446744073709551616) × (d.down < 18446744073709551616)

pub add_delta_comm : (a b : Delta) → add_delta a b ≡ add_delta b a
add_delta_comm a b = cc (u, v)
  where
    u : add_u64 a.up b.up ≡ add_u64 b.up a.up
    u = ground arith

    v : add_u64 a.down b.down ≡ add_u64 b.down a.down
    v = ground arith

add_u64_assoc : (a b c : ℕ) → add_u64 (add_u64 a b) c ≡ add_u64 a (add_u64 b c)
add_u64_assoc a b c = omega arith

pub add_delta_assoc : (a b c : Delta) → add_delta (add_delta a b) c ≡ add_delta a (add_delta b c)
add_delta_assoc a b c = cc (add_u64_assoc a.up b.up c.up, add_u64_assoc a.down b.down c.down)

abbrev pub delta_addition : Addition Delta
delta_addition = record {
  nil = zero_delta;
  add = add_delta;
  add_comm = add_delta_comm;
  add_assoc = add_delta_assoc;
  add_nil = refl;
}

abbrev pub total {ℓ} : {K : Type ℓ} → List (K × Delta) → Delta
total m = sum delta_addition m

pub total-Fits {ℓ} : {K : Type ℓ} (m : List (K × Delta)) → Fits (total m)
total-Fits [] = (ground arith, ground arith)
total-Fits ((k, d) ∷ m) = (ground arith, ground arith)

or_zero-or_nil : (o : Option Delta) → or_zero o ≡ or_nil delta_addition o
or_zero-or_nil none = refl
or_zero-or_nil (some d) = refl

-- A credit adds its bytes to the sum.
pub total-credit {ℓ} :
    {K : Type ℓ} ⦃e : Eq K⦄ (k : K) (d : Delta) (m : List (K × Delta))
    → total (credit k d m) ≡ add_delta (total m) d
unfolding credit
total-credit k d m =
    sum-assign delta_addition k d (add_delta (or_zero (lookup k m)) d) m
      (ap (λ z. add_delta z d) (or_zero-or_nil (lookup k m)))

sub_u64_step : (rem given d : ℕ) → add_u64 d (sub_u64 rem (add_u64 given d)) ≡ sub_u64 rem given
sub_u64_step rem given d = omega arith

-- The remainder that is dealt out, from the part that is given already.
sub_delta_step :
    (rem given d : Delta) → add_delta d (sub_delta rem (add_delta given d)) ≡ sub_delta rem given
sub_delta_step rem given d =
    cc (sub_u64_step rem.up given.up d.up, sub_u64_step rem.down given.down d.down)

pub total_zero {ℓ} : {K : Type ℓ} (m : List (K × Delta)) → add_delta (total m) zero_delta ≡ total m
total_zero m = sum_nil delta_addition m

pub total-deal :
    (share : ℕ → ℕ → ℕ → ℕ) (n weight : ℕ) (rem given : Delta) (g : Text × ℕ)
    (gone : List (Text × ℕ)) (out : Counters)
    → total (deal share n weight rem given (g ∷ gone) out)
      ≡ add_delta (total out) (sub_delta rem given)
unfolding deal
total-deal share n weight rem given (u, w) [] out = total-credit u (sub_delta rem given) out
total-deal share n weight rem given (u, w) (g ∷ gone) out =
    let d = part share n weight rem w in
    total-deal share n weight rem (add_delta given d) g gone (credit u d out)
    ∙ ap (λ z. add_delta z (sub_delta rem (add_delta given d))) (total-credit u d out)
    ∙ add_delta_assoc (total out) d (sub_delta rem (add_delta given d))
    ∙ ap (add_delta (total out)) (sub_delta_step rem given d)

pub total-credit_all :
    (out pending : Counters)
    → total (credit_all out pending) ≡ add_delta (total pending) (total out)
unfolding credit_all
total-credit_all [] pending = sym (total_zero pending)
total-credit_all ((u, d) ∷ out) pending =
    total-credit_all out (credit u d pending)
    ∙ ap (λ z. add_delta z (total out)) (total-credit u d pending)
    ∙ add_delta_assoc (total pending) d (total out)
