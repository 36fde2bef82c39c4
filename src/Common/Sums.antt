-- ===== src/Common/Sums.antt =====
-- Sums over association lists, for any addition that is commutative and associative.
use zenith_panel.Common.{
  ◌≡◌, refl, ◌∙◌, sym, ap, List, [], ◌∷◌, ◌++◌, Option, none, some, Eq, ◌==◌, Bool-cases, inl, inr,
}
use zenith_panel.Common.Assoc.{lookup, assign}

-- An addition with what stands for a missing value.
pub record Addition {κ} (D : Type κ) : Type κ where
  pub nil : D
  pub add : D → D → D
  pub add_comm : (a b : D) → add a b ≡ add b a
  pub add_assoc : (a b c : D) → add (add a b) c ≡ add a (add b c)
  pub add_nil : add nil nil ≡ nil

module _ {κ} {D : Type κ} (s : Addition D) where
  open s use {nil, add, add_comm, add_assoc, add_nil}

  abbrev pub or_nil : Option D → D
  or_nil none = nil
  or_nil (some d) = d

  abbrev pub sum {ℓ} : {K : Type ℓ} → List (K × D) → D
  sum [] = nil
  sum ((k, d) ∷ m) = add d (sum m)

  pub sum_nil {ℓ} : {K : Type ℓ} (m : List (K × D)) → add (sum m) nil ≡ sum m
  sum_nil [] = add_nil
  sum_nil ((k, d) ∷ m) = add_assoc d (sum m) nil ∙ ap (add d) (sum_nil m)

  swap : (v d t : D) → add (add v d) t ≡ add (add v t) d
  swap v d t = add_assoc v d t ∙ ap (add v) (add_comm d t) ∙ sym (add_assoc v t d)

  first : (d : D) → add (add nil d) nil ≡ add nil d
  first d = add_comm (add nil d) nil ∙ sym (add_assoc nil nil d) ∙ ap (λ z. add z d) add_nil

  pub sum-assign {ℓ} :
      {K : Type ℓ} ⦃e : Eq K⦄ (k : K) (d w : D) (m : List (K × D))
      → w ≡ add (or_nil (lookup k m)) d
      → sum (assign k w m) ≡ add (sum m) d
  unfolding assign lookup
  sum-assign k d w [] = λ is. ap (λ z. add z nil) is ∙ first d
  sum-assign k d w ((j, v) ∷ m) = elim (Bool-cases (j == k)) [
    | inl e ↦ rw (e, assign, lookup) (λ is. ap (λ z. add z (sum m)) is ∙ swap v d (sum m))
    | inr e ↦
        rw (e, assign, lookup)
          (λ is. ap (add v) (sum-assign k d w m is) ∙ sym (add_assoc v (sum m) d))
  ]

  -- A credit adds its value to the sum.
  pub sum-credit {ℓ} :
      {K : Type ℓ} ⦃e : Eq K⦄ (k : K) (d : D) (m : List (K × D))
      → sum (assign k (add (or_nil (lookup k m)) d) m) ≡ add (sum m) d
  sum-credit k d m = sum-assign k d (add (or_nil (lookup k m)) d) m refl

  pub sum-append {ℓ} : {K : Type ℓ} (m n : List (K × D)) → sum (m ++ n) ≡ add (sum m) (sum n)
  sum-append [] n = sym (sum_nil n) ∙ add_comm (sum n) nil
  sum-append ((k, d) ∷ m) n = ap (add d) (sum-append m n) ∙ sym (add_assoc d (sum m) (sum n))
