-- ===== src/Common/Assoc.antt =====
-- Go maps as association lists: lookup, assignment and delete, over any type with `==`.
use zenith_panel.Common.{
  suc, ◌≤◌, ◌<◌, ◌≡◌, refl, List, [], ◌∷◌, Option, none, some, true, arith, Eq, ◌==◌, if◌then◌else◌,
  length, is_some, keep_if, Bool,
}

module _ {ℓ κ} {K : Type ℓ} {V : Type κ} ⦃e : Eq K⦄ where
  unfoldable pub lookup : K → List (K × V) → Option V
  lookup k [] = none
  lookup k ((j, v) ∷ m) = if j == k then some v else lookup k m

  unfoldable pub assign : K → V → List (K × V) → List (K × V)
  assign k v [] = (k, v) ∷ []
  assign k v ((j, w) ∷ m) = if j == k then (j, v) ∷ m else (j, w) ∷ assign k v m

  unfoldable pub delete : K → List (K × V) → List (K × V)
  delete k [] = []
  delete k ((j, w) ∷ m) = if j == k then delete k m else (j, w) ∷ delete k m

  pub lookup-assign :
      (k j : K) (v : V) (m : List (K × V))
      → lookup j (assign k v m) ≡ (if k == j then some v else lookup j m)
  unfolding lookup assign
  lookup-assign k j v [] = refl
  lookup-assign k j v ((i, w) ∷ m) =
      ground (arith, e.equal_iff k j, e.equal_iff i k, e.equal_iff i j, lookup-assign k j v m)

  pub lookup-delete :
      (k j : K) (m : List (K × V)) → lookup j (delete k m) ≡ (if k == j then none else lookup j m)
  unfolding lookup delete
  lookup-delete k j [] = ground arith
  lookup-delete k j ((i, w) ∷ m) =
      ground (arith, e.equal_iff k j, e.equal_iff i k, e.equal_iff i j, lookup-delete k j m)

  pub length-delete-le : (k : K) (m : List (K × V)) → length (delete k m) ≤ length m
  unfolding delete
  length-delete-le k [] = omega arith
  length-delete-le k ((j, w) ∷ m) = ground (arith, length-delete-le k m)

  -- A key that is present makes room when it is deleted.
  pub length-delete-lt :
      (k : K) (m : List (K × V)) → is_some (lookup k m) ≡ true → length (delete k m) < length m
  unfolding lookup delete
  length-delete-lt k [] h = absurd (cc)
  length-delete-lt k ((j, w) ∷ m) h = ground (arith, length-delete-lt k m, length-delete-le k m)

  pub length-assign-le : (k : K) (v : V) (m : List (K × V)) → length (assign k v m) ≤ suc (length m)
  unfolding assign
  length-assign-le k v [] = omega arith
  length-assign-le k v ((j, w) ∷ m) = ground (arith, length-assign-le k v m)

  pub length-assign-ge : (k : K) (v : V) (m : List (K × V)) → length m ≤ length (assign k v m)
  unfolding assign
  length-assign-ge k v [] = omega arith
  length-assign-ge k v ((j, w) ∷ m) = ground (arith, length-assign-ge k v m)

  -- A key that is present is written in its place.
  pub length-assign_present :
      (k : K) (v : V) (m : List (K × V))
      → is_some (lookup k m) ≡ true
      → length (assign k v m) ≡ length m
  unfolding lookup assign
  length-assign_present k v [] h = absurd (ground (arith, h))
  length-assign_present k v ((j, w) ∷ m) h = ground (arith, length-assign_present k v m, h)

  -- A filter that looks at keys and values brings back no key that was absent.
  pub lookup-keep_if :
      (k : K) (p : K × V → Bool) (m : List (K × V))
      → lookup k m ≡ none
      → lookup k (keep_if p m) ≡ none
  unfolding lookup keep_if
  lookup-keep_if k p [] h = h
  lookup-keep_if k p ((j, v) ∷ m) h = ground (arith, lookup-keep_if k p m)
