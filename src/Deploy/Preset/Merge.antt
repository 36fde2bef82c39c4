-- ===== src/Deploy/Preset/Merge.antt =====
-- `udpBufferParams`, `mergeTuning` and `mergeInts` of deploy/preset.go.
use zenith_panel.Common.{
  ℕ, ◌*◌, ◌/◌, ◌%◌, ◌≤◌, ◌≡◌, refl, List, [], ◌∷◌, ◌++◌, true, false, ◌||◌, Text, codes, nat_eq,
  if◌then◌else◌, ◌==◌, Eq, contains, arith, Bool-cases, inl, inr, ltb, map, subst,
}
use zenith_panel.Common.Decimal.{format_uint}
use zenith_panel.Deploy.Plan.{ℤ, pos, negsuc}

-- The link speed that is used: 1 Gbps where it is not known.
speed_or_1000 : ℤ → ℕ
speed_or_1000 (negsuc n) = 1000
speed_or_1000 (pos n) = if n == 0 then 1000 else n

-- `int64(linkMbps) * 1024 * 50 / 8` wraps; a negative product is below the lower limit as 0 is.
bdp : ℕ → ℕ
bdp speed =
    let product = speed * 1024 * 50 % 18446744073709551616 in
    if ltb product 9223372036854775808 then product / 8 else 0

abbrev pub clamp : ℕ → ℕ
clamp n =
    let raised = if ltb n 4194304 then 4194304 else n in
    if ltb 67108864 raised then 67108864 else raised

unfoldable pub udp_buffer : ℤ → ℕ
unfolding speed_or_1000 bdp
udp_buffer link = clamp (bdp (speed_or_1000 link))

unfoldable pub udp_buffer_params : ℤ → List (Text × Text)
unfolding udp_buffer
udp_buffer_params link =
    (codes "rmem_max", format_uint (udp_buffer link))
    ∷ (codes "wmem_max", format_uint (udp_buffer link))
    ∷ []

-- The buffer size lies between 4 MB and 64 MB for every link speed that the probe may report.
pub udp_buffer-between : (link : ℤ) → (4194304 ≤ udp_buffer link) × (udp_buffer link ≤ 67108864)
unfolding udp_buffer
udp_buffer-between link = ground arith

-- `seen` and `out` grow together, so `out` is what is looked at.
module _ {ℓ κ} {A : Type ℓ} {K : Type κ} ⦃e : Eq K⦄ (key : A → K) where
  -- One of the two loops, with what `out` holds so far.
  add_new : List A → List A → List A
  add_new out [] = out
  add_new out (x ∷ xs) =
      if contains (map key out) (key x) then add_new out xs else add_new (out ++ (x ∷ [])) xs

  unfoldable pub merge : List A → List A → List A
  unfolding add_new
  merge xs ys = add_new (add_new [] xs) ys

  eq_comm : (a b : K) → (a == b) ≡ (b == a)
  eq_comm a b = ground (arith, e.equal_iff a b, e.equal_iff b a)

  abbrev pub IsUnique : List A → Type 0
  IsUnique [] = Unit
  IsUnique (x ∷ xs) = (contains (map key xs) (key x) ≡ false) × IsUnique xs

  contains-snoc :
      (out : List A) (x : A) (k : K)
      → contains (map key (out ++ (x ∷ []))) k ≡ (contains (map key out) k || key x == k)
  unfolding contains
  contains-snoc [] x k = ground arith
  contains-snoc (y ∷ out) x k = ground (arith, contains-snoc out x k)

  pub snoc-IsUnique :
      (out : List A) (x : A)
      → IsUnique out
      → contains (map key out) (key x) ≡ false
      → IsUnique (out ++ (x ∷ []))
  unfolding contains
  snoc-IsUnique [] x u new = (refl, tt)
  snoc-IsUnique (y ∷ out) x u new = (
    ground (arith, contains-snoc out x (key y), eq_comm (key x) (key y), u, new),
    snoc-IsUnique out x u.1 (ground (arith, new, u)),
  )

  add_new-IsUnique : (out xs : List A) → IsUnique out → IsUnique (add_new out xs)
  unfolding add_new
  add_new-IsUnique out [] u = u
  add_new-IsUnique out (x ∷ xs) u = elim (Bool-cases (contains (map key out) (key x))) [
    | inl e ↦ rw (e, add_new) (add_new-IsUnique out xs u)
    | inr e ↦ rw (e, add_new) (add_new-IsUnique (out ++ (x ∷ [])) xs (snoc-IsUnique out x u e))
  ]

  known :
      (out : List A) (x : A) (k : K)
      → contains (map key out) (key x) ≡ true
      → (key x == k) ≡ true
      → contains (map key out) k ≡ true
  known out x k is same =
      subst (λ z. contains (map key out) z ≡ true) ((e.equal_iff (key x) k).0 same) is

  contains-add_new :
      (out xs : List A) (k : K)
      → contains (map key (add_new out xs)) k
        ≡ (contains (map key out) k || contains (map key xs) k)
  unfolding add_new contains
  contains-add_new out [] k = ground arith
  contains-add_new out (x ∷ xs) k = elim (Bool-cases (contains (map key out) (key x))) [
    | inl e ↦ elim (Bool-cases (key x == k)) [
      | inl a ↦ rw (e, contains-add_new out xs k, a, known out x k e a, add_new) refl
      | inr a ↦ ground (arith, contains-add_new out xs k, e, a)
    ]
    | inr e ↦ ground (arith, contains-add_new (out ++ (x ∷ [])) xs k, contains-snoc out x k, e)
  ]

  pub merge-IsUnique : (xs ys : List A) → IsUnique (merge xs ys)
  unfolding merge
  merge-IsUnique xs ys = add_new-IsUnique (add_new [] xs) ys (add_new-IsUnique [] xs tt)

  pub contains-merge :
      (xs ys : List A) (k : K)
      → contains (map key (merge xs ys)) k ≡ (contains (map key xs) k || contains (map key ys) k)
  unfolding merge contains
  contains-merge xs ys k = rw (contains-add_new (add_new [] xs) ys k, contains-add_new [] xs k) refl
