-- ===== src/Common/Slices.antt =====
-- Go's slices of a buffer: reslicing, `copy` into the middle of it, and the last elements of a list.
use zenith_panel.Common.{
  ℕ, zero, suc, ◌+◌, ◌-◌, ◌≤◌, ◌<◌, ◌≡◌, refl, ◌∙◌, sym, ap, arith, List, [], ◌∷◌, ◌++◌, length,
  take, drop, length-append, leb, Bool-cases, inl, inr,
}

plus_zero : (n : ℕ) → 0 + n ≡ n
plus_zero n = omega arith

module _ {ℓ} {A : Type ℓ} where
  -- `copy(buf[h:], p)`: as much of `p` as there is room for behind `h`.
  abbrev pub copy_at : ℕ → List A → List A → List A
  copy_at h p buf = take h buf ++ (take (length buf - h) p ++ drop (h + length p) buf)

  -- How much `copy` moves.
  abbrev pub copied : ℕ → List A → List A → ℕ
  copied h p buf = length (take (length buf - h) p)

  -- The last `n` elements.
  abbrev pub last : ℕ → List A → List A
  last n xs = drop (length xs - n) xs

  pub append_nil : (xs : List A) → xs ++ [] ≡ xs
  append_nil [] = refl
  append_nil (x ∷ xs) = ap (λ z. x ∷ z) (append_nil xs)

  pub append_assoc : (xs ys zs : List A) → (xs ++ ys) ++ zs ≡ xs ++ (ys ++ zs)
  append_assoc [] ys zs = refl
  append_assoc (x ∷ xs) ys zs = ap (λ z. x ∷ z) (append_assoc xs ys zs)

  pub take-append-drop : (n : ℕ) (xs : List A) → take n xs ++ drop n xs ≡ xs
  take-append-drop zero xs = refl
  take-append-drop (suc n) [] = refl
  take-append-drop (suc n) (x ∷ xs) = ap (λ z. x ∷ z) (take-append-drop n xs)

  pub length-take : (n : ℕ) (xs : List A) → n ≤ length xs → length (take n xs) ≡ n
  length-take zero xs h = refl
  length-take (suc n) [] h = absurd (omega (arith, h))
  length-take (suc n) (x ∷ xs) h = omega (arith, length-take n xs, h)

  pub length-drop : (n : ℕ) (xs : List A) → length (drop n xs) ≡ length xs - n
  length-drop zero xs = omega arith
  length-drop (suc n) [] = omega arith
  length-drop (suc n) (x ∷ xs) = omega (arith, length-drop n xs)

  pub take_all : (n : ℕ) (xs : List A) → length xs ≤ n → take n xs ≡ xs
  take_all zero [] h = refl
  take_all zero (x ∷ xs) h = absurd (omega (arith, h))
  take_all (suc n) [] h = refl
  take_all (suc n) (x ∷ xs) h = ap (λ z. x ∷ z) (take_all n xs (omega (arith, h)))

  pub drop_all : (n : ℕ) (xs : List A) → length xs ≤ n → drop n xs ≡ []
  drop_all zero [] h = refl
  drop_all zero (x ∷ xs) h = absurd (omega (arith, h))
  drop_all (suc n) [] h = refl
  drop_all (suc n) (x ∷ xs) h = drop_all n xs (omega (arith, h))

  -- Cutting a concatenation, by the side that the cut falls on.
  pub drop-append_within :
      (n : ℕ) (xs ys : List A) → n ≤ length xs → drop n (xs ++ ys) ≡ drop n xs ++ ys
  drop-append_within zero xs ys h = refl
  drop-append_within (suc n) [] ys h = absurd (omega (arith, h))
  drop-append_within (suc n) (x ∷ xs) ys h = drop-append_within n xs ys (omega (arith, h))

  pub drop-append_beyond :
      (m n : ℕ) (xs ys : List A) → m ≡ length xs + n → drop m (xs ++ ys) ≡ drop n ys
  drop-append_beyond m n [] ys e = rw (e, plus_zero n) refl
  drop-append_beyond zero n (x ∷ xs) ys e = absurd (omega (arith, e))
  drop-append_beyond (suc m) n (x ∷ xs) ys e = drop-append_beyond m n xs ys (omega (arith, e))

  pub take-append_within : (n : ℕ) (xs ys : List A) → n ≤ length xs → take n (xs ++ ys) ≡ take n xs
  take-append_within zero xs ys h = refl
  take-append_within (suc n) [] ys h = absurd (omega (arith, h))
  take-append_within (suc n) (x ∷ xs) ys h =
      ap (λ z. x ∷ z) (take-append_within n xs ys (omega (arith, h)))

  pub take-append_beyond :
      (m n : ℕ) (xs ys : List A) → m ≡ length xs + n → take m (xs ++ ys) ≡ xs ++ take n ys
  take-append_beyond m n [] ys e = rw (e, plus_zero n) refl
  take-append_beyond zero n (x ∷ xs) ys e = absurd (omega (arith, e))
  take-append_beyond (suc m) n (x ∷ xs) ys e =
      ap (λ z. x ∷ z) (take-append_beyond m n xs ys (omega (arith, e)))

  pub drop-drop : (k m n : ℕ) (xs : List A) → k ≡ n + m → drop m (drop n xs) ≡ drop k xs
  drop-drop k m zero xs e = rw (e, plus_zero m) refl
  drop-drop k m (suc n) [] e = drop_all m [] (omega arith) ∙ sym (drop_all k [] (omega arith))
  drop-drop zero m (suc n) (x ∷ xs) e = absurd (omega (arith, e))
  drop-drop (suc k) m (suc n) (x ∷ xs) e = drop-drop k m n xs (omega (arith, e))

  -- A cut behind `xs` turns the concatenation round.
  pub rotated :
      (n : ℕ) (xs ys : List A) → n ≡ length xs → drop n (xs ++ ys) ++ take n (xs ++ ys) ≡ ys ++ xs
  rotated n xs ys e =
      ap (λ z. z ++ take n (xs ++ ys)) (drop-append_beyond n 0 xs ys (omega (arith, e)))
      ∙ ap (λ z. ys ++ z) (take-append_beyond n 0 xs ys (omega (arith, e)) ∙ append_nil xs)

  -- The last elements of the last elements and a tail.
  pub last-last : (n : ℕ) (xs ys : List A) → last n (last n xs ++ ys) ≡ last n (xs ++ ys)
  last-last n xs ys = elim (Bool-cases (leb (length xs) n)) [
    | inl e ↦ rw (short (ground (arith, e))) refl
    | inr e ↦ long (ground (arith, e))
  ]
    where
      short : length xs ≤ n → length xs - n ≡ 0
      short h = omega (arith, h)

      long : n < length xs → last n (last n xs ++ ys) ≡ last n (xs ++ ys)
      long h =
          ap (λ m. drop m (last n xs ++ ys))
            (omega (arith, h, length-append (last n xs) ys, length-drop (length xs - n) xs))
          ∙ ap (drop (length ys)) (sym (drop-append_within (length xs - n) xs ys (omega arith)))
          ∙ drop-drop (length (xs ++ ys) - n) (length ys) (length xs - n) (xs ++ ys)
              (omega (arith, h, length-append xs ys))
