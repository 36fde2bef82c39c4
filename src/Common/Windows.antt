-- ===== src/Common/Windows.antt =====
-- Rings of elements: a buffer that is written at a head, which goes round at the end, shows its
-- elements from the head on. Shown are the last elements written.
use zenith_panel.Common.{
  ℕ, ◌+◌, ◌-◌, ◌%◌, ◌≤◌, ◌<◌, ◌≡◌, refl, ◌∙◌, sym, ap, arith, List, [], ◌++◌, Bool, true, false,
  ◌||◌, nat_beq, ltb, if◌then◌else◌, length, take, drop, length-append, Bool-cases, inl, inr,
}
use native.Mathlib.Nat.{mod_self, mod-eq_of_lt}
use zenith_panel.Common.Slices.{
  last, append_nil, append_assoc, length-take, length-drop, drop_all, drop-append_within,
  drop-append_beyond, take-append_beyond, drop-drop, rotated,
}

module _ {ℓ} {A : Type ℓ} where
  -- The older elements, which are there if the ring was full.
  abbrev pub older : Bool → List A → List A
  older full rest = if full then rest else []

  -- The last elements of what was shown and a chunk.
  pub last_long :
      (n : ℕ) (shown p : List A) → n ≤ length p → last n (shown ++ p) ≡ drop (length p - n) p
  last_long n shown p h =
      drop-append_beyond (length (shown ++ p) - n) (length p - n) shown p
        (omega (arith, h, length-append shown p))

  -- The older elements that make room, in front of the head (`a`) and behind it (`b`).
  last_near :
      (n : ℕ) (a b p : List A)
      → length a + length b ≡ n
      → length p ≤ length b
      → last n ((b ++ a) ++ p) ≡ drop (length p) b ++ (a ++ p)
  last_near n a b p whole near =
      ap (drop (length ((b ++ a) ++ p) - n)) (append_assoc b a p)
      ∙ ap (λ m. drop m (b ++ (a ++ p)))
          (omega (arith, whole, length-append (b ++ a) p, length-append b a))
      ∙ drop-append_within (length p) b (a ++ p) near

  last_far :
      (n : ℕ) (a b p : List A)
      → length a + length b ≡ n
      → length b ≤ length p
      → length p ≤ n
      → last n ((b ++ a) ++ p) ≡ drop (length p - length b) a ++ p
  last_far n a b p whole far short =
      ap (drop (length ((b ++ a) ++ p) - n)) (append_assoc b a p)
      ∙ drop-append_beyond (length ((b ++ a) ++ p) - n) (length p - length b) b (a ++ p)
          (omega (arith, whole, far, length-append (b ++ a) p, length-append b a))
      ∙ drop-append_within (length p - length b) a p (omega (arith, whole, far, short))

  last_part :
      (n k m : ℕ) (a p : List A)
      → length a + k ≡ n
      → m ≡ length p - k
      → length p ≤ n
      → last n (a ++ p) ≡ drop m a ++ p
  last_part n k m a p whole gone short =
      ap (λ j. drop j (a ++ p)) (omega (arith, whole, gone, length-append a p))
      ∙ drop-append_within m a p (omega (arith, whole, gone, short))

  -- A write that goes round, or that has room.
  pub shows_round :
      (full : Bool) (n : ℕ) (a b p : List A)
      → length a + length b ≡ n
      → length b ≤ length p
      → length p ≤ n
      → drop (length p - length b) a ++ p ≡ last n ((if full then b ++ a else a) ++ p)
  shows_round true n a b p whole far short = sym (last_far n a b p whole far short)
  shows_round false n a b p whole far short =
      sym (last_part n (length b) (length p - length b) a p whole refl short)

  pub shows_ahead :
      (full : Bool) (n : ℕ) (a b p : List A)
      → length a + length b ≡ n
      → length p ≤ length b
      → older full (drop (length p) b) ++ (a ++ p) ≡ last n ((if full then b ++ a else a) ++ p)
  shows_ahead true n a b p whole near = sym (last_near n a b p whole near)
  shows_ahead false n a b p whole near =
      sym (last_part n (length b) 0 a p whole (omega (arith, near)) (omega (arith, whole, near)))

  -- The two ends of a chunk that has room: at the end of the buffer, and in front of it.
  shows_at_end : (full : Bool) (p rest : List A) → rest ≡ [] → p ++ rest ≡ older full rest ++ p
  shows_at_end true p rest e = rw (e) (append_nil p)
  shows_at_end false p rest e = rw (e) (append_nil p)

  shows_in_front :
      (full : Bool) (n : ℕ) (p rest : List A)
      → n ≡ length p
      → (if full then drop n (p ++ rest) ++ take n (p ++ rest) else take n (p ++ rest))
        ≡ older full rest ++ p
  shows_in_front true n p rest e = rotated n p rest e
  shows_in_front false n p rest e = take-append_beyond n 0 p rest (omega (arith, e)) ∙ append_nil p

  -- What a ring shows whose next element comes at `h`.
  abbrev pub view : Bool → ℕ → List A → List A
  view full h buf = if full then drop h buf ++ take h buf else take h buf

  -- A chunk that has room is written at the head, which moves behind it, and to the front from the
  -- end: the ring shows the last elements of what it showed and the chunk.
  pub view-ahead :
      (full : Bool) (size h : ℕ) (p buf : List A)
      → length buf ≡ size
      → h + length p ≤ size
      → 0 < length p
      → view
          (nat_beq ((h + length p) % size) 0 || full)
          ((h + length p) % size)
          ((take h buf ++ p) ++ drop (h + length p) buf)
        ≡ last size (view full h buf ++ p)
  view-ahead full size h p buf whole room some_of_it =
      elim (Bool-cases (ltb (h + length p) size)) [
        | inl e ↦
            rw (nonzero (ground (arith, e)), straight (ground (arith, e)))
              (shows_in_front full (h + length p) (take h buf ++ p) (drop (h + length p) buf)
                (omega (arith, length-append (take h buf) p, front)))
        | inr e ↦ rw (turned (is_end (ground (arith, e)))) (
            append_nil ((take h buf ++ p) ++ drop (h + length p) buf)
            ∙ shows_at_end full (take h buf ++ p) (drop (h + length p) buf)
                (drop_all (h + length p) buf (omega (arith, whole, is_end (ground (arith, e))))))
      ]
      ∙ ap (λ z. older full z ++ (take h buf ++ p))
          (sym (drop-drop (h + length p) (length p) h buf refl))
      ∙ shows_ahead full size (take h buf) (drop h buf) p (omega (arith, whole, room, front, back))
          (omega (arith, whole, room, back))
    where
      front : length (take h buf) ≡ h
      front = length-take h buf (omega (arith, whole, room))

      back : length (drop h buf) ≡ size - h
      back = omega (arith, whole, length-drop h buf)

      is_end : size ≤ h + length p → h + length p ≡ size
      is_end e = omega (arith, e, room)

      turned : h + length p ≡ size → (h + length p) % size ≡ 0
      turned e = rw (e) (mod_self size)

      straight : h + length p < size → (h + length p) % size ≡ h + length p
      straight e = mod-eq_of_lt e

      nonzero : h + length p < size → nat_beq ((h + length p) % size) 0 ≡ false
      nonzero e = rw (straight e) (ground (arith, some_of_it))
