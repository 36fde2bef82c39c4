-- ===== src/Access/ApiToken/Format.antt =====
-- A generated token passes the check of its form, whatever bytes its body has.
use zenith_panel.Common.{
  ℕ, ◌≡◌, refl, arith, [], ◌∷◌, ◌++◌, Option, none, some, true, false, Text, text_eq, nat_eq,
  has_prefix, has_byte, length, eq_self,
}
use zenith_panel.Access.ApiToken.{
  Codec, cut_last, generate, sum_matches, body_and_sum, is_well_formed,
}

cut_last_free : (sep : ℕ) (s : Text) → has_byte sep s ≡ false → cut_last sep s ≡ none
unfolding cut_last has_byte
cut_last_free sep [] free = refl
cut_last_free sep (c ∷ s) free = ground (arith, cut_last_free sep s, free)

-- The cut falls on the last separator.
cut_last-append :
    (sep : ℕ) (a b : Text) → has_byte sep b ≡ false → cut_last sep (a ++ sep ∷ b) ≡ some (a, b)
unfolding cut_last
cut_last-append sep [] b free = rw (cut_last_free sep b free) (ground arith)
cut_last-append sep (c ∷ a) b free = rw (cut_last-append sep a b free) refl

-- The token is well formed, and its hash is stored.
abbrev pub Passes : Codec → Option (Text × Text) → Type 0
Passes lib none = ⊥
Passes lib (some (token, hash)) = (is_well_formed lib token ≡ true) × (hash ≡ lib.sha256_hex token)

module _ (lib : Codec) (raw : Text) where
  -- Where base64 decodes what it encoded, 16 bytes become 22 characters of any alphabet and a
  -- checksum has 6 characters and no underscore, every generated token passes, also one with
  -- underscores in its body, and the hash that comes with it is its own.
  pub generate-Passes :
      length raw ≡ 16
      → lib.decode (lib.encode raw) ≡ some raw
      → length (lib.encode raw) ≡ 22
      → length (lib.checksum raw) ≡ 6
      → has_byte b'_' (lib.checksum raw) ≡ false
      → Passes lib (generate lib (some raw))
  unfolding generate is_well_formed body_and_sum sum_matches has_prefix
  generate-Passes size decodes body_size sum_size free = (
    rw
        (
          cut_last-append b'_' (lib.encode raw) (lib.checksum raw) free,
          body_size,
          sum_size,
          decodes,
          size,
        )
        (eq_self (lib.checksum raw)),
    refl,
  )
