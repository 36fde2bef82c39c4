-- ===== src/Access/Login/Spent.antt =====
-- Spending a recovery code, as later sign-ins see it.
use zenith_panel.Common.{
  ◌≡◌, refl, ◌∙◌, sym, ap, arith, List, [], ◌∷◌, Option, none, some, Bool, true, false, ◌&&◌, Text,
  text_eq, text_beq, text_beq_iff, nat_eq, nat_beq, nat_beq_iff, Bool-cases, Option-cases, inl, inr,
  All, subst, ◌==◌,
}
use zenith_panel.Access.Auth.{AdminUser}
use zenith_panel.Access.Login.{
  Crypto, put_back, spend, spend_code, update_where, update_one, store_codes, try_recovery_code,
}
use zenith_panel.Access.Login.Recovery.{try_recovery_code-once}

-- At most one of the stored hashes is of the code.
abbrev pub Single : (Text → Bool) → List Text → Type 0
Single matches [] = Unit
Single matches (x ∷ xs) = Single matches xs × (matches x ≡ true → All (λ y. matches y ≡ false) xs)

spend-none :
    (matches : Text → Bool) (stored : List Text)
    → All (λ y. matches y ≡ false) stored
    → spend matches stored ≡ none
unfolding spend put_back
spend-none matches [] free = refl
spend-none matches (x ∷ stored) free = ground (arith, free.0, spend-none matches stored free.1)

-- The codes that are left hold no hash of the spent one.
spend-gone :
    (matches : Text → Bool) (stored left : List Text)
    → Single matches stored
    → spend matches stored ≡ some left
    → spend matches left ≡ none
unfolding spend put_back
spend-gone matches [] left single is = absurd (ground (arith, is))
spend-gone matches (x ∷ stored) left single is = elim (Bool-cases (matches x)) [
  | inl e ↦
      let same : stored ≡ left = ground (arith, e, is) in
      subst (λ l. spend matches l ≡ none) same (spend-none matches stored (single.1 e))
  | inr e ↦ elim (Option-cases (spend matches stored)) [
    | inl gone ↦ absurd (ground (arith, e, gone, is))
    | inr (rest, found) ↦
        let same : x ∷ rest ≡ left = ground (arith, e, found, is) in
        subst (λ l. spend matches l ≡ none) same
          (ground (arith, e, spend-gone matches stored rest single.0 found))
  ]
]

-- What holds of every changed row, and of the rows that do not pass, holds of all rows behind.
update_where-All {ℓ} :
    (P : AdminUser → Type ℓ) (p : AdminUser → Bool) (change : AdminUser → AdminUser)
    (rows : List AdminUser)
    → ((row : AdminUser) → P (change row))
    → All (λ row. p row ≡ false → P row) rows
    → All P (update_where p change rows).0
unfolding update_where
update_where-All P p change [] changed others = tt
update_where-All P p change (row ∷ rows) changed others =
    let rest = update_where-All P p change rows changed others.1 in
    elim (Bool-cases (p row)) [
      | inl e ↦ rw (e) (changed row, rest)
      | inr e ↦ rw (e) (others.0 e, rest)
    ]

module _ (lib : Crypto) (admin : AdminUser) (code : Text) (later : Option Text)
    (others : List AdminUser) where
  -- Another sign-in with this row of the administrator is refused.
  abbrev pub IsRefused : AdminUser → Type 0
  IsRefused row =
      (nat_beq row.id admin.id && (try_recovery_code later lib row code others).0) ≡ false

  refused_row :
      (row : AdminUser) (left : List Text)
      → row.recovery_codes ≡ lib.marshal left
      → lib.unmarshal (lib.marshal left) ≡ some left
      → spend (λ hash. lib.compare_hash hash code) left ≡ none
      → (try_recovery_code later lib row code others).0 ≡ false
  unfolding try_recovery_code spend_code store_codes
  refused_row row left is trip gone =
      let none_left : spend_code lib code (lib.unmarshal row.recovery_codes) ≡ none =
        rw (is, trip) gone in
      elim (Bool-cases (text_beq row.recovery_codes [])) [
        | inl e ↦ rw e refl
        | inr e ↦ rw (e, none_left) refl
      ]

  unchanged_row :
      (row : AdminUser)
      → (row.id ≡ admin.id → row ≡ admin)
      → (nat_beq row.id admin.id
          && (nat_beq row.session_version admin.session_version
              && text_beq row.recovery_codes admin.recovery_codes))
        ≡ false
      → IsRefused row
  unchanged_row row is_admin fails = elim (Bool-cases (nat_beq row.id admin.id)) [
    | inr e ↦ rw e refl
    | inl e ↦
        let same = is_admin ((nat_beq_iff row.id admin.id).0 e) in
        absurd (
          ground (
            arith,
            e,
            fails,
            ap (λ (r : AdminUser). r.session_version) same,
            ap (λ (r : AdminUser). r.recovery_codes) same,
            nat_beq_iff row.session_version admin.session_version,
            text_beq_iff row.recovery_codes admin.recovery_codes,
          ))
  ]

module _ (fails later : Option Text) (lib : Crypto) (admin : AdminUser) (code : Text)
    (admins others : List AdminUser) where
  store_codes-IsRefused :
      (stored : List Text) (o : Option (List Text))
      → ((xs : List Text) → lib.unmarshal (lib.marshal xs) ≡ some xs)
      → Single (λ hash. lib.compare_hash hash code) stored
      → All (λ row. row.id ≡ admin.id → row ≡ admin) admins
      → spend (λ hash. lib.compare_hash hash code) stored ≡ o
      → (store_codes fails lib admin o admins).0 ≡ true
      → All (IsRefused lib admin code later others) (store_codes fails lib admin o admins).1
  unfolding store_codes update_one
  store_codes-IsRefused stored none trip single read is done = absurd (ground (arith, done))
  store_codes-IsRefused stored (some left) trip single read is done = written fails done
    where
      and_false : (a b : Bool) → b ≡ false → (a && b) ≡ false
      and_false a b e = ground (arith, e)

      changed :
          (row : AdminUser)
          → IsRefused lib admin code later others (record row { recovery_codes = lib.marshal left })
      changed row = and_false (nat_beq row.id admin.id) _ (
          refused_row lib admin code later others (record row { recovery_codes = lib.marshal left })
            left refl (trip left) (spend-gone _ stored left single is))

      kept :
          (rows : List AdminUser)
          → All (λ row. row.id ≡ admin.id → row ≡ admin) rows
          → All
              (λ row.
                (row.id == admin.id
                    && (row.session_version == admin.session_version
                        && row.recovery_codes == admin.recovery_codes))
                  ≡ false
                → IsRefused lib admin code later others row)
              rows
      kept [] h = tt
      kept (row ∷ rows) h = (unchanged_row lib admin code later others row h.0, kept rows h.1)

      written :
          (o : Option Text)
          → (store_codes o lib admin (some left) admins).0 ≡ true
          → All
              (IsRefused lib admin code later others)
              (store_codes o lib admin (some left) admins).1
      written none d =
          update_where-All (IsRefused lib admin code later others) _ _ admins changed
            (kept admins read)
      written (some e) d = absurd (ground (arith, d))

  -- A recovery code that was accepted is not accepted again: not from a sign-in that read the
  -- administrator's row before it was written, and not with the administrator's row as any later
  -- sign-in reads it. The first sign-in read the row as it stood, the row's codes are the JSON of a
  -- list in which at most one hash is of the code, and JSON of a list reads back as the list.
  pub recovery_code-spent :
      (stored : List Text)
      → ((xs : List Text) → lib.unmarshal (lib.marshal xs) ≡ some xs)
      → lib.unmarshal admin.recovery_codes ≡ some stored
      → Single (λ hash. lib.compare_hash hash code) stored
      → All (λ row. row.id ≡ admin.id → row ≡ admin) admins
      → (try_recovery_code fails lib admin code admins).0 ≡ true
      → ((try_recovery_code later lib admin code
            (try_recovery_code fails lib admin code admins).1).0
          ≡ false)
        × All
            (IsRefused lib admin code later others)
            (try_recovery_code fails lib admin code admins).1
  unfolding try_recovery_code spend_code
  recovery_code-spent stored trip codes_are single read done = (
    try_recovery_code-once fails later lib admin code admins trip done,
    elim (Bool-cases (text_beq admin.recovery_codes [])) [
      | inl e ↦ absurd (ground (arith, e, done))
      | inr e ↦
          rw (e, codes_are) (store_codes-IsRefused stored _ trip single read refl (accepted e))
    ],
  )
    where
      looked :
          text_beq admin.recovery_codes [] ≡ false
          → (try_recovery_code fails lib admin code admins).0
            ≡ (store_codes fails lib admin
                (spend (λ hash. lib.compare_hash hash code) stored)
                admins).0
      looked e = rw (e, codes_are) refl

      accepted :
          text_beq admin.recovery_codes [] ≡ false
          → (store_codes fails lib admin
              (spend (λ hash. lib.compare_hash hash code) stored)
              admins).0
            ≡ true
      accepted e = sym (looked e) ∙ done
