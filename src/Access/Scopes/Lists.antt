-- ===== src/Access/Scopes/Lists.antt =====
-- What a validated scope list looks like.
use zenith_panel.Common.{
  ◌≡◌, refl, sym, subst, ◌⊎◌, inl, inr, List, [], ◌∷◌, ◌++◌, Option, none, some, Bool, true, false,
  Text, text_eq, text_beq, text_beq_iff, ◌==◌, trim_space, split_at, join_with, has_byte, contains,
  contains-append, All, AreFree, split-join, Bool-cases, arith,
}
use zenith_panel.Access.Scopes.{
  known_scopes, wildcard, scope_read, collect, finish, validate_scope_list,
}

-- A known scope that stands in a list as it is.
abbrev pub IsPlain : Text → Type 0
IsPlain s =
    (contains known_scopes s ≡ true)
    × (has_byte b',' s ≡ false)
    × (trim_space s ≡ s)
    × ((s == wildcard) ≡ false)

contains-elim {κ} :
    (P : Text → Type κ) (xs : List Text) (a : Text) → All P xs → contains xs a ≡ true → P a
unfolding contains
contains-elim P [] a h e = absurd (cc)
contains-elim P (x ∷ xs) a h e = elim (Bool-cases (x == a)) [
  | inl same ↦ subst P ((text_beq_iff x a).0 same) h.0
  | inr differs ↦ contains-elim P xs a h.1 (ground (arith, differs, e))
]

some_eq : {A : Type 0} {a b : A} → some a ≡ some b → a ≡ b
some_eq e = cc

known-IsPlain : (s : Text) → contains known_scopes s ≡ true → IsPlain s
unfolding contains has_byte trim_space text_beq
known-IsPlain s h =
    contains-elim IsPlain known_scopes s
      (
        (refl, refl, refl, refl),
        (
          (refl, refl, refl, refl),
          (
            (refl, refl, refl, refl),
            (
              (refl, refl, refl, refl),
              (
                (refl, refl, refl, refl),
                ((refl, refl, refl, refl), ((refl, refl, refl, refl), tt)),
              ),
            ),
          ),
        ),
      )
      h

-- No scope stands twice.
abbrev pub IsUnique : List Text → Type 0
IsUnique [] = Unit
IsUnique (s ∷ ss) = (contains ss s ≡ false) × IsUnique ss

All-snoc {κ} :
    (P : Text → Type κ) (xs : List Text) (s : Text) → All P xs → P s → All P (xs ++ s ∷ [])
All-snoc P [] s h p = (p, tt)
All-snoc P (x ∷ xs) s h p = (h.0, All-snoc P xs s h.1 p)

IsUnique-snoc :
    (xs : List Text) (s : Text) → IsUnique xs → contains xs s ≡ false → IsUnique (xs ++ s ∷ [])
unfolding contains
IsUnique-snoc [] s h e = (refl, tt)
IsUnique-snoc (x ∷ xs) s h e = (
  ground (arith, e, h.0, contains-append xs (s ∷ []) x, text_beq_iff s x, text_beq_iff x s),
  IsUnique-snoc xs s h.1 (ground (arith, e)),
)

-- The wildcard alone, or known scopes with none of them twice.
abbrev pub IsGrant : List Text → Type 0
IsGrant scopes = (scopes ≡ wildcard ∷ []) ⊎ (All IsPlain scopes × IsUnique scopes)

collect-IsGrant :
    (comma : Bool) (ordered parts out : List Text)
    → All IsPlain ordered
    → IsUnique ordered
    → collect comma ordered parts ≡ some out
    → IsGrant out
unfolding collect
collect-IsGrant comma ordered [] out plain uniq e = inr (ground arith, ground arith)
collect-IsGrant comma ordered (part ∷ parts) out plain uniq e =
    elim (Bool-cases (trim_space part == wildcard)) [
      | inl star ↦ inl (ground (arith, star))
      | inr other ↦ elim (Bool-cases (contains known_scopes (trim_space part))) [
        | inl known ↦ elim (Bool-cases (contains ordered (trim_space part))) [
          | inl seen ↦
              collect-IsGrant comma ordered parts out plain uniq
                (ground (arith, other, known, seen))
          | inr new ↦
              collect-IsGrant comma (ordered ++ trim_space part ∷ []) parts out
                (All-snoc IsPlain ordered (trim_space part) plain
                  (known-IsPlain (trim_space part) known))
                (IsUnique-snoc ordered (trim_space part) uniq new)
                (ground (arith, other, known, new))
        ]
        | inr unknown ↦ absurd (ground (arith, other, unknown))
      ]
    ]

plain-AreFree : (ss : List Text) → All IsPlain ss → AreFree b',' ss
plain-AreFree [] h = tt
plain-AreFree (s ∷ ss) h = (h.0.1, plain-AreFree ss h.1)

grant-AreFree : (ss : List Text) → IsGrant ss → AreFree b',' ss
unfolding has_byte
grant-AreFree ss (inl e) = subst (AreFree b',') (sym e) (refl, tt)
grant-AreFree ss (inr h) = plain-AreFree ss h.0

-- A stored list and the scopes that it stands for.
abbrev pub Stands : Text → List Text → Type 0
Stands out scopes = (out ≡ join_with b',' scopes) × (split_at b',' out ≡ scopes) × IsGrant scopes

Stands-read : Stands scope_read (scope_read ∷ [])
unfolding join_with split_at contains text_beq
Stands-read = (refl, refl, inr ((known-IsPlain scope_read refl, tt), (refl, tt)))

finish-Stands :
    (o : Option (List Text)) (out : Text)
    → ((ss : List Text) → o ≡ some ss → IsGrant ss)
    → finish o ≡ some out
    → (scopes : List Text) × Stands out scopes
unfolding finish
finish-Stands none out g e = absurd (cc)
finish-Stands (some []) out g e =
    (scope_read ∷ [], subst (λ t. Stands t (scope_read ∷ [])) (some_eq e) Stands-read)
finish-Stands (some (s ∷ ss)) out g e =
    let grant = g (s ∷ ss) refl in
    (
      s ∷ ss,
      subst (λ t. Stands t (s ∷ ss)) (some_eq e)
          (refl, split-join b',' s ss (grant-AreFree (s ∷ ss) grant), grant),
    )

-- An accepted list is stored as the wildcard alone, or as known scopes, none of them twice and at
-- least one, joined by commas; and splitting the stored text at the commas gives those scopes back.
pub validate-Stands :
    (raw out : Text) → validate_scope_list raw ≡ some out → (scopes : List Text) × Stands out scopes
unfolding validate_scope_list
validate-Stands raw out e = elim (Bool-cases (trim_space raw == [])) [
  | inl empty ↦ (
    scope_read ∷ [],
    subst (λ t. Stands t (scope_read ∷ [])) (some_eq (ground (arith, e, empty))) Stands-read,
  )
  | inr full ↦
      let comma = has_byte b',' (trim_space raw) in
      let parts = split_at b',' (trim_space raw) in
      finish-Stands (collect comma [] parts) out (λ ss c. collect-IsGrant comma [] parts ss tt tt c)
        (ground (arith, e, full))
]
