-- ===== src/Common/Texts.antt =====
-- Go strings as lists of bytes, with the functions of package strings that the program calls.
use Prim.Native.Nat.{ℕ}
use Prim.Native.Char.{code}
use Prim.Native.String.{String}
use mathlib.Core.Path.{◌≡◌, refl, ap, ◌∙◌}
use mathlib.Core.Logic.{◌↔◌}
use mathlib.Core.Bool.{Bool, true, false, ◌&&◌, ◌||◌}
use mathlib.Core.Option.{Option, none, some}
use mathlib.Core.List.{List, [], ◌∷◌, ◌++◌}
use native.Mathlib.Omega.{arith}
use zenith_panel.Common.Tests.{nat_beq, nat_eq, if◌then◌else◌, Eq}

abbrev pub Text : Type 0
Text = List ℕ

-- A string literal of the source.
abbrev pub codes : String → Text
codes String.[] = []
codes (String.◌∷◌ c s) = code c ∷ codes s

unfoldable pub text_beq : Text → Text → Bool
text_beq [] [] = true
text_beq (a ∷ s) (b ∷ t) = nat_beq a b && text_beq s t
text_beq _ _ = false

text_beq-eq : (s t : Text) → text_beq s t ≡ true → s ≡ t
unfolding text_beq
text_beq-eq [] [] h = refl
text_beq-eq [] (b ∷ t) h = cc
text_beq-eq (a ∷ s) [] h = cc
text_beq-eq (a ∷ s) (b ∷ t) h = ground (arith, text_beq-eq s t)

text_beq_self : (s : Text) → text_beq s s ≡ true
unfolding text_beq
text_beq_self [] = refl
text_beq_self (a ∷ s) = ground (arith, text_beq_self s)

pub text_beq_iff : (s t : Text) → (text_beq s t ≡ true) ↔ (s ≡ t)
text_beq_iff s t = (text_beq-eq s t, λ e. rw (← e) (text_beq_self s))

instance abbrev pub text_eq : Eq Text
text_eq = record { equal = text_beq; equal_iff = text_beq_iff }

-- strings.HasPrefix, and the rest behind the prefix.
unfoldable pub strip_prefix : Text → Text → Option Text
strip_prefix [] s = some s
strip_prefix (a ∷ p) [] = none
strip_prefix (a ∷ p) (b ∷ s) = if nat_beq a b then strip_prefix p s else none

unfoldable pub has_prefix : Text → Text → Bool
has_prefix [] s = true
has_prefix (a ∷ p) [] = false
has_prefix (a ∷ p) (b ∷ s) = nat_beq a b && has_prefix p s

pub has_prefix-append : (p s : Text) → has_prefix p (p ++ s) ≡ true
unfolding has_prefix
has_prefix-append [] s = refl
has_prefix-append (a ∷ p) s = ground (arith, has_prefix-append p s)

pub strip_prefix-append : (p s : Text) → strip_prefix p (p ++ s) ≡ some s
unfolding strip_prefix
strip_prefix-append [] s = refl
strip_prefix-append (a ∷ p) s = ground (arith, strip_prefix-append p s)

-- The ASCII part of unicode.IsSpace.
is_space : ℕ → Bool
is_space c =
    nat_beq c 32 || nat_beq c 9 || nat_beq c 10 || nat_beq c 11 || nat_beq c 12 || nat_beq c 13

unfoldable pub trim_left : Text → Text
unfolding is_space
trim_left [] = []
trim_left (c ∷ s) = if is_space c then trim_left s else c ∷ s

is_empty : Text → Bool
is_empty [] = true
is_empty (c ∷ s) = false

unfoldable pub trim_right : Text → Text
unfolding is_space is_empty
trim_right [] = []
trim_right (c ∷ s) = let r = trim_right s in if is_space c && is_empty r then [] else c ∷ r

-- strings.TrimSpace.
unfoldable pub trim_space : Text → Text
unfolding trim_left trim_right
trim_space s = trim_right (trim_left s)

push_front : ℕ → List Text → List Text
push_front c [] = (c ∷ []) ∷ []
push_front c (part ∷ parts) = (c ∷ part) ∷ parts

-- strings.Split at one byte.
unfoldable pub split_at : ℕ → Text → List Text
unfolding push_front
split_at sep [] = [] ∷ []
split_at sep (c ∷ s) =
    let parts = split_at sep s in if nat_beq c sep then [] ∷ parts else push_front c parts

-- strings.Join with one byte.
unfoldable pub join_with : ℕ → List Text → Text
join_with sep [] = []
join_with sep (part ∷ []) = part
join_with sep (part ∷ next ∷ parts) = part ++ sep ∷ join_with sep (next ∷ parts)

unfoldable pub has_byte : ℕ → Text → Bool
has_byte b [] = false
has_byte b (c ∷ s) = nat_beq c b || has_byte b s

split-free : (sep : ℕ) (s : Text) → has_byte sep s ≡ false → split_at sep s ≡ s ∷ []
unfolding split_at has_byte
split-free sep [] h = refl
split-free sep (c ∷ s) h = ground (arith, split-free sep s)

split-append :
    (sep : ℕ) (s rest : Text)
    → has_byte sep s ≡ false
    → split_at sep (s ++ sep ∷ rest) ≡ s ∷ split_at sep rest
unfolding split_at has_byte
split-append sep [] rest h = ground arith
split-append sep (c ∷ s) rest h = ground (arith, split-append sep s rest)

abbrev pub AreFree : ℕ → List Text → Type 0
AreFree sep [] = Unit
AreFree sep (s ∷ parts) = (has_byte sep s ≡ false) × AreFree sep parts

-- Splitting undoes joining parts that do not hold the separator.
pub split-join :
    (sep : ℕ) (s : Text) (parts : List Text)
    → AreFree sep (s ∷ parts)
    → split_at sep (join_with sep (s ∷ parts)) ≡ s ∷ parts
unfolding join_with
split-join sep s [] h = split-free sep s h.0
split-join sep s (t ∷ parts) h =
    split-append sep s (join_with sep (t ∷ parts)) h.0 ∙ ap (◌∷◌ s) (split-join sep t parts h.1)

-- strings.TrimSuffix.
unfoldable pub trim_suffix : Text → Text → Text
trim_suffix suffix [] = []
trim_suffix suffix (c ∷ s) =
    let rest = c ∷ trim_suffix suffix s in if text_beq (c ∷ s) suffix then [] else rest
