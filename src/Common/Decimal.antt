-- ===== src/Common/Decimal.antt =====
-- strconv.FormatUint and strconv.ParseUint at base 10 and 64 bits.
use zenith_panel.Common.{
  ℕ, zero, suc, ◌+◌, ◌-◌, ◌*◌, ◌/◌, ◌%◌, ◌<◌, ◌≡◌, refl, ◌∙◌, [], ◌∷◌, Option, none, some, Bool,
  false, arith, Text, ltb, leb, if◌then◌else◌, Bool-cases, inl, inr,
}

abbrev pub u64_limit : ℕ
u64_limit = 18446744073709551616

-- The digits of `n` in front of `out`; fuel above `n` is enough.
format_from : ℕ → ℕ → Text → Text
format_from zero n out = out
format_from (suc f) n out =
    let more = format_from f (n / 10) ((b'0' + n % 10) ∷ out) in
    if ltb n 10 then (b'0' + n) ∷ out else more

unfoldable pub format_uint : ℕ → Text
unfolding format_from
format_uint n = format_from (suc n) n []

is_digit : ℕ → Bool
is_digit c = if ltb c b'0' then false else leb c b'9'

parse_from : Text → ℕ → Option ℕ
unfolding is_digit
parse_from [] n = some n
parse_from (c ∷ s) n =
    let m = n * 10 + (c - b'0') in
    let rest = parse_from s m in if is_digit c then if ltb m u64_limit then rest else none else none

unfoldable pub parse_uint : Text → Option ℕ
unfolding parse_from
parse_uint [] = none
parse_uint (c ∷ s) = parse_from (c ∷ s) 0

parse-format_from :
    (f n : ℕ) (out : Text)
    → n < f
    → n < u64_limit
    → parse_from (format_from f n out) 0 ≡ parse_from out n
unfolding format_from parse_from
parse-format_from zero n out h l = absurd (omega arith)
parse-format_from (suc f) n out h l = elim (Bool-cases (ltb n 10)) [
  | inl e ↦ rw e (ground arith)
  | inr e ↦ rw e (
      parse-format_from f (n / 10) ((b'0' + n % 10) ∷ out) (ground arith) (omega arith)
      ∙ ground arith)
]

format_from-cons :
    (f n : ℕ) (out : Text) → n < f → (c : ℕ) × (s : Text) × (format_from f n out ≡ c ∷ s)
unfolding format_from
format_from-cons zero n out h = absurd (omega arith)
format_from-cons (suc f) n out h = elim (Bool-cases (ltb n 10)) [
  | inl e ↦ (b'0' + n, out, rw e)
  | inr e ↦ rw e (format_from-cons f (n / 10) ((b'0' + n % 10) ∷ out) (ground arith))
]

parse_uint_of_cons : (s : Text) {c : ℕ} {t : Text} → s ≡ c ∷ t → parse_uint s ≡ parse_from s 0
unfolding parse_uint
parse_uint_of_cons [] e = cc
parse_uint_of_cons (c ∷ s) e = refl

-- Reading back a printed 64-bit number.
pub parse-format_uint : (n : ℕ) → n < u64_limit → parse_uint (format_uint n) ≡ some n
unfolding format_uint parse_from
parse-format_uint n l =
    parse_uint_of_cons _ (format_from-cons (suc n) n [] (omega arith)).2
    ∙ parse-format_from (suc n) n [] (omega arith) l
