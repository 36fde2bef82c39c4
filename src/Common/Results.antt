-- ===== src/Common/Results.antt =====
-- A value or an error with its message, as a Go function that returns `(T, error)`.
use mathlib.Core.Path.{◌≡◌, refl}
use mathlib.Core.Option.{Option, none, some}
use mathlib.Core.Logic.{◌⊎◌, inl, inr}
use mathlib.Core.List.{◌++◌}
use zenith_panel.Common.Texts.{Text, codes}

pub data Result {ℓ} (V : Type ℓ) : Type ℓ where
  ok : V → Result V
  err : Text → Result V

infixl 5 ◌>>=◌ ◌>>◌
abbrev pub ◌>>=◌ {ℓ κ} : {V : Type ℓ} {W : Type κ} → Result V → (V → Result W) → Result W
ok v >>= next = next v
err message >>= next = err message

abbrev pub ◌>>◌ {ℓ κ} : {V : Type ℓ} {W : Type κ} → Result V → Result W → Result W
first >> second = first >>= λ _. second

-- The error of an external operation, if it reports one.
abbrev pub check : Option Text → Result (Unit {0})
check none = ok tt
check (some e) = err e

pub Result-cases {ℓ} :
    {A : Type ℓ} (r : Result A) → ((a : A) × (r ≡ ok a)) ⊎ ((e : Text) × (r ≡ err e))
Result-cases (ok a) = inl (a, refl)
Result-cases (err e) = inr (e, refl)

-- A chain succeeds only if both its parts do.
pub bind_eq_ok {ℓ κ} :
    {V : Type ℓ} {W : Type κ} (m : Result V) (next : V → Result W) {w : W}
    → (m >>= next) ≡ ok w
    → (v : V) × (m ≡ ok v) × (next v ≡ ok w)
bind_eq_ok (ok v) next is = (v, refl, is)
bind_eq_ok (err message) next is = absurd (cc)

-- `fmt.Errorf("prefix: %w", err)`.
abbrev pub wrap {ℓ} : {A : Type ℓ} → Text → Result A → Result A
wrap prefix (ok a) = ok a
wrap prefix (err e) = err (prefix ++ e)

-- `errors.Join`.
abbrev pub join_errors : Option Text → Option Text → Option Text
join_errors none e = e
join_errors (some d) none = some d
join_errors (some d) (some e) = some (d ++ codes "\n" ++ e)

pub ok_inj {ℓ} : {A : Type ℓ} {a b : A} → ok a ≡ ok b → a ≡ b
ok_inj is = cc (is)
