-- ===== src/Access/Reply.antt =====
-- What a handler answers: a refusal with its status code and message, or a result.
use zenith_panel.Common.{if◌then◌else◌, ℕ, Bool, true, false, Text, ◌≡◌, refl}

pub data Reply {ℓ} (A : Type ℓ) : Type ℓ where
  refuse : ℕ → Text → Reply A
  reply : A → Reply A

-- A guard with an early return.
abbrev pub unless {ℓ} : {A : Type ℓ} → Bool → Reply A → Reply A → Reply A
unless true refusal rest = rest
unless false refusal rest = refusal

abbrev pub is_refused {ℓ} : {A : Type ℓ} → Reply A → Bool
is_refused (refuse code msg) = true
is_refused (reply a) = false

-- What got past a guard, and what it is.
pub unless_eq_reply {ℓ} :
    {A : Type ℓ} (b : Bool) (code : ℕ) (msg : Text) (rest : Reply A) {a : A}
    → unless b (refuse code msg) rest ≡ reply a
    → (b ≡ true) × (rest ≡ reply a)
unless_eq_reply true code msg rest is = (refl, is)
unless_eq_reply false code msg rest is = absurd (cc (is))

pub reply_inj {ℓ} : {A : Type ℓ} {a b : A} → reply a ≡ reply b → a ≡ b
reply_inj is = cc (is)

pub refuse_ne_reply {ℓ} :
    {A : Type ℓ} {code : ℕ} {msg : Text} {a : A} → ¬ (refuse code msg ≡ reply a)
refuse_ne_reply is = cc (is)

-- The same where a state is passed on.
pub past_if {ℓ κ} :
    {A : Type ℓ} {S : Type κ} (b : Bool) (code : ℕ) (msg : Text) (s : S) (rest : Reply A × S)
    {a : A}
    → (if b then (refuse code msg, s) else rest).0 ≡ reply a
    → (b ≡ false) × (rest.0 ≡ reply a)
past_if true code msg s rest is = absurd (refuse_ne_reply is)
past_if false code msg s rest is = (refl, is)

pub past_unless {ℓ κ} :
    {A : Type ℓ} {S : Type κ} (b : Bool) (code : ℕ) (msg : Text) (s : S) (rest : Reply A × S)
    {a : A}
    → (if b then rest else (refuse code msg, s)).0 ≡ reply a
    → (b ≡ true) × (rest.0 ≡ reply a)
past_unless true code msg s rest is = (refl, is)
past_unless false code msg s rest is = absurd (refuse_ne_reply is)

-- What two branches have in common.
pub reply_of_if {ℓ κ ι} :
    {A : Type ℓ} {S : Type κ} {Q : Type ι} (b : Bool) (t e : Reply A × S) {a : A}
    → (t.0 ≡ reply a → Q)
    → (e.0 ≡ reply a → Q)
    → (if b then t else e).0 ≡ reply a
    → Q
reply_of_if true t e from_then from_else is = from_then is
reply_of_if false t e from_then from_else is = from_else is
