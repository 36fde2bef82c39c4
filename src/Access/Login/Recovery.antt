-- ===== src/Access/Login/Recovery.antt =====
-- Spending a recovery code from a stale row.
use zenith_panel.Common.{
  suc, ◌≡◌, refl, ◌∙◌, sym, ap, arith, List, [], ◌∷◌, Option, none, some, Bool, true, false, ◌&&◌,
  Text, text_eq, text_beq, text_beq_iff, nat_eq, nat_beq, if◌then◌else◌, Bool-cases, inl, inr,
  length, All, some_inj,
}
use zenith_panel.Access.Auth.{AdminUser}
use zenith_panel.Access.Login.{
  Crypto, put_back, spend, spend_code, update_where, update_one, store_codes, try_recovery_code,
}

-- No row passes a test.
abbrev NonePass : (AdminUser → Bool) → List AdminUser → Type 0
NonePass p rows = All (λ row. p row ≡ false) rows

update_where-none :
    (p : AdminUser → Bool) (change : AdminUser → AdminUser) (rows : List AdminUser)
    → NonePass p rows
    → (update_where p change rows).1 ≡ 0
unfolding update_where
update_where-none p change [] free = refl
update_where-none p change (row ∷ rows) free = rw (free.0) (update_where-none p change rows free.1)

-- Rows that do not pass once they are changed: afterwards none does.
update_where-changes :
    (p : AdminUser → Bool) (change : AdminUser → AdminUser) (rows : List AdminUser)
    → ((row : AdminUser) → p (change row) ≡ false)
    → NonePass p (update_where p change rows).0
unfolding update_where
update_where-changes p change [] gone = tt
update_where-changes p change (row ∷ rows) gone = elim (Bool-cases (p row)) [
  | inl e ↦ rw (e) (gone row, update_where-changes p change rows gone)
  | inr e ↦ rw (e) (e, update_where-changes p change rows gone)
]

update_one-once :
    (fails later : Option Text) (p : AdminUser → Bool) (change : AdminUser → AdminUser)
    (rows : List AdminUser)
    → ((row : AdminUser) → p (change row) ≡ false)
    → (update_one fails p change rows).0 ≡ true
    → (update_one later p change (update_one fails p change rows).1).0 ≡ false
unfolding update_one
update_one-once (some e) later p change rows gone done = absurd (ground (arith, done))
update_one-once none (some e) p change rows gone done = refl
update_one-once none none p change rows gone done =
    ap (λ n. nat_beq n 1)
      (update_where-none p change (update_where p change rows).0
        (update_where-changes p change rows gone))

-- Spending one of `stored` leaves one less.
length-spent :
    (b : Bool) (x : Text) (rest : List Text) (o : Option (List Text))
    → ((left : List Text) → o ≡ some left → length rest ≡ suc (length left))
    → (left : List Text) → (if b then some rest else put_back x o) ≡ some left
    → suc (length rest) ≡ suc (length left)
unfolding put_back
length-spent true x rest o shorter left is = ap (λ (l : List Text). suc (length l)) (some_inj is)
length-spent false x rest none shorter left is = absurd (ground (arith, is))
length-spent false x rest (some l) shorter left is =
    ap suc (shorter l refl) ∙ ap (λ (m : List Text). suc (length m)) (some_inj is)

length-spend :
    (matches : Text → Bool) (stored left : List Text)
    → spend matches stored ≡ some left
    → length stored ≡ suc (length left)
unfolding spend
length-spend matches [] left is = absurd (ground (arith, is))
length-spend matches (x ∷ stored) left is =
    length-spent (matches x) x stored (spend matches stored) (length-spend matches stored) left is

-- Codes that lack one print differently.
changed_codes :
    (lib : Crypto) (code raw : Text) (o : Option (List Text)) (left : List Text)
    → ((xs : List Text) → lib.unmarshal (lib.marshal xs) ≡ some xs)
    → lib.unmarshal raw ≡ o
    → spend_code lib code o ≡ some left
    → text_beq (lib.marshal left) raw ≡ false
unfolding spend_code
changed_codes lib code raw none left trip read is = absurd (ground (arith, is))
changed_codes lib code raw (some stored) left trip read is =
    elim (Bool-cases (text_beq (lib.marshal left) raw)) [
      | inr e ↦ e
      | inl e ↦
          let same = some_inj (
            sym (trip left)
            ∙ ap lib.unmarshal ((text_beq_iff (lib.marshal left) raw).0 e)
            ∙ read) in
          absurd (
            omega (
              arith,
              ap (λ (l : List Text). length l) same,
              length-spend (λ hash. lib.compare_hash hash code) stored left is,
            ))
    ]

store_codes-once :
    (fails later : Option Text) (lib : Crypto) (admin : AdminUser) (o : Option (List Text))
    (admins : List AdminUser)
    → ((left : List Text)
        → o ≡ some left
        → text_beq (lib.marshal left) admin.recovery_codes ≡ false)
    → (store_codes fails lib admin o admins).0 ≡ true
    → (store_codes later lib admin o (store_codes fails lib admin o admins).1).0 ≡ false
unfolding store_codes
store_codes-once fails later lib admin none admins changes done = refl
store_codes-once fails later lib admin (some left) admins changes done =
    update_one-once fails later _ _ admins
      (λ row.
        ends_false (nat_beq row.id admin.id) (nat_beq row.session_version admin.session_version) _
          (changes left refl))
      done
  where
    ends_false : (a b c : Bool) → c ≡ false → (a && (b && c)) ≡ false
    ends_false a b c e = ground (arith, e)

-- The guard on a row without codes.
without_codes :
    (b : Bool) (admins : List AdminUser) (one : Bool × List AdminUser)
    (two : List AdminUser → Bool × List AdminUser)
    → (one.0 ≡ true → (two one.1).0 ≡ false)
    → (if b then (false, admins) else one).0 ≡ true
    → (let after = (if b then (false, admins) else one).1 in
        if b then (false, after) else two after).0
      ≡ false
without_codes true admins one two once done = refl
without_codes false admins one two once done = once done

-- A recovery code that was accepted is not accepted from a sign-in that read the administrator's
-- row before the first one wrote it, where the JSON of a list reads back as the list.
pub try_recovery_code-once :
    (fails later : Option Text) (lib : Crypto) (admin : AdminUser) (code : Text)
    (admins : List AdminUser)
    → ((xs : List Text) → lib.unmarshal (lib.marshal xs) ≡ some xs)
    → (try_recovery_code fails lib admin code admins).0 ≡ true
    → (try_recovery_code later lib admin code (try_recovery_code fails lib admin code admins).1).0
      ≡ false
unfolding try_recovery_code
try_recovery_code-once fails later lib admin code admins trip done =
    without_codes (text_beq admin.recovery_codes []) admins
      (store_codes fails lib admin stored admins) (store_codes later lib admin stored)
      (store_codes-once fails later lib admin stored admins (λ left.
        changed_codes lib code admin.recovery_codes (lib.unmarshal admin.recovery_codes) left trip
          refl))
      done
  where
    stored : Option (List Text)
    stored = spend_code lib code (lib.unmarshal admin.recovery_codes)
