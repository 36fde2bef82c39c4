-- ===== src/Access/Login/Tests.antt =====
-- The theorems on signing in at work on five wrong passwords and on a recovery code.
use zenith_panel.Common.{
  ℕ, zero, suc, ap, ◌∙◌, some_inj, ◌++◌, ◌+◌, ◌*◌, ◌<◌, ◌≡◌, refl, arith, List, [], ◌∷◌, Option,
  none, some, All, Bool, true, false, Text, codes, text_beq,
}
use zenith_panel.Access.Reply.{refuse}
use zenith_panel.Access.Jwt.{second}
use zenith_panel.Access.Example.{library, key, admin}
use zenith_panel.Access.Auth.{AdminUser}
use zenith_panel.Access.Login.{Crypto, Attempt, LoginState, login, try_recovery_code}
use zenith_panel.Access.Login.Lockout.{Refusals, first, again, other, five_failures}
use zenith_panel.Access.Login.Spent.{Single, IsRefused, recovery_code-spent}

-- Every text is its own hash. A list is written with its bytes raised by one and a zero behind each
-- element.
abbrev raise : Text → Text
raise [] = []
raise (c ∷ s) = suc c ∷ raise s

abbrev write_codes : List Text → Text
write_codes [] = []
write_codes (x ∷ xs) = raise x ++ 0 ∷ write_codes xs

abbrev push : ℕ → List Text → List Text
push c [] = (c ∷ []) ∷ []
push c (x ∷ xs) = (c ∷ x) ∷ xs

abbrev read_codes : Text → List Text
read_codes [] = []
read_codes (zero ∷ s) = [] ∷ read_codes s
read_codes (suc c ∷ s) = push c (read_codes s)

read-element : (x rest : Text) → read_codes (raise x ++ 0 ∷ rest) ≡ x ∷ read_codes rest
read-element [] rest = refl
read-element (c ∷ x) rest = ap (push c) (read-element x rest)

read-write : (xs : List Text) → some (read_codes (write_codes xs)) ≡ some xs
read-write [] = refl
read-write (x ∷ xs) =
    ap some (read-element x (write_codes xs) ∙ ap (λ l. x ∷ l) (some_inj (read-write xs)))

abbrev crypto : Crypto
crypto = record {
  compare_hash = text_beq;
  validate_totp = λ code secret. false;
  unmarshal = λ s. some (read_codes s);
  marshal = write_codes;
}

abbrev holder : AdminUser
holder = record admin { recovery_codes = write_codes (codes "a" ∷ codes "b" ∷ []) }

abbrev wrong : ℕ → Text → Attempt
wrong at ip = record {
  ip = ip;
  now = at * second;
  allowed = true;
  form = some (record { username = codes "root"; password = codes "guess"; totp_code = [] });
  finds = true;
  fails = none;
}

abbrev right : ℕ → Attempt
right at = record (wrong at (codes "192.0.2.1")) {
  form = some (record { username = codes "root"; password = codes "hash"; totp_code = codes "a" });
}

abbrev here : Text
here = codes "192.0.2.1"

abbrev start : LoginState
start = record { failures = []; admins = holder ∷ [] }

abbrev after : Attempt → LoginState → LoginState
after a s = (login crypto library key a s).1

abbrev end : LoginState
end = after (wrong 14 here) (
    after (wrong 13 here) (
      after (wrong 12 (codes "198.51.100.7"))
        (after (wrong 12 here) (after (wrong 11 here) (after (wrong 10 here) start)))))

-- Five wrong passwords, one of another address between them.
five : Refusals crypto library key here 5 (14 * second) start end
unfolding login zenith_panel.Common.Assoc.lookup text_beq zenith_panel.Common.find
    zenith_panel.Common.Assoc.assign
five =
    again (wrong 14 here)
      (again (wrong 13 here)
        (other (wrong 12 (codes "198.51.100.7"))
          (again (wrong 12 here) (again (wrong 11 here) (first (wrong 10 here) refl refl) refl refl)
            refl refl)
          refl)
        refl refl)
      refl refl

five_failures_example :
    login crypto library key (right 800) end ≡ (refuse 429 (codes "Too many failed attempts."), end)
unfolding zenith_panel.Common.Assoc.lookup
five_failures_example =
    five_failures crypto library key here (14 * second) start end refl five (right 800) refl soon
  where
    soon : 800 * second < 14 * second + 900 * second
    soon = omega arith

spent : (try_recovery_code none crypto holder (codes "b") (holder ∷ [])).0 ≡ true
unfolding try_recovery_code text_beq
spent = refl

one_of_them : Single (λ hash. text_beq hash (codes "b")) (codes "a" ∷ codes "b" ∷ [])
unfolding text_beq
one_of_them = ((tt, λ e. tt), λ e. absurd (ground (arith, e)))

recovery_code-spent_example :
    ((try_recovery_code none crypto holder
        (codes "b")
        (try_recovery_code none crypto holder (codes "b") (holder ∷ [])).1).0
      ≡ false)
    × All
        (IsRefused crypto holder (codes "b") none [])
        (try_recovery_code none crypto holder (codes "b") (holder ∷ [])).1
recovery_code-spent_example =
    recovery_code-spent none none crypto holder (codes "b") (holder ∷ []) []
      (codes "a" ∷ codes "b" ∷ []) read-write (read-write (codes "a" ∷ codes "b" ∷ [])) one_of_them
      ((λ e. refl), tt) spent
