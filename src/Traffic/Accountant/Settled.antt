-- ===== src/Traffic/Accountant/Settled.antt =====
-- What `applyDeltas` reports as settled, and what it charged.
use zenith_panel.Common.{
  ℕ, ◌≡◌, List, [], ◌∷◌, Option, none, some, true, Text, text_eq, text_beq_iff, arith, ◌⊎◌, inl,
  inr, Bool-cases, ok, bind_eq_ok, check, is_some, ◌==◌,
}
use zenith_panel.Common.Assoc.{lookup, lookup-assign}
use zenith_panel.Model.{Client}
use zenith_panel.Traffic.Delta.{Delta, Counters, counter_at, Distinct}
use zenith_panel.Traffic.Accountant.{
  Faults, Db, Committed, is_settled, find_clients, apply_row, apply_rows, by_ident, name_rows,
  apply_deltas_with_persist,
}
use zenith_panel.Traffic.Accountant.Apply.{find_client, credited, Sole, apply_rows-Grew}

apply_row-settled :
    (fails : Faults) (who : Option ℕ) (j ident : Text) (d : Delta)
    (st st' : List Client × Committed)
    → apply_row fails who j d st ≡ ok st'
    → (is_settled st.1 ident ≡ true) ⊎ (j ≡ ident)
    → is_settled st'.1 ident ≡ true
unfolding apply_row
apply_row-settled fails none j ident d st st' h given =
    ground (arith, h, given, text_beq_iff j ident, lookup-assign j ident true st.1)
apply_row-settled fails (some id) j ident d st st' h given =
    ground (arith, h, given, text_beq_iff j ident, lookup-assign j ident true st.1)

-- A transaction that commits settles every identity that it was given.
apply_rows-settled :
    (fails : Faults) (by : List (Text × ℕ)) (deltas : Counters) (ident : Text)
    (st st' : List Client × Committed)
    → apply_rows fails by deltas st ≡ ok st'
    → (is_settled st.1 ident ≡ true) ⊎ (is_some (lookup ident deltas) ≡ true)
    → is_settled st'.1 ident ≡ true
unfolding apply_rows lookup
apply_rows-settled fails by [] ident st st' h given = ground (arith, h, given)
apply_rows-settled fails by ((j, d) ∷ deltas) ident st st' h given =
    let (mid, first, later) =
      bind_eq_ok (apply_row fails (lookup j by) j d st) (apply_rows fails by deltas) h in
    apply_rows-settled fails by deltas ident mid st' later (elim (Bool-cases (j == ident)) [
      | inl same ↦ inl (
          apply_row-settled fails (lookup j by) j ident d st mid first
            (inr ((text_beq_iff j ident).0 same)))
      | inr differs ↦ elim given [
        | inl done ↦ inl (apply_row-settled fails (lookup j by) j ident d st mid first (inl done))
        | inr waits ↦ inr (ground (arith, waits, differs))
      ]
    ])

-- A transaction without a snapshot that commits: what it does to the client, and that it settles
-- every identity it was given.
pub apply_plain-Grew :
    {Raw : Type 0} (fails : Faults) (deltas : Counters) (db : Db Raw) (r : Db Raw × Committed)
    (id : ℕ) (ident : Text) (c : Client)
    → apply_deltas_with_persist fails deltas none (some db) ≡ ok r
    → Distinct deltas
    → Sole (by_ident (name_rows db.clients)) id ident deltas
    → lookup ident (by_ident (name_rows db.clients)) ≡ some id
    → find_client id db.clients ≡ some c
    → (find_client id r.0.clients ≡ some (credited c (counter_at ident deltas)))
      × (is_some (lookup ident deltas) ≡ true → is_settled r.1 ident ≡ true)
unfolding apply_deltas_with_persist
apply_plain-Grew fails deltas db r id ident c h dist sole own found =
    let (u, asked, h') = bind_eq_ok (check (fails find_clients)) _ h in
    let (st, applied, h'') =
      bind_eq_ok (apply_rows fails (by_ident (name_rows db.clients)) deltas (db.clients, [])) _
        h' in
    let grew =
      apply_rows-Grew fails (by_ident (name_rows db.clients)) deltas id ident c (db.clients, []) st
        applied dist sole own found in
    let all : is_some (lookup ident deltas) ≡ true → is_settled st.1 ident ≡ true = λ is.
      apply_rows-settled fails (by_ident (name_rows db.clients)) deltas ident (db.clients, []) st
        applied (inr is) in
    (ground (arith, h'', grew), λ is. ground (arith, h'', all is))
