-- ===== src/Traffic/Accountant/Apply.antt =====
-- What a transaction of the accountant does to one client.
use zenith_panel.Common.{
  ℕ, ◌+◌, ◌≡◌, refl, ◌∙◌, ap, List, [], ◌∷◌, Option, none, some, true, Text, text_eq, text_beq_iff,
  arith, if◌then◌else◌, ◌==◌, nat_eq, All, Bool-cases, inl, inr, ok, bind_eq_ok, check,
}
use zenith_panel.Common.Assoc.{lookup, assign}
use zenith_panel.Model.{Client}
use zenith_panel.Traffic.Delta.{Delta, Counters, counter_at, Distinct}
use zenith_panel.Traffic.Accountant.{
  moved, Faults, Statement, name_rows, add_traffic, Committed, apply_row, apply_rows, update_client,
  apply_deltas_with_persist, Db, by_ident, find_clients, save_setting,
}

unfoldable pub find_client : ℕ → List Client → Option Client
find_client id [] = none
find_client id (c ∷ clients) = if c.id == id then some c else find_client id clients

abbrev pub credited : Client → Delta → Client
credited c d = record c { up_load = c.up_load + d.up; down_load = c.down_load + d.down }

find-add_traffic :
    (id j : ℕ) (d : Delta) (clients : List Client) (c : Client)
    → find_client id clients ≡ some c
    → find_client id (add_traffic j d clients) ≡ some (if j == id then credited c d else c)
unfolding find_client add_traffic
find-add_traffic id j d [] c h = absurd (cc)
find-add_traffic id j d (x ∷ clients) c h = ground (arith, find-add_traffic id j d clients c)

name_rows-add_traffic :
    (j : ℕ) (d : Delta) (clients : List Client)
    → name_rows (add_traffic j d clients) ≡ name_rows clients
unfolding name_rows add_traffic
name_rows-add_traffic j d [] = refl
name_rows-add_traffic j d (x ∷ clients) = ground (arith, name_rows-add_traffic j d clients)

-- Only `ident` stands for the client `id` among these identities.
abbrev pub Sole : List (Text × ℕ) → ℕ → Text → Counters → Type 0
Sole by id ident = All λ x. lookup x.0 by ≡ some id → x.0 ≡ ident

-- The client's row grew by `d`, and the rows' names are the same.
abbrev Grew : ℕ → Client → Delta → List Client → List Client → Type 0
Grew id c d before after =
    (find_client id after ≡ some (credited c d)) × (name_rows after ≡ name_rows before)

abbrev zero_delta : Delta
zero_delta = record { up = 0; down = 0 }

abbrev share : ℕ → Option ℕ → Delta → Delta
share id none d = zero_delta
share id (some j) d = if j == id then d else zero_delta

apply_row-Grew :
    (fails : Faults) (who : Option ℕ) (ident : Text) (d : Delta) (id : ℕ) (c : Client)
    (cs cs' : List Client) (k k' : Committed)
    → apply_row fails who ident d (cs, k) ≡ ok (cs', k')
    → find_client id cs ≡ some c
    → Grew id c (share id who d) cs cs'
unfolding apply_row
apply_row-Grew fails none ident d id c cs cs' k k' h e = (ground arith, ground arith)
apply_row-Grew fails (some j) ident d id c cs cs' k k' h e =
    ground (arith, find-add_traffic id j d cs c e, name_rows-add_traffic j d cs)

credited-share :
    (by : List (Text × ℕ)) (deltas : Counters) (id : ℕ) (j ident : Text) (d : Delta) (c : Client)
    → lookup j deltas ≡ none
    → (lookup j by ≡ some id → j ≡ ident)
    → lookup ident by ≡ some id
    → credited (credited c (share id (lookup j by) d)) (counter_at ident deltas)
      ≡ credited c (counter_at ident ((j, d) ∷ deltas))
unfolding lookup
credited-share by deltas id j ident d c fresh sole own = elim (Bool-cases (j == ident)) [
  | inl same ↦
      let e : j ≡ ident = (text_beq_iff j ident).0 same in
      ground (arith, e, own, fresh, ap (λ t. lookup t by) e, ap (λ t. lookup t deltas) e)
  | inr differs ↦ ground (arith, differs, own, sole, text_beq_iff j ident)
]

-- A committed run over the deltas adds to the client's row exactly what its identity is charged.
pub apply_rows-Grew :
    (fails : Faults) (by : List (Text × ℕ)) (deltas : Counters) (id : ℕ) (ident : Text) (c : Client)
    (st st' : List Client × Committed)
    → apply_rows fails by deltas st ≡ ok st'
    → Distinct deltas
    → Sole by id ident deltas
    → lookup ident by ≡ some id
    → find_client id st.0 ≡ some c
    → Grew id c (counter_at ident deltas) st.0 st'.0
unfolding apply_rows lookup
apply_rows-Grew fails by [] id ident c st st' h dist sole own e = ground arith
apply_rows-Grew fails by ((j, d) ∷ deltas) id ident c st st' h dist sole own e =
    let (mid, first, later) =
      bind_eq_ok (apply_row fails (lookup j by) j d st) (apply_rows fails by deltas) h in
    let one = apply_row-Grew fails (lookup j by) j d id c st.0 mid.0 st.1 mid.1 first e in
    let two =
      apply_rows-Grew fails by deltas id ident (credited c (share id (lookup j by) d)) mid st' later
        dist.1 sole.1 own one.0 in
    (two.0 ∙ ap some (credited-share by deltas id j ident d c dist.0 sole.0 own), two.1 ∙ one.1)

-- A transaction that persists a snapshot and commits: what it does to the client.
pub apply_persist-Grew :
    {Raw : Type 0} (fails : Faults) (deltas : Counters) (raw : Raw) (db : Db Raw)
    (r : Db Raw × Committed) (id : ℕ) (ident : Text) (c : Client)
    → apply_deltas_with_persist fails deltas (some raw) (some db) ≡ ok r
    → Distinct deltas
    → Sole (by_ident (name_rows db.clients)) id ident deltas
    → lookup ident (by_ident (name_rows db.clients)) ≡ some id
    → find_client id db.clients ≡ some c
    → (find_client id r.0.clients ≡ some (credited c (counter_at ident deltas)))
      × (name_rows r.0.clients ≡ name_rows db.clients)
      × (r.0.baseline ≡ some raw)
unfolding apply_deltas_with_persist
apply_persist-Grew fails deltas raw db r id ident c h dist sole own found =
    let (u, asked, h') = bind_eq_ok (check (fails find_clients)) _ h in
    let (st, applied, h'') =
      bind_eq_ok (apply_rows fails (by_ident (name_rows db.clients)) deltas (db.clients, [])) _
        h' in
    let (v, saved, h''') = bind_eq_ok (check (fails save_setting)) _ h'' in
    let grew =
      apply_rows-Grew fails (by_ident (name_rows db.clients)) deltas id ident c (db.clients, []) st
        applied dist sole own found in
    ground (arith, h''', grew)

-- Without faults a transaction commits.
apply_row_total :
    (fails : Faults) (who : Option ℕ) (j : Text) (d : Delta) (st : List Client × Committed)
    → ((s : Statement) → fails s ≡ none)
    → (mid : List Client × Committed) × (apply_row fails who j d st ≡ ok mid)
unfolding apply_row
apply_row_total fails none j d (cs, k) fine = ((cs, assign j true k), refl)
apply_row_total fails (some id) j d (cs, k) fine = elim (Bool-cases (moved d)) [
  | inl e ↦ ((add_traffic id d cs, assign j true k), rw (e, fine (update_client id)))
  | inr e ↦ ((cs, assign j true k), rw e)
]

apply_rows_total :
    (fails : Faults) (by : List (Text × ℕ)) (deltas : Counters) (st : List Client × Committed)
    → ((s : Statement) → fails s ≡ none)
    → (st' : List Client × Committed) × (apply_rows fails by deltas st ≡ ok st')
unfolding apply_rows
apply_rows_total fails by [] st fine = (st, refl)
apply_rows_total fails by ((j, d) ∷ deltas) (cs, k) fine =
    let (mid, e) = apply_row_total fails (lookup j by) j d (cs, k) fine in
    let (st', rest) = apply_rows_total fails by deltas mid fine in (st', rw (e, apply_rows) rest)

pub apply_persist_total :
    {Raw : Type 0} (fails : Faults) (deltas : Counters) (raw : Raw) (db : Db Raw)
    → ((s : Statement) → fails s ≡ none)
    → (r : Db Raw × Committed) × (apply_deltas_with_persist fails deltas (some raw) (some db)
        ≡ ok r)
      × (r.0.baseline ≡ some raw)
unfolding apply_deltas_with_persist
apply_persist_total fails deltas raw db fine =
    let (st, e) =
      apply_rows_total fails (by_ident (name_rows db.clients)) deltas (db.clients, []) fine in
    (
      (record db { clients = st.0; baseline = some raw }, st.1),
      rw (fine find_clients, e, fine save_setting),
      refl,
    )
