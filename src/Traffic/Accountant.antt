-- ===== src/Traffic/Accountant.antt =====
-- The traffic accountant (traffic/accountant.go): counters of the engines become the durable
-- `up_load` and `down_load` of the clients. Go ranges over maps in any order; here it is the
-- order of the list. A statement of the database fails as `fails` says, and a transaction that
-- fails leaves the database as it was. Log lines are left out.
pub mod Diff
pub mod Apply
pub mod Settled
use zenith_panel.Common.{
  ℕ, ◌+◌, ◌-◌, ◌≡◌, List, [], ◌∷◌, Option, none, some, Bool, true, false, not, ◌&&◌, ◌||◌, Text,
  codes, text_eq, nat_eq, ltb, leb, if◌then◌else◌, ◌==◌, map, Result, ok, err, ◌>>=◌, ◌>>◌, check,
  length, is_some,
}
use zenith_panel.Common.Assoc.{lookup, assign}
use zenith_panel.Model.{Client}
use zenith_panel.Proxy.Identity.{NameRow, stats_identities, legacy_stats_identities}
use zenith_panel.Traffic.Delta.{Delta, Counters, counter_at, or_zero}

-- A counter below its baseline was reset, so all of it is new traffic.
abbrev pub growth : ℕ → ℕ → ℕ
growth total last = if leb last total then total - last else total

abbrev pub delta_since : Delta → Delta → Delta
delta_since t l = record { up = growth t.up l.up; down = growth t.down l.down }

abbrev pub moved : Delta → Bool
moved d = ltb 0 d.up || ltb 0 d.down

pub xray_deltas : Counters → Counters → Counters
xray_deltas [] last = []
xray_deltas ((ident, t) ∷ totals) last =
    let rest = xray_deltas totals last in
    let d = delta_since t (counter_at ident last) in if moved d then assign ident d rest else rest

pub data Statement : Type 0 where
  find_clients : Statement
  update_client : ℕ → Statement
  save_setting : Statement
  load_setting : Statement

abbrev pub Faults : Type 0
Faults = Statement → Option Text

-- The columns `id` and `email` of the client rows.
unfoldable pub name_rows : List Client → List NameRow
name_rows = map λ c. record { id = c.id; email = c.email }

unfoldable pub by_ident_from : List (Text × ℕ) → List (ℕ × Text) → List (Text × ℕ)
by_ident_from out [] = out
by_ident_from out ((id, ident) ∷ rest) = by_ident_from (assign ident id out) rest

-- A former name counts only where no canonical name, and no former name before it, is the same.
unfoldable pub by_legacy_from : List (Text × ℕ) → List (ℕ × Text) → List (Text × ℕ)
by_legacy_from out [] = out
by_legacy_from out ((id, ident) ∷ rest) =
    by_legacy_from (if is_some (lookup ident out) then out else assign ident id out) rest

unfoldable pub by_ident : List NameRow → List (Text × ℕ)
unfolding by_ident_from by_legacy_from
by_ident rows =
    by_legacy_from (by_ident_from [] (stats_identities rows)) (legacy_stats_identities rows)

-- `UPDATE clients SET up_load = up_load + ?, down_load = down_load + ? WHERE id = ?`
pub add_traffic : ℕ → Delta → List Client → List Client
add_traffic id d [] = []
add_traffic id d (c ∷ clients) =
    (if c.id == id
      then record c { up_load = c.up_load + d.up; down_load = c.down_load + d.down }
      else c)
    ∷ add_traffic id d clients

abbrev pub Committed : Type 0
Committed = List (Text × Bool)

-- What `committed[ident]` reads.
abbrev pub is_settled : Committed → Text → Bool
is_settled done ident = elim (lookup ident done) [ some b ↦ b | none ↦ false ]

-- One round of the loop over the deltas.
apply_row :
    Faults → Option ℕ → Text → Delta → List Client × Committed → Result (List Client × Committed)
apply_row fails none ident d (clients, done) = ok (clients, assign ident true done)
apply_row fails (some id) ident d (clients, done) =
    if moved d
    then elim (fails (update_client id)) [
      | none ↦ ok (add_traffic id d clients, assign ident true done)
      | some e ↦ err e
    ]
    else ok (clients, assign ident true done)

pub apply_rows :
    Faults → List (Text × ℕ) → Counters → List Client × Committed → Result (List Client × Committed)
unfolding apply_row
apply_rows fails by [] st = ok st
apply_rows fails by ((ident, d) ∷ deltas) st = do
  st' ← apply_row fails (lookup ident by) ident d st
  apply_rows fails by deltas st'

-- The database: the client table and the value of the setting `traffic_xray_baseline_v1`.
pub record Db (Raw : Type 0) : Type 0 where
  pub clients : List Client
  pub baseline : Option Raw

-- `none` for `a.db == nil`.
pub apply_deltas_with_persist :
    {Raw : Type 0} → Faults → Counters → Option Raw → Option (Db Raw) → Result (Db Raw × Committed)
apply_deltas_with_persist fails deltas persist none = err (codes "database unavailable")
apply_deltas_with_persist fails deltas none (some db) = do
  check (fails find_clients)
  st ← apply_rows fails (by_ident (name_rows db.clients)) deltas (db.clients, [])
  ok (record db { clients = st.0 }, st.1)
apply_deltas_with_persist fails deltas (some raw) (some db) = do
  check (fails find_clients)
  st ← apply_rows fails (by_ident (name_rows db.clients)) deltas (db.clients, [])
  check (fails save_setting)
  ok (record db { clients = st.0; baseline = some raw }, st.1)
