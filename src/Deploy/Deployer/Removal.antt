-- ===== src/Deploy/Deployer/Removal.antt =====
-- Deleting what the inbound deployer created.
use zenith_panel.Common.{
  ℕ, ◌<◌, ◌≡◌, ◌≢◌, refl, ap, arith, List, [], ◌∷◌, none, not, nat_eq, nat_beq_iff, keep_if, any,
  All, ◌==◌, ◌&&◌, inl, inr, Bool-cases, Option-cases, Text, ok, err, eq_self, subst, ◌∙◌,
}
use zenith_panel.Deploy.Plan.{InboundSpec, Settings}
use zenith_panel.Deploy.Pipeline.Undo.{Undoes}
use zenith_panel.Deploy.Deployer.{
  Inbound, Tables, Tuner, Database, Panel, create_inbound, delete_inbound, panel_host,
}

-- A database that never gives out an id again, and whose deletions commit.
pub record Counts (db : Database) : Type 0 where
  pub positive : (t : Tables) → 0 < db.new_id t
  pub unused : (t : Tables) → All (λ (row : Inbound). row.id < db.new_id t) t.inbounds
  pub unowned : (t : Tables) → All (λ (u : ℕ × Settings). u.0 < db.new_id t) t.users
  pub deletes : (id : ℕ) → db.refuses_delete id ≡ none

-- What has another key stays.
keep_if-below {ℓ} :
    {A : Type ℓ} (key : A → ℕ) (id : ℕ) (xs : List A)
    → All (λ x. key x < id) xs
    → keep_if (λ x. not (key x == id)) xs ≡ xs
unfolding keep_if
keep_if-below key id [] below = refl
keep_if-below key id (x ∷ xs) below =
    ground (arith, below.0, nat_beq_iff (key x) id, keep_if-below key id xs below.1)

-- The tables with the new row lose it again.
deleted_new :
    (db : Database) (row : Inbound) (settings : Settings) (id : ℕ) (t : Tables)
    → db.refuses_delete id ≡ none
    → row.id ≡ id
    → All (λ (r : Inbound). r.id < id) t.inbounds
    → All (λ (u : ℕ × Settings). u.0 < id) t.users
    → (delete_inbound db id
        (record { inbounds = row ∷ t.inbounds; users = (id, settings) ∷ t.users })).1
      ≡ t
unfolding delete_inbound keep_if
deleted_new db row settings id t commits same rows users =
    rw (commits, delete_inbound) (cc (left_rows, left_users))
  where
    left_rows : keep_if (λ r. not (r.id == id)) (row ∷ t.inbounds) ≡ t.inbounds
    left_rows = ground (
      arith,
      nat_beq_iff row.id id,
      same,
      keep_if-below (λ (r : Inbound). r.id) id t.inbounds rows,
    )

    left_users : keep_if (λ u. not (u.0 == id)) ((id, settings) ∷ t.users) ≡ t.users
    left_users =
        ground (arith, eq_self id, keep_if-below (λ (u : ℕ × Settings). u.0) id t.users users)

pub delete-create :
    (db : Database) (spec : InboundSpec) (id : ℕ) (t : Tables)
    → Counts db
    → (create_inbound db spec t).0 ≡ ok id
    → (id ≢ 0) × ((delete_inbound db id (create_inbound db spec t).1).1 ≡ t)
unfolding create_inbound
delete-create db spec id t counts is = elim (Option-cases (db.refuses_create spec)) [
  | inr (x, f) ↦ absurd (ground (arith, is, f))
  | inl f ↦ elim (Bool-cases (any (λ row. row.enable && row.port == spec.port) t.inbounds)) [
    | inl b ↦ absurd (ground (arith, is, f, b))
    | inr b ↦
        let given : db.new_id t ≡ id = ground (arith, is, f, b) in
        (
          subst (λ n. n ≢ 0) given (λ z. omega (arith, counts.positive t, z)),
          subst (λ n. (delete_inbound db n (create_inbound db spec t).1).1 ≡ t) given
              (rw (f, b, create_inbound)
                (deleted_new db _ spec.settings (db.new_id t) t (counts.deletes (db.new_id t)) refl
                  (counts.unused t) (counts.unowned t))),
        )
  ]
]

pub create-err :
    (db : Database) (spec : InboundSpec) (e : Text) (t : Tables)
    → (create_inbound db spec t).0 ≡ err e
    → (create_inbound db spec t).1 ≡ t
unfolding create_inbound
create-err db spec e t is = elim (Option-cases (db.refuses_create spec)) [
  | inr (x, f) ↦ rw (f, create_inbound) refl
  | inl f ↦ elim (Bool-cases (any (λ row. row.enable && row.port == spec.port) t.inbounds)) [
    | inl b ↦ rw (f, b, create_inbound) refl
    | inr b ↦ absurd (ground (arith, is, f, b))
  ]
]

-- The panel's tables are a part of the host that its deployers restore, whatever the tuner does.
abbrev pub panel-Undoes : (tuner : Tuner) (db : Database) → Counts db → Undoes (panel_host tuner db)
panel-Undoes tuner db counts = record {
  View = Tables;
  view = λ (p : Panel tuner). p.tables;
  tune_view = λ ts p. refl;
  untune_view = λ snap p. refl;
  create_undo = λ spec id p is.
      let (other, back) = delete-create db spec id p.tables counts is in
      (other, λ x same. ap (λ t. (delete_inbound db id t).1) same ∙ back);
  create_err = λ spec e p is. create-err db spec e p.tables is;
}
