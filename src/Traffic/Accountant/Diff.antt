-- ===== src/Traffic/Accountant/Diff.antt =====
-- What `xray_deltas` charges for each identity.
use zenith_panel.Common.{
  ◌+◌, ◌<◌, ◌≡◌, refl, [], ◌∷◌, Option, none, some, Text, text_eq, text_beq_iff, arith,
  if◌then◌else◌, ◌==◌, All, Bool-cases, inl, inr,
}
use zenith_panel.Common.Assoc.{lookup, assign, lookup-assign}
use zenith_panel.Traffic.Delta.{Delta, Counters, counter_at, Distinct, assign-Distinct}
use zenith_panel.Traffic.Accountant.{xray_deltas, delta_since, moved}

abbrev if_moved : Delta → Option Delta
if_moved d = if moved d then some d else none

abbrev pub expected : Text → Counters → Option Delta → Option Delta
expected ident last none = none
expected ident last (some t) = if_moved (delta_since t (counter_at ident last))

pub lookup-xray_deltas :
    (ident : Text) (totals last : Counters)
    → Distinct totals
    → lookup ident (xray_deltas totals last) ≡ expected ident last (lookup ident totals)
unfolding xray_deltas lookup
lookup-xray_deltas ident [] last h = refl
lookup-xray_deltas ident ((j, t) ∷ totals) last h =
    let d = delta_since t (counter_at j last) in
    ground (
      arith,
      lookup-xray_deltas ident totals last h.1,
      text_beq_iff j ident,
      lookup-assign j ident d (xray_deltas totals last),
    )

-- What Xray did since the baseline: it ran on and counted so many bytes, or it started anew and
-- counted so many since then.
pub data Life : Type 0 where
  ran_on : Delta → Life
  restarted : Delta → Life

abbrev pub traffic : Life → Delta
traffic (ran_on d) = d
traffic (restarted d) = d

abbrev pub reading : Delta → Life → Delta
reading last (ran_on d) = record { up = last.up + d.up; down = last.down + d.down }
reading last (restarted d) = d

-- A restart shows where the counters are below the baseline.
abbrev pub IsVisible : Delta → Life → Type 0
IsVisible last (ran_on d) = Unit
IsVisible last (restarted d) = (d.up < last.up) × (d.down < last.down)

pub xray_deltas-Distinct : (totals last : Counters) → Distinct (xray_deltas totals last)
unfolding xray_deltas
xray_deltas-Distinct [] last = tt
xray_deltas-Distinct ((j, t) ∷ totals) last =
    let d = delta_since t (counter_at j last) in
    ground (
      arith,
      xray_deltas-Distinct totals last,
      assign-Distinct j d (xray_deltas totals last) (xray_deltas-Distinct totals last),
    )

assign-All {ℓ} :
    (P : Text → Type ℓ) (k : Text) (d : Delta) (m : Counters)
    → P k
    → All (λ x. P x.0) m
    → All (λ x. P x.0) (assign k d m)
unfolding assign
assign-All P k d [] p h = (p, tt)
assign-All P k d ((j, w) ∷ m) p h = elim (Bool-cases (j == k)) [
  | inl e ↦ rw e h
  | inr e ↦ rw e (h.0, assign-All P k d m p h.1)
]

-- Identities that the poll does not list are not charged.
pub xray_deltas-All {ℓ} :
    (P : Text → Type ℓ) (totals last : Counters)
    → All (λ x. P x.0) totals
    → All (λ x. P x.0) (xray_deltas totals last)
unfolding xray_deltas
xray_deltas-All P [] last h = tt
xray_deltas-All P ((j, t) ∷ totals) last h =
    let rest = xray_deltas-All P totals last h.1 in
    elim (Bool-cases (moved (delta_since t (counter_at j last)))) [
      | inl e ↦ rw e (assign-All P j _ (xray_deltas totals last) h.0 rest)
      | inr e ↦ rw e rest
    ]
