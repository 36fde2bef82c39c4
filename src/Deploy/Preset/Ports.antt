-- ===== src/Deploy/Preset/Ports.antt =====
-- `pickPort`, `pickPortExcluding` and `isPortUsable` of deploy/preset.go.
use zenith_panel.Common.{
  ℕ, ◌≡◌, refl, List, [], ◌∷◌, ◌++◌, Option, none, some, Bool, true, false, not, Text, codes,
  nat_eq, if◌then◌else◌, ◌==◌, contains, arith, Bool-cases, inl, inr, ◌⊎◌, All,
}
use zenith_panel.Common.Assoc.{lookup}
use zenith_panel.Common.Decimal.{format_uint}
use zenith_panel.Deploy.Plan.{ProbeResult}

abbrev pub port_fallbacks : List ℕ
port_fallbacks = 443 ∷ 8443 ∷ 2053 ∷ 2083 ∷ 2087 ∷ 2096 ∷ 10443 ∷ 20443 ∷ []

-- `free, ok := Ports[port]; ok && !free`.
is_taken : Option Bool → Bool
is_taken none = false
is_taken (some free) = not free

unfoldable pub is_port_usable : ℕ → ProbeResult → List ℕ → Bool
unfolding is_taken
is_port_usable port probe exclude =
    if contains exclude port
    then false
    else if contains probe.inbound_ports port
    then false
    else not (is_taken (lookup port probe.port_avail))

fallback_note : ℕ → Text → ℕ → Text
fallback_note preferred proto fb =
    codes "Port "
    ++ format_uint preferred
    ++ codes " is in use ("
    ++ proto
    ++ codes "); falling back to "
    ++ format_uint fb
    ++ codes "."

no_port_note : ℕ → Text
no_port_note preferred =
    codes "No free fallback port found; will attempt "
    ++ format_uint preferred
    ++ codes " and may fail."

-- The loop over the fallbacks.
walk : ℕ → ProbeResult → Text → List ℕ → List ℕ → ℕ × Text
unfolding fallback_note no_port_note
walk preferred probe proto exclude [] = (preferred, no_port_note preferred)
walk preferred probe proto exclude (fb ∷ fbs) =
    let rest = walk preferred probe proto exclude fbs in
    if fb == preferred
    then rest
    else if is_port_usable fb probe exclude
    then (fb, fallback_note preferred proto fb)
    else rest

abbrev pub preferred_or_443 : ℕ → ℕ
preferred_or_443 preferred = if preferred == 0 then 443 else preferred

unfoldable pub pick_port_excluding : ℕ → ProbeResult → Text → List ℕ → ℕ × Text
unfolding walk
pick_port_excluding preferred probe proto exclude =
    let port = preferred_or_443 preferred in
    if is_port_usable port probe exclude
    then (port, [])
    else walk port probe proto exclude port_fallbacks

-- The override is an argument that the code does not use.
unfoldable pub pick_port : ℕ → ℕ → ProbeResult → Text → ℕ × Text
unfolding pick_port_excluding
pick_port preferred override probe proto = pick_port_excluding preferred probe proto []

-- A port is usable, or no port at hand is and the preferred one is returned.
abbrev pub IsPicked : ProbeResult → List ℕ → ℕ → List ℕ → ℕ → Type 0
IsPicked probe exclude preferred fbs port =
    (is_port_usable port probe exclude ≡ true)
    ⊎ ((port ≡ preferred) × All (λ fb. is_port_usable fb probe exclude ≡ false) fbs)

walk-IsPicked :
    (preferred : ℕ) (probe : ProbeResult) (proto : Text) (exclude fbs : List ℕ)
    → is_port_usable preferred probe exclude ≡ false
    → IsPicked probe exclude preferred fbs (walk preferred probe proto exclude fbs).0
unfolding walk
walk-IsPicked preferred probe proto exclude [] taken = inr (refl, tt)
walk-IsPicked preferred probe proto exclude (fb ∷ fbs) taken =
    ground (arith, walk-IsPicked preferred probe proto exclude fbs taken, taken)

-- The port is usable, or neither the preferred port nor any fallback is and the preferred port is
-- returned.
pub pick_port_excluding-IsPicked :
    (preferred : ℕ) (probe : ProbeResult) (proto : Text) (exclude : List ℕ)
    → IsPicked probe exclude
        (preferred_or_443 preferred)
        (preferred_or_443 preferred ∷ port_fallbacks)
        (pick_port_excluding preferred probe proto exclude).0
unfolding pick_port_excluding
pick_port_excluding-IsPicked preferred probe proto exclude =
    elim (Bool-cases (is_port_usable (preferred_or_443 preferred) probe exclude)) [
      | inl u ↦ inl (rw (u, pick_port_excluding) u)
      | inr u ↦
          rw (u, pick_port_excluding)
            (elim (walk-IsPicked (preferred_or_443 preferred) probe proto exclude port_fallbacks
              u) [ inl v ↦ inl v | inr v ↦ inr (v.0, (refl, v.1)) ])
    ]
