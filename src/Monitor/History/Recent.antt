-- ===== src/Monitor/History/Recent.antt =====
-- The history shows the last 60 readings with their rates.
use zenith_panel.Common.{
  ℕ, zero, suc, ◌+◌, ◌%◌, ◌<◌, ◌≡◌, refl, ◌∙◌, sym, ap, arith, List, [], ◌∷◌, ◌++◌, Option, none,
  some, true, ◌||◌, nat_beq, length, take, drop, Bool-cases, inl, inr,
}
use zenith_panel.Common.Slices.{last, append_nil, append_assoc, last-last}
use zenith_panel.Common.Windows.{view, view-ahead}
use zenith_panel.Monitor.History.{
  NetworkSample, Reading, NetworkHistory, ring_size, zero_samples, empty_history, set_at, sample,
  record_network_sample, get_network_history,
}

pub record IsValid (h : NetworkHistory) : Type 0 where
  pub whole : length h.ring ≡ ring_size
  pub inside : h.ring_head < ring_size

length-set_at :
    (i : ℕ) (s : NetworkSample) (xs : List NetworkSample) → length (set_at i s xs) ≡ length xs
unfolding set_at
length-set_at i s [] = refl
length-set_at zero s (x ∷ xs) = refl
length-set_at (suc i) s (x ∷ xs) = omega (arith, length-set_at i s xs)

set_at-take :
    (i : ℕ) (s : NetworkSample) (xs : List NetworkSample)
    → i < length xs
    → set_at i s xs ≡ (take i xs ++ (s ∷ [])) ++ drop (suc i) xs
unfolding set_at
set_at-take i s [] h = absurd (omega (arith, h))
set_at-take zero s (x ∷ xs) h = refl
set_at-take (suc i) s (x ∷ xs) h = ap (λ z. x ∷ z) (set_at-take i s xs (omega (arith, h)))

take_none : (i : ℕ) (xs : List NetworkSample) → nat_beq i 0 ≡ true → [] ≡ take i xs
take_none zero xs e = refl
take_none (suc i) xs e = absurd (ground (arith, e))

-- The test for an empty ring only saves a copy.
get_network_history-view :
    (h : NetworkHistory) → get_network_history h ≡ view h.ring_full h.ring_head h.ring
unfolding get_network_history
get_network_history-view h = elim (Bool-cases h.ring_full) [
  | inl e ↦ rw (e) refl
  | inr e ↦ elim (Bool-cases (nat_beq h.ring_head 0)) [
    | inl f ↦ rw (e, f) (take_none h.ring_head h.ring f)
    | inr f ↦ rw (e, f) refl
  ]
]

-- Each reading with its rates against the reading before.
abbrev pub series : (ℕ → ℕ → ℕ) → Option ℕ → ℕ → ℕ → List Reading → List NetworkSample
series rate t last_in last_out [] = []
series rate t last_in last_out (x ∷ xs) =
    sample rate t last_in last_out x ∷ series rate (some x.now) x.net_in x.net_out xs

abbrev pub record_all : (ℕ → ℕ → ℕ) → List Reading → NetworkHistory → NetworkHistory
record_all rate [] h = h
record_all rate (x ∷ xs) h = record_all rate xs (record_network_sample rate x h)

record-IsValid :
    (rate : ℕ → ℕ → ℕ) (x : Reading) (h : NetworkHistory)
    → IsValid h
    → IsValid (record_network_sample rate x h)
unfolding record_network_sample
record-IsValid rate x h v = record {
  whole =
      length-set_at h.ring_head (sample rate h.last_time h.last_in h.last_out x) h.ring ∙ v.whole;
  inside = omega arith;
}

-- A reading puts its sample behind the others.
record-view :
    (rate : ℕ → ℕ → ℕ) (x : Reading) (h : NetworkHistory)
    → IsValid h
    → get_network_history (record_network_sample rate x h)
      ≡ last ring_size
          (get_network_history h ++ (sample rate h.last_time h.last_in h.last_out x ∷ []))
unfolding record_network_sample
record-view rate x h v =
    get_network_history-view (record_network_sample rate x h)
    ∙ ap (λ ring. view (nat_beq head 0 || h.ring_full) head ring)
        (set_at-take h.ring_head s h.ring (omega (arith, v.whole, v.inside)))
    ∙ ap
        (λ i.
          view (nat_beq head 0 || h.ring_full) head
            ((take h.ring_head h.ring ++ (s ∷ [])) ++ drop i h.ring))
        next
    ∙ view-ahead h.ring_full ring_size h.ring_head (s ∷ []) h.ring v.whole (omega (arith, v.inside))
        (omega arith)
    ∙ ap (λ z. last ring_size (z ++ (s ∷ []))) (sym (get_network_history-view h))
  where
    s : NetworkSample
    s = sample rate h.last_time h.last_in h.last_out x

    head : ℕ
    head = (h.ring_head + 1) % ring_size

    next : suc h.ring_head ≡ h.ring_head + 1
    next = omega arith

record_all-view :
    (rate : ℕ → ℕ → ℕ) (xs : List Reading) (h : NetworkHistory) (seen : List NetworkSample)
    → IsValid h
    → get_network_history h ≡ last ring_size seen
    → get_network_history (record_all rate xs h)
      ≡ last ring_size (seen ++ series rate h.last_time h.last_in h.last_out xs)
unfolding record_network_sample
record_all-view rate [] h seen v is = is ∙ ap (last ring_size) (sym (append_nil seen))
record_all-view rate (x ∷ xs) h seen v is =
    record_all-view rate xs (record_network_sample rate x h) (seen ++ (s ∷ []))
      (record-IsValid rate x h v)
      (record-view rate x h v
        ∙ ap (λ z. last ring_size (z ++ (s ∷ []))) is
        ∙ last-last ring_size seen (s ∷ []))
    ∙ ap (last ring_size)
        (append_assoc seen (s ∷ []) (series rate (some x.now) x.net_in x.net_out xs))
  where
    s : NetworkSample
    s = sample rate h.last_time h.last_in h.last_out x

empty-IsValid : IsValid empty_history
unfolding empty_history zero_samples
empty-IsValid = record { whole = refl; inside = omega arith }

empty-shows : get_network_history empty_history ≡ []
unfolding empty_history get_network_history
empty-shows = refl

-- After any readings the history is the last 60 of them, oldest first, each with its rates against
-- the reading before it.
pub history-series :
    (rate : ℕ → ℕ → ℕ) (xs : List Reading)
    → get_network_history (record_all rate xs empty_history)
      ≡ last ring_size (series rate none 0 0 xs)
unfolding empty_history
history-series rate xs = record_all-view rate xs empty_history [] empty-IsValid (empty-shows ∙ refl)
