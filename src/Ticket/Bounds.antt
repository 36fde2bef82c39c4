-- ===== src/Ticket/Bounds.antt =====
-- The number of pending tickets, and which ticket a full store gives up.
use zenith_panel.Common.{
  ℕ, ◌≤◌, ◌<◌, ◌≡◌, refl, ◌⊎◌, inl, inr, List, [], ◌∷◌, Option, none, some, true, arith, Text,
  text_eq, text_beq_iff, ltb, length, is_some, All, Bool-cases, eq_self, length-keep_if-le, not,
}
use zenith_panel.Common.Assoc.{lookup, length-delete-le, length-delete-lt, length-assign-le}
use zenith_panel.Ticket.{
  Tickets, TicketRecord, Call, issue, consume, purge, oldest_from, evict, issue_ticket,
  consume_ticket, step, run, max_pending_tickets,
}

-- The scan ends at a ticket of the store that was issued no later than any other.
abbrev IsOldest : Text × Option ℕ → Tickets → Type 0
IsOldest (k, o) ts = (t : ℕ) × (o ≡ some t) × All (λ x. t ≤ x.1.issued_at) ts

oldest_from-le :
    (k : Text) (o : ℕ) (ts : Tickets)
    → (t : ℕ) × ((oldest_from (k, some o) ts).1 ≡ some t)
      × (t ≤ o)
      × All (λ x. t ≤ x.1.issued_at) ts
unfolding oldest_from
oldest_from-le k o [] = (o, refl, omega arith, tt)
oldest_from-le k o ((key, r) ∷ rest) = elim (Bool-cases (ltb r.issued_at o)) [
  | inl e ↦
      let (t, a, b, c) = oldest_from-le key r.issued_at rest in (t, rw e a, ground arith, (b, c))
  | inr e ↦ let (t, a, b, c) = oldest_from-le k o rest in (t, rw e a, b, (ground arith, c))
]

-- The key that the scan names is the one it began with, or one of the store.
oldest_from-mem :
    (k : Text) (o : ℕ) (ts : Tickets)
    → ((oldest_from (k, some o) ts).0 ≡ k)
      ⊎ (is_some (lookup (oldest_from (k, some o) ts).0 ts) ≡ true)
unfolding oldest_from lookup
oldest_from-mem k o [] = inl refl
oldest_from-mem k o ((key, r) ∷ rest) = elim (Bool-cases (ltb r.issued_at o)) [
  | inl e ↦ ground (
    arith,
    oldest_from-mem key r.issued_at rest,
    eq_self key,
    text_beq_iff key (oldest_from (key, some r.issued_at) rest).0,
  )
  | inr e ↦ ground (arith, oldest_from-mem k o rest)
]

oldest-mem :
    (x : Text × TicketRecord) (ts : Tickets)
    → is_some (lookup (oldest_from ([], none) (x ∷ ts)).0 (x ∷ ts)) ≡ true
unfolding oldest_from lookup
oldest-mem (key, r) ts = ground (
  arith,
  oldest_from-mem key r.issued_at ts,
  text_beq_iff key (oldest_from (key, some r.issued_at) ts).0,
)

evict-lt :
    (ts : Tickets) → length ts ≤ max_pending_tickets → length (evict ts) < max_pending_tickets
unfolding evict
evict-lt [] h = omega arith
evict-lt (x ∷ ts) h =
    ground (arith, oldest-mem x ts, length-delete-lt (oldest_from ([], none) (x ∷ ts)).0 (x ∷ ts))

-- The ticket that a full store gives up was issued no later than any other ticket of the store.
pub evict-IsOldest :
    (x : Text × TicketRecord) (ts : Tickets) → IsOldest (oldest_from ([], none) (x ∷ ts)) (x ∷ ts)
unfolding oldest_from
evict-IsOldest (key, r) ts = let (t, a, b, c) = oldest_from-le key r.issued_at ts in (t, a, (b, c))

module _ (hash : Text → Text) where
  step-bound :
      (c : ℕ × Call) (ts : Tickets)
      → length ts ≤ max_pending_tickets
      → length (step hash c ts) ≤ max_pending_tickets
  unfolding step issue_ticket consume_ticket purge
  step-bound (now, issue none p ip) ts h = h
  step-bound (now, issue (some v) p ip) ts h =
      let kept = length-keep_if-le (λ (t : Text × TicketRecord). not (ltb t.1.expires_at now)) ts in
      omega (arith, length-assign-le {0, 0}, evict-lt (purge now ts) (omega (arith, kept)))
  step-bound (now, consume [] ip) ts h = h
  step-bound (now, consume (c ∷ v) ip) ts h = ground (arith, length-delete-le (hash (c ∷ v)) ts)

  -- Whatever is issued and consumed, and when, at most 1024 tickets are pending.
  pub run_bounded :
      (cs : List (ℕ × Call)) (ts : Tickets)
      → length ts ≤ max_pending_tickets
      → length (run hash cs ts) ≤ max_pending_tickets
  unfolding run
  run_bounded [] ts h = h
  run_bounded (c ∷ cs) ts h = run_bounded cs (step hash c ts) (step-bound c ts h)
