-- ===== src/Ticket.antt =====
-- One-time WebSocket tickets of the web terminal (backend/internal/service/terminal/ticket.go).
-- Times are nanoseconds. `hash` is SHA-256; the random value that the source draws is an argument,
-- `none` where the random source fails. The map is a list in the order in which Go ranges over it.
pub mod Bounds
pub mod SingleUse
mod Tests
use zenith_panel.Common.{
  ℕ, ◌+◌, ◌*◌, List, [], ◌∷◌, Option, none, some, Bool, true, false, not, ◌||◌, Text, ltb, leb,
  if◌then◌else◌, ◌==◌, text_eq, length, keep_if,
}
use zenith_panel.Common.Assoc.{lookup, assign, delete}

abbrev pub ticket_ttl : ℕ
ticket_ttl = 30 * 1000000000

abbrev pub max_pending_tickets : ℕ
max_pending_tickets = 1024

pub record TicketRecord : Type 0 where
  pub principal : Text
  pub ip : Text
  pub expires_at : ℕ
  pub issued_at : ℕ

abbrev pub Tickets : Type 0
Tickets = List (Text × TicketRecord)

-- The first loop of `IssueTicket`: `now.After(record.expiresAt)` drops the record.
pub purge : ℕ → Tickets → Tickets
purge now = keep_if λ t. not (ltb t.1.expires_at now)

-- The second loop; `none` is the zero `time.Time`.
pub oldest_from : Text × Option ℕ → Tickets → Text × Option ℕ
oldest_from best [] = best
oldest_from (k, none) ((key, r) ∷ rest) = oldest_from (key, some r.issued_at) rest
oldest_from (k, some oldest) ((key, r) ∷ rest) =
    oldest_from (if ltb r.issued_at oldest then (key, some r.issued_at) else (k, some oldest)) rest

-- A full store gives up its oldest ticket.
pub evict : Tickets → Tickets
evict ts =
    if leb max_pending_tickets (length ts) then delete (oldest_from ([], none) ts).0 ts else ts

-- What a client does: an `issue` with the drawn value, principal and address, or a `consume`.
pub data Call : Type 0 where
  issue : Option Text → Text → Text → Call
  consume : Text → Text → Call

module _ (hash : Text → Text) where
  -- The value and its expiry, or nothing where the random source fails.
  pub issue_ticket : Option Text → Text → Text → ℕ → Tickets → Option (Text × ℕ) × Tickets
  issue_ticket none principal ip now ts = (none, ts)
  issue_ticket (some value) principal ip now ts = (
    some (value, now + ticket_ttl),
    assign (hash value)
        (record { principal = principal; ip = ip; expires_at = now + ticket_ttl; issued_at = now })
        (evict (purge now ts)),
  )

  -- The checks behind the lookup. The record is gone by then, whatever they say.
  pub admit : Option TicketRecord → Text → ℕ → Option Text
  admit none ip now = none
  admit (some r) ip now =
      if ltb r.expires_at now || not (r.ip == ip) then none else some r.principal

  pub consume_ticket : Text → Text → ℕ → Tickets → Option Text × Tickets
  unfolding admit
  consume_ticket [] ip now ts = (none, ts)
  consume_ticket (c ∷ value) ip now ts =
      let found = lookup (hash (c ∷ value)) ts in
      (admit found ip now, elim found [ none ↦ ts | some r ↦ delete (hash (c ∷ value)) ts ])

  pub step : ℕ × Call → Tickets → Tickets
  step (now, issue value principal ip) ts = (issue_ticket value principal ip now ts).1
  step (now, consume value ip) ts = (consume_ticket value ip now ts).1

  pub run : List (ℕ × Call) → Tickets → Tickets
  run [] ts = ts
  run (c ∷ cs) ts = run cs (step c ts)
