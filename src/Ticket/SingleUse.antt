-- ===== src/Ticket/SingleUse.antt =====
-- A ticket opens one session, for its own address, before its time is over.
use zenith_panel.Common.{
  ℕ, ◌+◌, ◌≡◌, ◌≢◌, refl, List, [], ◌∷◌, none, some, arith, Text, text_eq, text_beq_iff, ltb, leb,
  All, eq_self, if◌then◌else◌, ◌==◌, not,
}
use zenith_panel.Common.Assoc.{lookup, lookup-delete, lookup-assign, lookup-keep_if}
use zenith_panel.Ticket.{
  Tickets, Call, issue, consume, purge, oldest_from, evict, issue_ticket, consume_ticket, step, run,
  ticket_ttl,
}

evict-absent : (h : Text) (ts : Tickets) → lookup h ts ≡ none → lookup h (evict ts) ≡ none
unfolding evict
evict-absent h ts e = ground (arith, e, lookup-delete (oldest_from ([], none) ts).0 h ts)

purge-absent :
    (h : Text) (now : ℕ) (ts : Tickets) → lookup h ts ≡ none → lookup h (purge now ts) ≡ none
unfolding purge
purge-absent h now ts e = lookup-keep_if h (λ t. not (ltb t.1.expires_at now)) ts e

module _ (hash : Text → Text) where
  -- The call does not issue a ticket with this digest.
  abbrev pub Spares : Text → ℕ × Call → Type 0
  Spares h (now, issue none p ip) = Unit
  Spares h (now, issue (some value) p ip) = hash value ≢ h
  Spares h (now, consume value ip) = Unit

  step-absent :
      (h : Text) (c : ℕ × Call) (ts : Tickets)
      → Spares h c
      → lookup h ts ≡ none
      → lookup h (step hash c ts) ≡ none
  unfolding step issue_ticket consume_ticket
  step-absent h (now, issue none p ip) ts s e = e
  step-absent h (now, issue (some value) p ip) ts s e =
      let gone = evict-absent h (purge now ts) (purge-absent h now ts e) in
      ground (
        arith,
        gone,
        s,
        text_beq_iff (hash value) h,
        lookup-assign (hash value) h
            (record { principal = p; ip = ip; expires_at = now + ticket_ttl; issued_at = now })
            (evict (purge now ts)),
      )
  step-absent h (now, consume [] ip) ts s e = e
  step-absent h (now, consume (c ∷ v) ip) ts s e =
      ground (arith, e, lookup-delete (hash (c ∷ v)) h ts)

  run-absent :
      (h : Text) (cs : List (ℕ × Call)) (ts : Tickets)
      → All (Spares h) cs
      → lookup h ts ≡ none
      → lookup h (run hash cs ts) ≡ none
  unfolding run
  run-absent h [] ts s e = e
  run-absent h (c ∷ cs) ts s e = run-absent h cs (step hash c ts) s.1 (step-absent h c ts s.0 e)

  consume-absent :
      (value ip : Text) (now : ℕ) (ts : Tickets)
      → lookup (hash value) ts ≡ none
      → (consume_ticket hash value ip now ts).0 ≡ none
  unfolding consume_ticket
  consume-absent [] ip now ts e = refl
  consume-absent (c ∷ v) ip now ts e = rw e

  consume-spends :
      (c : ℕ) (v ip : Text) (now : ℕ) (ts : Tickets)
      → lookup (hash (c ∷ v)) (consume_ticket hash (c ∷ v) ip now ts).1 ≡ none
  unfolding consume_ticket
  consume-spends c v ip now ts =
      ground (arith, lookup-delete (hash (c ∷ v)) (hash (c ∷ v)) ts, eq_self (hash (c ∷ v)))

  -- Once a value has been presented, with the right address or a wrong one, it opens nothing any
  -- more, whatever else is issued and consumed, unless a ticket with its digest is issued again.
  pub consume_once :
      (value ip ip' : Text) (now later : ℕ) (cs : List (ℕ × Call)) (ts : Tickets)
      → All (Spares (hash value)) cs
      → (consume_ticket hash value ip' later
          (run hash cs (consume_ticket hash value ip now ts).1)).0
        ≡ none
  consume_once [] ip ip' now later cs ts s = unfold consume_ticket in refl
  consume_once (c ∷ v) ip ip' now later cs ts s =
      consume-absent (c ∷ v) ip' later _
        (run-absent (hash (c ∷ v)) cs _ s (consume-spends c v ip now ts))

  -- A ticket just issued opens a session for its principal if it comes back from the same address
  -- before its time is over, and otherwise opens none.
  pub issue-consume :
      (c : ℕ) (v principal ip ip' : Text) (now later : ℕ) (ts : Tickets)
      → (consume_ticket hash
          (c ∷ v)
          ip'
          later
          (issue_ticket hash (some (c ∷ v)) principal ip now ts).1).0
        ≡ (if leb later (now + ticket_ttl)
            then if ip == ip' then some principal else none
            else none)
  unfolding consume_ticket issue_ticket
  issue-consume c v principal ip ip' now later ts = ground (
    arith,
    eq_self (hash (c ∷ v)),
    lookup-assign (hash (c ∷ v)) (hash (c ∷ v))
        (record { principal = principal; ip = ip; expires_at = now + ticket_ttl; issued_at = now })
        (evict (purge now ts)),
  )

  -- Presenting one value leaves every ticket with another digest as it was.
  pub consume_other :
      (value other ip ip' : Text) (now later : ℕ) (ts : Tickets)
      → hash value ≢ hash other
      → (consume_ticket hash other ip' later (consume_ticket hash value ip now ts).1).0
        ≡ (consume_ticket hash other ip' later ts).0
  unfolding consume_ticket
  consume_other [] other ip ip' now later ts d = refl
  consume_other (c ∷ v) [] ip ip' now later ts d = refl
  consume_other (c ∷ v) (c' ∷ v') ip ip' now later ts d = ground (
    arith,
    d,
    text_beq_iff (hash (c ∷ v)) (hash (c' ∷ v')),
    lookup-delete (hash (c ∷ v)) (hash (c' ∷ v')) ts,
  )
