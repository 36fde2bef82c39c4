-- ===== src/Ticket/Tests.antt =====
-- The theorems on tickets at work on a store with one ticket; the digest is the value itself.
use zenith_panel.Common.{
  ℕ, ◌≡◌, ◌≤◌, ◌≢◌, List, [], ◌∷◌, none, some, Text, codes, length, leb, ◌==◌, text_eq, text_beq,
  if◌then◌else◌, ◌+◌, arith, ap,
}
use zenith_panel.Ticket.{
  Tickets, Call, issue, consume, run, max_pending_tickets, ticket_ttl, issue_ticket, consume_ticket,
}
use zenith_panel.Ticket.SingleUse.{consume_once, issue-consume}
use zenith_panel.Ticket.Bounds.{run_bounded}

abbrev same_text : Text → Text
same_text t = t

abbrev home : Text
home = codes "10.0.0.7"

abbrev one_ticket : Tickets
one_ticket =
    (
      codes "abc",
      record { principal = codes "admin"; ip = home; expires_at = 30000000005; issued_at = 5 },
    )
    ∷ []

abbrev other_ticket_meanwhile : List (ℕ × Call)
other_ticket_meanwhile =
    (6, issue (some (codes "xyz")) (codes "admin") home) ∷ (7, consume (codes "xyz") home) ∷ []

other_text : codes "xyz" ≢ codes "abc"
unfolding text_beq
other_text e = absurd (ground (arith, ap (λ t. text_beq t (codes "abc")) e))

consume_once_example :
    (consume_ticket same_text (codes "abc") home 9 (
      run same_text other_ticket_meanwhile
        (consume_ticket same_text (codes "abc") home 6 one_ticket).1)).0
    ≡ none
consume_once_example =
    consume_once same_text (codes "abc") home home 6 9 other_ticket_meanwhile one_ticket
      (other_text, (tt, tt))

issue-consume_example :
    (consume_ticket same_text
      (codes "abc")
      home
      9
      (issue_ticket same_text (some (codes "abc")) (codes "admin") home 5 []).1).0
    ≡ (if leb 9 (5 + ticket_ttl) then if home == home then some (codes "admin") else none else none)
issue-consume_example = issue-consume same_text b'a' (codes "bc") (codes "admin") home home 5 9 []

run_bounded_example : length (run same_text other_ticket_meanwhile one_ticket) ≤ max_pending_tickets
run_bounded_example = run_bounded same_text other_ticket_meanwhile one_ticket (omega arith)
