-- ===== src/Proxy/RingBuffer/Recent.antt =====
-- The ring shows the last bytes written since it was reset.
use zenith_panel.Common.{
  ℕ, zero, suc, ◌+◌, ◌-◌, ◌%◌, ◌≤◌, ◌<◌, ◌≡◌, refl, ◌∙◌, sym, ap, arith, List, [], ◌∷◌, ◌++◌, Bool,
  true, false, ◌||◌, Text, nat_beq, ltb, leb, if◌then◌else◌, length, take, drop, Bool-cases, inl,
  inr,
}
use zenith_panel.Common.Slices.{
  copy_at, copied, last, append_nil, length-take, length-drop, take_all, drop_all, last-last,
}
use zenith_panel.Proxy.RingBuffer.{
  zeros, RingBuffer, new_ring_buffer, write_all, write_round, write_ahead, write, string, reset,
}
use zenith_panel.Common.Windows.{older, view, last_long, shows_round, shows_ahead, view-ahead}
use zenith_panel.Proxy.RingBuffer.Chunks.{
  IsValid, length-copy_at, string-write_all, string-write_round, copy_at_inside,
}

abbrev behind : RingBuffer → Text
behind r = drop r.head r.buf

whole_ring : (r : RingBuffer) → IsValid r → length (take r.head r.buf) + length (behind r) ≡ r.size
whole_ring r v = omega (
  arith,
  v.whole,
  v.inside,
  length-take r.head r.buf (omega (arith, v.whole, v.inside)),
  length-drop r.head r.buf,
)

room_behind : (r : RingBuffer) → IsValid r → length (behind r) ≡ r.size - r.head
room_behind r v = omega (arith, v.whole, length-drop r.head r.buf)

copied_room :
    (r : RingBuffer) (p : Text)
    → IsValid r
    → copied r.head p r.buf < length p
    → copied r.head p r.buf ≡ r.size - r.head
copied_room r p v less = elim (Bool-cases (leb (length p) (length r.buf - r.head))) [
  | inl e ↦
      absurd
        (omega (arith, less, ap length (take_all (length r.buf - r.head) p (ground (arith, e)))))
  | inr e ↦ omega (arith, v.whole, length-take (length r.buf - r.head) p (ground (arith, e)))
]

copied_all :
    (r : RingBuffer) (p : Text)
    → IsValid r
    → length p ≤ copied r.head p r.buf
    → r.head + length p ≤ r.size
copied_all r p v all_of_it = elim (Bool-cases (leb (length p) (length r.buf - r.head))) [
  | inl e ↦ omega (arith, v.whole, v.inside, e_le e)
  | inr e ↦
      absurd (
        omega (arith, all_of_it, e_gt e, length-take (length r.buf - r.head) p (ground (arith, e))))
]
  where
    e_le : leb (length p) (length r.buf - r.head) ≡ true → length p ≤ length r.buf - r.head
    e_le e = ground (arith, e)

    e_gt : leb (length p) (length r.buf - r.head) ≡ false → length r.buf - r.head < length p
    e_gt e = ground (arith, e)

-- A write keeps the ring valid, of the same size, and showing the last `size` bytes.
abbrev pub Shows : RingBuffer → Text → RingBuffer → Type 0
Shows r p s = IsValid s × (s.size ≡ r.size) × (string s ≡ last r.size (string r ++ p))

older_first : (full : Bool) (a b : Text) → (if full then b ++ a else a) ≡ older full b ++ a
older_first true a b = refl
older_first false a b = refl

write_nothing : (r : RingBuffer) → IsValid r → string r ≡ last r.size (string r ++ [])
unfolding string
write_nothing r v =
    older_first r.full (take r.head r.buf) (behind r)
    ∙ ap (λ z. older r.full (behind r) ++ z) (sym (append_nil (take r.head r.buf)))
    ∙ shows_ahead r.full r.size (take r.head r.buf) (behind r) [] (whole_ring r v) (omega arith)

write_all-Shows :
    (p : Text) (r : RingBuffer) → IsValid r → r.size ≤ length p → Shows r p (write_all p r)
unfolding write_all
write_all-Shows p r v h = (
  record {
    whole = length-copy_at 0 (drop (length p - r.size) p) r.buf (omega arith) ∙ v.whole;
    inside = omega arith;
  },
  refl,
  string-write_all p r v h ∙ sym (last_long r.size (string r) p h),
)

write_round-Shows :
    (p : Text) (r : RingBuffer) (k : ℕ)
    → IsValid r
    → k ≡ r.size - r.head
    → k < length p
    → length p < r.size
    → Shows r p (write_round k p r)
unfolding write_round string
write_round-Shows p r k v room over short = (
  record {
    whole =
        length-copy_at 0 (drop k p) (copy_at r.head p r.buf) (omega arith)
        ∙ length-copy_at r.head p r.buf (omega (arith, v.whole, v.inside))
        ∙ v.whole;
    inside = omega (arith, short);
  },
  refl,
  string-write_round k p r v room over short ∙ same,
)
  where
    same : drop (length p - k) (take r.head r.buf) ++ p ≡ last r.size (string r ++ p)
    same =
        ap (λ m. drop (length p - m) (take r.head r.buf) ++ p) (room ∙ sym (room_behind r v))
        ∙ shows_round r.full r.size (take r.head r.buf) (behind r) p (whole_ring r v)
            (omega (arith, room_behind r v, room, over)) (omega (arith, short))

write_ahead-Shows :
    (p : Text) (r : RingBuffer)
    → IsValid r
    → r.head + length p ≤ r.size
    → 0 < length p
    → Shows r p (write_ahead p r)
unfolding write_ahead string
write_ahead-Shows p r v room some_bytes = (
  record {
    whole = length-copy_at r.head p r.buf (omega (arith, v.whole, v.inside)) ∙ v.whole;
    inside = omega (arith, some_bytes, room);
  },
  refl,
  ap (λ buf. view (nat_beq head 0 || r.full) head buf)
        (copy_at_inside r.head p r.buf (omega (arith, v.whole, room)))
      ∙ view-ahead r.full r.size r.head p r.buf v.whole room some_bytes,
)
  where
    head : ℕ
    head = (r.head + length p) % r.size

empty : (p : Text) → nat_beq (length p) 0 ≡ true → p ≡ []
empty [] e = refl
empty (x ∷ p) e = absurd (ground (arith, e))

-- A write keeps the ring valid and of its size, and afterwards the ring shows the last `size` bytes
-- of what it showed before with the chunk behind it.
pub write-Shows : (p : Text) (r : RingBuffer) → IsValid r → Shows r p (write p r)
unfolding write
write-Shows p r v = elim (Bool-cases (nat_beq (length p) 0)) [
  | inl none ↦
      rw (none)
        (v, refl, write_nothing r v ∙ ap (λ z. last r.size (string r ++ z)) (sym (empty p none)))
  | inr more ↦ elim (Bool-cases (leb r.size (length p))) [
    | inl all_of_it ↦ rw (more, all_of_it) (write_all-Shows p r v (ground (arith, all_of_it)))
    | inr short ↦ elim (Bool-cases (ltb (copied r.head p r.buf) (length p))) [
      | inl over ↦
          rw (more, short, over)
            (write_round-Shows p r (copied r.head p r.buf) v
              (copied_room r p v (ground (arith, over))) (ground (arith, over))
              (ground (arith, short)))
      | inr within ↦
          rw (more, short, within)
            (write_ahead-Shows p r v (copied_all r p v (ground (arith, within)))
              (ground (arith, more)))
    ]
  ]
]

length-zeros : (n : ℕ) → length (zeros n) ≡ n
unfolding zeros
length-zeros zero = refl
length-zeros (suc n) = omega (arith, length-zeros n)

pub new_ring_buffer-IsValid : (size : ℕ) → IsValid (new_ring_buffer size)
unfolding new_ring_buffer
new_ring_buffer-IsValid size = record { whole = length-zeros size; inside = omega arith }

new_ring_buffer-string : (size : ℕ) → string (new_ring_buffer size) ≡ []
unfolding new_ring_buffer string
new_ring_buffer-string size = refl

reset-IsValid : (r : RingBuffer) → IsValid r → IsValid (reset r)
unfolding reset
reset-IsValid r v = record { whole = v.whole; inside = omega arith }

-- What an engine's life does to its log: output and restarts.
pub data LogEvent : Type 0 where
  writes : Text → LogEvent
  resets : LogEvent

abbrev pub after : List LogEvent → RingBuffer → RingBuffer
after [] r = r
after (writes p ∷ events) r = after events (write p r)
after (resets ∷ events) r = after events (reset r)

-- All output since the last restart, behind the output `seen` before.
abbrev pub output : List LogEvent → Text → Text
output [] seen = seen
output (writes p ∷ events) seen = output events (seen ++ p)
output (resets ∷ events) seen = output events []

last_nil : (n : ℕ) → last {A = ℕ} n [] ≡ []
last_nil n = drop_all (0 - n) [] (omega arith)

after-output :
    (events : List LogEvent) (r : RingBuffer) (seen : Text)
    → IsValid r
    → string r ≡ last r.size seen
    → string (after events r) ≡ last r.size (output events seen)
unfolding reset string
after-output [] r seen v is = is
after-output (writes p ∷ events) r seen v is =
    let (valid, same, shows) = write-Shows p r v in
    after-output events (write p r) (seen ++ p) valid (
      shows
      ∙ ap (λ z. last r.size (z ++ p)) is
      ∙ last-last r.size seen p
      ∙ ap (λ n. last n (seen ++ p)) (sym same))
    ∙ ap (λ n. last n (output events (seen ++ p))) same
after-output (resets ∷ events) r seen v is =
    after-output events (reset r) [] (reset-IsValid r v) (sym (last_nil r.size))

-- Whatever chunks are written and however often the buffer is reset, it shows exactly the last
-- `size` bytes of what was written since the last reset, or all of it where it is shorter.
pub string-after :
    (size : ℕ) (events : List LogEvent)
    → string (after events (new_ring_buffer size)) ≡ last size (output events [])
unfolding new_ring_buffer
string-after size events =
    after-output events (new_ring_buffer size) [] (new_ring_buffer-IsValid size)
      (new_ring_buffer-string size ∙ sym (last_nil size))
