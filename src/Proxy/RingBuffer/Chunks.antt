-- ===== src/Proxy/RingBuffer/Chunks.antt =====
-- What the ring shows after each kind of write.
use zenith_panel.Common.{
  ℕ, ◌+◌, ◌-◌, ◌≤◌, ◌<◌, ◌≡◌, ◌∙◌, sym, ap, arith, ◌++◌, true, false, Text, leb, length, take, drop,
  length-append, Bool-cases, inl, inr,
}
use zenith_panel.Common.Slices.{
  copy_at, append_nil, append_assoc, take-append-drop, length-take, length-drop, take_all, drop_all,
  drop-append_within, rotated,
}
use zenith_panel.Proxy.RingBuffer.{RingBuffer, write_all, write_round, string}

pub record IsValid (r : RingBuffer) : Type 0 where
  pub whole : length r.buf ≡ r.size
  pub inside : r.head ≤ r.size

-- A copy to the front that leaves nothing out.
copy_at_front : (q buf : Text) → length q ≤ length buf → copy_at 0 q buf ≡ q ++ drop (length q) buf
copy_at_front q buf h =
    ap (λ z. z ++ drop (0 + length q) buf) (take_all (length buf - 0) q (omega (arith, h)))
    ∙ ap (λ k. q ++ drop k buf) (zero_plus (length q))
  where
    zero_plus : (n : ℕ) → 0 + n ≡ n
    zero_plus n = omega arith

pub length-copy_at : (h : ℕ) (p buf : Text) → h ≤ length buf → length (copy_at h p buf) ≡ length buf
length-copy_at h p buf i = elim (Bool-cases (leb (length p) (length buf - h))) [
  | inl e ↦ omega (
    arith,
    i,
    length-append (take h buf) (take (length buf - h) p ++ drop (h + length p) buf),
    length-append (take (length buf - h) p) (drop (h + length p) buf),
    length-take h buf i,
    ap length (take_all (length buf - h) p (ground (arith, e))),
    length-drop (h + length p) buf,
    is_le e,
  )
  | inr e ↦ omega (
    arith,
    i,
    length-append (take h buf) (take (length buf - h) p ++ drop (h + length p) buf),
    length-append (take (length buf - h) p) (drop (h + length p) buf),
    length-take h buf i,
    length-take (length buf - h) p (ground (arith, e)),
    length-drop (h + length p) buf,
    is_gt e,
  )
]
  where
    is_le : leb (length p) (length buf - h) ≡ true → length p ≤ length buf - h
    is_le e = ground (arith, e)

    is_gt : leb (length p) (length buf - h) ≡ false → length buf - h < length p
    is_gt e = ground (arith, e)

pub copy_at_whole : (q buf : Text) → length q ≡ length buf → copy_at 0 q buf ≡ q
copy_at_whole q buf h =
    copy_at_front q buf (omega (arith, h))
    ∙ ap (λ z. q ++ z) (drop_all (length q) buf (omega (arith, h)))
    ∙ append_nil q

-- What is shown after a chunk of at least `size` bytes.
pub string-write_all :
    (p : Text) (r : RingBuffer)
    → IsValid r
    → r.size ≤ length p
    → string (write_all p r) ≡ drop (length p - r.size) p
unfolding string write_all
string-write_all p r v h =
    append_nil (copy_at 0 (drop (length p - r.size) p) r.buf)
    ∙ copy_at_whole (drop (length p - r.size) p) r.buf
        (omega (arith, h, length-drop (length p - r.size) p, v.whole))

-- The copy up to the end of the buffer.
copy_at_end :
    (h : ℕ) (p buf : Text)
    → length buf ≤ h + length p
    → copy_at h p buf ≡ take h buf ++ take (length buf - h) p
copy_at_end h p buf over =
    ap (λ z. take h buf ++ (take (length buf - h) p ++ z)) (drop_all (h + length p) buf over)
    ∙ ap (λ z. take h buf ++ z) (append_nil (take (length buf - h) p))

-- What is shown after a chunk that goes round the end, where `k` bytes had room.
pub string-write_round :
    (k : ℕ) (p : Text) (r : RingBuffer)
    → IsValid r
    → k ≡ r.size - r.head
    → k < length p
    → length p < r.size
    → string (write_round k p r) ≡ drop (length p - k) (take r.head r.buf) ++ p
unfolding string write_round
string-write_round k p r v room over short =
    ap (λ z. drop (length p - k) z ++ take (length p - k) z) front
    ∙ rotated (length p - k) (drop k p) (drop (length p - k) one) (sym (length-drop k p))
    ∙ ap (λ z. z ++ drop k p) back
    ∙ append_assoc (drop (length p - k) (take r.head r.buf)) (take k p) (drop k p)
    ∙ ap (λ z. drop (length p - k) (take r.head r.buf) ++ z) (take-append-drop k p)
  where
    one : Text
    one = copy_at r.head p r.buf

    front : copy_at 0 (drop k p) one ≡ drop k p ++ drop (length p - k) one
    front =
        copy_at_front (drop k p) one (
          omega (
            arith,
            v.whole,
            v.inside,
            room,
            over,
            short,
            length-drop k p,
            length-copy_at r.head p r.buf (omega (arith, v.whole, v.inside)),
          ))
        ∙ ap (λ n. drop k p ++ drop n one) (length-drop k p)

    back : drop (length p - k) one ≡ drop (length p - k) (take r.head r.buf) ++ take k p
    back =
        ap (drop (length p - k)) (
          copy_at_end r.head p r.buf (omega (arith, v.whole, v.inside, room, over))
          ∙ ap (λ j. take r.head r.buf ++ take j p) (omega (arith, v.whole, room)))
        ∙ drop-append_within (length p - k) (take r.head r.buf) (take k p) (
            omega (
              arith,
              v.whole,
              v.inside,
              room,
              short,
              length-take r.head r.buf (omega (arith, v.whole, v.inside)),
            ))

-- The copy of a chunk that has room.
pub copy_at_inside :
    (h : ℕ) (p buf : Text)
    → h + length p ≤ length buf
    → copy_at h p buf ≡ (take h buf ++ p) ++ drop (h + length p) buf
copy_at_inside h p buf room =
    ap (λ z. take h buf ++ (z ++ drop (h + length p) buf))
      (take_all (length buf - h) p (omega (arith, room)))
    ∙ sym (append_assoc (take h buf) p (drop (h + length p) buf))
