-- ===== src/Proxy/RingBuffer.antt =====
-- `ringBuffer` of proxy/core.go: the most recent bytes of an engine's output.
mod Chunks
pub mod Recent
mod Tests
use zenith_panel.Common.{
  ℕ, zero, suc, ◌+◌, ◌-◌, ◌%◌, List, [], ◌∷◌, ◌++◌, Bool, true, false, ◌||◌, Text, nat_beq, ltb,
  leb, if◌then◌else◌, length, take, drop,
}
use zenith_panel.Common.Slices.{copy_at, copied}

pub record RingBuffer : Type 0 where
  pub buf : Text
  pub size : ℕ
  pub full : Bool
  pub head : ℕ

zeros : ℕ → Text
zeros zero = []
zeros (suc n) = 0 ∷ zeros n

unfoldable pub new_ring_buffer : ℕ → RingBuffer
unfolding zeros
new_ring_buffer size = record { buf = zeros size; size = size; full = false; head = 0 }

-- The chunk fills the buffer: its last `size` bytes stay.
unfoldable pub write_all : Text → RingBuffer → RingBuffer
write_all p r = record r {
  buf = copy_at 0 (drop (length p - r.size) p) r.buf;
  head = 0;
  full = true;
}

-- The chunk goes round the end, where its first bytes have found room.
unfoldable pub write_round : ℕ → Text → RingBuffer → RingBuffer
write_round found p r = record r {
  buf = copy_at 0 (drop found p) (copy_at r.head p r.buf);
  full = true;
  head = length p - found;
}

unfoldable pub write_ahead : Text → RingBuffer → RingBuffer
write_ahead p r =
    let head = (r.head + length p) % r.size in
    record r { buf = copy_at r.head p r.buf; head = head; full = nat_beq head 0 || r.full }

unfoldable pub write : Text → RingBuffer → RingBuffer
unfolding write_all write_round write_ahead
write p r =
    let n = length p in
    let found = copied r.head p r.buf in
    if nat_beq n 0
    then r
    else if leb r.size n
    then write_all p r
    else if ltb found n
    then write_round found p r
    else write_ahead p r

unfoldable pub string : RingBuffer → Text
string r = if r.full then drop r.head r.buf ++ take r.head r.buf else take r.head r.buf

unfoldable pub reset : RingBuffer → RingBuffer
reset r = record r { head = 0; full = false }
