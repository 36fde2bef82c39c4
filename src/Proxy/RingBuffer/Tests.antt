-- ===== src/Proxy/RingBuffer/Tests.antt =====
-- The theorem on the ring at work on a log that overflows.
use zenith_panel.Common.{◌≡◌, refl, List, [], ◌∷◌, codes}
use zenith_panel.Common.Slices.{last}
use zenith_panel.Proxy.RingBuffer.{new_ring_buffer, string}
use zenith_panel.Proxy.RingBuffer.Recent.{LogEvent, writes, resets, after, output, string-after}

abbrev events : List LogEvent
events =
    writes (codes "old")
    ∷ resets
    ∷ writes (codes "abc")
    ∷ writes (codes "defg")
    ∷ writes (codes "hi")
    ∷ []

string-after_example : string (after events (new_ring_buffer 5)) ≡ last 5 (output events [])
string-after_example = string-after 5 events

shown : string (after events (new_ring_buffer 5)) ≡ codes "efghi"
unfolding string zenith_panel.Proxy.RingBuffer.write zenith_panel.Proxy.RingBuffer.reset
    new_ring_buffer
shown = refl
