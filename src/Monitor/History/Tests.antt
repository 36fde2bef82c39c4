-- ===== src/Monitor/History/Tests.antt =====
-- The theorem on the history at work on three readings, the last of which follows a counter's reset.
use zenith_panel.Common.{ℕ, ◌≡◌, refl, ◌*◌, ◌/◌, List, [], ◌∷◌, none, map}
use zenith_panel.Common.Slices.{last}
use zenith_panel.Monitor.History.{
  NetworkSample, Reading, ring_size, empty_history, get_network_history,
}
use zenith_panel.Monitor.History.Recent.{series, record_all, history-series}

abbrev reading : ℕ → ℕ → ℕ → Reading
reading now net_in net_out = record { now = now; net_in = net_in; net_out = net_out }

abbrev readings : List Reading
readings =
    reading 1000000000 500 500 ∷ reading 6000000000 5500 1500 ∷ reading 11000000000 10 20 ∷ []

abbrev per_second : ℕ → ℕ → ℕ
per_second bytes nanoseconds = bytes * 1000000000 / nanoseconds

history-series_example :
    get_network_history (record_all per_second readings empty_history)
    ≡ last ring_size (series per_second none 0 0 readings)
history-series_example = history-series per_second readings

in_rates :
    map
      (λ (x : NetworkSample). x.in_rate)
      (get_network_history (record_all per_second readings empty_history))
    ≡ 0 ∷ 1000 ∷ 0 ∷ []
unfolding get_network_history zenith_panel.Monitor.History.record_network_sample empty_history
in_rates = refl
