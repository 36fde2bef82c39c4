-- ===== src/Traffic/Clash/Flush.antt =====
-- What a flush of sing-box's bytes does for one client.
use zenith_panel.Common.{ℕ, ◌≡◌, none, some, Text, text_eq, ◌⊎◌}
use zenith_panel.Common.Assoc.{lookup}
use zenith_panel.Model.{Client}
use zenith_panel.Traffic.Delta.{Delta, counter_at}
use zenith_panel.Traffic.Accountant.{Db}
use zenith_panel.Traffic.Accountant.Apply.{find_client, credited}
use zenith_panel.Traffic.Clash.{ProxyAggregator}

-- What a flush did for one client: its row grew by what waited and nothing waits any more, or the
-- table is as it was and just as much waits.
abbrev pub Counted :
    {Raw : Type 0} → ℕ → Text → Client → Delta → Db Raw → ProxyAggregator × Db Raw → Type 0
Counted id ident c d db (a', db') =
    ((find_client id db'.clients ≡ some (credited c d)) × (lookup ident a'.pending_flush ≡ none))
    ⊎ ((db' ≡ db) × (counter_at ident a'.pending_flush ≡ d))
