-- ===== src/Store/StatsTests.antt =====
-- Two clients over two ticks.
use ovcp.Base.{ℕ, ◌-◌, ◌≤◌, ◌≡◌, some, In, text_eq, List, [], ◌∷◌, ◌++◌, arith, find, Text, codes}
use ovcp.Store.Stats.{Reading, Stats, samples, client_samples, prune_stats, delta_of}
use ovcp.Store.Stats.History.{samples-prune_stats, total_of, gain_since, delta_of-gains}

abbrev reading : ℕ → Text → ℕ → Reading
reading t cn n = record { ts = t; cn = cn; bytes_recv = n; bytes_sent = 0 }

abbrev ann : Text
ann = codes "ann"

abbrev ben : Text
ben = codes "ben"

abbrev first_tick : List Reading
first_tick = reading 10 ann 100 ∷ reading 10 ben 900 ∷ []

-- Ben has connected again.
abbrev second_tick : List Reading
second_tick = reading 13 ann 160 ∷ reading 13 ben 5 ∷ []

abbrev stats : Stats
stats = record { client_samples = first_tick ++ second_tick; client_sessions = [] }

samples-prune_stats_case :
    (samples 12 (prune_stats 11 stats) ≡ samples 12 stats)
    × ((cn : Text) → client_samples cn 12 (prune_stats 11 stats) ≡ client_samples cn 12 stats)
samples-prune_stats_case = samples-prune_stats 11 12 stats (omega arith)

abbrev received : Reading → ℕ
received r = r.bytes_recv

delta_of-gains_example :
    (delta_of received first_tick second_tick
      ≡ total_of (gain_since received first_tick) second_tick)
    × ((r p : Reading)
        → In r second_tick
        → find (λ q. text_eq q.cn r.cn) first_tick ≡ some p
        → received r - received p ≤ delta_of received first_tick second_tick)
delta_of-gains_example = delta_of-gains received first_tick second_tick (omega arith)
