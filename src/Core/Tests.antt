-- ===== src/Core/Tests.antt =====
-- Concrete statistics and a concrete limiter.
use adp_pro.Prelude.{◌+◌, ◌-◌, ◌*◌, ◌≤◌, ◌≡◌, true, is_some, refl, string_eq, List, [], ◌∷◌, arith}
use adp_pro.Core.Stats.{
  Aggregator, new_aggregator, no_totals, Tick, download_progress, torrent_progress,
  download_completed, forgets, ticks,
}
use adp_pro.Core.SpeedLimiter.{Limiter, refill, spend, wait_for, acquire, acquire_all}
use adp_pro.Core.Throttle.{acquire-ends, acquire_all-le}
use adp_pro.Core.Counting.{IsSplit, ticks-IsSplit}

abbrev events : List Tick
events =
    download_progress "a" 5
    ∷ download_progress "a" 9
    ∷ torrent_progress "t" 3 4
    ∷ download_completed
    ∷ forgets "a"
    ∷ []

ticks-IsSplit_example : IsSplit no_totals (ticks events (new_aggregator no_totals))
ticks-IsSplit_example = ticks-IsSplit no_totals events

abbrev seen : Aggregator
seen = record (new_aggregator no_totals) { last_download_bytes = ("a", 5) ∷ [] }

-- Two bytes in a millisecond, and an empty bucket.
abbrev limiter : Limiter
limiter = record { rate = 2000; capacity = 8192000; tokens = 0; last_refill = 100 }

acquire-ends_example : is_some (acquire 10000 (1000 ∷ 4000 ∷ 6000 ∷ []) limiter) ≡ true
acquire-ends_example =
    acquire-ends 10000 1000 (4000 ∷ 6000 ∷ []) limiter (omega arith)
      (omega arith, (omega arith, tt)) (omega arith)

abbrev afterwards : Limiter
afterwards = record { rate = 2000; capacity = 8192000; tokens = 2797000; last_refill = 1500 }

acquire_all-le_example :
    1000 * 3 ≤ limiter.tokens + (afterwards.last_refill - limiter.last_refill) * limiter.rate
unfolding acquire_all acquire wait_for refill spend
acquire_all-le_example =
    acquire_all-le ((1, 600 ∷ []) ∷ (2, 1500 ∷ []) ∷ []) limiter afterwards (omega arith)
      ((omega arith, tt), ((omega arith, tt), tt)) refl
