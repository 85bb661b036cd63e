-- ===== src/Core/SpeedLimiter.antt =====
-- src/adp/core/speed_limiter.py: the token bucket. Time is in milliseconds and tokens are in
-- thousandths of a byte, so that the quotients of the source are exact; the rounding of its floats
-- is not modelled. Its lock makes each round of `acquire` one step.
use adp_pro.Prelude.{
  ℕ, ◌+◌, ◌-◌, ◌*◌, ◌==◌, nat_eq, ◌||◌, Option, none, some, List, [], ◌∷◌, if◌then◌else◌, leb, min,
  max,
}

pub record Limiter : Type 0 where
  pub rate : ℕ
  pub capacity : ℕ
  pub tokens : ℕ
  pub last_refill : ℕ

-- A quarter of a second's worth, and 8192 bytes at least.
abbrev pub burst : ℕ → ℕ
burst rate = if rate == 0 then 0 else max (250 * rate) (1000 * 8192)

unfoldable pub set_limit : ℕ → ℕ → Limiter
set_limit rate now = record {
  rate = rate;
  capacity = burst rate;
  tokens = burst rate;
  last_refill = now;
}

unfoldable pub refill : ℕ → ℕ → Limiter → Limiter
refill bytes now l = record l {
  tokens = min (max l.capacity (1000 * bytes)) (l.tokens + (now - l.last_refill) * l.rate);
  last_refill = now;
}

unfoldable pub spend : ℕ → Limiter → Limiter
spend bytes l = record l { tokens = l.tokens - 1000 * bytes }

-- The loop of `acquire`, with what the clock says in each round. None where it is still waiting
-- after the last of them.
unfoldable pub wait_for : ℕ → List ℕ → Limiter → Option Limiter
wait_for bytes [] l = none
wait_for bytes (now ∷ later) l =
    let l' = refill bytes now l in
    let rest = wait_for bytes later l' in
    if leb (1000 * bytes) l'.tokens then some (spend bytes l') else rest

unfoldable pub acquire : ℕ → List ℕ → Limiter → Option Limiter
acquire bytes clock l =
    let waited = wait_for bytes clock l in if l.rate == 0 || bytes == 0 then some l else waited

-- One acquisition after another, each granted.
unfoldable pub acquire_all : List (ℕ × List ℕ) → Limiter → Option Limiter
acquire_all [] l = some l
acquire_all ((bytes, clock) ∷ rest) l = elim (acquire bytes clock l) [
  | none ↦ none
  | some l' ↦ acquire_all rest l'
]
