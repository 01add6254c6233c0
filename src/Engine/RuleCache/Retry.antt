-- ===== src/Engine/RuleCache/Retry.antt =====
-- How often a Redis client tries to connect again: the `retryStrategy` of both clients
-- (src/engine/rule-cache.service.ts). ioredis calls it with the number of the attempt, from 1 on,
-- waits for the milliseconds that it returns, and gives up on `null`.
use complif_techinical_chall.Base.{
  ℕ, suc, ◌+◌, ◌-◌, ◌*◌, ◌≤◌, ◌≡◌, Option, none, some, List, [], ◌∷◌, length, leb, ltb, arith,
  if◌then◌else◌,
}
use complif_techinical_chall.Common.Repository.{total}

-- Math.min
abbrev min : ℕ → ℕ → ℕ
min a b = if leb a b then a else b

unfoldable pub retry_strategy : ℕ → Option ℕ
retry_strategy times = if ltb 3 times then none else some (min (times * 100) 3000)

-- the delays that a client waits for from its attempt `times` on, until it connects or gives up
pub data Waits : ℕ → List ℕ → Type 0 where
  ends : {times : ℕ} → Waits times []
  waits :
      {times delay : ℕ} {delays : List ℕ}
      → retry_strategy times ≡ some delay
      → Waits (suc times) delays
      → Waits times (delay ∷ delays)

-- how long, and how often, a client can still wait
abbrev time_left : ℕ → ℕ
time_left times =
    if leb 4 times then 0 else if leb 3 times then 300 else if leb 2 times then 500 else 600

step-bound :
    (times delay : ℕ)
    → retry_strategy times ≡ some delay
    → (delay + time_left (suc times) ≤ time_left times) × (suc (4 - suc times) ≤ 4 - times)
unfolding retry_strategy
step-bound times delay h = ground arith

Waits-bound :
    (times : ℕ) (delays : List ℕ)
    → Waits times delays
    → (total (λ d. d) delays ≤ time_left times) × (length delays ≤ 4 - times)
Waits-bound times [] ends = omega arith
Waits-bound times (delay ∷ delays) (waits h w) =
    omega (arith, step-bound times delay h, Waits-bound (suc times) delays w)

-- Connecting ends: from its first attempt on a client waits at most three times, 600 milliseconds
-- in all, and a fourth failure is the last.
pub retry_strategy-Waits :
    (delays : List ℕ) → Waits 1 delays → (length delays ≤ 3) × (total (λ d. d) delays ≤ 600)
retry_strategy-Waits delays w = omega (arith, Waits-bound 1 delays w)
