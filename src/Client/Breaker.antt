-- ===== src/Client/Breaker.antt =====
-- internal/client/embedding/circuit_breaker.go: the breaker, whose mutex makes each method one step.
-- `time.Now` is an argument, in any one unit.
pub mod Laws
pub mod Examples
use pocket_advisor.Prelude.{ℕ, ◌+◌, Bool, true, false, List, [], ◌∷◌, ltb, leb, if◌then◌else◌}

pub record Breaker : Type 0 where
  pub failures : ℕ
  pub threshold : ℕ
  pub cooldown : ℕ
  pub opened_at : ℕ
  pub half_open_only : Bool

unfoldable pub new_breaker : ℕ → ℕ → Breaker
new_breaker threshold cooldown = record {
  failures = 0;
  threshold = threshold;
  cooldown = cooldown;
  opened_at = 0;
  half_open_only = false;
}

-- `Allow`: the breaker after it, and whether the request may go.
unfoldable pub allow : ℕ → Breaker → Breaker × Bool
allow now b =
    if ltb b.failures b.threshold
    then (b, true)
    else if ltb now (b.opened_at + b.cooldown)
    then (b, false)
    else if b.half_open_only
    then (b, false)
    else (record b { half_open_only = true }, true)

unfoldable pub success : Breaker → Breaker
success b = record b { failures = 0; half_open_only = false }

unfoldable pub fail : ℕ → Breaker → Breaker
fail now b = record b {
  failures = b.failures + 1;
  half_open_only = false;
  opened_at = (if leb b.threshold (b.failures + 1) then now else b.opened_at);
}

-- How many requests go at the given times, while none of them has answered.
unfoldable pub allowed : List ℕ → Breaker → ℕ
unfolding allow
allowed [] b = 0
allowed (t ∷ ts) b = let (b', goes) = allow t b in (if goes then 1 else 0) + allowed ts b'
