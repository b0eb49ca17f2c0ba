-- ===== src/Client/Breaker/Laws.antt =====
-- internal/client/embedding/circuit_breaker.go: what an open breaker lets through.
use pocket_advisor.Prelude.{
  ℕ, ◌+◌, ◌≤◌, ◌<◌, ◌≡◌, refl, true, false, List, [], ◌∷◌, arith, leb, All,
}
use pocket_advisor.Client.Breaker.{Breaker, fail, allowed}

probing_refuses :
    (ts : List ℕ) (b : Breaker)
    → b.threshold ≤ b.failures
    → b.half_open_only ≡ true
    → allowed ts b ≡ 0
unfolding allowed
probing_refuses [] b h p = refl
probing_refuses (t ∷ ts) b h p = ground (arith, probing_refuses ts b h p)

-- Of the requests that ask a breaker that is open, has no probe out and is past its cooldown at the
-- first of them, exactly that first one goes as long as none has answered, at whatever times the
-- others ask.
pub allowed_probe :
    (t : ℕ) (ts : List ℕ) (b : Breaker)
    → b.threshold ≤ b.failures
    → b.half_open_only ≡ false
    → b.opened_at + b.cooldown ≤ t
    → allowed (t ∷ ts) b ≡ 1
unfolding allowed
allowed_probe t ts b h idle over =
    ground (arith, probing_refuses ts (record b { half_open_only = true }) h refl)

cooling_refuses :
    (ts : List ℕ) (b : Breaker)
    → b.threshold ≤ b.failures
    → All (λ t. t < b.opened_at + b.cooldown) ts
    → allowed ts b ≡ 0
unfolding allowed
cooling_refuses [] b h early = refl
cooling_refuses (t ∷ ts) b h early = ground (arith, cooling_refuses ts b h early.1)

-- A failure that brings the count to the threshold lets no request go before the cooldown after it
-- is over.
pub allowed-fail :
    (now : ℕ) (ts : List ℕ) (b : Breaker)
    → b.threshold ≤ b.failures + 1
    → All (λ t. t < now + b.cooldown) ts
    → allowed ts (fail now b) ≡ 0
unfolding fail
allowed-fail now ts b h early = cooling_refuses ts (fail now b) h (opened early)
  where
    open_now : leb b.threshold (b.failures + 1) ≡ true
    open_now = ground arith

    opened :
        All (λ t. t < now + b.cooldown) ts → All (λ t. t < (fail now b).opened_at + b.cooldown) ts
    opened a = rw (open_now) a
