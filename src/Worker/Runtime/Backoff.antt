-- ===== src/Worker/Runtime/Backoff.antt =====
-- internal/worker/runtime.go: `nakBackoff`, in nanoseconds. `rand.Int64N` is an argument.
use pocket_advisor.Prelude.{
  ℕ, zero, suc, ◌+◌, ◌-◌, ◌*◌, ◌/◌, ◌≤◌, ◌<◌, ◌≡◌, arith, ltb, if◌then◌else◌, min, refl,
}

abbrev pub second : ℕ
second = 1_000_000_000

abbrev pub nak_backoff_base : ℕ
nak_backoff_base = 60_000_000_000

abbrev pub nak_backoff_max : ℕ
nak_backoff_max = 300_000_000_000

-- The loop, with the rounds that are left.
unfoldable pub double : ℕ → ℕ → ℕ
double zero d = d
double (suc rounds) d =
    let next = double rounds (d * 2) in if ltb d nak_backoff_max then next else d

unfoldable pub spread : (ℕ → ℕ) → ℕ → ℕ
spread rand d = d / 2 + rand (d / 2)

unfoldable pub capped : ℕ → ℕ
capped d = if ltb nak_backoff_max d then nak_backoff_max else d

unfoldable pub nak_backoff : (ℕ → ℕ) → ℕ → ℕ
nak_backoff rand attempts = spread rand (capped (double (attempts - 1) nak_backoff_base))

double-ge : (rounds d : ℕ) → d ≤ double rounds d
unfolding double
double-ge zero d = omega arith
double-ge (suc rounds) d = ground (arith, double-ge rounds (d * 2))

capped_bounds :
    (d : ℕ) → nak_backoff_base ≤ d → (nak_backoff_base ≤ capped d) × (capped d ≤ nak_backoff_max)
unfolding capped
capped_bounds d h = ground arith

-- A retry waits at least 30 seconds and less than 5 minutes, after any number of attempts, where
-- the random number below a positive bound is below it.
pub nak_backoff_bounds :
    (rand : ℕ → ℕ) (attempts : ℕ)
    → ((n : ℕ) → 0 < n → rand n < n)
    → (30 * second ≤ nak_backoff rand attempts) × (nak_backoff rand attempts < nak_backoff_max)
unfolding nak_backoff spread
nak_backoff_bounds rand attempts below =
    let d : ℕ = capped (double (attempts - 1) nak_backoff_base) in
    let b =
      capped_bounds (double (attempts - 1) nak_backoff_base)
        (double-ge (attempts - 1) nak_backoff_base) in
    let r : rand (d / 2) < d / 2 = below (d / 2) (omega (arith, b)) in
    (omega (arith, b, r), omega (arith, b, r))

-- The delay before jitter doubles from one attempt to the next until it meets the limit.
pub capped-double-suc :
    (rounds : ℕ)
    → capped (double (suc rounds) nak_backoff_base)
      ≡ min (2 * capped (double rounds nak_backoff_base)) nak_backoff_max
unfolding capped double
capped-double-suc zero = refl
capped-double-suc (suc zero) = refl
capped-double-suc (suc (suc zero)) = refl
capped-double-suc (suc (suc (suc zero))) = refl
capped-double-suc (suc (suc (suc (suc n)))) = refl
