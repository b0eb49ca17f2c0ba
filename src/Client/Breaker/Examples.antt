-- ===== src/Client/Breaker/Examples.antt =====
-- internal/client/embedding/circuit_breaker.go: an open breaker on which the theorems apply.
use pocket_advisor.Prelude.{◌≡◌, refl, [], ◌∷◌, arith, false}
use pocket_advisor.Client.Breaker.{Breaker, allowed, fail}
use pocket_advisor.Client.Breaker.Laws.{allowed_probe, allowed-fail}

abbrev failing : Breaker
failing = record {
  failures = 5;
  threshold = 5;
  cooldown = 30;
  opened_at = 100;
  half_open_only = false;
}

allowed_probe_example : allowed (140 ∷ 141 ∷ 150 ∷ []) failing ≡ 1
allowed_probe_example = allowed_probe 140 (141 ∷ 150 ∷ []) failing (omega arith) refl (omega arith)

allowed-fail_example : allowed (150 ∷ 169 ∷ []) (fail 140 failing) ≡ 0
allowed-fail_example =
    allowed-fail 140 (150 ∷ 169 ∷ []) failing (omega arith) (omega arith, (omega arith, tt))
