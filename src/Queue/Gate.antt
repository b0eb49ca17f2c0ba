-- ===== src/Queue/Gate.antt =====
-- internal/storage/postgres/job_gate.go: the counting reservation of stage transactions, and the
-- slots that the worker (internal/worker/runtime.go) takes from it and gives back.
pub mod Examples
use pocket_advisor.Prelude.{
  ℕ, zero, suc, ◌+◌, ◌-◌, ◌≤◌, ◌<◌, ◌≡◌, refl, Bool, true, false, List, [], ◌∷◌, Option, none, some,
  arith, ltb, leb, if◌then◌else◌, min, ◌⊎◌, inl, inr,
}

-- `released` counts the channels that a release has closed.
pub record Gate : Type 0 where
  pub free : ℕ
  pub total : ℕ
  pub released : ℕ

unfoldable pub new_gate : ℕ → Gate
new_gate total =
    let n = if ltb total 1 then 1 else total in record { free = n; total = n; released = 0 }

unfoldable pub try_reserve : ℕ → Gate → Gate × ℕ
try_reserve n g =
    let got = min n (min g.total g.free) in
    if ltb n 1 then (g, 0) else (record g { free = g.free - got }, got)

unfoldable pub release : ℕ → Gate → Gate
release n g =
    if ltb n 1 then g else record g { free = min (g.free + n) g.total; released = suc g.released }

-- One pool's way with the gate: it reserves for a claim and returns the surplus, a lane returns
-- its slot after a handler, and a preparing handler returns its slot and takes it back.
pub data Move : Type 0 where
  claims : ℕ → ℕ → Move  -- reserve up to the first, of which the claim uses up to the second
  finishes : Move
  parks : Move
  resumes : Move

-- `held` slots are in the hands of the lanes, `parked` handlers are preparing without one.
pub record Pools : Type 0 where
  pub gate : Gate
  pub held : ℕ
  pub parked : ℕ

-- `claimLoop`: the surplus of the reservation goes back at once.
unfoldable pub reserve_and_claim : ℕ → ℕ → Pools → Pools
unfolding try_reserve release
reserve_and_claim n used p =
    let (g, got) = try_reserve n p.gate in
    let jobs = min got used in
    record p {
      gate = (if ltb 0 (got - jobs) then release (got - jobs) g else g);
      held = p.held + jobs;
    }

-- `prepare` returns the slot; `reacquire` waits until it reserves one.
unfoldable pub move : Move → Pools → Pools
unfolding reserve_and_claim
move (claims n used) p = reserve_and_claim n used p
move finishes p =
    if ltb 0 p.held then record p { gate = release 1 p.gate; held = p.held - 1 } else p
move parks p =
    if ltb 0 p.held
    then record p { gate = release 1 p.gate; held = p.held - 1; parked = p.parked + 1 }
    else p
move resumes p =
    let (g, got) = try_reserve 1 p.gate in
    if ltb 0 p.parked
    then record p { gate = g; held = p.held + got; parked = p.parked - got }
    else p

unfoldable pub moves : List Move → Pools → Pools
moves [] p = p
moves (m ∷ ms) p = moves ms (move m p)

-- Every slot is free or held: a release never meets the limit that would swallow it.
abbrev pub Balanced : Pools → Type 0
Balanced p = p.gate.free + p.held ≡ p.gate.total

move-Balanced : (m : Move) (p : Pools) → Balanced p → Balanced (move m p)
unfolding move
move-Balanced (claims n used) p b = ground arith
move-Balanced finishes p b = ground arith
move-Balanced parks p b = ground arith
move-Balanced resumes p b = ground arith

moves_from-Balanced : (ms : List Move) (p : Pools) → Balanced p → Balanced (moves ms p)
unfolding moves
moves_from-Balanced [] p b = b
moves_from-Balanced (m ∷ ms) p b = moves_from-Balanced ms (move m p) (move-Balanced m p b)

abbrev pub start : ℕ → Pools
start total = record { gate = new_gate total; held = 0; parked = 0 }

-- After any reservations, returns, parkings and resumptions from a new gate, the free slots and
-- those in use make up the total.
pub moves-Balanced : (total : ℕ) (ms : List Move) → Balanced (moves ms (start total))
unfolding new_gate
moves-Balanced total ms = moves_from-Balanced ms (start total) (omega arith)

-- On a gate with no more free slots than its total, a reservation takes exactly the smaller of what
-- was asked and what is free, takes it from the free slots, and keeps the total.
pub try_reserve_bounds :
    (n : ℕ) (g : Gate)
    → g.free ≤ g.total
    → ((try_reserve n g).1 ≡ min n g.free)
      × ((try_reserve n g).0.free + (try_reserve n g).1 ≡ g.free)
      × ((try_reserve n g).0.total ≡ g.total)
unfolding try_reserve
try_reserve_bounds n g h = ground arith
