-- ===== src/Limits/Cpu.antt =====
-- internal/limits/limits.go: the semaphore `CPU`. A lease is what an `Acquire` has returned, with its
-- `sync.Once`; the channel counts by its length.
pub mod Bounds
pub mod Examples
use pocket_advisor.Prelude.{
  ℕ, zero, suc, ◌+◌, ◌-◌, ◌*◌, ◌≡◌, Bool, true, false, List, [], ◌∷◌, ◌++◌, Option, none, some, ltb,
  if◌then◌else◌, get_elem?,
}

-- The lanes of the pools, for a number of processors.
abbrev pub email_lanes : ℕ → ℕ
email_lanes cpus = 2 * cpus

abbrev pub embed_lanes : ℕ → ℕ
embed_lanes cpus = 2 * cpus

abbrev pub office_lanes : ℕ → ℕ
office_lanes cpus = cpus

abbrev pub document_lanes : ℕ → ℕ
document_lanes cpus = cpus

-- The labels that are counted, and any other.
pub data Label : Type 0 where
  ocr rasterize unlisted : Label

pub record Cpu : Type 0 where
  pub slots : ℕ
  pub size : ℕ
  pub in_use : ℕ
  pub ocr_count : ℕ
  pub rasterize_count : ℕ

unfoldable pub new_cpu : ℕ → Cpu
new_cpu size = record {
  slots = 0;
  size = if ltb size 1 then 1 else size;
  in_use = 0;
  ocr_count = 0;
  rasterize_count = 0;
}

-- `counter.Add(1)` and `counter.Add(-1)`, of the label's counter if it has one.
unfoldable pub count_up : Label → Cpu → Cpu
count_up ocr c = record c { ocr_count = c.ocr_count + 1 }
count_up rasterize c = record c { rasterize_count = c.rasterize_count + 1 }
count_up unlisted c = c

unfoldable pub count_down : Label → Cpu → Cpu
count_down ocr c = record c { ocr_count = c.ocr_count - 1 }
count_down rasterize c = record c { rasterize_count = c.rasterize_count - 1 }
count_down unlisted c = c

pub record Lease : Type 0 where
  pub label : Label
  pub is_open : Bool

pub record Shared : Type 0 where
  pub cpu : Cpu
  pub leases : List Lease

-- What `Acquire` does with the slot that it has.
unfoldable pub entered : Label → Shared → Shared
unfolding count_up
entered l s = record {
  cpu = count_up l (record s.cpu { slots = s.cpu.slots + 1; in_use = s.cpu.in_use + 1 });
  leases = record { label = l; is_open = true } ∷ s.leases;
}

-- `Acquire` when a slot is free; it blocks while there is none.
unfoldable pub acquire : Label → Shared → Option Shared
unfolding entered
acquire l s = if ltb s.cpu.slots s.cpu.size then some (entered l s) else none

-- `Acquire` when the context is done first: what it returns releases nothing.
unfoldable pub acquire_cancelled : Label → Shared → Shared
acquire_cancelled l s = record s { leases = record { label = l; is_open = false } ∷ s.leases }

unfoldable pub close_at : ℕ → List Lease → List Lease
close_at i [] = []
close_at zero (x ∷ xs) = record x { is_open = false } ∷ xs
close_at (suc i) (x ∷ xs) = x ∷ close_at i xs

-- What the first call of a release does.
unfoldable pub closed : ℕ → Label → Shared → Shared
unfolding close_at count_down
closed i l s = record {
  cpu = count_down l (record s.cpu { slots = s.cpu.slots - 1; in_use = s.cpu.in_use - 1 });
  leases = close_at i s.leases;
}

-- A call of what the `i`-th last `Acquire` returned.
unfoldable pub release : ℕ → Shared → Shared
unfolding closed
release i s = elim (get_elem? s.leases i) [
  | none ↦ s
  | some x ↦ if x.is_open then closed i x.label s else s
]

unfoldable pub active : Label → Cpu → ℕ
active ocr c = c.ocr_count
active rasterize c = c.rasterize_count
active unlisted c = 0

-- What can happen to a semaphore that was made for a size, in any order.
pub data Reached (size : ℕ) : Shared → Type 0 where
  made : Reached size (record { cpu = new_cpu size; leases = [] })
  acquired : {s s' : Shared} (l : Label) → Reached size s → acquire l s ≡ some s' → Reached size s'
  gave_up : {s : Shared} (l : Label) → Reached size s → Reached size (acquire_cancelled l s)
  released : {s : Shared} (i : ℕ) → Reached size s → Reached size (release i s)
