-- ===== src/Limits/Cpu/Bounds.antt =====
-- internal/limits/limits.go: the counts of the semaphore are those of the leases that are open.
use pocket_advisor.Prelude.{
  ℕ, zero, suc, ◌≤◌, ◌<◌, ◌≡◌, refl, ap, sym, ◌∙◌, inl, inr, Bool, true, false, ◌&&◌, List, [], ◌∷◌,
  some, arith, ltb, if◌then◌else◌, get_elem?, Bool-cases, Option-cases, subst,
}
use pocket_advisor.Limits.Cpu.{
  Label, ocr, rasterize, unlisted, new_cpu, count_up, count_down, Lease, Shared, entered, acquire,
  acquire_cancelled, closed, close_at, release, active, Reached, made, acquired, gave_up, released,
}

abbrev label_eq : Label → Label → Bool
label_eq ocr ocr = true
label_eq rasterize rasterize = true
label_eq unlisted unlisted = true
label_eq a b = false

-- The leases that are open, all of them and those with a label.
unfoldable pub open_leases : List Lease → ℕ
open_leases [] = 0
open_leases (x ∷ xs) = if x.is_open then suc (open_leases xs) else open_leases xs

unfoldable pub open_with : Label → List Lease → ℕ
open_with l [] = 0
open_with l (x ∷ xs) =
    if x.is_open && label_eq x.label l then suc (open_with l xs) else open_with l xs

-- The slots in use are the open leases and no more than the size, which is the one asked for or 1, and
-- each label counts its own.
pub record CpuInv (size : ℕ) (s : Shared) : Type 0 where
  pub sized : s.cpu.size ≡ (if ltb size 1 then 1 else size)
  pub taken : s.cpu.slots ≡ open_leases s.leases
  pub used : s.cpu.in_use ≡ open_leases s.leases
  pub bounded : s.cpu.slots ≤ s.cpu.size
  pub ocr_counted : active ocr s.cpu ≡ open_with ocr s.leases
  pub rasterize_counted : active rasterize s.cpu ≡ open_with rasterize s.leases

open_leases-close_at :
    (i : ℕ) (xs : List Lease) (x : Lease)
    → get_elem? xs i ≡ some x
    → x.is_open ≡ true
    → suc (open_leases (close_at i xs)) ≡ open_leases xs
unfolding open_leases close_at
open_leases-close_at i [] x h o = absurd cc
open_leases-close_at zero (y ∷ ys) x h o =
    let same : y ≡ x = cc in
    let opened : y.is_open ≡ true = ap (λ (x : Lease). x.is_open) same ∙ o in rw opened refl
open_leases-close_at (suc i) (y ∷ ys) x h o = ground (arith, open_leases-close_at i ys x h o)

open_with-close_at :
    (l : Label) (i : ℕ) (xs : List Lease) (x : Lease)
    → get_elem? xs i ≡ some x
    → x.is_open ≡ true
    → (if label_eq x.label l
        then suc (open_with l (close_at i xs))
        else open_with l (close_at i xs))
      ≡ open_with l xs
unfolding open_with close_at
open_with-close_at l i [] x h o = absurd cc
open_with-close_at l zero (y ∷ ys) x h o =
    let same : y ≡ x = cc in
    let opened : y.is_open ≡ true = ap (λ (x : Lease). x.is_open) same ∙ o in
    rw (sym same, opened) refl
open_with-close_at l (suc i) (y ∷ ys) x h o = ground (arith, open_with-close_at l i ys x h o)

new_cpu-CpuInv : (size : ℕ) → CpuInv size (record { cpu = new_cpu size; leases = [] })
unfolding new_cpu active open_leases open_with
new_cpu-CpuInv size = record {
  sized = refl;
  taken = refl;
  used = refl;
  bounded = omega arith;
  ocr_counted = refl;
  rasterize_counted = refl;
}

entered-CpuInv :
    (size : ℕ) (l : Label) (s : Shared)
    → CpuInv size s
    → s.cpu.slots < s.cpu.size
    → CpuInv size (entered l s)
unfolding entered count_up active open_leases open_with
entered-CpuInv size ocr s i h = record {
  sized = i.sized;
  taken = omega (arith, i.taken);
  used = omega (arith, i.used);
  bounded = omega (arith, h);
  ocr_counted = omega (arith, i.ocr_counted);
  rasterize_counted = i.rasterize_counted;
}
entered-CpuInv size rasterize s i h = record {
  sized = i.sized;
  taken = omega (arith, i.taken);
  used = omega (arith, i.used);
  bounded = omega (arith, h);
  ocr_counted = i.ocr_counted;
  rasterize_counted = omega (arith, i.rasterize_counted);
}
entered-CpuInv size unlisted s i h = record {
  sized = i.sized;
  taken = omega (arith, i.taken);
  used = omega (arith, i.used);
  bounded = omega (arith, h);
  ocr_counted = i.ocr_counted;
  rasterize_counted = i.rasterize_counted;
}

acquire-CpuInv :
    (size : ℕ) (l : Label) (s s' : Shared) → CpuInv size s → acquire l s ≡ some s' → CpuInv size s'
unfolding acquire
acquire-CpuInv size l s s' i h = elim (Bool-cases (ltb s.cpu.slots s.cpu.size)) [
  | inr full ↦ absurd (ground arith)
  | inl free ↦
      let same : entered l s ≡ s' = ground arith in
      subst (CpuInv size) same (entered-CpuInv size l s i (ground arith))
]

acquire_cancelled-CpuInv :
    (size : ℕ) (l : Label) (s : Shared) → CpuInv size s → CpuInv size (acquire_cancelled l s)
unfolding acquire_cancelled open_leases open_with
acquire_cancelled-CpuInv size l s i = record {
  sized = i.sized;
  taken = i.taken;
  used = i.used;
  bounded = i.bounded;
  ocr_counted = i.ocr_counted;
  rasterize_counted = i.rasterize_counted;
}

-- What is left when a lease of the label is closed.
closed-label :
    (size j : ℕ) (l : Label) (s : Shared)
    → suc (open_leases (close_at j s.leases)) ≡ open_leases s.leases
    → ((if label_eq l ocr
          then suc (open_with ocr (close_at j s.leases))
          else open_with ocr (close_at j s.leases))
        ≡ open_with ocr s.leases)
    → ((if label_eq l rasterize
          then suc (open_with rasterize (close_at j s.leases))
          else open_with rasterize (close_at j s.leases))
        ≡ open_with rasterize s.leases)
    → CpuInv size s
    → CpuInv size (closed j l s)
unfolding closed count_down active
closed-label size j ocr s fewer a b i = record {
  sized = i.sized;
  taken = omega (arith, i.taken, fewer);
  used = omega (arith, i.used, fewer);
  bounded = omega (arith, i.bounded);
  ocr_counted = omega (arith, i.ocr_counted, a);
  rasterize_counted = i.rasterize_counted ∙ sym b;
}
closed-label size j rasterize s fewer a b i = record {
  sized = i.sized;
  taken = omega (arith, i.taken, fewer);
  used = omega (arith, i.used, fewer);
  bounded = omega (arith, i.bounded);
  ocr_counted = i.ocr_counted ∙ sym a;
  rasterize_counted = omega (arith, i.rasterize_counted, b);
}
closed-label size j unlisted s fewer a b i = record {
  sized = i.sized;
  taken = omega (arith, i.taken, fewer);
  used = omega (arith, i.used, fewer);
  bounded = omega (arith, i.bounded);
  ocr_counted = i.ocr_counted ∙ sym a;
  rasterize_counted = i.rasterize_counted ∙ sym b;
}

release-CpuInv : (size j : ℕ) (s : Shared) → CpuInv size s → CpuInv size (release j s)
unfolding release
release-CpuInv size j s i = elim (Option-cases (get_elem? s.leases j)) [
  | inl nothing ↦ rw (release, nothing) i
  | inr (x, found) ↦ elim (Bool-cases x.is_open) [
    | inr again ↦ rw (release, found, again) i
    | inl first ↦
        rw (release, found, first)
          (closed-label size j x.label s (open_leases-close_at j s.leases x found first)
            (open_with-close_at ocr j s.leases x found first)
            (open_with-close_at rasterize j s.leases x found first) i)
  ]
]

-- However callers acquire, give up waiting and release, in any order and each release any number of
-- times, the slots of the semaphore in use are the leases that are open and at most its size, which
-- is the one asked for or 1, and the counters of the two labels are the open leases with each.
pub Reached-CpuInv : (size : ℕ) (s : Shared) → Reached size s → CpuInv size s
Reached-CpuInv size _ made = new_cpu-CpuInv size
Reached-CpuInv size s' (acquired {s = s} l reached h) =
    acquire-CpuInv size l s s' (Reached-CpuInv size s reached) h
Reached-CpuInv size _ (gave_up {s = s} l reached) =
    acquire_cancelled-CpuInv size l s (Reached-CpuInv size s reached)
Reached-CpuInv size _ (released {s = s} i reached) =
    release-CpuInv size i s (Reached-CpuInv size s reached)
