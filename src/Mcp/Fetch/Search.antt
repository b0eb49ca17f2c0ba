-- ===== src/Mcp/Fetch/Search.antt =====
-- internal/mcp/document.go: what `largestFitting` finds, also for a test that is not monotone.
use pocket_advisor.Prelude.{
  ℕ, zero, suc, ◌+◌, ◌-◌, ◌/◌, ◌≤◌, ◌<◌, ◌≡◌, refl, ◌⊎◌, inl, inr, Bool, true, Option, none, some,
  arith, ltb, Bool-cases,
}
use pocket_advisor.Mcp.Documents.{search_largest, largest_fitting}

-- A value found passes the test and lies in the range.
abbrev pub Within : (ℕ → Bool) → ℕ → ℕ → Option ℕ → Type 0
Within fits low bound none = Unit {0}
Within fits low bound (some n) = (fits n ≡ true) × (low ≤ n) × (n < bound)

-- A value of at least the first number was found.
abbrev pub AtLeast : ℕ → Option ℕ → Type 0
AtLeast least none = least < 0
AtLeast least (some n) = least ≤ n

module _ (fits : ℕ → Bool) where
  search_largest-Within :
      (low bound fuel l b : ℕ) (best : Option ℕ)
      → low ≤ l
      → b ≤ bound
      → Within fits low bound best
      → Within fits low bound (search_largest fits fuel l b best)
  unfolding search_largest
  search_largest-Within low bound zero l b best h k w = w
  search_largest-Within low bound (suc fuel) l b best h k w =
      let middle = l + (b - 1 - l) / 2 in
      elim (Bool-cases (ltb l b)) [
        | inr over ↦ rw (search_largest, over) w
        | inl more ↦
            let inside : l < b = ground arith in
            elim (Bool-cases (fits middle)) [
              | inl fit ↦
                  rw (search_largest, more, fit)
                    (search_largest-Within low bound fuel (suc middle) b (some middle) (omega arith)
                      k (fit, omega arith, omega arith))
              | inr unfit ↦
                  rw (search_largest, more, unfit)
                    (search_largest-Within low bound fuel l middle best h (omega arith) w)
            ]
      ]

  pub largest_fitting-Within :
      (low bound : ℕ) → Within fits low bound (largest_fitting low bound fits)
  unfolding largest_fitting
  largest_fitting-Within low bound =
      search_largest-Within low bound (bound - low) low bound none (omega arith) (omega arith) tt

  search_largest_least :
      (least fuel l b : ℕ) (best : Option ℕ)
      → ((m : ℕ) → m ≤ least → fits m ≡ true)
      → b ≤ l + fuel
      → (AtLeast least best × (least < l)) ⊎ ((l ≤ least) × (least < b))
      → AtLeast least (search_largest fits fuel l b best)
  unfolding search_largest
  search_largest_least least zero l b best small enough (inl (found, h)) = found
  search_largest_least least zero l b best small enough (inr (h, k)) = absurd (omega arith)
  search_largest_least least (suc fuel) l b best small enough now =
      let middle = l + (b - 1 - l) / 2 in
      elim (Bool-cases (ltb l b)) [
        | inr over ↦ elim now [
          | inl (found, h) ↦ rw (search_largest, over) found
          | inr (h, k) ↦ absurd (ground arith)
        ]
        | inl more ↦
            let inside : l < b = ground arith in
            elim (Bool-cases (fits middle)) [
              | inl fit ↦
                  rw (search_largest, more, fit)
                    (search_largest_least least fuel (suc middle) b (some middle) small
                      (omega arith)
                      (elim (Bool-cases (ltb middle least)) [
                        | inl under ↦ inr (ground arith, ground arith)
                        | inr above ↦ inl (ground arith, ground arith)
                      ]))
              | inr unfit ↦
                  rw (search_largest, more, unfit)
                    (search_largest_least least fuel l middle best small (omega arith) (elim now [
                      | inl found ↦ inl found
                      | inr (h, k) ↦ elim (Bool-cases (ltb least middle)) [
                        | inl above ↦ inr (h, ground arith)
                        | inr under ↦ absurd (let fit = small middle (ground arith) in cc)
                      ]
                    ]))
            ]
      ]

  -- When all values up to one in the range pass, the search finds that one or a larger one.
  pub largest_fitting_least :
      (least bound : ℕ)
      → ((m : ℕ) → m ≤ least → fits m ≡ true)
      → least < bound
      → AtLeast least (largest_fitting 0 bound fits)
  unfolding largest_fitting
  largest_fitting_least least bound small h =
      search_largest_least least (bound - 0) 0 bound none small (omega arith) (inr (omega arith, h))

  search_largest_far :
      (low first last fuel l b : ℕ) (best : Option ℕ)
      → ((m : ℕ) → first ≤ m → m ≤ last → fits m ≡ true)
      → low ≤ last
      → first ≤ low + (last - low) / 2
      → b ≤ l + fuel
      → (AtLeast low best × (low ≤ l)) ⊎ ((l ≡ low) × (first ≤ low + (b - 1 - low) / 2) × (low < b))
      → AtLeast low (search_largest fits fuel l b best)
  unfolding search_largest
  search_largest_far low first last zero l b best fit reach far enough (inl (found, h)) = found
  search_largest_far low first last zero l b best fit reach far enough (inr (h, k, p)) =
      absurd (omega arith)
  search_largest_far low first last (suc fuel) l b best fit reach far enough now =
      let middle = l + (b - 1 - l) / 2 in
      elim (Bool-cases (ltb l b)) [
        | inr over ↦ elim now [
          | inl (found, h) ↦ rw (search_largest, over) found
          | inr (h, k, p) ↦ absurd (ground arith)
        ]
        | inl more ↦
            let inside : l < b = ground arith in
            let above : low ≤ l = elim now [ inl (f, h) ↦ h | inr (h, k, p) ↦ omega (arith, h) ] in
            elim (Bool-cases (fits middle)) [
              | inl fits_there ↦
                  rw (search_largest, more, fits_there)
                    (search_largest_far low first last fuel (suc middle) b (some middle) fit reach
                      far (omega arith) (inl (omega arith, omega arith)))
              | inr unfit ↦
                  rw (search_largest, more, unfit)
                    (search_largest_far low first last fuel l middle best fit reach far
                      (omega arith)
                      (elim now [
                        | inl found ↦ inl found
                        | inr (h, k, p) ↦ elim (Bool-cases (ltb last middle)) [
                          | inl behind ↦
                              let after : last < middle = ground arith in
                              inr (h, omega arith, omega arith)
                          | inr before ↦
                              absurd (let there = fit middle (omega arith) (ground arith) in cc)
                        ]
                      ]))
            ]
      ]

  -- When the values of a stretch that reaches over the middle of the range pass, and the stretch is as
  -- long as what lies before it, the search finds a value.
  pub largest_fitting_far :
      (low first last bound : ℕ)
      → ((m : ℕ) → first ≤ m → m ≤ last → fits m ≡ true)
      → low ≤ last
      → first ≤ low + (last - low) / 2
      → first ≤ low + (bound - 1 - low) / 2
      → low < bound
      → AtLeast low (largest_fitting low bound fits)
  unfolding largest_fitting
  largest_fitting_far low first last bound fit reach far there h =
      search_largest_far low first last (bound - low) low bound none fit reach far (omega arith)
        (inr (refl, there, h))
