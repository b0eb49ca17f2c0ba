-- ===== src/Mailbox/Pages/Step.antt =====
-- internal/mailbox: one page of a series, after any boundary.
use pocket_advisor.Prelude.{
  ◌≡◌, sym, ◌∙◌, ap, Bool, true, false, List, [], ◌∷◌, ◌++◌, map, some, arith, Bytes, select,
  sort_by, Apart, AllApart, sort_by-Strict, sort_by-select, select_after, contains, bytes_Eq,
  bytes_eq_iff, Distinct,
}
use mathlib.Core.Path.{fun_ext}
use pocket_advisor.Mailbox.Keyset.{Order}
use pocket_advisor.Mailbox.Keyset.Laws.{before_trans, before-asymm, before-total}
use pocket_advisor.Mailbox.Store.{Message, key, row_before, after_boundary}
use pocket_advisor.Mailbox.Store.Keyset.{row_before-eq-before, keyset_predicate-eq-after_key}

abbrev pub doc_ids : List Message → List Bytes
doc_ids = map (λ m. m.doc_id)

module _ (o : Order) where
  pub row_trans :
      (x y z : Message)
      → row_before o x y ≡ true
      → row_before o y z ≡ true
      → row_before o x z ≡ true
  row_trans x y z h k =
      row_before-eq-before o x z
      ∙ before_trans o (key x) (key y) (key z) (sym (row_before-eq-before o x y) ∙ h)
          (sym (row_before-eq-before o y z) ∙ k)

  pub row_asymm : (x y : Message) → row_before o x y ≡ true → row_before o y x ≡ false
  row_asymm x y h =
      row_before-eq-before o y x
      ∙ before-asymm o (key x) (key y) (sym (row_before-eq-before o x y) ∙ h)

  rows-Apart :
      (x : Message) (ms : List Message)
      → contains (doc_ids ms) x.doc_id ≡ false
      → Apart (row_before o) x ms
  rows-Apart x [] h = tt
  rows-Apart x (y ∷ ms) h = (
    ground (
      arith,
      row_before-eq-before o x y,
      row_before-eq-before o y x,
      before-total o (key x) (key y),
      bytes_eq_iff y.doc_id x.doc_id,
    ),
    rows-Apart x ms (ground arith),
  )

  pub rows-AllApart : (ms : List Message) → Distinct (doc_ids ms) → AllApart (row_before o) ms
  rows-AllApart [] d = tt
  rows-AllApart (m ∷ ms) d = (rows-Apart m ms d.0, rows-AllApart ms d.1)

  -- The rows after a row of the sorted list are the rest of that list.
  pub sorted_after :
      (vs front back : List Message) (m : Message)
      → AllApart (row_before o) vs
      → sort_by (row_before o) vs ≡ front ++ m ∷ back
      → sort_by (row_before o) (select (after_boundary o (some (key m))) vs) ≡ back
  unfolding after_boundary
  sorted_after vs front back m a e =
      ap (λ (p : Message → Bool). sort_by (row_before o) (select p vs))
        (fun_ext λ x. keyset_predicate-eq-after_key o (key m) x ∙ sym (row_before-eq-before o m x))
      ∙ (sort_by-select (row_before o) row_trans row_asymm (row_before o m) vs a
          ∙ (ap (select (row_before o m)) e
              ∙ select_after (row_before o) row_trans row_asymm front m back
                  (rw e at (sort_by-Strict (row_before o) row_trans row_asymm vs a))))
