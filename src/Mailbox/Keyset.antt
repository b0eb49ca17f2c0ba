-- ===== src/Mailbox/Keyset.antt =====
-- internal/mailbox/keyset.go: the browse order. An instant is a number of nanoseconds that is 0 for
-- the zero `time.Time`, which stands for a message with no date.
pub mod Laws
use pocket_advisor.Prelude.{
  ℕ, Bool, true, false, not, ◌&&◌, List, Bytes, bytes, bytes_lt, ltb, ◌==◌, if◌then◌else◌, sort_by,
}

pub data Order : Type 0 where
  newest_first oldest_first : Order
  unlisted : Bytes → Order  -- a Go string that is neither

unfoldable pub valid : Order → Bool
valid newest_first = true
valid oldest_first = true
valid (unlisted s) = false

pub record Key : Type 0 where
  pub sent_at : ℕ
  pub doc_id : Bytes

abbrev pub undated : Key → Bool
undated k = k.sent_at == 0

unfoldable pub newest_first_before : Key → Key → Bool
newest_first_before a b =
    if undated a && undated b
    then bytes_lt b.doc_id a.doc_id
    else if undated a
    then false
    else if undated b
    then true
    else if not (a.sent_at == b.sent_at)
    then ltb b.sent_at a.sent_at
    else bytes_lt b.doc_id a.doc_id

-- `before` and `afterKey`.
unfoldable pub before : Order → Key → Key → Bool
unfolding newest_first_before
before oldest_first a b = newest_first_before b a
before newest_first a b = newest_first_before a b
before (unlisted s) a b = newest_first_before a b

abbrev pub after_key : Order → Key → Key → Bool
after_key o prev k = before o prev k

-- The `less` of `chronological`.
unfoldable pub chronological_less : Key → Key → Bool
chronological_less a b =
    if undated a && undated b
    then bytes_lt a.doc_id b.doc_id
    else if undated a
    then false
    else if undated b
    then true
    else if not (a.sent_at == b.sent_at)
    then ltb a.sent_at b.sent_at
    else bytes_lt a.doc_id b.doc_id

-- `sortByOrder` and `chronological`, over anything that has a key.
unfoldable pub sort_by_order {ℓ} : {A : Type ℓ} → (A → Key) → Order → List A → List A
sort_by_order key o = sort_by (λ a b. before o (key a) (key b))

unfoldable pub chronological {ℓ} : {A : Type ℓ} → (A → Key) → List A → List A
chronological key = sort_by (λ a b. chronological_less (key a) (key b))
