-- ===== src/Mailbox/Examples.antt =====
-- internal/mailbox: a small store, and an encoding of cursors, on which the theorems apply.
use pocket_advisor.Prelude.{
  ℕ, zero, suc, ◌+◌, ◌<◌, ◌≡◌, refl, ap, false, List, [], ◌∷◌, ◌++◌, Option, none, some, arith,
  Bytes, bytes, take, drop, length, sort_by, select, length-sort_by,
}
use pocket_advisor.Mailbox.Keyset.{
  Order, newest_first, oldest_first, unlisted, valid, before, after_key,
}
use pocket_advisor.Mailbox.Store.{
  Filters, unset, Message, key, row_before, keyset_predicate, is_empty, matches, direction_matches,
  direction_error,
}
use pocket_advisor.Mailbox.Store.Keyset.{row_before-eq-before, keyset_predicate-eq-after_key}
use pocket_advisor.Mailbox.Cursor.{
  Codec, CursorState, ok, fingerprint, preimage, prefixed, itoa, decode_cursor, check, cursor_for,
  boundary, direction_text, is_uuid,
}
use pocket_advisor.Mailbox.Cursor.RoundTrip.{cursor_for-decode}
use pocket_advisor.Mailbox.Cursor.Preimage.{preimage_injective}
use pocket_advisor.Mailbox.Pages.{Config, Request, page_limit}
use pocket_advisor.Mailbox.Pages.Verified.{series_rows}
use pocket_advisor.Mailbox.Pages.Series.{follow, follow-sorted}

take-append : (xs ys : Bytes) → take (length xs) (xs ++ ys) ≡ xs
take-append [] ys = refl
take-append (x ∷ xs) ys = ap (◌∷◌ x) (take-append xs ys)

drop-append : (xs ys : Bytes) → drop (length xs) (xs ++ ys) ≡ ys
drop-append [] ys = refl
drop-append (x ∷ xs) ys = drop-append xs ys

-- A cursor as a list of numbers: the fixed fields, two lengths, two texts, the order.
abbrev order_bytes : Order → Bytes
order_bytes newest_first = 0 ∷ []
order_bytes oldest_first = 1 ∷ []
order_bytes (unlisted s) = 2 ∷ s

abbrev order_of : Bytes → Order
order_of [] = newest_first
order_of (zero ∷ s) = newest_first
order_of (suc zero ∷ s) = oldest_first
order_of (suc (suc n) ∷ s) = unlisted s

abbrev instant_number : Option ℕ → ℕ
instant_number none = 0
instant_number (some t) = suc t

abbrev instant_of : ℕ → Option ℕ
instant_of zero = none
instant_of (suc t) = some t

abbrev write : CursorState → Bytes
write st =
    st.version
    ∷ st.snapshot
    ∷ instant_number st.sent_at
    ∷ length st.fingerprint
    ∷ length st.doc_id
    ∷ (st.fingerprint ++ (st.doc_id ++ order_bytes st.order))

abbrev read : Bytes → Option CursorState
read (v ∷ snapshot ∷ sent ∷ m ∷ n ∷ s) = some (record {
  version = v;
  order = order_of (drop n (drop m s));
  fingerprint = take m s;
  sent_at = instant_of sent;
  doc_id = take n (drop m s);
  snapshot = snapshot;
})
read _ = none

abbrev codec : Codec
codec = record { write = write; read = read; sum = λ s. s; format_time = λ t. t ∷ [] }

order_of-order_bytes : (o : Order) → order_of (order_bytes o) ≡ o
order_of-order_bytes newest_first = refl
order_of-order_bytes oldest_first = refl
order_of-order_bytes (unlisted s) = refl

instant_of-instant_number : (t : Option ℕ) → instant_of (instant_number t) ≡ t
instant_of-instant_number none = refl
instant_of-instant_number (some t) = refl

read-write : (st : CursorState) → read (write st) ≡ some st
read-write st =
    rw
      (
        take-append st.fingerprint (st.doc_id ++ order_bytes st.order),
        drop-append st.fingerprint (st.doc_id ++ order_bytes st.order),
        take-append st.doc_id (order_bytes st.order),
        drop-append st.doc_id (order_bytes st.order),
        order_of-order_bytes st.order,
        instant_of-instant_number st.sent_at,
      )
      refl

abbrev filters : Filters
filters = record {
  sender = [];
  sender_domain = [];
  recipient = [];
  after = 0;
  before = 0;
  direction = unset;
}

abbrev first_id : Bytes
first_id = bytes "00000000-0000-4000-8000-00000000000a"

abbrev second_id : Bytes
second_id = bytes "00000000-0000-4000-8000-00000000000b"

abbrev message : Bytes → ℕ → Message
message doc_id sent_at = record {
  doc_id = doc_id;
  sent_at = sent_at;
  ingested_at = 3;
  addresses = [];
  warnings = [];
}

-- A dated message and one without a date.
abbrev table : List Message
table = message first_id 0 ∷ message second_id 50 ∷ []

-- A message that is ingested after the first page is read.
abbrev tables : ℕ → List Message
tables zero = table
tables (suc k) = record (message [] 60) { ingested_at = 90 } ∷ table

abbrev request : Request
request = record { filters = filters; order = newest_first; limit = 1; cursor = [] }

abbrev config : Config
config = record { default_limit = 50; max_limit = 200 }

stable : (k : ℕ) → series_rows codec config [] request 10 (tables k) ≡ table
unfolding select matches direction_matches
stable zero = refl
stable (suc k) = refl

named : is_empty (fingerprint codec filters) ≡ false
unfolding fingerprint preimage prefixed itoa
named = refl

cursor_for-decode_example :
    (decode_cursor codec
        (write (cursor_for codec (key (message first_id 0)) newest_first filters 10))
      ≡ ok (cursor_for codec (key (message first_id 0)) newest_first filters 10))
    × (check codec
          (cursor_for codec (key (message first_id 0)) newest_first filters 10)
          newest_first
          filters
        ≡ ok (cursor_for codec (key (message first_id 0)) newest_first filters 10))
    × (boundary (cursor_for codec (key (message first_id 0)) newest_first filters 10)
        ≡ key (message first_id 0))
unfolding is_uuid valid
cursor_for-decode_example =
    cursor_for-decode codec (key (message first_id 0)) newest_first filters 10 read-write named refl
      refl (omega arith)

follow-sorted_example :
    follow codec config [] tables (λ k. 10 + k) 3 0 request
    ≡ some (sort_by (row_before newest_first) table)
unfolding is_uuid valid direction_error page_limit
follow-sorted_example =
    follow-sorted codec config [] tables (λ k. 10 + k) request table read-write (λ st. refl) named
      refl refl (omega arith) (omega arith) (refl, (refl, tt)) (refl, (refl, tt)) stable 3 refl
      shown
  where
    shown : length (sort_by (row_before newest_first) table) < 3
    shown = rw (length-sort_by (row_before newest_first) table) (omega arith)

preimage_injective_example :
    (filters.sender ≡ filters.sender)
    × (filters.sender_domain ≡ filters.sender_domain)
    × (filters.recipient ≡ filters.recipient)
    × (direction_text filters.direction ≡ direction_text filters.direction)
    × (filters.after ≡ filters.after)
    × (filters.before ≡ filters.before)
preimage_injective_example =
    preimage_injective codec filters filters (λ t e. ground arith) (λ t u e. ground arith) refl

row_before-eq-before_example :
    row_before newest_first (message first_id 0) (message second_id 50)
    ≡ before newest_first (key (message first_id 0)) (key (message second_id 50))
row_before-eq-before_example =
    row_before-eq-before newest_first (message first_id 0) (message second_id 50)

keyset_predicate-eq-after_key_example :
    keyset_predicate oldest_first (key (message first_id 0)) (message second_id 50)
    ≡ after_key oldest_first (key (message first_id 0)) (key (message second_id 50))
keyset_predicate-eq-after_key_example =
    keyset_predicate-eq-after_key oldest_first (key (message first_id 0)) (message second_id 50)
