-- ===== src/Mailbox/Cursor/RoundTrip.antt =====
-- internal/mailbox/cursor.go: a cursor that the service issues is accepted by the same request.
use pocket_advisor.Prelude.{
  ℕ, ◌<◌, ◌≡◌, refl, true, false, [], ◌∷◌, some, arith, Bytes, bytes_eq_refl,
}
use pocket_advisor.Mailbox.Keyset.{Order, newest_first, oldest_first, unlisted, valid, Key}
use pocket_advisor.Mailbox.Store.{Filters, is_empty}
use pocket_advisor.Mailbox.Cursor.{
  Codec, CursorState, ok, fingerprint, is_uuid, decode_cursor, check, cursor_for, boundary,
}

is_uuid_some : (s : Bytes) → is_uuid s ≡ true → is_empty s ≡ false
unfolding is_uuid
is_uuid_some [] h = ground arith
is_uuid_some (b ∷ bs) h = refl

unlisted_invalid : (s : Bytes) → valid (unlisted s) ≡ true → ⊥
unfolding valid
unlisted_invalid s h = cc

module _ (c : Codec) where
  -- A cursor issued at a key for a request is decoded whole, passes the check of the same order and
  -- filters, and gives the key back; for a valid order, a positive snapshot, a UUID, a fingerprint
  -- that is not empty and cursors that are read back as written.
  pub cursor_for-decode :
      (k : Key) (o : Order) (f : Filters) (snapshot : ℕ)
      → ((st : CursorState) → c.read (c.write st) ≡ some st)
      → is_empty (fingerprint c f) ≡ false
      → is_uuid k.doc_id ≡ true
      → valid o ≡ true
      → 0 < snapshot
      → (decode_cursor c (c.write (cursor_for c k o f snapshot)) ≡ ok (cursor_for c k o f snapshot))
        × (check c (cursor_for c k o f snapshot) o f ≡ ok (cursor_for c k o f snapshot))
        × (boundary (cursor_for c k o f snapshot) ≡ k)
  unfolding decode_cursor check cursor_for boundary
  cursor_for-decode k newest_first f snapshot back named uuid v taken = ground (
    arith,
    back (cursor_for c k newest_first f snapshot),
    is_uuid_some k.doc_id uuid,
    bytes_eq_refl (fingerprint c f),
  )
  cursor_for-decode k oldest_first f snapshot back named uuid v taken = ground (
    arith,
    back (cursor_for c k oldest_first f snapshot),
    is_uuid_some k.doc_id uuid,
    bytes_eq_refl (fingerprint c f),
  )
  cursor_for-decode k (unlisted s) f snapshot back named uuid v taken =
      absurd (unlisted_invalid s v)
