-- ===== src/Mailbox/Store/Keyset.antt =====
-- internal/mailbox: the order and the boundary of the SQL statement are those of keyset.go.
use pocket_advisor.Prelude.{◌≡◌, arith}
use pocket_advisor.Mailbox.Keyset.{
  Order, newest_first, oldest_first, unlisted, Key, before, after_key,
}
use pocket_advisor.Mailbox.Store.{Message, key, row_before, keyset_predicate}

-- The ORDER BY of the store, over columns that may be NULL, orders two rows as Order.before orders
-- their keys.
pub row_before-eq-before : (o : Order) (a b : Message) → row_before o a b ≡ before o (key a) (key b)
unfolding row_before before
row_before-eq-before oldest_first a b = ground arith
row_before-eq-before newest_first a b = ground arith
row_before-eq-before (unlisted s) a b = ground arith

-- The predicate of the SQL statement accepts a row exactly when its key comes after the boundary in
-- the browse order.
pub keyset_predicate-eq-after_key :
    (o : Order) (k : Key) (m : Message) → keyset_predicate o k m ≡ after_key o k (key m)
unfolding keyset_predicate before
keyset_predicate-eq-after_key oldest_first k m = ground arith
keyset_predicate-eq-after_key newest_first k m = ground arith
keyset_predicate-eq-after_key (unlisted s) k m = ground arith
