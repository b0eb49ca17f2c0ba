-- ===== src/Mailbox/Keyset/Laws.antt =====
-- internal/mailbox/keyset.go: the browse order is a strict total order on keys.
use pocket_advisor.Prelude.{
  ◌≡◌, ◌⊎◌, true, false, arith, bytes_lt_irrefl, bytes_lt_trans, bytes_lt-total,
}
use pocket_advisor.Mailbox.Keyset.{
  Order, newest_first, oldest_first, unlisted, Key, newest_first_before, before, chronological_less,
}

newest_first_irrefl : (a : Key) → newest_first_before a a ≡ false
unfolding newest_first_before
newest_first_irrefl a = ground (arith, bytes_lt_irrefl a.doc_id)

newest_first_trans :
    (a b c : Key)
    → newest_first_before a b ≡ true
    → newest_first_before b c ≡ true
    → newest_first_before a c ≡ true
unfolding newest_first_before
newest_first_trans a b c h k = ground (arith, bytes_lt_trans c.doc_id b.doc_id a.doc_id)

newest_first-total :
    (a b : Key) → (newest_first_before a b ≡ true) ⊎ ((newest_first_before b a ≡ true) ⊎ (a ≡ b))
unfolding newest_first_before
newest_first-total a b = ground (arith, bytes_lt-total a.doc_id b.doc_id)

pub before_irrefl : (o : Order) (a : Key) → before o a a ≡ false
unfolding before
before_irrefl newest_first a = newest_first_irrefl a
before_irrefl oldest_first a = newest_first_irrefl a
before_irrefl (unlisted s) a = newest_first_irrefl a

pub before_trans :
    (o : Order) (a b c : Key) → before o a b ≡ true → before o b c ≡ true → before o a c ≡ true
unfolding before
before_trans newest_first a b c h k = newest_first_trans a b c h k
before_trans oldest_first a b c h k = newest_first_trans c b a k h
before_trans (unlisted s) a b c h k = newest_first_trans a b c h k

-- Of two keys one is before the other in the browse order, or they are the same key.
pub before-total :
    (o : Order) (a b : Key) → (before o a b ≡ true) ⊎ ((before o b a ≡ true) ⊎ (a ≡ b))
unfolding before
before-total newest_first a b = newest_first-total a b
before-total oldest_first a b = ground (arith, newest_first-total a b)
before-total (unlisted s) a b = newest_first-total a b

pub before-asymm : (o : Order) (a b : Key) → before o a b ≡ true → before o b a ≡ false
before-asymm o a b h = ground (arith, before_trans o a b a h, before_irrefl o a)

pub chronological_irrefl : (a : Key) → chronological_less a a ≡ false
unfolding chronological_less
chronological_irrefl a = ground (arith, bytes_lt_irrefl a.doc_id)

pub chronological_trans :
    (a b c : Key)
    → chronological_less a b ≡ true
    → chronological_less b c ≡ true
    → chronological_less a c ≡ true
unfolding chronological_less
chronological_trans a b c h k = ground (arith, bytes_lt_trans a.doc_id b.doc_id c.doc_id)
