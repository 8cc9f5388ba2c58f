-- ===== src/HoldQueue/Order.antt =====
-- `Less` is a strict weak order.
use cs425_mps.Base.{ℕ, List, ◌≡◌, true, false, arith}
use cs425_mps.Base.Text.{str_lt, str_lt_irrefl, str_lt_trans, str_lt_total}
use cs425_mps.HoldQueue.{ToHoldQueueItem, less_item}

str_lt_asymm : (s t : List ℕ) → str_lt s t ≡ true → str_lt t s ≡ false
str_lt_asymm s t h = ground (arith, str_lt_trans s t s, str_lt_irrefl s)

str_le_trans : (s t u : List ℕ) → str_lt t s ≡ false → str_lt u t ≡ false → str_lt u s ≡ false
str_le_trans s t u h k =
    ground (arith, str_lt_trans u s t, str_lt_total s t, str_lt_asymm s t, str_lt_trans s t u)

pub less_item_asymm : (a b : ToHoldQueueItem) → less_item a b ≡ true → less_item b a ≡ false
unfolding less_item
less_item_asymm a b h = ground (arith, str_lt_asymm a.process_id b.process_id)

-- The order that Less leaves is transitive: if b does not come before a, nor c before b, then c
-- does not come before a.
pub less_item-le_trans :
    (a b c : ToHoldQueueItem)
    → less_item b a ≡ false
    → less_item c b ≡ false
    → less_item c a ≡ false
unfolding less_item
less_item-le_trans a b c h k = ground (arith, str_le_trans a.process_id b.process_id c.process_id)
