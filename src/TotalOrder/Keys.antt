-- ===== src/TotalOrder/Keys.antt =====
-- The order of agreed keys, and logs that are sorted by it.
use cs425_mps.Base.{◌<◌, ◌≡◌, true, false, List, [], ◌∷◌, ◌++◌, arith, All}
use cs425_mps.HoldQueue.{ToHoldQueueItem, less_item}
use cs425_mps.HoldQueue.Slots.{no_item, strip}
use cs425_mps.TotalOrder.{Delivery}
use cs425_mps.TotalOrder.Heads.{delivery}

-- An item with the key of a delivered message.
abbrev pub key_item : Delivery → ToHoldQueueItem
key_item d = record no_item {
  proposal_seq_num = d.seq_num;
  process_id = d.process_id;
  agreed = true;
}

-- The item does not come before the delivered message.
abbrev pub NotBefore : ToHoldQueueItem → Delivery → Type 0
NotBefore x d = less_item x (key_item d) ≡ false

-- Each message of the log comes before, or level with, those behind it: by sequence number, then by
-- process.
abbrev pub IsSorted : List Delivery → Type 0
IsSorted [] = Unit
IsSorted (d ∷ log) = All (λ e. NotBefore (key_item e) d) log × IsSorted log

pub All-map :
    (P Q : Delivery → Type 0) (log : List Delivery)
    → ((d : Delivery) → P d → Q d)
    → All P log
    → All Q log
All-map P Q [] f h = tt
All-map P Q (d ∷ log) f h = (f d h.0, All-map P Q log f h.1)

pub All-append :
    (P : Delivery → Type 0) (log : List Delivery) (d : Delivery)
    → All P log
    → P d
    → All P (log ++ d ∷ [])
All-append P [] d h p = (p, tt)
All-append P (e ∷ log) d h p = (h.0, All-append P log d h.1 p)

pub IsSorted-append :
    (log : List Delivery) (d : Delivery)
    → IsSorted log
    → All (NotBefore (key_item d)) log
    → IsSorted (log ++ d ∷ [])
IsSorted-append [] d h p = (tt, tt)
IsSorted-append (e ∷ log) d h p =
    (All-append (λ x. NotBefore (key_item x) e) log d h.0 p.0, IsSorted-append log d h.1 p.1)

-- An item that an index apart is another, comes before the same messages.
pub NotBefore-strip :
    (x y : ToHoldQueueItem) (d : Delivery) → strip x ≡ strip y → NotBefore y d → NotBefore x d
unfolding less_item
NotBefore-strip x y d e h = ground (arith, e, h)

-- An agreed item has the key of its delivery.
pub less_item-delivery :
    (x y : ToHoldQueueItem) → y.agreed ≡ true → less_item x (key_item (delivery y)) ≡ less_item x y
unfolding less_item
less_item-delivery x y e = rw e

pub delivery-less_item :
    (x : ToHoldQueueItem) (d : Delivery)
    → x.agreed ≡ true
    → NotBefore x d
    → NotBefore (key_item (delivery x)) d
unfolding less_item
delivery-less_item x d e h = ground (arith, e, h)

-- An item with a sequence number above all that was agreed comes after all that was delivered.
pub NotBefore-above :
    (x : ToHoldQueueItem) (d : Delivery) → d.seq_num < x.proposal_seq_num → NotBefore x d
unfolding less_item
NotBefore-above x d h = ground arith
