-- ===== src/RMulticast/Once.antt =====
-- No message is handed on twice, whatever arrives.
use cs425_mps.Base.{◌≡◌, ◌≢◌, Option, none, List, [], ◌∷◌, ◌++◌, arith, All}
use cs425_mps.Base.Text.{Str, str_eq_iff}
use cs425_mps.Base.Dict.{Dict, lookup, insert, lookup-insert}
use cs425_mps.Base.Run.{Run, ok, Returns-ok}
use cs425_mps.Base.Result.{Error}
use cs425_mps.Codec.{Codec}
use cs425_mps.Message.{BMsg, RMsg, decode_r_msg}
use cs425_mps.BMulticast.{BMulticast}
use cs425_mps.RMulticast.{RMulticast, new_r_multicast, r_deliver}
use cs425_mps.RMulticast.Deliver.{
  RDelivers, Kept, RunReturns, undecodable, unsent, duplicate, first, r_deliver_correct,
}

-- No two entries of the list are equal.
abbrev pub IsDistinct : List Str → Type 0
IsDistinct [] = Unit
IsDistinct (x ∷ l) = All (λ y. x ≢ y) l × IsDistinct l

-- The identifiers that were handed on are distinct, and all of them are marked as received.
pub record IsOnce (r : RMulticast) : Type 0 where
  pub distinct : IsDistinct r.delivered
  pub marked : All (λ id. lookup id r.received ≢ none) r.delivered

All-snoc : (P : Str → Type 0) (l : List Str) (x : Str) → All P l → P x → All P (l ++ x ∷ [])
All-snoc P [] x h p = (p, tt)
All-snoc P (y ∷ l) x h p = (h.0, All-snoc P l x h.1 p)

All-each : {P Q : Str → Type 0} (l : List Str) → ((x : Str) → P x → Q x) → All P l → All Q l
All-each [] f h = tt
All-each (x ∷ l) f h = (f x h.0, All-each l f h.1)

IsDistinct-snoc :
    (l : List Str) (x : Str) → IsDistinct l → All (λ y. y ≢ x) l → IsDistinct (l ++ x ∷ [])
IsDistinct-snoc [] x d h = (tt, tt)
IsDistinct-snoc (y ∷ l) x d h = (All-snoc (λ z. y ≢ z) l x d.0 h.0, IsDistinct-snoc l x d.1 h.1)

marked-insert :
    (id j : Str) (m : Dict (Unit {0})) → lookup j m ≢ none → lookup j (insert id tt m) ≢ none
marked-insert id j m h e = ground (arith, lookup-insert id j tt m, h, e)

not_marked : (id j : Str) (m : Dict (Unit {0})) → lookup id m ≡ none → lookup j m ≢ none → j ≢ id
not_marked id j m new h e = h (rw e new)

-- One message.
pub RDelivers-IsOnce :
    {S : Type 0} (cb : Codec BMsg) (cr : Codec RMsg)
    (run : Str → RMsg → BMulticast → S → Run ((BMulticast × S) × Option Error)) (r : RMulticast)
    (s : S) (msg : BMsg) (u : RMulticast × S × Option Error)
    → IsOnce r
    → RDelivers cb cr run r s msg u
    → IsOnce u.0
RDelivers-IsOnce cb cr run r s msg _ o (undecodable e bad) = o
RDelivers-IsOnce cb cr run r s msg _ o (duplicate good old) = o
RDelivers-IsOnce cb cr run r s msg _ o (unsent e good new ne bad) = record {
  distinct = o.distinct;
  marked =
      All-each r.delivered (λ j. marked-insert (decode_r_msg cr msg.body).0.id j r.received)
        o.marked;
}
RDelivers-IsOnce cb cr run r s msg _ o (first sent x good new relays e) =
    let id = (decode_r_msg cr msg.body).0.id in
    record {
      distinct =
          IsDistinct-snoc r.delivered id o.distinct
            (All-each r.delivered (λ j. not_marked id j r.received new) o.marked);
      marked =
          All-snoc (λ j. lookup j (insert id tt r.received) ≢ none) r.delivered id
            (All-each r.delivered (λ j. marked-insert id j r.received) o.marked)
            (λ h. ground (arith, lookup-insert id id tt r.received, str_eq_iff id id, h));
    }

pub new_r_multicast-IsOnce : (b : BMulticast) → IsOnce (new_r_multicast b)
unfolding new_r_multicast
new_r_multicast-IsOnce b = record { distinct = tt; marked = tt }

module _ {S : Type 0} (cb : Codec BMsg) (cr : Codec RMsg)
    (run : Str → RMsg → BMulticast → S → Run ((BMulticast × S) × Option Error)) (I : S → Type 0)
    (run_returns : RunReturns cb cr run I) where
  -- What a node goes through. Between two messages its other layers may do anything to the basic
  -- multicast and to their own state that keeps the members a map and the state valid.
  pub data Hears : RMulticast → S → Type 0 where
    starts : (b : BMulticast) (s : S) → Kept cb cr run I b s → Hears (new_r_multicast b) s
    acts :
        (r : RMulticast) (s : S) (b : BMulticast) (t : S)
        → Hears r s
        → Kept cb cr run I b t
        → Hears (record r { bmulticast = b }) t
    hears :
        (r : RMulticast) (s : S) (msg : BMsg) (u : RMulticast × S × Option Error)
        → Hears r s
        → r_deliver cb cr run r s msg ≡ ok u
        → Hears u.0 u.1

  -- Whatever messages a node gets, also the same one again and again and from several senders, and
  -- whatever its other layers do in between, the identifiers that its reliable multicast hands on
  -- are distinct, each is marked as received, the members are a map without a nil client and the
  -- state of the handlers is valid. What the other layers and the handlers do keeps the members
  -- such a map and that state valid, and the handlers return.
  pub Hears-IsOnce :
      {r : RMulticast} {s : S} → Hears r s → IsOnce r × Kept cb cr run I r.bmulticast s
  unfolding new_r_multicast
  Hears-IsOnce (starts b s kept) = (new_r_multicast-IsOnce b, kept)
  Hears-IsOnce (acts r s b t h kept) =
      let o = (Hears-IsOnce h).0 in (record { distinct = o.distinct; marked = o.marked }, kept)
  Hears-IsOnce (hears r s msg u h e) =
      let (once, kept) = Hears-IsOnce h in
      let (d, after) = Returns-ok e (r_deliver_correct cb cr run I run_returns r s msg kept) in
      (RDelivers-IsOnce cb cr run r s msg u once d, after)
