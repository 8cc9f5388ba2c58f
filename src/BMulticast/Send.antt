-- ===== src/BMulticast/Send.antt =====
-- Whom a multicast reaches, and who leaves the group.
use mathlib.Core.List.{append_assoc, append-nil}
use cs425_mps.Base.{
  ℕ, ◌+◌, ◌≡◌, refl, sym, ap, ◌∙◌, ◌≢◌, ◌⊎◌, inl, inr, Bool, true, false, Option, Bool-cases, none,
  some, List, [], ◌∷◌, ◌++◌, map, length, arith, length-append, Option-cases,
}
use cs425_mps.Base.Text.{Str, str_eq, str_eq_iff}
use cs425_mps.Base.Run.{Run, panic, Returns, returns, Returns-map, Returns-bind}
use cs425_mps.Base.Dict.{
  lookup, insert, delete, lookup-insert, lookup-delete, insert-middle, delete-middle, Apart,
  Apart-snoc, none-Apart,
}
use cs425_mps.Base.Result.{Error, ok, err}
use cs425_mps.Codec.{Codec, Bytes}
use cs425_mps.Client.{TcpClient, send, frame}
use cs425_mps.Message.{BMsg}
use cs425_mps.BMulticast.{Members, write_to, BMulticast, send_to, multicast_loop, multicast, pack}

-- The members are a map, and none of them is nil.
abbrev pub IsMembers : Members → Type 0
IsMembers [] = Unit
IsMembers ((k, none) ∷ m) = ⊥
IsMembers ((k, some c) ∷ m) = (lookup k m ≡ none) × IsMembers m

pub insert-IsMembers :
    (k : Str) (c : TcpClient) (m : Members) → IsMembers m → IsMembers (insert k (some c) m)
unfolding insert lookup
insert-IsMembers k c [] h = (refl, tt)
insert-IsMembers k c ((j, none) ∷ m) h = absurd h
insert-IsMembers k c ((j, some d) ∷ m) h = ground (
  arith,
  str_eq_iff j k,
  str_eq_iff k j,
  insert-IsMembers k c m h.1,
  lookup-insert k j (some c) m,
)

pub delete-IsMembers : (k : Str) (m : Members) → IsMembers m → IsMembers (delete k m)
unfolding delete lookup
delete-IsMembers k [] h = tt
delete-IsMembers k ((j, none) ∷ m) h = absurd h
delete-IsMembers k ((j, some d) ∷ m) (new, h) =
    ground (arith, delete-IsMembers k m h, lookup-delete k j m)

pub lookup-client :
    (k : Str) (m : Members) (sender : Option TcpClient)
    → IsMembers m
    → lookup k m ≡ some sender
    → (c : TcpClient) × (sender ≡ some c)
unfolding lookup
lookup-client k [] sender h e = absurd (ground (arith, e))
lookup-client k ((j, none) ∷ m) sender h e = absurd h
lookup-client k ((j, some d) ∷ m) sender (new, h) e = elim (Bool-cases (str_eq j k)) [
  | inl same ↦ (d, ground (arith, e, same))
  | inr other ↦ lookup-client k m sender h (ground (arith, e, other))
]

-- The members whose next write succeeds, with that write done.
abbrev pub survivors : Members → Members
survivors [] = []
survivors ((k, none) ∷ m) = survivors m
survivors ((k, some c) ∷ m) = elim c.connection [
  | [] ↦ survivors m
  | up ∷ rest ↦ elim up [
    | true ↦ (k, some (record c { connection = rest })) ∷ survivors m
    | false ↦ survivors m
  ]
]

-- The counts after each loss, with `n` members before these.
abbrev pub losses : ℕ → Members → List ℕ
losses n [] = []
losses n ((k, none) ∷ m) = losses n m
losses n ((k, some c) ∷ m) = elim c.connection [
  | [] ↦ (n + length m) ∷ losses n m
  | up ∷ rest ↦ elim up [ true ↦ losses (n + 1) m | false ↦ (n + length m) ∷ losses n m ]
]

-- One frame to each of them.
abbrev pub frames : Bytes → Members → List (Str × Bytes)
frames bytes = map (λ e. (e.0, frame bytes))

-- What a multicast makes of a group: those that fail leave it, each loss is published, and each that
-- is left got one frame.
pub record Reaches (front todo : Members) (bytes : Bytes) (b r : BMulticast) : Type 0 where
  pub self : r.self_node_id ≡ b.self_node_id
  pub senders : r.senders ≡ front ++ survivors todo
  pub published : r.published ≡ b.published ++ losses (length front) todo
  pub written : r.written ≡ b.written ++ frames bytes (survivors todo)

send_fails :
    (b : BMulticast) (k : Str) (c : TcpClient) (bytes : Bytes) (front rest : Members)
    → b.senders ≡ front ++ (k, some c) ∷ rest
    → lookup k front ≡ none
    → lookup k rest ≡ none
    → (send c bytes).1 ≢ none
    → (write_to b k c bytes).0 ≡ record b {
      senders = front ++ rest;
      published = b.published ++ (length front + length rest) ∷ [];
    }
send_fails b k c bytes front rest e h g f = elim (Option-cases (send c bytes).1) [
  | inl good ↦ absurd (f good)
  | inr (x, bad) ↦
      let gone : delete k b.senders ≡ front ++ rest =
        ap (delete k) e ∙ delete-middle k (some c) front rest h g in
      rw (bad, write_to) (rw (gone, length-append front rest))
]

send_succeeds :
    (b : BMulticast) (k : Str) (c : TcpClient) (bytes : Bytes) (front rest : Members)
    → b.senders ≡ front ++ (k, some c) ∷ rest
    → lookup k front ≡ none
    → (send c bytes).1 ≡ none
    → (write_to b k c bytes).0 ≡ record b {
      senders = (front ++ (k, some (send c bytes).0) ∷ []) ++ rest;
      written = b.written ++ (k, frame bytes) ∷ [];
    }
send_succeeds b k c bytes front rest e h good =
    let kept : insert k (some (send c bytes).0) b.senders
        ≡ (front ++ (k, some (send c bytes).0) ∷ []) ++ rest =
      ap (insert k (some (send c bytes).0)) e
      ∙ insert-middle k (some c) (some (send c bytes).0) front rest h
      ∙ sym (append_assoc front ((k, some (send c bytes).0) ∷ []) rest) in
    rw (good, write_to) (rw kept)

Reaches-fails :
    (front m : Members) (k : Str) (c : TcpClient) (bytes : Bytes) (b d r : BMulticast)
    → survivors ((k, some c) ∷ m) ≡ survivors m
    → losses (length front) ((k, some c) ∷ m) ≡ (length front + length m) ∷ losses (length front) m
    → d
      ≡ record b { senders = front ++ m; published = b.published ++ (length front + length m) ∷ [] }
    → Reaches front m bytes d r
    → Reaches front ((k, some c) ∷ m) bytes b r
Reaches-fails front m k c bytes b d r no_one lost e h = record {
  self = h.self ∙ ap (λ (x : BMulticast). x.self_node_id) e;
  senders = h.senders ∙ ap (λ l. front ++ l) (sym no_one);
  published =
      h.published
      ∙ ap (λ (x : BMulticast). x.published ++ losses (length front) m) e
      ∙ append_assoc b.published ((length front + length m) ∷ []) (losses (length front) m)
      ∙ ap (λ l. b.published ++ l) (sym lost);
  written =
      h.written
      ∙ ap (λ (x : BMulticast). x.written ++ frames bytes (survivors m)) e
      ∙ ap (λ l. b.written ++ frames bytes l) (sym no_one);
}

Reaches-succeeds :
    (front m : Members) (k : Str) (c s : TcpClient) (bytes : Bytes) (b d r : BMulticast)
    → survivors ((k, some c) ∷ m) ≡ (k, some s) ∷ survivors m
    → losses (length front) ((k, some c) ∷ m) ≡ losses (length front + 1) m
    → d ≡ record b {
      senders = (front ++ (k, some s) ∷ []) ++ m;
      written = b.written ++ (k, frame bytes) ∷ [];
    }
    → Reaches (front ++ (k, some s) ∷ []) m bytes d r
    → Reaches front ((k, some c) ∷ m) bytes b r
Reaches-succeeds front m k c s bytes b d r one lost e h = record {
  self = h.self ∙ ap (λ (x : BMulticast). x.self_node_id) e;
  senders =
      h.senders
      ∙ append_assoc front ((k, some s) ∷ []) (survivors m)
      ∙ ap (λ l. front ++ l) (sym one);
  published =
      h.published
      ∙ ap (λ (x : BMulticast). x.published ++ losses (length (front ++ (k, some s) ∷ [])) m) e
      ∙ ap (λ n. b.published ++ losses n m) (length-append front ((k, some s) ∷ []))
      ∙ ap (λ l. b.published ++ l) (sym lost);
  written =
      h.written
      ∙ ap (λ (x : BMulticast). x.written ++ frames bytes (survivors m)) e
      ∙ append_assoc b.written ((k, frame bytes) ∷ []) (frames bytes (survivors m))
      ∙ ap (λ l. b.written ++ frames bytes l) (sym one);
}

abbrev Sends : Str → TcpClient → Members → Bytes → ℕ → Type 0
Sends k c m bytes n =
    ((send c bytes).1 ≢ none)
      × (survivors ((k, some c) ∷ m) ≡ survivors m)
      × (losses n ((k, some c) ∷ m) ≡ (n + length m) ∷ losses n m)
    ⊎ ((send c bytes).1 ≡ none)
      × (survivors ((k, some c) ∷ m) ≡ (k, some (send c bytes).0) ∷ survivors m)
      × (losses n ((k, some c) ∷ m) ≡ losses (n + 1) m)

abbrev client_with : TcpClient → List Bool → TcpClient
client_with c l = record c { connection = l }

-- Whether the write to a member is done, and what that means for the two lists.
send_cases : (k : Str) (c : TcpClient) (m : Members) (bytes : Bytes) (n : ℕ) → Sends k c m bytes n
unfolding send
send_cases k c m bytes n = by_writes c.connection
  where
    by_writes : (l : List Bool) → Sends k (client_with c l) m bytes n
    by_writes [] = inl (λ h. absurd (ground (arith, h)), refl, refl)
    by_writes (true ∷ l) = inr (refl, refl, refl)
    by_writes (false ∷ l) = inl (λ h. absurd (ground (arith, h)), refl, refl)

multicast_loop-Reaches :
    (front todo : Members) (bytes : Bytes) (b : BMulticast)
    → b.senders ≡ front ++ todo
    → IsMembers todo
    → Apart front todo
    → Returns (Reaches front todo bytes b) (multicast_loop todo bytes b)
unfolding multicast_loop send_to
multicast_loop-Reaches front [] bytes b e m a = returns (record {
  self = refl;
  senders = e;
  published = sym (append-nil b.published);
  written = sym (append-nil b.written);
})
multicast_loop-Reaches front ((k, none) ∷ todo) bytes b e m a = absurd m
multicast_loop-Reaches front ((k, some c) ∷ todo) bytes b e (absent, m) (new, a) =
    elim (send_cases k c todo bytes (length front)) [
      | inl (bad, no_one, lost) ↦
          let d = (write_to b k c bytes).0 in
          let at = send_fails b k c bytes front todo e new absent bad in
          Returns-map
            (multicast_loop-Reaches front todo bytes d (ap (λ (x : BMulticast). x.senders) at) m a)
            λ r h. Reaches-fails front todo k c bytes b d r no_one lost at h
      | inr (good, one, lost) ↦
          let s = (send c bytes).0 in
          let d = (write_to b k c bytes).0 in
          let at = send_succeeds b k c bytes front todo e new good in
          Returns-map
            (multicast_loop-Reaches (front ++ (k, some s) ∷ []) todo bytes d
              (ap (λ (x : BMulticast). x.senders) at) m (Apart-snoc front todo k (some s) absent a))
            λ r h. Reaches-succeeds front todo k c s bytes b d r one lost at h
    ]

pub multicast_unsent :
    {V : Type 0} (cb : Codec BMsg) (cv : Codec V) (b : BMulticast) (path : Str) (v : V) (e : Error)
    → pack cb cv b path v ≡ err e
    → multicast cb cv b path v ≡ Run.ok (b, some e)
unfolding multicast
multicast_unsent cb cv b path v e bad = rw (bad, multicast) refl

survivors-absent : (k : Str) (m : Members) → lookup k m ≡ none → lookup k (survivors m) ≡ none
unfolding lookup
survivors-absent k [] h = refl
survivors-absent k ((j, none) ∷ m) h = survivors-absent k m (ground arith)
survivors-absent k ((j, some c) ∷ m) h = elim (send_cases j c m [] 0) [
  | inl (bad, gone, lost) ↦ rw gone (survivors-absent k m (ground arith))
  | inr (good, kept, lost) ↦ let ih = survivors-absent k m (ground arith) in rw kept (ground arith)
]

-- What a multicast leaves of a group is members again.
pub survivors-IsMembers : (m : Members) → IsMembers m → IsMembers (survivors m)
survivors-IsMembers [] h = tt
survivors-IsMembers ((j, none) ∷ m) h = absurd h
survivors-IsMembers ((j, some c) ∷ m) (new, h) = elim (send_cases j c m [] 0) [
  | inl (bad, gone, lost) ↦ rw gone (survivors-IsMembers m h)
  | inr (good, kept, lost) ↦ rw kept (survivors-absent j m new, survivors-IsMembers m h)
]

-- In a group whose members are a map without a nil client, a basic multicast of a message that
-- packs returns no error, writes one frame with the message to every member whose connection takes
-- it, ejects exactly the others, and publishes the new count after each ejection.
pub multicast_correct :
    {V : Type 0} (cb : Codec BMsg) (cv : Codec V) (b : BMulticast) (path : Str) (v : V)
    (bytes : Bytes)
    → IsMembers b.senders
    → pack cb cv b path v ≡ ok bytes
    → Returns (λ r. Reaches [] b.senders bytes b r.0 × (r.1 ≡ none)) (multicast cb cv b path v)
unfolding multicast
multicast_correct cb cv b path v bytes m e =
    rw (e, multicast)
      (Returns-bind (multicast_loop-Reaches [] b.senders bytes b refl m (none-Apart b.senders))
        λ r h. returns (h, refl))

multicast_loop-nil :
    (todo : Members) (k : Str) (bytes : Bytes) (b : BMulticast)
    → lookup k todo ≡ some none
    → multicast_loop todo bytes b ≡ panic
unfolding multicast_loop send_to lookup
multicast_loop-nil [] k bytes b e = absurd (ground (arith, e))
multicast_loop-nil ((j, none) ∷ todo) k bytes b e = refl
multicast_loop-nil ((j, some c) ∷ todo) k bytes b e =
    multicast_loop-nil todo k bytes (write_to b j c bytes).0 (elim (Bool-cases (str_eq j k)) [
      | inl same ↦ absurd (ground (arith, e, same))
      | inr other ↦ ground (arith, e, other)
    ])

-- A multicast in a group with a nil member panics, whoever comes before that.
pub multicast_nil :
    {V : Type 0} (cb : Codec BMsg) (cv : Codec V) (b : BMulticast) (path : Str) (v : V)
    (bytes : Bytes) (k : Str)
    → lookup k b.senders ≡ some none
    → pack cb cv b path v ≡ ok bytes
    → multicast cb cv b path v ≡ panic
unfolding multicast
multicast_nil cb cv b path v bytes k nil e =
    rw (e, multicast) (rw (multicast_loop-nil b.senders k bytes b nil) refl)
