-- ===== src/Broker/Runs.antt =====
-- lib/broker/broker.go: the runs of a broker with its callers, as steps that come in any order.
use cs425_mps.Base.{ℕ, false, none, some, List, [], ◌∷◌, ◌++◌, ◌==◌, if◌then◌else◌, ◌≡◌}
use cs425_mps.Base.Run.{ok}
use cs425_mps.Broker.{
  Broker, new, stop_case, sub_case, unsub_case, publish_case, stop, subscribe, unsubscribe, close,
  publish, take_from,
}

-- What a step shows: a message that the goroutine passes on, or one that a subscriber receives.
pub data Show (A : Type 0) : Type 0 where
  silent : Show A
  broadcasts : A → Show A
  takes : ℕ → A → Show A

module _ {A : Type 0} where
  pub data Step : Show A → Broker A → Broker A → Type 0 where
    subscribes : {b b' : Broker A} (c : ℕ) → subscribe b ≡ some (b', c) → Step silent b b'
    unsubscribes : {b b' : Broker A} (c : ℕ) → unsubscribe b c ≡ some b' → Step silent b b'
    closes : {b b' : Broker A} (c : ℕ) → close b c ≡ ok b' → Step silent b b'
    publishes : {b b' : Broker A} (m : A) → publish b m ≡ some b' → Step silent b b'
    stops : {b b' : Broker A} → stop b ≡ ok b' → Step silent b b'
    receives :
        {b b' : Broker A} (c : ℕ) (m : A)
        → take_from b c ≡ some (b', some m)
        → Step (takes c m) b b'
    receives_zero : {b b' : Broker A} (c : ℕ) → take_from b c ≡ some (b', none) → Step silent b b'
    returns : {b b' : Broker A} → b.returned ≡ false → stop_case b ≡ some b' → Step silent b b'
    adds : {b b' : Broker A} → b.returned ≡ false → sub_case b ≡ some b' → Step silent b b'
    deletes : {b b' : Broker A} → b.returned ≡ false → unsub_case b ≡ some b' → Step silent b b'
    passes :
        {b b' : Broker A} (m : A) (rest : List A)
        → b.returned ≡ false
        → b.publish_ch ≡ m ∷ rest
        → publish_case b ≡ ok (some b')
        → Step (broadcasts m) b b'

  -- The states of a broker, with what was seen, the last first.
  pub data Runs : List (Show A) → Broker A → Type 0 where
    begin : Runs [] new
    and_then :
        {es : List (Show A)} {b b' : Broker A} (e : Show A)
        → Runs es b
        → Step e b b'
        → Runs (e ∷ es) b'

  -- What was passed on, in order.
  unfoldable pub sent : List (Show A) → List A
  sent [] = []
  sent (silent ∷ es) = sent es
  sent (broadcasts m ∷ es) = sent es ++ m ∷ []
  sent (takes c m ∷ es) = sent es

  -- What the subscriber received, in order.
  unfoldable pub got : ℕ → List (Show A) → List A
  got c [] = []
  got c (silent ∷ es) = got c es
  got c (broadcasts m ∷ es) = got c es
  got c (takes d m ∷ es) = let before = got c es in if d == c then before ++ m ∷ [] else before

  -- The first list is the second with some entries left out.
  pub data Sublist : List A → List A → Type 0 where
    done : Sublist [] []
    keep : {xs ys : List A} (x : A) → Sublist xs ys → Sublist (x ∷ xs) (x ∷ ys)
    skip : {xs ys : List A} (y : A) → Sublist xs ys → Sublist xs (y ∷ ys)

  pub Sublist-none : (ys : List A) → Sublist [] ys
  Sublist-none [] = done
  Sublist-none (y ∷ ys) = skip y (Sublist-none ys)

  pub Sublist-snoc :
      {xs ys : List A} (m : A) → Sublist xs ys → Sublist (xs ++ m ∷ []) (ys ++ m ∷ [])
  Sublist-snoc m done = keep m done
  Sublist-snoc m (keep x s) = keep x (Sublist-snoc m s)
  Sublist-snoc m (skip y s) = skip y (Sublist-snoc m s)

  pub Sublist-more : {xs ys : List A} (m : A) → Sublist xs ys → Sublist xs (ys ++ m ∷ [])
  Sublist-more m done = skip m done
  Sublist-more m (keep x s) = keep x (Sublist-more m s)
  Sublist-more m (skip y s) = skip y (Sublist-more m s)
