-- ===== src/Broker/Valid.antt =====
-- lib/broker/broker.go: the invariant of a broker with its subscribers.
use cs425_mps.Base.{
  ℕ, ◌≤◌, false, some, List, [], ◌∷◌, ◌++◌, ◌==◌, if◌then◌else◌, length, get_elem?, ◌≡◌, refl, sym,
  ◌∙◌, ap, arith,
}
use cs425_mps.Broker.{Chan, Broker, new, remove, add_key}
use cs425_mps.Broker.Broadcast.{mem, Distinct}
use cs425_mps.Broker.Runs.{Show, silent, sent, got, Sublist}

remove-mem : (c d : ℕ) (ds : List ℕ) → mem d (remove c ds) ≡ (if c == d then false else mem d ds)
unfolding mem remove
remove-mem c d [] = ground arith
remove-mem c d (e ∷ ds) = ground (arith, remove-mem c d ds)

pub remove-Distinct : (c : ℕ) (ds : List ℕ) → Distinct ds → Distinct (remove c ds)
unfolding remove
remove-Distinct c [] d = tt
remove-Distinct c (e ∷ ds) (new_one, d) = ground (arith, remove-Distinct c ds d, remove-mem c e ds)

pub add_key-Distinct : (c : ℕ) (ds : List ℕ) → Distinct ds → Distinct (add_key c ds)
unfolding add_key
add_key-Distinct c ds d = (ground (arith, remove-mem c c ds), remove-Distinct c ds d)

abbrev pub Small {ℓ} : {B : Type ℓ} → List B → Type 0
Small xs = length xs ≤ 1

module _ {A : Type 0} where
  -- A channel with what its subscriber received before, and all that was passed on.
  abbrev pub Good : List A → List A → Chan A → Type 0
  Good before all c = (length c.queue ≤ 5) × Sublist (before ++ c.queue) all

  pub record Valid (es : List (Show A)) (b : Broker A) : Type 0 where
    pub distinct : Distinct b.subs
    pub waiting : Small b.publish_ch × Small b.sub_ch × Small b.unsub_ch
    pub good : (c : ℕ) (ch : Chan A) → get_elem? b.chans c ≡ some ch → Good (got c es) (sent es) ch
    pub fresh : (c : ℕ) → length b.chans ≤ c → got c es ≡ []

  pub new-Valid : Valid [] new
  unfolding new got sent
  new-Valid = record {
    distinct = tt;
    waiting = (omega arith, omega arith, omega arith);
    good = λ c ch e. absurd (ground arith);
    fresh = λ c l. refl;
  }

  -- A step that keeps all channels of subscribers.
  pub quiet-Valid :
      (es : List (Show A)) (b b' : Broker A)
      → Valid es b
      → b'.chans ≡ b.chans
      → Distinct b'.subs
      → Small b'.publish_ch × Small b'.sub_ch × Small b'.unsub_ch
      → Valid (silent ∷ es) b'
  unfolding got sent
  quiet-Valid es b b' v same d w = record {
    distinct = d;
    waiting = w;
    good = λ c ch e. v.good c ch (ap (λ cs. get_elem? cs c) (sym same) ∙ e);
    fresh = λ c l. v.fresh c (omega (arith, ap length same));
  }
