-- ===== src/Simulation/Invariant.antt =====
-- cli/r-multicast/main.go: the runs of main, and what holds in each state of one.
use cs425_mps.Base.{
  ℕ, ◌+◌, ◌%◌, ◌^◌, ◌≤◌, ◌<◌, true, false, some, List, [], ◌∷◌, ◌++◌, ◌≡◌, refl, sym, ap, ◌∙◌, All,
  length, length-snoc, ◌==◌, arith,
}
use mathlib.Core.Path.{subst}
use cs425_mps.Base.Text.{Str}
use cs425_mps.Simulation.{Msg, N, G, Action, sends, delivers, put, next_send, step, bd}
use cs425_mps.Simulation.Steps.{
  sent_state, with_sent, arrows-sent, word-sent, sends-inv, taken, delivers-inv,
}
use cs425_mps.Simulation.Counts.{flag, count, count-append, arrows, deliveries}
use cs425_mps.Simulation.Sums.{InGrid}
use cs425_mps.Simulation.Nodes.{NodeValid, All-snoc, put-all, NodeValid-same, seen}
use cs425_mps.Simulation.Sends.{next_send-received, send-NodeValid}
use cs425_mps.Simulation.Receives.{pop-NodeValid, bd-NodeValid}

-- The states that the actions lead to, with the actions, the last one first.
pub data Runs (g : G) : List Action → G → Type 0 where
  begin : Runs g [] g
  and_then :
      {es : List Action} {h h' : G} (e : Action)
      → Runs g es h
      → step e h ≡ some h'
      → Runs g (e ∷ es) h'

count-other :
    (a c i j : ℕ) (ps : List (ℕ × ℕ)) → i == a ≡ false → count a c ((i, j) ∷ ps) ≡ count a c ps
unfolding count
count-other a c i j ps ne = ground arith

count-elsewhere :
    (a c i j : ℕ) (ps : List (ℕ × ℕ))
    → j == c ≡ false
    → 1 ≤ count a c ((i, j) ∷ ps)
    → 1 ≤ count a c ps
unfolding count
count-elsewhere a c i j ps ne h = ground arith

count_self :
    (a c j : ℕ) (ps : List (ℕ × ℕ)) → count a c ((a, j) ∷ ps) ≡ flag (j == c) + count a c ps
unfolding count
count_self a c j ps = ground arith

count-snoc :
    (a c i j : ℕ) (ps : List (ℕ × ℕ)) → count a c (ps ++ (i, j) ∷ []) ≡ count a c ((i, j) ∷ ps)
unfolding count
count-snoc a c i j ps = omega (arith, count-append a c ps ((i, j) ∷ []))

module _ (n src : ℕ) (b : Str) where
  abbrev AllValid : (ℕ → N) → List (ℕ × ℕ) → List (ℕ × ℕ) → Type 0
  AllValid nodes sent got =
      (i : ℕ) → NodeValid n src b i (nodes i) (λ j. count i j sent) (λ j. count i j got)

  sent-AllValid :
      (nodes : ℕ → N) (sent got : List (ℕ × ℕ)) (i j : ℕ) (node : N)
      → AllValid nodes sent got
      → NodeValid n src b i node (λ k. flag (j == k) + count i k sent) (λ k. count i k got)
      → AllValid (put i node nodes) (sent ++ (i, j) ∷ []) got
  sent-AllValid nodes sent got i j node v w =
      put-all
        (λ a x. NodeValid n src b a x (λ c. count a c (sent ++ (i, j) ∷ [])) (λ c. count a c got)) i
        node nodes
        (NodeValid-same n src b i node _ _ _ _
          (λ c. count-snoc i c i j sent ∙ count_self i c j sent) (λ c. refl) w)
        (λ a ne.
          NodeValid-same n src b a (nodes a) _ _ _ _
            (λ c. count-snoc a c i j sent ∙ count-other a c i j sent ne) (λ c. refl) (v a))

  got-AllValid :
      (nodes : ℕ → N) (sent got : List (ℕ × ℕ)) (i j : ℕ) (node : N)
      → AllValid nodes sent got
      → NodeValid n src b i node (λ k. count i k sent) (λ k. flag (j == k) + count i k got)
      → AllValid (put i node nodes) sent ((i, j) ∷ got)
  got-AllValid nodes sent got i j node v w =
      put-all (λ a x. NodeValid n src b a x (λ c. count a c sent) (λ c. count a c ((i, j) ∷ got))) i
        node nodes (NodeValid-same n src b i node _ _ _ _ (λ c. refl) (λ c. count_self i c j got) w)
        (λ a ne.
          NodeValid-same n src b a (nodes a) _ _ _ _ (λ c. refl) (λ c. count-other a c i j got ne)
            (v a))

  pub record Valid (es : List Action) (g : G) : Type 0 where
    pub sized : g.size ≡ n
    pub word : g.counter ≡ length (arrows g.lines) % 2 ^ 32
    pub steps : length es + 1 ≡ length (deliveries es) + length (arrows g.lines)
    pub inside : All (InGrid n) (arrows g.lines)
    pub reached : All (InGrid n) (deliveries es)
    pub node :
        (i : ℕ)
        → NodeValid n src b i
            (g.nodes i)
            (λ j. count i j (arrows g.lines))
            (λ j. count i j (deliveries es))
    pub heard : (i j : ℕ) → 1 ≤ count i j (deliveries es) → seen b (g.nodes j) ≡ true

  sent-Valid :
      (es : List Action) (g : G) (i j : ℕ) (node : N) (m : Msg)
      → Valid es g
      → i < n
      → next_send (g.nodes i) j ≡ some (node, m)
      → Valid (sends i j ∷ es) (sent_state g node j m)
  unfolding deliveries
  sent-Valid es g i j node m v l e =
      let (k, w) = send-NodeValid n src b i (g.nodes i) node j m _ _ (v.node i) e in
      let lines = arrows-sent g node j m in
      record {
        sized = v.sized;
        word = word-sent g node j m v.word;
        steps = omega (arith, v.steps, ap length lines, length-snoc (arrows g.lines) (node.id, j));
        inside = subst (All (InGrid n)) (sym lines) (
            All-snoc (InGrid n) (arrows g.lines) (node.id, j) v.inside
              (omega (arith, l, w.own), k));
        reached = v.reached;
        node =
            subst (λ ps. AllValid (sent_state g node j m).nodes ps (deliveries es)) (sym lines)
              (subst
                (λ t.
                  AllValid (put t (with_sent node j m) g.nodes) (arrows g.lines ++ (t, j) ∷ [])
                    (deliveries es))
                (sym w.own) (sent-AllValid g.nodes _ _ i j _ v.node w));
        heard = λ s.
            put-all (λ t x. 1 ≤ count s t (deliveries es) → seen b x ≡ true) node.id _ g.nodes
              (λ c.
                ground
                  (arith, v.heard s i, w.own, next_send-received n src b i (g.nodes i) node j m e))
              (λ t ne c. v.heard s t c);
      }

  send-Valid :
      (es : List Action) (g h : G) (i j : ℕ)
      → Valid es g
      → step (sends i j) g ≡ some h
      → Valid (sends i j ∷ es) h
  send-Valid es g h i j v e =
      let (l, node, m, next, same) = sends-inv g h i j e in
      rw same (sent-Valid es g i j node m v (omega (arith, l, v.sized)) next)

  delivered-Valid :
      (es : List Action) (g : G) (i j : ℕ) (m : Msg) (ms : List Msg)
      → i < n
      → j < n
      → Valid es g
      → (g.nodes j).out i ≡ m ∷ ms
      → (taken g i j ms i).relaying ≡ []
      → Valid
          (delivers i j ∷ es)
          (record g { nodes = put i (bd n (taken g i j ms i) m) (taken g i j ms) })
  unfolding deliveries
  delivered-Valid es g i j m ms l k v queue free =
      let (from, popped) = pop-NodeValid n src b j (g.nodes j) i m ms _ _ (v.node j) queue in
      let nodes = got-AllValid g.nodes (arrows g.lines) (deliveries es) j i _ v.node popped in
      let (after, got) = bd-NodeValid n src b i (taken g i j ms i) j m _ _ (nodes i) free from in
      record {
        sized = v.sized;
        word = v.word;
        steps = omega (arith, v.steps);
        inside = v.inside;
        reached = ((k, l), v.reached);
        node =
            put-all
              (λ a x.
                NodeValid n src b a x (λ c. count a c (arrows g.lines))
                  (λ c. count a c ((j, i) ∷ deliveries es)))
              i _ _ after (λ a ne. nodes a);
        heard = λ s.
            put-all (λ t x. 1 ≤ count s t ((j, i) ∷ deliveries es) → seen b x ≡ true) i _
              (taken g i j ms) (λ c. got)
              (λ t ne c.
                ground (arith, v.heard s t (count-elsewhere s t j i (deliveries es) ne c)));
      }

  deliver-Valid :
      (es : List Action) (g h : G) (i j : ℕ)
      → Valid es g
      → step (delivers i j) g ≡ some h
      → Valid (delivers i j ∷ es) h
  deliver-Valid es g h i j v e =
      let (l, k, m, ms, queue, free, same) = delivers-inv g h i j e in
      subst (Valid (delivers i j ∷ es)) (sym same) (
        subst
          (λ t.
            Valid (delivers i j ∷ es)
              (record g { nodes = put i (bd t (taken g i j ms i) m) (taken g i j ms) }))
          (sym v.sized)
          (delivered-Valid es g i j m ms (omega (arith, l, v.sized)) (omega (arith, k, v.sized)) v
            queue free))

  pub step-Valid :
      (es : List Action) (g h : G) (e : Action) → Valid es g → step e g ≡ some h → Valid (e ∷ es) h
  step-Valid es g h (sends i j) v s = send-Valid es g h i j v s
  step-Valid es g h (delivers i j) v s = deliver-Valid es g h i j v s

  pub Runs-Valid : (g : G) (es : List Action) (h : G) → Valid [] g → Runs g es h → Valid es h
  Runs-Valid g es h v begin = v
  Runs-Valid g es h v (and_then e r s) = step-Valid _ _ h e (Runs-Valid g _ _ v r) s
