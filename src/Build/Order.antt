-- ===== src/Build/Order.antt =====
-- The order of the build: what a round of AdvanceNode keeps true of the node that it advances, of
-- the nodes that other threads work on, and of the dependencies of all nodes.
pub mod Rounds
pub mod Work
pub mod Schedule
pub mod Pass
use mathlib.Core.Option.{some-injective}
use tundra.Build.Node.{
  BuildProgress, NodeState, is_completed, is_blocked, flag_queued, flag_inactive,
}
use tundra.Build.State.{
  Config, BuildQueue, Wake, data_of, write, wake, all_dependencies_ready, park_expensive_node,
}
use tundra.Build.Dependencies.{setup_dependencies, unblock_waiters}
use tundra.Build.Dependencies.Ready.{Completed, all_dependencies_ready→Completed}
use tundra.Build.Advance.{
  Round, set_progress, release_expensive, start_action, finish, round, proceed, advance, is_empty,
}
use tundra.Build.Frame.{
  Calm, Calm-trans, Frame, Frame-refl, Frame-trans, Keeps, Frame→Keeps, Completed-mono,
  release_expensive-Frame,
}
use tundra.Build.Frame.Links.{setup_dependencies-Frame, unblock_waiters-Frame}
use tundra.Prelude.Int.{ℤ, incr, decr, is_pos}
use tundra.Prelude.{
  ℕ, zero, suc, ◌+◌, Bool, true, false, not, ◌≡◌, ◌≢◌, refl, sym, ap, subst, ◌∙◌, inl, inr, ◌⊎◌,
  List, [], ◌∷◌, Option, none, some, if◌then◌else◌, ltb, ◌==◌, length, ◌>>=◌, ◌>>◌, check,
  bind-some, check-some, Bool-cases, Option-cases, arith,
}

-- A node that has got beyond its dependencies.
abbrev pub past : BuildProgress → Bool
past BuildProgress.initial = false
past BuildProgress.blocked = false
past _ = true

-- Whatever has got beyond its dependencies has all of them completed.
abbrev pub Ordered : Config → BuildQueue → Type 0
Ordered c q =
    (j : ℕ) → past (q.node_state j).progress ≡ true → Completed c q (data_of c j).dependencies

-- A thread works on the node.
abbrev pub Held : NodeState → Type 0
Held s = (s.active ≡ true) × (s.queued ≡ false)

-- A thread is inside CheckInputSignature or RunAction for the node.
abbrev pub Working : NodeState → Type 0
Working s = Held s × (is_completed s.progress ≡ false) × (past s.progress ≡ true)

-- How a round leaves its node.
abbrev pub After : Round → NodeState → Type 0
After Round.again s = Held s
After Round.returned s = Unit
After Round.signing s = Working s
After Round.running s = Working s

-- What a round on node i keeps.
pub record RoundOk (c : Config) (q : BuildQueue) (i : ℕ) (q' : BuildQueue) (r : Round)
    : Type 0 where
  pub others : (j : ℕ) → i ≢ j → Calm (q.node_state j) (q'.node_state j)
  pub keeps : Keeps q q'
  pub after : After r (q'.node_state i)
  pub ordered : Ordered c q'

module _ (c : Config) where
  pub Ordered-Frame : (q q' : BuildQueue) → Frame q q' → Ordered c q → Ordered c q'
  Ordered-Frame q q' f o j p =
      Completed-mono c q q' (Frame→Keeps q q' f) (data_of c j).dependencies
        (o j (sym (ap past (f j).0) ∙ p))

  pub framed :
      (q q' : BuildQueue) (i : ℕ) (r : Round)
      → Frame q q'
      → After r (q'.node_state i)
      → Ordered c q
      → RoundOk c q i q' r
  framed q q' i r f a o = record {
    others = λ j n. f j;
    keeps = Frame→Keeps q q' f;
    after = a;
    ordered = Ordered-Frame q q' f o;
  }

  -- After other nodes have moved, the node itself is written.
  pub own :
      (q q1 : BuildQueue) (i : ℕ) (s : NodeState) (r : Round)
      → Frame q q1
      → is_completed (q.node_state i).progress ≡ false
      → (past s.progress ≡ true → Completed c q1 (data_of c i).dependencies)
      → After r s
      → Ordered c q
      → RoundOk c q i (write q1 i s) r
  own q q1 i s r f unfinished ds a o = record {
    others = λ j n. let e : (i == j) ≡ false = ground arith in rw e (f j);
    keeps = λ j d. keeps1 j (Frame→Keeps q q1 f j d);
    after = let e : (i == i) ≡ true = ground arith in rw e a;
    ordered = λ j p. elim (Bool-cases (i == j)) [
      | inl e ↦
          let same : i ≡ j = ground arith in
          let p' : past s.progress ≡ true = rw e at p in
          Completed-mono c q1 (write q1 i s) keeps1 (data_of c j).dependencies
            (subst (λ k. Completed c q1 (data_of c k).dependencies) same (ds p'))
      | inr e ↦
          let p' : past (q1.node_state j).progress ≡ true = rw e at p in
          Completed-mono c q1 (write q1 i s) keeps1 (data_of c j).dependencies
            (Ordered-Frame q q1 f o j p')
    ];
  }
    where
      keeps1 : Keeps q1 (write q1 i s)
      keeps1 j d = elim (Bool-cases (i == j)) [
        | inl e ↦ let same : i ≡ j = ground arith in absurd (ground (arith, f i))
        | inr e ↦ rw e d
      ]

  -- A round that goes on, and what is done next.
  pub RoundOk-trans :
      (q q1 q2 : BuildQueue) (i : ℕ) (r : Round)
      → RoundOk c q i q1 Round.again
      → RoundOk c q1 i q2 r
      → RoundOk c q i q2 r
  RoundOk-trans q q1 q2 i r a b = record {
    others = λ j n.
        Calm-trans (q.node_state j) (q1.node_state j) (q2.node_state j) (a.others j n)
          (b.others j n);
    keeps = λ j d. b.keeps j (a.keeps j d);
    after = b.after;
    ordered = b.ordered;
  }
