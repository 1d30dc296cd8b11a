-- ===== src/Build/Advance/Expensive.antt =====
-- The count of expensive actions, and the nodes that upset it.
use tundra.Prelude.Int.{pos}
use tundra.Build.Node.{BuildProgress}
use tundra.Build.State.{Config, BuildQueue, data_of}
use tundra.Build.Advance.{advance}
use tundra.Prelude.{ℕ, suc, ◌≡◌, true, [], none, arith}

module _ (c : Config) where
  -- An expensive node without a command line gives back a place that it never took: reached while
  -- no expensive action runs, it fails the check that the count is not negative.
  pub advance-expensive_without_action :
      (q : BuildQueue) (i fuel : ℕ)
      → (q.node_state i).progress ≡ BuildProgress.run_action
      → (data_of c i).expensive ≡ true
      → (data_of c i).action ≡ []
      → q.expensive_running ≡ pos 0
      → advance c (suc fuel) q i ≡ none
  unfolding advance
  advance-expensive_without_action q i fuel p e a r = ground arith
