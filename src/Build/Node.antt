-- ===== src/Build/Node.antt =====
-- NodeState.hpp, and the fields of NodeData (DagData.hpp) that the build queue reads. The flag
-- bits kQueued and kActive are the Booleans `queued` and `active`. A state's m_MmapData is never
-- written once the build is set up, so it stands in `Config.source`.
use tundra.Prelude.{ℕ, Bool, true, false, List, Option}

pub data BuildProgress : Type 0 where
  initial blocked unblocked run_action succeeded up_to_date failed completed : BuildProgress

pub record NodeData : Type 0 where
  -- m_Action: no command line, or an empty one, is `[]`
  pub action : List ℕ
  pub pre_action : Option (List ℕ)
  pub pass_index : ℕ
  pub dependencies : List ℕ
  pub back_links : List ℕ
  -- kFlagOverwriteOutputs, kFlagPreciousOutputs and kFlagExpensive of m_Flags
  pub overwrite_outputs : Bool
  pub precious_outputs : Bool
  pub expensive : Bool

pub record NodeState : Type 0 where
  pub queued : Bool
  pub active : Bool
  pub progress : BuildProgress
  pub build_result : ℕ

unfoldable pub is_completed : BuildProgress → Bool
is_completed completed = true
is_completed _ = false

unfoldable pub is_blocked : BuildProgress → Bool
is_blocked blocked = true
is_blocked _ = false

unfoldable pub flag_queued : NodeState → NodeState
flag_queued s = record s { queued = true }

unfoldable pub flag_unqueued : NodeState → NodeState
flag_unqueued s = record s { queued = false }

unfoldable pub flag_active : NodeState → NodeState
flag_active s = record s { active = true }

unfoldable pub flag_inactive : NodeState → NodeState
flag_inactive s = record s { active = false }
