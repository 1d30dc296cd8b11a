-- ===== src/Build.antt =====
-- src/BuildQueue.cpp, BuildQueue.hpp and NodeState.hpp: the work queue and the state machine that
-- takes each node of the build from its first visit to its completion.
pub mod Node
pub mod Ring
pub mod State
pub mod Dependencies
pub mod Actions
pub mod Advance
pub mod Loop
pub mod Frame
pub mod Order
