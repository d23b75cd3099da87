-- ===== src/Graph.antt =====
-- engine/src/api/agent/graph.py and state.py: the workflow of a conversation's turn. A node is a
-- function from the state to the state with the node's updates merged in. Events are left out: what a
-- node sends to the event stream does not come back into the state.
pub mod State
pub mod Toolsets
pub mod Gate
pub mod Verification
pub mod Memory
pub mod Steps
mod Tests
