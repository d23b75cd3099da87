-- ===== src/Executor/Run/Guarded.antt =====
-- engine/src/api/services/tool_executor.py: no call of a tool that has not passed the checks.
use cloudops_agent.Prelude.{Bool, true, false, List, [], ◌∷◌}
use cloudops_agent.Settings.{Settings}
use cloudops_agent.Journal.Table.{Table}
use cloudops_agent.Executor.Admit.Authorized.{Authorized}
use cloudops_agent.Executor.Run.{Effect, notify}

-- Whether the tool is called, or the journal is written to.
unfoldable pub acts : List Effect → Bool
acts [] = false
acts (notify n ∷ es) = acts es
acts (_ ∷ es) = true
