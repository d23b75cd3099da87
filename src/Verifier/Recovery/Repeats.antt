-- ===== src/Verifier/Recovery/Repeats.antt =====
-- engine/src/api/services/mutation_verifier.py: a recovery pass repeats no mutation.
use cloudops_agent.Prelude.{ℕ, String, Bool, false, some, ◌≡◌, subst}
use cloudops_agent.Settings.{Settings}
use cloudops_agent.Mutation.Manifest.{Yaml}
use cloudops_agent.Mutation.Operation.{MutationOperation}
use cloudops_agent.Journal.Table.{Table, find_row}
use cloudops_agent.Verifier.Recovery.{Visit, Recovery, recover_stale, reconcile_once}
use cloudops_agent.Verifier.Recovery.Calls.{
  Calls, Calls-trans, reconcile_all-Calls, recover_stale-Calls,
}
use cloudops_agent.Verifier.Recovery.Unstarted.{Kept, run-Kept}

module _ (settings : Settings) (yaml : Yaml) (digest : String → String → String)
    (has_callback : Bool) (visit : String → Visit)
    (before : (id : String) (t : Table) → Calls settings yaml digest false t ((visit id).before t))
    (during : (id : String) (t : Table) → Calls settings yaml digest false t ((visit id).during t))
    (after : (id : String) (t : Table) → Calls settings yaml digest false t ((visit id).after t))
    (execution_now verification_now cutoff_now : ℕ) (between : Table → Table)
    (others : (t : Table) → Calls settings yaml digest false t (between t)) where
  -- A pass of the recovery worker marks no operation as executing: where the other workers meanwhile make any calls
  -- of the journal but `mark_executing`, every row of the journal is there after the pass with the
  -- same count of execution attempts, and it is EXECUTING only where it was before.
  pub reconcile_once-Kept :
      (t : Table) (r : Recovery) (j : String) (op : MutationOperation)
      → reconcile_once settings has_callback visit execution_now verification_now cutoff_now between
          t
        ≡ some r
      → find_row j t ≡ some op
      → Kept j op r.table
  unfolding reconcile_once
  reconcile_once-Kept t r j op h there =
      let made =
        Calls-trans settings yaml digest false t
          (recover_stale settings has_callback visit execution_now verification_now cutoff_now
            between t)
          r.table
          (recover_stale-Calls settings yaml digest false has_callback visit before during after
            execution_now verification_now cutoff_now between others t)
          (reconcile_all-Calls settings yaml digest false has_callback visit before during after _ _
            r h) in
      subst (Kept j op) made.result
        (run-Kept settings yaml digest made.events t j op made.allowed there)
