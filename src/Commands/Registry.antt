-- ===== src/Commands/Registry.antt =====
-- mcp/utils/commands.py: the active processes of a run, and the tombstones of stopped runs. Every
-- operation holds the lock, so one runs after another; a process is named by a number, and times are
-- those of `time.monotonic`.
pub mod Lookup
pub mod Stops
use cloudops_agent.Prelude.{
  ℕ, ◌+◌, String, Bool, true, false, not, Option, none, some, List, [], ◌∷◌, ◌++◌, map, length,
  filter, any, leb, nat_eq, ◌==◌, if◌then◌else◌, is_some,
}
use cloudops_agent.Text.{is_empty}

pub record Registry : Type 0 where
  pub active_processes : List (String × List ℕ)
  pub cancelled_runs : List (String × ℕ)

-- d.get(k), d[k] = v, d.pop(k, None)
unfoldable pub at {ℓ} : {V : Type ℓ} → String → List (String × V) → Option V
at k [] = none
at k ((j, v) ∷ rest) = if j == k then some v else at k rest

unfoldable pub put {ℓ} : {V : Type ℓ} → String → V → List (String × V) → List (String × V)
put k v [] = (k, v) ∷ []
put k v ((j, w) ∷ rest) = let more = put k v rest in if j == k then (j, v) ∷ rest else (j, w) ∷ more

unfoldable pub pop {ℓ} : {V : Type ℓ} → String → List (String × V) → List (String × V)
pop k [] = []
pop k ((j, w) ∷ rest) = let more = pop k rest in if j == k then more else (j, w) ∷ more

unfoldable pub has_process : ℕ → List ℕ → Bool
has_process p [] = false
has_process p (q ∷ rest) = if nat_eq q p then true else has_process p rest

abbrev pub or_no_process : Option (List ℕ) → List ℕ
or_no_process none = []
or_no_process (some ps) = ps

-- The processes of a run, of which there are none where the run has no entry.
abbrev pub processes_of : String → Registry → List ℕ
processes_of run_id r = or_no_process (at run_id r.active_processes)

-- set.add, set.discard
unfoldable pub add_process : ℕ → List ℕ → List ℕ
add_process p ps = if has_process p ps then ps else ps ++ p ∷ []

unfoldable pub discard : ℕ → List ℕ → List ℕ
discard p [] = []
discard p (q ∷ rest) = let more = discard p rest in if nat_eq q p then more else q ∷ more

-- `now - cancelled_at >= ttl`, with no subtraction
unfoldable pub unexpired : ℕ → ℕ → List (String × ℕ) → List (String × ℕ)
unexpired ttl now [] = []
unexpired ttl now ((run_id, cancelled_at) ∷ rest) =
    let more = unexpired ttl now rest in
    if leb (cancelled_at + ttl) now then more else (run_id, cancelled_at) ∷ more

abbrev pub register_in : Bool → String → ℕ → Registry → Bool × Registry
register_in true run_id proc r = (false, r)
register_in false run_id proc r = (
  true,
  record r {
    active_processes = put run_id (add_process proc (processes_of run_id r)) r.active_processes;
  },
)

-- The entry is dropped when no process is left.
abbrev pub leave_processes : String → List ℕ → Registry → Registry
leave_processes run_id [] r = record r { active_processes = pop run_id r.active_processes }
leave_processes run_id (p ∷ ps) r = record r {
  active_processes = put run_id (p ∷ ps) r.active_processes;
}

abbrev pub without : String → ℕ → List ℕ → Registry → Registry
without run_id proc [] r = r
without run_id proc (p ∷ ps) r = leave_processes run_id (discard proc (p ∷ ps)) r

unfoldable pub unregister_process : Option String → ℕ → Registry → Registry
unregister_process none proc r = r
unregister_process (some run_id) proc r =
    if is_empty run_id then r else without run_id proc (processes_of run_id r) r

module _ (ttl : ℕ) where
  unfoldable pub prune_cancelled_runs : ℕ → Registry → Registry
  prune_cancelled_runs now r = record r { cancelled_runs = unexpired ttl now r.cancelled_runs }

  -- A run that is not named, or named by an empty text, registers nothing.
  unfoldable pub register_process : Option String → ℕ → ℕ → Registry → Bool × Registry
  register_process none proc now r = (true, r)
  register_process (some run_id) proc now r =
      if is_empty run_id
      then (true, r)
      else (let pruned = prune_cancelled_runs now r in
          register_in (is_some (at run_id pruned.cancelled_runs)) run_id proc pruned)

  -- The part of `cancel_run_processes` under the lock: the tombstone, and the processes to terminate.
  -- The clock is read once for the pruning and once for the tombstone.
  unfoldable pub cancel_run : String → ℕ → ℕ → Registry → List ℕ × Registry
  cancel_run run_id now stamp r =
      let pruned = prune_cancelled_runs now r in
      (
        processes_of run_id pruned,
        record pruned { cancelled_runs = put run_id stamp pruned.cancelled_runs },
      )

-- What `_terminate_process` reports of one process; `gather` also returns exceptions.
pub data Termination : Type 0 where
  already_exited : Termination
  terminated : Termination
  killed : Termination
  failed : Termination

abbrev pub is_terminated : Termination → Bool
is_terminated terminated = true
is_terminated _ = false

abbrev pub is_killed : Termination → Bool
is_killed killed = true
is_killed _ = false

pub record Cancellation : Type 0 where
  pub matched : ℕ
  pub terminated : ℕ
  pub killed : ℕ
  pub cancelled : ℕ

-- The counts that `cancel_run_processes` returns, from what becomes of each process.
unfoldable pub cancellation : (ℕ → Termination) → List ℕ → Cancellation
cancellation outcome processes =
    let results = map outcome processes in
    record {
      matched = length processes;
      terminated = length (filter is_terminated results);
      killed = length (filter is_killed results);
      cancelled = 1;
    }
