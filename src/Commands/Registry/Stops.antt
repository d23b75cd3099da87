-- ===== src/Commands/Registry/Stops.antt =====
-- mcp/utils/commands.py: no process of a run escapes a stop.
use cloudops_agent.Prelude.{
  ℕ, ◌+◌, ◌≤◌, ◌<◌, String, Bool, true, false, Option, none, some, is_some, List, [], ◌∷◌, ◌≡◌,
  refl, sym, ap, ◌∙◌, arith, inl, inr, Bool-cases, All, ◌==◌, if◌then◌else◌, eq_iff, subst,
}
use cloudops_agent.Text.{is_empty}
use cloudops_agent.Commands.Registry.{
  Registry, at, has_process, processes_of, or_no_process, prune_cancelled_runs, register_in,
  register_process, without, leave_processes, unregister_process, cancel_run,
}
use cloudops_agent.Commands.Registry.Lookup.{at-put, at-pop, has_process-discard, at-unexpired}

-- One call that holds the lock, with what it reads off the clock.
pub data Call : Type 0 where
  registering : Option String → ℕ → ℕ → Call
  unregistering : Option String → ℕ → Call
  cancelling : String → ℕ → ℕ → Call

abbrev pub Within : ℕ → ℕ → Call → Type 0
Within low high (registering run_id proc now) = (low ≤ now) × (now < high)
Within low high (unregistering run_id proc) = Unit
Within low high (cancelling run_id now stamp) =
    (low ≤ now) × (now < high) × (low ≤ stamp) × (stamp < high)

module _ (ttl : ℕ) where
  unfoldable pub call : Call → Registry → Registry
  call (registering run_id proc now) r = (register_process ttl run_id proc now r).1
  call (unregistering run_id proc) r = unregister_process run_id proc r
  call (cancelling run_id now stamp) r = (cancel_run ttl run_id now stamp r).1

  unfoldable pub calls : List Call → Registry → Registry
  calls [] r = r
  calls (c ∷ cs) r = calls cs (call c r)

  module _ (run_id : String) (stamp : ℕ) (processes : List ℕ) where
    -- The run has a tombstone from the stop or later, and no process but those.
    record IsStopped (r : Registry) : Type 0 where
      stamped : ℕ
      tombstone : at run_id r.cancelled_runs ≡ some stamped
      recent : stamp ≤ stamped
      known :
          (p : ℕ) → has_process p (processes_of run_id r) ≡ true → has_process p processes ≡ true

    prune_cancelled_runs-IsStopped :
        (now : ℕ) (r : Registry)
        → now < stamp + ttl
        → IsStopped r
        → IsStopped (prune_cancelled_runs ttl now r)
    unfolding prune_cancelled_runs
    prune_cancelled_runs-IsStopped now r lt s = record {
      stamped = s.stamped;
      tombstone =
          at-unexpired run_id ttl now s.stamped r.cancelled_runs s.tombstone
            (omega (arith, s.recent));
      recent = s.recent;
      known = s.known;
    }

    -- Another run's entry may be set to anything.
    other_run :
        (active : List (String × List ℕ)) (r : Registry)
        → at run_id active ≡ at run_id r.active_processes
        → IsStopped r
        → IsStopped (record r { active_processes = active })
    other_run active r same s = record {
      stamped = s.stamped;
      tombstone = s.tombstone;
      recent = s.recent;
      known = λ p h. s.known p (sym (ap (λ ps. has_process p (or_no_process ps)) same) ∙ h);
    }

    register_in-IsStopped :
        (tombstoned : Bool) (k : String) (proc : ℕ) (r : Registry)
        → is_some (at k r.cancelled_runs) ≡ tombstoned
        → IsStopped r
        → IsStopped (register_in tombstoned k proc r).1
    register_in-IsStopped true k proc r e s = s
    register_in-IsStopped false k proc r e s = elim (Bool-cases (k == run_id)) [
      | inl same ↦
          let clash : is_some (some s.stamped) ≡ false =
            ap is_some (sym s.tombstone)
            ∙ subst (λ j. is_some (at j r.cancelled_runs) ≡ false) ((eq_iff k run_id).0 same) e in
          cc
      | inr other ↦ other_run _ r (at-put k run_id _ r.active_processes ∙ rw other refl) s
    ]

    register_process-IsStopped :
        (k : Option String) (proc now : ℕ) (r : Registry)
        → now < stamp + ttl
        → IsStopped r
        → IsStopped (register_process ttl k proc now r).1
    unfolding register_process
    register_process-IsStopped none proc now r lt s = s
    register_process-IsStopped (some k) proc now r lt s = elim (Bool-cases (is_empty k)) [
      | inl blank ↦ rw blank s
      | inr named ↦
          rw named
            (register_in-IsStopped _ k proc _ refl (prune_cancelled_runs-IsStopped now r lt s))
    ]

    fewer :
        (active : List (String × List ℕ)) (r : Registry)
        → ((p : ℕ)
            → has_process p (or_no_process (at run_id active)) ≡ true
            → has_process p (processes_of run_id r) ≡ true)
        → IsStopped r
        → IsStopped (record r { active_processes = active })
    fewer active r less s = record {
      stamped = s.stamped;
      tombstone = s.tombstone;
      recent = s.recent;
      known = λ p h. s.known p (less p h);
    }

    entry :
        (k : String) (ps : List ℕ) (r : Registry) (o : Option (List ℕ))
        → ((p : ℕ) → has_process p (or_no_process o) ≡ true → has_process p ps ≡ true)
        → processes_of k r ≡ ps
        → (p : ℕ)
        → has_process p (or_no_process (if k == run_id then o else at run_id r.active_processes))
          ≡ true
        → has_process p (processes_of run_id r) ≡ true
    entry k ps r o less e p h = elim (Bool-cases (k == run_id)) [
      | inl same ↦
          subst (λ j. has_process p (processes_of j r) ≡ true) ((eq_iff k run_id).0 same)
            (ap (has_process p) e ∙ less p (rw same at h))
      | inr other ↦ rw other at h
    ]

    leave_processes-IsStopped :
        (k : String) (left ps : List ℕ) (r : Registry)
        → ((p : ℕ) → has_process p left ≡ true → has_process p ps ≡ true)
        → processes_of k r ≡ ps
        → IsStopped r
        → IsStopped (leave_processes k left r)
    leave_processes-IsStopped k [] ps r less e s =
        fewer _ r
          (λ p h.
            entry k ps r none (λ q g. less q g) e p (rw (at-pop k run_id r.active_processes) at h))
          s
    leave_processes-IsStopped k (q ∷ qs) ps r less e s =
        fewer _ r
          (λ p h.
            entry k ps r (some (q ∷ qs)) less e p
              (rw (at-put k run_id (q ∷ qs) r.active_processes) at h))
          s

    unregister_process-IsStopped :
        (k : Option String) (proc : ℕ) (r : Registry)
        → IsStopped r
        → IsStopped (unregister_process k proc r)
    unfolding unregister_process
    unregister_process-IsStopped none proc r s = s
    unregister_process-IsStopped (some k) proc r s = elim (Bool-cases (is_empty k)) [
      | inl blank ↦ rw blank s
      | inr named ↦ rw named (leave (processes_of k r) refl)
    ]
      where
        leave : (ps : List ℕ) → processes_of k r ≡ ps → IsStopped (without k proc ps r)
        leave [] e = s
        leave (q ∷ qs) e =
            leave_processes-IsStopped k _ (q ∷ qs) r (λ p. has_process-discard p proc (q ∷ qs)) e s

    cancel_run-IsStopped :
        (k : String) (now later : ℕ) (r : Registry)
        → now < stamp + ttl
        → stamp ≤ later
        → IsStopped r
        → IsStopped (cancel_run ttl k now later r).1
    unfolding cancel_run
    cancel_run-IsStopped k now later r lt le s =
        let pruned = prune_cancelled_runs-IsStopped now r lt s in
        let there = at-put k run_id later (prune_cancelled_runs ttl now r).cancelled_runs in
        elim (Bool-cases (k == run_id)) [
          | inl same ↦ record {
            stamped = later;
            tombstone = there ∙ rw same refl;
            recent = le;
            known = pruned.known;
          }
          | inr other ↦ record {
            stamped = pruned.stamped;
            tombstone = there ∙ rw other pruned.tombstone;
            recent = pruned.recent;
            known = pruned.known;
          }
        ]

    call-IsStopped :
        (c : Call) (r : Registry)
        → Within stamp (stamp + ttl) c
        → IsStopped r
        → IsStopped (call c r)
    unfolding call
    call-IsStopped (registering k proc now) r (low, high) s =
        register_process-IsStopped k proc now r high s
    call-IsStopped (unregistering k proc) r w s = unregister_process-IsStopped k proc r s
    call-IsStopped (cancelling k now later) r (low, high, le, lt) s =
        cancel_run-IsStopped k now later r high le s

    calls-IsStopped :
        (cs : List Call) (r : Registry)
        → All (Within stamp (stamp + ttl)) cs
        → IsStopped r
        → IsStopped (calls cs r)
    unfolding calls
    calls-IsStopped [] r w s = s
    calls-IsStopped (c ∷ cs) r (first, rest) s =
        calls-IsStopped cs (call c r) rest (call-IsStopped c r first s)

  stopped_lem :
      (run_id : String) (now stamp : ℕ) (r : Registry)
      → IsStopped run_id stamp
          (cancel_run ttl run_id now stamp r).0
          (cancel_run ttl run_id now stamp r).1
  unfolding cancel_run
  stopped_lem run_id now stamp r = record {
    stamped = stamp;
    tombstone =
        at-put run_id run_id stamp (prune_cancelled_runs ttl now r).cancelled_runs
        ∙ rw ((eq_iff run_id run_id).1 refl) refl;
    recent = omega arith;
    known = λ p h. h;
  }

  -- After a stop of a run, whatever calls follow within the lifetime of its tombstone, every process
  -- that is still active under the run is one that the stop has terminated: none was added.
  pub cancel_run_complete :
      (run_id : String) (now stamp : ℕ) (r : Registry) (cs : List Call)
      → All (Within stamp (stamp + ttl)) cs
      → (p : ℕ)
      → has_process p (processes_of run_id (calls cs (cancel_run ttl run_id now stamp r).1)) ≡ true
      → has_process p (cancel_run ttl run_id now stamp r).0 ≡ true
  cancel_run_complete run_id now stamp r cs within =
      (calls-IsStopped run_id stamp _ cs _ within (stopped_lem run_id now stamp r)).known

  -- After a stop of a named run, whatever calls follow within the lifetime of its tombstone, a process
  -- that would register within it is refused, and the call that started it terminates it.
  pub register_process-stopped :
      (run_id : String) (now stamp : ℕ) (r : Registry) (cs : List Call)
      → All (Within stamp (stamp + ttl)) cs
      → is_empty run_id ≡ false
      → (proc later : ℕ) → later < stamp + ttl
      → (register_process ttl
          (some run_id)
          proc
          later
          (calls cs (cancel_run ttl run_id now stamp r).1)).0
        ≡ false
  unfolding register_process
  register_process-stopped run_id now stamp r cs within named proc later lt =
      let s = calls-IsStopped run_id stamp _ cs _ within (stopped_lem run_id now stamp r) in
      let pruned =
        prune_cancelled_runs-IsStopped run_id stamp _ later
          (calls cs (cancel_run ttl run_id now stamp r).1) lt s in
      rw (named, pruned.tombstone) refl
