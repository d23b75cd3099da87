-- ===== src/Verifier/Recovery/Published.antt =====
-- engine/src/api/services/mutation_verifier.py: what a recovery pass publishes and counts.
use cloudops_agent.Prelude.{
  ℕ, zero, suc, ◌+◌, ◌≤◌, String, Bool, true, ◌&&◌, some, ◌≡◌, refl, arith, ap, sym, subst, ◌∙◌,
  List, [], ◌∷◌, inl, inr, Bool-cases, Option-cases, >>=-eq-some, some_inj, All, length, take,
  filter,
}
use cloudops_agent.Settings.{Settings}
use cloudops_agent.Mutation.Manifest.{Yaml}
use cloudops_agent.Mutation.Operation.{MutationOperation, VerificationStatus}
use cloudops_agent.Journal.Table.{Table, Result, ok, err, find_row}
use cloudops_agent.Journal.Invariant.{IsConsistent}
use cloudops_agent.Journal.History.{run-IsConsistent}
use cloudops_agent.Journal.History.Final.{is_over, run-frozen}
use cloudops_agent.Verifier.Loop.{Answer}
use cloudops_agent.Verifier.Loop.Agrees.{HasStatus, verify-HasStatus}
use cloudops_agent.Verifier.Recovery.{
  Visit, Recovery, is_published, published_by, reconciled_by, is_due, due_operations, verified_by,
  reconcile_one, reconcile_all, recover_stale, reconcile_once,
}
use cloudops_agent.Verifier.Recovery.Calls.{
  Calls, All-++, verified_by-Calls, reconcile_one-Calls, recover_stale-Calls,
}

-- The callback got an answer with a settled status, with a row that has that status.
abbrev pub IsBacked : MutationOperation × Answer → Type 0
IsBacked (op, answer) =
    (is_published answer.status ≡ true) × (answer.status ≡ some op.verification_status)

length-take {ℓ} : {A : Type ℓ} (n : ℕ) (xs : List A) → length (take n xs) ≤ n
length-take zero xs = ground arith
length-take (suc n) [] = ground arith
length-take (suc n) (x ∷ xs) = ground (arith, length-take n xs)

abbrev pub AllConsistent : Settings → Table → Type 0
AllConsistent settings t =
    (id : String) (op : MutationOperation) → find_row id t ≡ some op → IsConsistent settings op

published_over :
    (settings : Settings) (op : MutationOperation)
    → IsConsistent settings op
    → is_published (some op.verification_status) ≡ true
    → is_over op ≡ true
published_over settings op c h = ground arith

module _ (settings : Settings) (yaml : Yaml) (digest : String → String → String) where
  Calls-AllConsistent :
      (t t' : Table)
      → Calls settings yaml digest true t t'
      → AllConsistent settings t
      → AllConsistent settings t'
  Calls-AllConsistent t t' made h =
      subst (AllConsistent settings) made.result
        (run-IsConsistent settings yaml digest made.events t h)

  -- A row with a settled verification is there after all later calls.
  Calls-settled :
      (t t' : Table) (id : String) (op : MutationOperation)
      → Calls settings yaml digest true t t'
      → AllConsistent settings t
      → find_row id t ≡ some op
      → is_published (some op.verification_status) ≡ true
      → find_row id t' ≡ some op
  Calls-settled t t' id op made h there settled =
      subst (λ (x : Table). find_row id x ≡ some op) made.result
        (run-frozen settings yaml digest made.events t id op there (h id op there)
          (published_over settings op (h id op there) settled))

  module _ (has_callback : Bool) (visit : String → Visit)
      (before : (id : String) (t : Table) → Calls settings yaml digest true t ((visit id).before t))
      (during : (id : String) (t : Table) → Calls settings yaml digest true t ((visit id).during t))
      (after : (id : String) (t : Table)
        → Calls settings yaml digest true t ((visit id).after t)) where
    published_by-IsBacked :
        (id : String) (answer : Answer) (t : Table)
        → AllConsistent settings t
        → ((s : VerificationStatus) → answer.status ≡ some s → HasStatus id s t)
        → All IsBacked (published_by has_callback id answer ((visit id).after t))
    published_by-IsBacked id answer t h backed =
        elim (Bool-cases (has_callback && is_published answer.status)) [
          | inl e ↦ elim (Option-cases answer.status) [
            | inl nothing ↦
                let settled : is_published answer.status ≡ true = ground arith in
                cc (sym (ap is_published nothing) ∙ settled)
            | inr (s, said) ↦
                let (op, there, same) = backed s said in
                let tells : answer.status ≡ some op.verification_status =
                  said ∙ ap some (sym same) in
                let settled : is_published answer.status ≡ true = ground arith in
                rw
                  (
                    e,
                    Calls-settled t ((visit id).after t) id op (after id t) h there
                        (ap is_published (sym tells) ∙ settled),
                  )
                  ((settled, tells), tt)
          ]
          | inr e ↦ rw e tt
        ]

    -- A pass so far is sound: what it published is backed, and it counted at most `n` operations.
    abbrev IsSound : ℕ → Recovery → Type 0
    IsSound n r = All IsBacked r.published × (r.reconciled ≤ n)

    reconciled_by-IsSound :
        (n : ℕ) (id : String) (result : Result Answer) (t : Table) (r : Recovery)
        → AllConsistent settings t
        → ((answer : Answer) (s : VerificationStatus)
            → result ≡ ok answer
            → answer.status ≡ some s
            → HasStatus id s t)
        → IsSound n r
        → IsSound (suc n) (reconciled_by has_callback (visit id).after id (result, t) r)
    reconciled_by-IsSound n id (err e) t r h backed (all_backed, bound) =
        (all_backed, omega (arith, bound))
    reconciled_by-IsSound n id (ok answer) t r h backed (all_backed, bound) = (
      All-++ IsBacked r.published (published_by has_callback id answer ((visit id).after t))
          all_backed (published_by-IsBacked id answer t h (λ s. backed answer s refl)),
      omega (arith, bound),
    )

    reconcile_one-IsSound :
        (n : ℕ) (id : String) (r r' : Recovery)
        → reconcile_one settings has_callback visit id r ≡ some r'
        → AllConsistent settings r.table
        → IsSound n r
        → IsSound (suc n) r'
    unfolding reconcile_one
    reconcile_one-IsSound n id r r' h c sound =
        let v = visit id in
        let ((result, t'), e, h1) =
          >>=-eq-some (verified_by settings has_callback visit id v r.table) _ h in
        let made =
          verified_by-Calls settings yaml digest true has_callback visit before during after id
            r.table result t' e in
        subst (IsSound (suc n)) (some_inj h1) (
          reconciled_by-IsSound n id result t' r (Calls-AllConsistent r.table t' made c)
            (λ answer s is said.
              verify-HasStatus settings v.clock v.later_clock id v.owner v.kubernetes v.helm
                v.started v.time v.during v.fuel (v.before r.table) answer s t'
                (e ∙ ap (λ (x : Result Answer). some (x, t')) is) said)
            sound)

    reconcile_all-IsSound :
        (ops : List MutationOperation) (n : ℕ) (r r' : Recovery)
        → reconcile_all settings has_callback visit ops r ≡ some r'
        → AllConsistent settings r.table
        → IsSound n r
        → IsSound (n + length ops) r'
    unfolding reconcile_all
    reconcile_all-IsSound [] n r r' h c (all_backed, bound) = (
      subst (λ (x : Recovery). All IsBacked x.published) (some_inj h) all_backed,
      subst (λ (x : Recovery). x.reconciled ≤ n + 0) (some_inj h) (omega (arith, bound)),
    )
    reconcile_all-IsSound (op ∷ ops) n r r' h c sound =
        let (next, e, h1) = >>=-eq-some (reconcile_one settings has_callback visit op.id r) _ h in
        let made =
          reconcile_one-Calls settings yaml digest true has_callback visit before during after op.id
            r next e in
        let (all_backed, bound) =
          reconcile_all-IsSound ops (suc n) next r' h1 (Calls-AllConsistent _ _ made c)
            (reconcile_one-IsSound n op.id r next e c sound) in
        (all_backed, omega (arith, bound))

    -- A pass of the recovery worker over a journal with consistent rows counts at most as many operations
    -- as its batch size, and each row that its callback gets is settled as PASSED, FAILED or NEEDS_REVIEW
    -- with the very status that the answer given with it has, whatever calls of the journal other workers
    -- make before a verification, during it, and between its end and the reading of that row.
    pub reconcile_once-IsBacked :
        (execution_now verification_now cutoff_now : ℕ) (between : Table → Table)
        → ((t : Table) → Calls settings yaml digest true t (between t))
        → (t : Table) (r : Recovery) → AllConsistent settings t
        → reconcile_once settings has_callback visit execution_now verification_now cutoff_now
            between t
          ≡ some r
        → All IsBacked r.published × (r.reconciled ≤ settings.mutation_recovery_batch_size)
    unfolding reconcile_once due_operations
    reconcile_once-IsBacked execution_now verification_now cutoff_now between others t r c h =
        let recovered =
          recover_stale settings has_callback visit execution_now verification_now cutoff_now
            between t in
        let made =
          recover_stale-Calls settings yaml digest true has_callback visit before during after
            execution_now verification_now cutoff_now between others t in
        let (all_backed, bound) =
          reconcile_all-IsSound (due_operations settings cutoff_now recovered) 0 _ r h
            (Calls-AllConsistent t recovered made c) (tt, ground arith) in
        let short =
          length-take settings.mutation_recovery_batch_size
            (filter (is_due settings cutoff_now) recovered) in
        (all_backed, omega (arith, bound, short))
