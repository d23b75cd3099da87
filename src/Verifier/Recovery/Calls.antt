-- ===== src/Verifier/Recovery/Calls.antt =====
-- engine/src/api/services/mutation_verifier.py: a recovery pass as a sequence of calls of the journal.
use cloudops_agent.Prelude.{
  ℕ, String, Bool, true, false, not, ◌||◌, Option, none, some, ◌≡◌, refl, ap, sym, ◌∙◌, List, [],
  ◌∷◌, ◌++◌, subst, inl, inr, Option-cases, >>=-eq-some, some_inj, All,
}
use cloudops_agent.Json.{Value, obj, Fields}
use cloudops_agent.Json.Access.{lookup}
use cloudops_agent.Settings.{Settings}
use cloudops_agent.Mutation.Manifest.{Yaml}
use cloudops_agent.Mutation.Operation.{MutationOperation, VerificationStatus}
use cloudops_agent.Journal.Rows.{Clock}
use cloudops_agent.Journal.Table.{
  Table, Result, ok, err, find_row, recover_stale_executions, claim_verification_row,
  record_verification_row,
}
use cloudops_agent.Journal.Steps.{
  Event, starting, claiming, concluding, recovering_executions, recovering_verifications, apply,
  run,
}
use cloudops_agent.Executor.Run.Replay.{run-++}
use cloudops_agent.Verifier.Loop.{
  Pass, Answer, verify, unclaimed, not_found, recorded, record_result, after_claim,
}
use cloudops_agent.Verifier.Recovery.{
  Visit, Recovery, reconciled_by, verified_by, reconcile_one, reconcile_all, recover_stale,
}

-- A call of `mark_executing`.
abbrev pub is_start : Event → Bool
is_start (starting clock id owner) = true
is_start _ = false

pub All-++ {ℓ κ} :
    {A : Type ℓ} (P : A → Type κ) (xs ys : List A) → All P xs → All P ys → All P (xs ++ ys)
All-++ P [] ys hs ks = ks
All-++ P (x ∷ xs) ys (h, hs) ks = (h, All-++ P xs ys hs ks)

-- The second journal is what calls of the journal make of the first, starts among them or not.
pub record Calls (settings : Settings) (yaml : Yaml) (digest : String → String → String)
    (with_starts : Bool) (t t' : Table) : Type 0 where
  pub events : List Event
  pub allowed : All (λ (e : Event). (not (is_start e) || with_starts) ≡ true) events
  pub result : run settings yaml digest events t ≡ t'

module _ (settings : Settings) (yaml : Yaml) (digest : String → String → String)
    (with_starts : Bool) where
  pub Calls-refl : (t : Table) → Calls settings yaml digest with_starts t t
  unfolding run
  Calls-refl t = record { events = []; allowed = tt; result = refl }

  pub Calls-trans :
      (t u v : Table)
      → Calls settings yaml digest with_starts t u
      → Calls settings yaml digest with_starts u v
      → Calls settings yaml digest with_starts t v
  Calls-trans t u v first second = record {
    events = first.events ++ second.events;
    allowed = All-++ _ first.events second.events first.allowed second.allowed;
    result =
        run-++ settings yaml digest first.events second.events t
        ∙ ap (run settings yaml digest second.events) first.result
        ∙ second.result;
  }

  Calls-apply :
      (e : Event) (t : Table)
      → (not (is_start e) || with_starts) ≡ true
      → Calls settings yaml digest with_starts t (apply settings yaml digest e t)
  unfolding run
  Calls-apply e t h = record { events = e ∷ []; allowed = (h, tt); result = refl }

  some_table :
      (a b : Result Answer × Table)
      → ◌≡◌ {A = Option (Result Answer × Table)} (some a) (some b)
      → a.1 ≡ b.1
  some_table a b e = ap (λ x. x.1) (some_inj e)

  module _ (clock later_clock : Clock) (id owner : String) (kubernetes helm : ℕ → Pass)
      (started : ℕ) (time : ℕ → ℕ) (meanwhile : Table → Table) (fuel : ℕ)
      (others : (t : Table) → Calls settings yaml digest with_starts t (meanwhile t)) where
    claim-Calls :
        (t : Table)
        → Calls settings yaml digest with_starts t
            (claim_verification_row settings clock id owner t).1
    unfolding apply
    claim-Calls t = Calls-apply (claiming clock id owner) t refl

    record-Calls :
        (status : VerificationStatus) (result : Value) (reference : Option Value) (t : Table)
        → Calls settings yaml digest with_starts t
            (record_verification_row settings later_clock id owner status result reference t).1
    unfolding apply
    record-Calls status result reference t =
        Calls-apply (concluding later_clock id owner status result reference) t refl

    recorded-table :
        (status : VerificationStatus) (last_result : Fields) (r : Result MutationOperation × Table)
        → (recorded settings clock later_clock id owner kubernetes helm started time meanwhile fuel
            status last_result r).1
          ≡ r.1
    recorded-table status last_result (ok op, t) = refl
    recorded-table status last_result (err e, t) = refl

    record_result-Calls :
        (t : Table) (o : Option (VerificationStatus × Fields)) (r : Result Answer) (t' : Table)
        → record_result settings clock later_clock id owner kubernetes helm started time meanwhile
            fuel t o
          ≡ some (r, t')
        → Calls settings yaml digest with_starts t t'
    record_result-Calls t none r t' h = cc
    record_result-Calls t (some (status, last_result)) r t' h =
        let reference = lookup "external_reference" last_result in
        let written =
          record_verification_row settings later_clock id owner status (obj last_result) reference
            (meanwhile t) in
        let same : written.1 ≡ t' =
          sym (recorded-table status last_result written) ∙ some_table _ (r, t') h in
        subst (Calls settings yaml digest with_starts t) same (
          Calls-trans t (meanwhile t) written.1 (others t)
            (record-Calls status (obj last_result) reference (meanwhile t)))

    after_claim-Calls :
        (c : Result (MutationOperation × Bool) × Table) (r : Result Answer) (t' : Table)
        → after_claim settings clock later_clock id owner kubernetes helm started time meanwhile
            fuel c
          ≡ some (r, t')
        → Calls settings yaml digest with_starts c.1 t'
    after_claim-Calls (err e, t) r t' h =
        subst (Calls settings yaml digest with_starts t) (some_table (err e, t) (r, t') h)
          (Calls-refl t)
    after_claim-Calls (ok (op, false), t) r t' h =
        subst (Calls settings yaml digest with_starts t)
          (some_table (ok (unclaimed op), t) (r, t') h) (Calls-refl t)
    after_claim-Calls (ok (op, true), t) r t' h = record_result-Calls t _ r t' h

    pub verify-Calls :
        (t : Table) (r : Result Answer) (t' : Table)
        → verify settings clock later_clock id owner kubernetes helm started time meanwhile fuel t
          ≡ some (r, t')
        → Calls settings yaml digest with_starts t t'
    unfolding verify
    verify-Calls t r t' h = elim (Option-cases (find_row id t)) [
      | inl nothing ↦
          subst (Calls settings yaml digest with_starts t)
            (some_table (ok not_found, t) (r, t') (rw nothing at h)) (Calls-refl t)
      | inr (op, there) ↦
          let claimed = claim_verification_row settings clock id owner t in
          Calls-trans t claimed.1 t' (claim-Calls t)
            (after_claim-Calls claimed r t' (rw there at h))
    ]

  module _ (has_callback : Bool) (visit : String → Visit)
      (before : (id : String) (t : Table)
        → Calls settings yaml digest with_starts t ((visit id).before t))
      (during : (id : String) (t : Table)
        → Calls settings yaml digest with_starts t ((visit id).during t))
      (after : (id : String) (t : Table)
        → Calls settings yaml digest with_starts t ((visit id).after t)) where
    pub verified_by-Calls :
        (id : String) (t : Table) (r : Result Answer) (t' : Table)
        → verified_by settings has_callback visit id (visit id) t ≡ some (r, t')
        → Calls settings yaml digest with_starts t t'
    verified_by-Calls id t r t' h =
        let v = visit id in
        Calls-trans t (v.before t) t' (before id t) (
          verify-Calls v.clock v.later_clock id v.owner v.kubernetes v.helm v.started v.time
            v.during v.fuel (during id) (v.before t) r t' h)

    pub reconciled_by-Calls :
        (id : String) (r : Result Answer) (t : Table) (p : Recovery)
        → Calls settings yaml digest with_starts t
            (reconciled_by has_callback (visit id).after id (r, t) p).table
    reconciled_by-Calls id (ok answer) t p = after id t
    reconciled_by-Calls id (err e) t p = Calls-refl t

    pub reconcile_one-Calls :
        (id : String) (r r' : Recovery)
        → reconcile_one settings has_callback visit id r ≡ some r'
        → Calls settings yaml digest with_starts r.table r'.table
    unfolding reconcile_one
    reconcile_one-Calls id r r' h =
        let ((outcome, t'), e, h1) =
          >>=-eq-some (verified_by settings has_callback visit id (visit id) r.table) _ h in
        subst (λ (x : Recovery). Calls settings yaml digest with_starts r.table x.table)
          (some_inj h1)
          (Calls-trans r.table t' _ (verified_by-Calls id r.table outcome t' e)
            (reconciled_by-Calls id outcome t' r))

    pub reconcile_all-Calls :
        (ops : List MutationOperation) (r r' : Recovery)
        → reconcile_all settings has_callback visit ops r ≡ some r'
        → Calls settings yaml digest with_starts r.table r'.table
    unfolding reconcile_all
    reconcile_all-Calls [] r r' h =
        subst (λ (x : Recovery). Calls settings yaml digest with_starts r.table x.table)
          (some_inj h) (Calls-refl r.table)
    reconcile_all-Calls (op ∷ ops) r r' h =
        let (next, e, h1) = >>=-eq-some (reconcile_one settings has_callback visit op.id r) _ h in
        Calls-trans r.table next.table r'.table (reconcile_one-Calls op.id r next e)
          (reconcile_all-Calls ops next r' h1)

    module _ (execution_now verification_now cutoff_now : ℕ) (between : Table → Table)
        (others : (t : Table) → Calls settings yaml digest with_starts t (between t)) where
      pub recover_stale-Calls :
          (t : Table)
          → Calls settings yaml digest with_starts t (
              recover_stale settings has_callback visit execution_now verification_now cutoff_now
                between t)
      unfolding recover_stale apply
      recover_stale-Calls t =
          let first = (recover_stale_executions execution_now t).1 in
          Calls-trans t first _ (Calls-apply (recovering_executions execution_now) t refl) (
            Calls-trans first (between first) _ (others first)
              (Calls-apply (recovering_verifications verification_now) (between first) refl))
