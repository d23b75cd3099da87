-- ===== src/Verifier/Loop/Agrees.antt =====
-- engine/src/api/services/mutation_verifier.py: the status of an answer is that of the journal's row.
use cloudops_agent.Prelude.{
  ℕ, String, Bool, true, false, Option, none, some, ◌≡◌, refl, arith, ap, sym, subst, ◌∙◌, inl, inr,
  Option-cases, Bool-cases, some_inj, eq_iff,
}
use cloudops_agent.Json.{Value, Fields, obj}
use cloudops_agent.Json.Access.{lookup}
use cloudops_agent.Settings.{Settings}
use cloudops_agent.Mutation.Operation.{MutationOperation, VerificationStatus, passed}
use cloudops_agent.Journal.Rows.{is_verification_outcome}
use cloudops_agent.Journal.Rows.{
  Clock, Action, raise, leave, save, claim_verification, record_verification,
}
use cloudops_agent.Journal.Table.{
  Table, Result, ok, err, find_row, write_row, commit, locked, claim_verification_row,
  record_verification_row,
}
use cloudops_agent.Journal.Lookup.{find_row-id, find_row-write_row}
use cloudops_agent.Journal.Steps.Locked.{claim_verification-keeps, record_verification-keeps}
use cloudops_agent.Verifier.Loop.{
  Pass, Answer, unclaimed, concluded, recorded, record_result, after_claim, verify,
}
use cloudops_agent.Verifier.Loop.Honest.{verify-Honest}

-- The journal's row of the operation has the verification status.
abbrev pub HasStatus : String → VerificationStatus → Table → Type 0
HasStatus id s t =
    (op : MutationOperation) × (find_row id t ≡ some op) × (op.verification_status ≡ s)

-- The journal's row of the operation is PASSED.
abbrev pub HasPassed : String → Table → Type 0
HasPassed id t =
    (op : MutationOperation) × (find_row id t ≡ some op) × (op.verification_status ≡ passed)

-- The row that a save writes is the one that is found.
saved-row :
    (id : String) (t : Table) (o o' : MutationOperation)
    → find_row id t ≡ some o
    → o'.id ≡ o.id
    → find_row id (write_row o' t) ≡ some o'
saved-row id t o o' here kept =
    let same : o'.id ≡ id = kept ∙ find_row-id id t o here in
    let there : find_row o'.id t ≡ some o = ap (λ (k : String). find_row k t) same ∙ here in
    find_row-write_row id t o o' there ∙ rw ((eq_iff o'.id id).1 same) refl

module _ (settings : Settings) (clock : Clock) (id owner : String) where
  claim_left :
      (t : Table) (o : MutationOperation) (a : Action (MutationOperation × Bool))
      (op : MutationOperation) (t' : Table)
      → claim_verification settings clock owner o ≡ a
      → find_row id t ≡ some o
      → commit a t ≡ (ok (op, false), t')
      → find_row id t' ≡ some op
  unfolding claim_verification
  claim_left t o (raise e) op t' h here done = ground arith
  claim_left t o (leave (found, b)) op t' h here done =
      let same : found ≡ o = ground arith in
      let found_op : found ≡ op = ground arith in
      let kept : t ≡ t' = ap (λ x. x.1) done in
      subst (λ (x : Table). find_row id x ≡ some op) kept (here ∙ ap some (sym same ∙ found_op))
  claim_left t o (save o' (found, b)) op t' h here done =
      let same : o' ≡ found = ground arith in
      let found_op : found ≡ op = ground arith in
      let kept : write_row o' t ≡ t' = ap (λ x. x.1) done in
      subst (λ (x : Table). find_row id x ≡ some op) kept
        (saved-row id t o o' here (claim_verification-keeps settings clock owner o o' (found, b) h)
          ∙ ap some (same ∙ found_op))

  unclaimed_left :
      (t : Table) (op : MutationOperation) (t' : Table)
      → claim_verification_row settings clock id owner t ≡ (ok (op, false), t')
      → find_row id t' ≡ some op
  unfolding locked
  unclaimed_left t op t' h = elim (Option-cases (find_row id t)) [
    | inl nothing ↦ cc (rw nothing at h)
    | inr (o, here) ↦ claim_left t o _ op t' refl here (rw here at h)
  ]

  record_left :
      (status : VerificationStatus) (result : Value) (reference : Option Value) (t : Table)
      (o : MutationOperation) (a : Action MutationOperation) (op : MutationOperation) (t' : Table)
      → record_verification clock owner status result reference o ≡ a
      → find_row id t ≡ some o
      → commit a t ≡ (ok op, t')
      → HasStatus id status t'
  unfolding record_verification
  record_left status result reference t o (raise e) op t' h here done = ground arith
  record_left status result reference t o (leave r) op t' h here done = ground arith
  record_left status result reference t o (save o' r) op t' h here done =
      let row : o'.verification_status ≡ status = ground arith in
      let kept : write_row o' t ≡ t' = ap (λ x. x.1) done in
      (
        o',
        subst (λ (x : Table). find_row id x ≡ some o') kept
            (saved-row id t o o' here
              (record_verification-keeps settings clock owner status result reference o o' r h)),
        row,
      )

  recorded_left :
      (status : VerificationStatus) (result : Value) (reference : Option Value) (t : Table)
      (op : MutationOperation) (t' : Table)
      → record_verification_row settings clock id owner status result reference t ≡ (ok op, t')
      → HasStatus id status t'
  unfolding locked
  recorded_left status result reference t op t' h =
      elim (Bool-cases (is_verification_outcome status)) [
        | inr none_such ↦ cc (rw none_such at h)
        | inl outcome ↦ elim (Option-cases (find_row id t)) [
          | inl nothing ↦ cc (rw (outcome, nothing) at h)
          | inr (o, here) ↦
              record_left status result reference t o _ op t' refl here (rw (outcome, here) at h)
        ]
      ]

unclaimed-status : (op : MutationOperation) → (unclaimed op).status ≡ some op.verification_status
unfolding unclaimed
unclaimed-status op = ground arith

concluded-status :
    (status : VerificationStatus) (last_result : Fields) (op : MutationOperation)
    → (concluded status last_result op).status ≡ some status
unfolding concluded
concluded-status status last_result op = refl

-- The answer and the table of a result.
result_parts :
    {a b : Answer} {t u : Table}
    → ◌≡◌ {A = Result Answer × Table} (ok a, t) (ok b, u)
    → (a ≡ b) × (t ≡ u)
result_parts h = (cc, cc)

module _ (settings : Settings) (clock later_clock : Clock) (id owner : String)
    (kubernetes helm : ℕ → Pass) (started : ℕ) (time : ℕ → ℕ) (meanwhile : Table → Table)
    (fuel : ℕ) where
  recorded-HasStatus :
      (status : VerificationStatus) (last_result : Fields) (r : Result MutationOperation × Table)
      (t : Table) (answer : Answer) (s : VerificationStatus) (t' : Table)
      → record_verification_row settings later_clock id owner status
          (obj last_result)
          (lookup "external_reference" last_result)
          t
        ≡ r
      → recorded settings clock later_clock id owner kubernetes helm started time meanwhile fuel
          status last_result r
        ≡ (ok answer, t')
      → answer.status ≡ some s
      → HasStatus id s t'
  recorded-HasStatus status last_result (err e, u) t answer s t' h done said = ground arith
  recorded-HasStatus status last_result (ok op, u) t answer s t' h done said =
      let (same, kept) = result_parts done in
      let status_s : status ≡ s = some_inj (
        sym (concluded-status status last_result op) ∙ ap (λ (a : Answer). a.status) same ∙ said) in
      subst (λ (x : Table). HasStatus id s x) kept
        (subst (λ (v : VerificationStatus). HasStatus id v u) status_s
          (recorded_left settings later_clock id owner status (obj last_result)
            (lookup "external_reference" last_result) t op u h))

  record_result-HasStatus :
      (t : Table) (o : Option (VerificationStatus × Fields)) (answer : Answer)
      (s : VerificationStatus) (t' : Table)
      → record_result settings clock later_clock id owner kubernetes helm started time meanwhile
          fuel t o
        ≡ some (ok answer, t')
      → answer.status ≡ some s
      → HasStatus id s t'
  record_result-HasStatus t none answer s t' h said = ground arith
  record_result-HasStatus t (some (status, last_result)) answer s t' h said =
      recorded-HasStatus status last_result _ (meanwhile t) answer s t' refl (some_inj h) said

  after_claim-HasStatus :
      (t : Table) (r : Result (MutationOperation × Bool) × Table) (answer : Answer)
      (s : VerificationStatus) (t' : Table)
      → claim_verification_row settings clock id owner t ≡ r
      → after_claim settings clock later_clock id owner kubernetes helm started time meanwhile fuel
          r
        ≡ some (ok answer, t')
      → answer.status ≡ some s
      → HasStatus id s t'
  after_claim-HasStatus t (err e, u) answer s t' c h said = ground arith
  after_claim-HasStatus t (ok (op, true), u) answer s t' c h said =
      record_result-HasStatus u _ answer s t' h said
  after_claim-HasStatus t (ok (op, false), u) answer s t' c h said =
      let (same, kept) = result_parts (some_inj h) in
      subst (λ (x : Table). HasStatus id s x) kept
        (
          op,
          unclaimed_left settings clock id owner t op u c,
          some_inj (sym (unclaimed-status op) ∙ ap (λ (a : Answer). a.status) same ∙ said),
        )

  -- The status of an answer of `verify` is the verification status of the operation's row when it
  -- returns, whoever recorded it and whatever other workers did between the claim and the record.
  pub verify-HasStatus :
      (t : Table) (answer : Answer) (s : VerificationStatus) (t' : Table)
      → verify settings clock later_clock id owner kubernetes helm started time meanwhile fuel t
        ≡ some (ok answer, t')
      → answer.status ≡ some s
      → HasStatus id s t'
  unfolding verify
  verify-HasStatus t answer s t' h said = elim (Option-cases (find_row id t)) [
    | inl nothing ↦
        let (same, kept) = result_parts (some_inj (rw nothing at h)) in
        cc (ap (λ (a : Answer). a.status) same ∙ said)
    | inr (o, here) ↦ after_claim-HasStatus t _ answer s t' refl (rw here at h) said
  ]

  -- Where `verify` answers that the operation passed, the journal's row of the operation is PASSED when it
  -- returns, whoever recorded it and whatever other workers did between the claim and the record.
  pub verify-HasPassed :
      (t : Table) (answer : Answer) (t' : Table)
      → verify settings clock later_clock id owner kubernetes helm started time meanwhile fuel t
        ≡ some (ok answer, t')
      → answer.passed ≡ true
      → HasPassed id t'
  verify-HasPassed t answer t' h passing = verify-HasStatus t answer passed t' h (
      verify-Honest settings clock later_clock id owner kubernetes helm started time meanwhile fuel
        t t' answer h passing)
