-- ===== src/Verifier/Cancelled.antt =====
-- engine/src/api/services/mutation_verifier.py: a verification whose task is cancelled after its claim.
use cloudops_agent.Prelude.{
  String, Bool, true, false, ◌&&◌, some, ◌≡◌, refl, arith, ap, sym, subst, ◌∙◌, inl, inr,
  Option-cases, some_inj, eq_iff,
}
use cloudops_agent.Settings.{Settings}
use cloudops_agent.Mutation.Operation.{MutationOperation, is_verifying}
use cloudops_agent.Journal.Rows.{Clock, Action, raise, leave, save, owned_by, abandon_verification}
use cloudops_agent.Journal.Table.{
  Table, Result, ok, err, find_row, commit, locked, claim_verification_row,
  abandon_verification_row,
}
use cloudops_agent.Journal.Lookup.{find_row-id, find_row-write_row}

module _ (settings : Settings) (clock later_clock : Clock) (id owner : String)
    (meanwhile : Table → Table) where
  -- The journal when the CancelledError leaves `verify`, by what the claim gave; the cancellation comes
  -- while the passes run.
  abbrev pub cancelled_after : Result (MutationOperation × Bool) × Table → Table
  cancelled_after (ok (op, true), t) =
      (abandon_verification_row settings later_clock id owner "verification_cancelled"
        (meanwhile t)).1
  cancelled_after (ok (op, false), t) = t
  cancelled_after (err e, t) = t

  unfoldable pub verify_cancelled : Table → Table
  verify_cancelled t = cancelled_after (claim_verification_row settings clock id owner t)

-- The worker holds the verification lease of a row.
abbrev pub holds_lease : String → MutationOperation → Bool
holds_lease owner op =
    is_verifying op.verification_status && owned_by op.verification_lease_owner owner

module _ (settings : Settings) (clock : Clock) (id owner reason : String) where
  abandoned-released :
      (t : Table) (o : MutationOperation) (a : Action Bool) (op : MutationOperation)
      → abandon_verification clock owner reason o ≡ a
      → find_row id t ≡ some o
      → find_row id (commit a t).1 ≡ some op
      → holds_lease owner op ≡ false
  unfolding abandon_verification
  abandoned-released t o (raise e) op h here there = ground arith
  abandoned-released t o (leave b) op h here there =
      let same : o ≡ op = some_inj (sym here ∙ there) in
      let free : holds_lease owner o ≡ false = ground arith in
      subst (λ (r : MutationOperation). holds_lease owner r ≡ false) same free
  abandoned-released t o (save o' b) op h here there =
      let same_id : o'.id ≡ id = ground arith ∙ find_row-id id t o here in
      let place : find_row o'.id t ≡ some o = ap (λ (k : String). find_row k t) same_id ∙ here in
      let free : holds_lease owner o' ≡ false = ground arith in
      let written : some o' ≡ some op =
        sym (find_row-write_row id t o o' place ∙ rw ((eq_iff o'.id id).1 same_id) refl) ∙ there in
      subst (λ (r : MutationOperation). holds_lease owner r ≡ false) (some_inj written) free

  abandon_verification_row-released :
      (t : Table) (op : MutationOperation)
      → find_row id (abandon_verification_row settings clock id owner reason t).1 ≡ some op
      → holds_lease owner op ≡ false
  unfolding locked
  abandon_verification_row-released t op there = elim (Option-cases (find_row id t)) [
    | inl nothing ↦ cc (nothing, rw nothing at there)
    | inr (o, here) ↦ abandoned-released t o _ op refl here (rw here at there)
  ]

-- A verification that is cancelled after it got its claim leaves no lease behind: in the journal that
-- the cancellation leaves, the worker does not hold the row of the operation, whatever other workers
-- did since the claim.
pub verify_cancelled-released :
    (settings : Settings) (clock later_clock : Clock) (id owner : String)
    (meanwhile : Table → Table) (t : Table) (claimed : MutationOperation) (t' : Table)
    (op : MutationOperation)
    → claim_verification_row settings clock id owner t ≡ (ok (claimed, true), t')
    → find_row id (verify_cancelled settings clock later_clock id owner meanwhile t) ≡ some op
    → holds_lease owner op ≡ false
unfolding verify_cancelled
verify_cancelled-released settings clock later_clock id owner meanwhile t claimed t' op h there =
    abandon_verification_row-released settings later_clock id owner "verification_cancelled"
      (meanwhile t') op (rw h at there)
