-- ===== src/Verifier/Loop/Honest.antt =====
-- engine/src/api/services/mutation_verifier.py: an answer of `verify` that passed has the status PASSED.
use cloudops_agent.Prelude.{ℕ, String, Bool, true, false, Option, none, some, ◌≡◌, arith, subst}
use cloudops_agent.Json.{Fields, obj}
use cloudops_agent.Json.Access.{lookup}
use cloudops_agent.Settings.{Settings}
use cloudops_agent.Mutation.Operation.{VerificationStatus, MutationOperation, passed}
use cloudops_agent.Journal.Rows.{Clock}
use cloudops_agent.Journal.Table.{
  Table, Result, ok, err, find_row, claim_verification_row, record_verification_row,
}
use cloudops_agent.Verifier.Loop.{
  Pass, Answer, unclaimed, concluded, not_found, verify, verify_row, after_claim, record_result,
  recorded, passes,
}

abbrev pub Honest : Answer → Type 0
Honest a = a.passed ≡ true → a.status ≡ some passed

unclaimed-Honest : (op : MutationOperation) → Honest (unclaimed op)
unfolding unclaimed
unclaimed-Honest op h = ground arith

concluded-Honest :
    (status : VerificationStatus) (last_result : Fields) (op : MutationOperation)
    → Honest (concluded status last_result op)
unfolding concluded
concluded-Honest status last_result op h = ground arith

answer_inj :
    {a b : Answer} {t u : Table}
    → ◌≡◌ {A = Option (Result Answer × Table)} (some (ok a, t)) (some (ok b, u))
    → a ≡ b
answer_inj h = cc

module _ (settings : Settings) (clock later_clock : Clock) (id owner : String)
    (kubernetes helm : ℕ → Pass) (started : ℕ) (time : ℕ → ℕ) (meanwhile : Table → Table)
    (fuel : ℕ) where
  abbrev HonestResult : Option (Result Answer × Table) → Type 0
  HonestResult o = (a : Answer) (t : Table) → o ≡ some (ok a, t) → Honest a

  ok-Honest : (a : Answer) (t : Table) → Honest a → HonestResult (some (ok a, t))
  ok-Honest a t h b u e = subst Honest (answer_inj e) h

  recorded-Honest :
      (status : VerificationStatus) (last_result : Fields) (r : Result MutationOperation)
      (t : Table)
      → HonestResult (
          some (
            recorded settings clock later_clock id owner kubernetes helm started time meanwhile fuel
              status last_result
              (r, t)))
  recorded-Honest status last_result (ok op) t =
      ok-Honest (concluded status last_result op) t (concluded-Honest status last_result op)
  recorded-Honest status last_result (err e) t = λ b u h. cc

  record_result-Honest :
      (t : Table) (o : Option (VerificationStatus × Fields))
      → HonestResult (
          record_result settings clock later_clock id owner kubernetes helm started time meanwhile
            fuel t o)
  record_result-Honest t none = λ b u h. cc
  record_result-Honest t (some (status, last_result)) =
      recorded-Honest status last_result
        (record_verification_row settings later_clock id owner status (obj last_result)
          (lookup "external_reference" last_result) (meanwhile t)).0
        (record_verification_row settings later_clock id owner status (obj last_result)
          (lookup "external_reference" last_result) (meanwhile t)).1

  after_claim-Honest :
      (r : Result (MutationOperation × Bool)) (t : Table)
      → HonestResult (
          after_claim settings clock later_clock id owner kubernetes helm started time meanwhile
            fuel
            (r, t))
  after_claim-Honest (err e) t = λ b u h. cc
  after_claim-Honest (ok (op, false)) t = ok-Honest (unclaimed op) t (unclaimed-Honest op)
  after_claim-Honest (ok (op, true)) t = record_result-Honest t (passes _ _ time fuel 0)

  verify_row-Honest :
      (o : Option MutationOperation) (t : Table)
      → HonestResult (
          verify_row settings clock later_clock id owner kubernetes helm started time meanwhile fuel
            o t)
  verify_row-Honest none t = ok-Honest not_found t (λ p. cc)
  verify_row-Honest (some op) t =
      after_claim-Honest (claim_verification_row settings clock id owner t).0
        (claim_verification_row settings clock id owner t).1

  -- An answer of `verify` that passed has the status PASSED, whatever the cluster shows and the other
  -- workers do.
  pub verify-Honest :
      (t t' : Table) (a : Answer)
      → verify settings clock later_clock id owner kubernetes helm started time meanwhile fuel t
        ≡ some (ok a, t')
      → a.passed ≡ true
      → a.status ≡ some passed
  unfolding verify
  verify-Honest t t' a h = verify_row-Honest (find_row id t) t a t' h
