-- ===== src/Verifier/Loop/Ends.antt =====
-- engine/src/api/services/mutation_verifier.py: the verification loop ends.
use cloudops_agent.Prelude.{
  ℕ, zero, suc, ◌+◌, ◌≤◌, ◌<◌, String, Bool, true, false, Option, none, some, is_some, ◌≡◌, refl,
  arith, le→leb, subst,
}
use cloudops_agent.Json.{Fields}
use cloudops_agent.Settings.{Settings}
use cloudops_agent.Mutation.Operation.{MutationOperation, VerificationStatus}
use cloudops_agent.Journal.Rows.{Clock}
use cloudops_agent.Journal.Table.{Table, Result, ok, err, find_row, claim_verification_row}
use cloudops_agent.Verifier.Loop.{
  Answer, Pass, gave, raised, decide, conclude, or_again, passes, record_result, after_claim,
  verify_row, verify, deadline,
}

decide-some :
    (deadline now : ℕ) (passed terminal : Bool) (last_result : Fields)
    → deadline ≤ now
    → is_some (decide deadline now passed terminal last_result) ≡ true
decide-some deadline now passed terminal last_result h =
    let late = le→leb deadline now h in ground arith

conclude-some :
    (deadline now : ℕ) (p : Pass) → deadline ≤ now → is_some (conclude deadline now p) ≡ true
conclude-some deadline now (gave passed terminal last_result) h =
    decide-some deadline now passed terminal last_result h
conclude-some deadline now (raised name) h = decide-some deadline now false false _ h

or_again-left {ℓ} :
    {A : Type ℓ} (o rest : Option A) → is_some o ≡ true → is_some (or_again o rest) ≡ true
or_again-left none rest h = cc
or_again-left (some a) rest h = refl

or_again-right {ℓ} :
    {A : Type ℓ} (o rest : Option A) → is_some rest ≡ true → is_some (or_again o rest) ≡ true
or_again-right none rest h = h
or_again-right (some a) rest h = refl

module _ (deadline : ℕ) (pass : ℕ → Pass) (time : ℕ → ℕ) where
  passes-some :
      (fuel n more : ℕ)
      → more < fuel
      → deadline ≤ time (n + more)
      → is_some (passes deadline pass time fuel n) ≡ true
  unfolding passes
  passes-some zero n more lt late = ground arith
  passes-some (suc fuel) n zero lt late = or_again-left (conclude deadline (time n) (pass n)) _ (
      conclude-some deadline (time n) (pass n)
        (subst (λ (i : ℕ). deadline ≤ time i) (omega arith) late))
  passes-some (suc fuel) n (suc more) lt late =
      or_again-right (conclude deadline (time n) (pass n)) _ (
        passes-some fuel (n + 1) more (omega arith)
          (subst (λ (i : ℕ). deadline ≤ time i) (omega arith) late))

module _ (settings : Settings) (clock later_clock : Clock) (id owner : String)
    (kubernetes helm : ℕ → Pass) (started : ℕ) (time : ℕ → ℕ) (meanwhile : Table → Table)
    (fuel : ℕ) where
  abbrev Finished : Option (Result Answer × Table) → Type 0
  Finished o = is_some o ≡ true

  -- The loop ends for the passes of every adapter.
  abbrev AlwaysEnds : Type 0
  AlwaysEnds =
      (pass : ℕ → Pass)
      → is_some (
          passes
            (deadline settings clock later_clock id owner kubernetes helm started time meanwhile
              fuel)
            pass time fuel 0)
        ≡ true

  record_result-some :
      (t : Table) (o : Option (VerificationStatus × Fields))
      → is_some o ≡ true
      → Finished (
          record_result settings clock later_clock id owner kubernetes helm started time meanwhile
            fuel t o)
  record_result-some t none h = h
  record_result-some t (some (status, last_result)) h = refl

  after_claim-some :
      (r : Result (MutationOperation × Bool) × Table)
      → AlwaysEnds
      → Finished (
          after_claim settings clock later_clock id owner kubernetes helm started time meanwhile
            fuel r)
  after_claim-some (err e, t) h = refl
  after_claim-some (ok (op, false), t) h = refl
  after_claim-some (ok (op, true), t) h = record_result-some t _ (h _)

  verify_row-some :
      (o : Option MutationOperation) (t : Table)
      → AlwaysEnds
      → Finished (
          verify_row settings clock later_clock id owner kubernetes helm started time meanwhile fuel
            o t)
  verify_row-some none t h = refl
  verify_row-some (some op) t h =
      after_claim-some (claim_verification_row settings clock id owner t) h

  -- Where the clock reads the deadline or more after some pass that the fuel reaches, the verification
  -- comes to an answer or to an exception of the journal, whatever the passes give.
  pub verify-some :
      (t : Table) (k : ℕ)
      → k < fuel
      → deadline settings clock later_clock id owner kubernetes helm started time meanwhile fuel
        ≤ time k
      → is_some
          (verify settings clock later_clock id owner kubernetes helm started time meanwhile fuel t)
        ≡ true
  unfolding verify
  verify-some t k lt late = verify_row-some (find_row id t) t (λ pass.
      passes-some
        (deadline settings clock later_clock id owner kubernetes helm started time meanwhile fuel)
        pass time fuel 0 k lt
        (subst
          (λ (i : ℕ).
            deadline settings clock later_clock id owner kubernetes helm started time meanwhile fuel
            ≤ time i)
          (omega arith) late))
