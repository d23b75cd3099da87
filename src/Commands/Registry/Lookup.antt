-- ===== src/Commands/Registry/Lookup.antt =====
-- mcp/utils/commands.py: lookups in the registry's tables.
use cloudops_agent.Prelude.{
  ℕ, ◌+◌, ◌<◌, String, true, none, some, List, [], ◌∷◌, ◌≡◌, refl, arith, ◌==◌, if◌then◌else◌,
  eq_iff,
}
use cloudops_agent.Commands.Registry.{at, put, pop, has_process, discard, unexpired}

module _ {ℓ} {V : Type ℓ} where
  pub at-put :
      (k j : String) (v : V) (l : List (String × V))
      → at j (put k v l) ≡ (if k == j then some v else at j l)
  unfolding at put
  at-put k j v [] = refl
  at-put k j v ((i, w) ∷ l) = ground (arith, eq_iff k j, eq_iff i k, eq_iff i j, at-put k j v l)

  pub at-pop :
      (k j : String) (l : List (String × V)) → at j (pop k l) ≡ (if k == j then none else at j l)
  unfolding at pop
  at-pop k j [] = ground arith
  at-pop k j ((i, w) ∷ l) = ground (arith, eq_iff k j, eq_iff i k, eq_iff i j, at-pop k j l)

pub has_process-discard :
    (p q : ℕ) (ps : List ℕ) → has_process p (discard q ps) ≡ true → has_process p ps ≡ true
unfolding has_process discard
has_process-discard p q [] h = h
has_process-discard p q (x ∷ ps) h = ground (arith, has_process-discard p q ps)

pub at-unexpired :
    (run_id : String) (ttl now s : ℕ) (l : List (String × ℕ))
    → at run_id l ≡ some s
    → now < s + ttl
    → at run_id (unexpired ttl now l) ≡ some s
unfolding at unexpired
at-unexpired run_id ttl now s [] h lt = h
at-unexpired run_id ttl now s ((k, t) ∷ l) h lt = ground (arith, at-unexpired run_id ttl now s l)
