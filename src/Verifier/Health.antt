-- ===== src/Verifier/Health.antt =====
-- engine/src/api/services/mutation_verifier.py: `_workload_health`. `none` is an exception: a part that
-- should be a dict, a list or a number and is not. A number written as a text, which `int` would
-- parse, is not read, and a list with an entry that is no dict raises wherever the entry stands.
pub mod Verdicts
use Prim.Native.String.{◌++◌}
use cloudops_agent.Prelude.{
  ℕ, String, Bool, true, false, not, ◌&&◌, ◌||◌, Option, none, some, List, [], ◌∷◌, ◌≡◌, ◌≤◌, refl,
  arith, any, all, leb, ltb, nat_eq, ◌==◌, ◌>>=◌, if◌then◌else◌,
}
use cloudops_agent.Text.{lower}
use cloudops_agent.Json.{
  ℤ, pos, negsuc, Value, null, bool, num, str, arr, obj, Items, nil, cons, Fields, done, field,
  items,
}
use cloudops_agent.Json.Access.{get, lookup, truthy, or_else, is_obj, fields_of}
use cloudops_agent.Json.Print.{text}
use cloudops_agent.Mutation.Manifest.{text_or}
use cloudops_agent.Verifier.Match.{bool_number, int_eq, scalar_eq, equal}
use cloudops_agent.Policy.{is_nil}

-- v or {}, which must be a dict for what follows
abbrev pub dict_of : Value → Option Fields
dict_of (obj d) = some d
dict_of v = if truthy v then none else some done

-- v or [], which must be a list of dicts for what follows
abbrev pub dict_item : Value → Option Fields
dict_item (obj d) = some d
dict_item _ = none

unfoldable pub dict_items : Items → Option (List Fields)
dict_items nil = some []
dict_items (cons v xs) = do d ← dict_item v; ds ← dict_items xs; some (d ∷ ds)

abbrev pub dicts_of : Value → Option (List Fields)
dicts_of (arr xs) = dict_items xs
dicts_of v = if truthy v then none else some []

-- int(v), int(v or 0)
abbrev pub int_of : Value → Option ℤ
int_of (num n) = some n
int_of (bool b) = some (bool_number b)
int_of _ = none

abbrev pub int_or_zero : Value → Option ℤ
int_or_zero v = if truthy v then int_of v else some (pos 0)

abbrev pub present_or : Option Value → Value → Value
present_or none fallback = fallback
present_or (some v) fallback = v

-- m <= n
abbrev pub int_le : ℤ → ℤ → Bool
int_le (pos m) (pos n) = leb m n
int_le (pos m) (negsuc n) = false
int_le (negsuc m) (pos n) = true
int_le (negsuc m) (negsuc n) = leb n m

abbrev pub is_text : String → Value → Bool
is_text s v = scalar_eq v (str s)

abbrev pub Health : Type 0
Health = Bool × Bool × String

abbrev pub shown_int : ℤ → String
shown_int n = text (num n)

abbrev pub deadline_exceeded : Fields → Bool
deadline_exceeded condition =
    is_text "Progressing" (get "type" condition)
    && is_text "False" (get "status" condition)
    && is_text "ProgressDeadlineExceeded" (get "reason" condition)

-- conditions.get(type) == "True" of the dict that is made from the list: the last one counts.
abbrev pub last_status : Option Value → Bool → Value → Option Value
last_status (some later) found v = some later
last_status none found v = if found then some v else none

unfoldable pub status_of : String → List Fields → Option Value
status_of type [] = none
status_of type (condition ∷ rest) =
    last_status (status_of type rest) (is_text type (get "type" condition)) (get "status" condition)

abbrev pub holds : Option Value → Bool
holds none = false
holds (some v) = is_text "True" v

-- f"{b}"
abbrev pub bool_text : Bool → String
bool_text true = "True"
bool_text false = "False"

abbrev pub ratio : ℤ → ℤ → String
ratio m n = shown_int m ++ "/" ++ shown_int n

module _ (generation observed : ℤ) (spec status : Fields) where
  abbrev pub replicas_of : Option ℤ
  replicas_of = int_of (present_or (lookup "replicas" spec) (num (pos 1)))

  -- status.get(key) or 0
  abbrev pub counted : String → Option ℤ
  counted key = int_or_zero (get key status)

  deployment_counts : Option Health
  deployment_counts = do
    replicas ← replicas_of
    ready ← counted "availableReplicas"
    updated ← counted "updatedReplicas"
    unavailable ← counted "unavailableReplicas"
    some (
      int_le generation observed
          && int_le replicas ready
          && int_le replicas updated
          && int_eq unavailable (pos 0),
      false,
      "deployment observed="
          ++ ratio observed generation
          ++ ", updated="
          ++ ratio updated replicas
          ++ ", available="
          ++ ratio ready replicas
          ++ ", unavailable="
          ++ shown_int unavailable,
    )

  abbrev deployment_verdict : Bool → Option Health → Option Health
  deployment_verdict true counts = some (false, true, "deployment exceeded its progress deadline")
  deployment_verdict false counts = counts

  unfoldable pub deployment_health : Option Health
  unfolding deployment_counts
  deployment_health = do
    conditions ← dicts_of (get "conditions" status)
    deployment_verdict (any deadline_exceeded conditions) deployment_counts

  unfoldable pub statefulset_health : Option Health
  statefulset_health = do
    replicas ← replicas_of
    ready ← counted "readyReplicas"
    updated ← counted "updatedReplicas"
    some (
      int_le generation observed
          && int_le replicas ready
          && int_le replicas updated
          && equal (get "currentRevision" status) (get "updateRevision" status),
      false,
      "statefulset ready=" ++ ratio ready replicas ++ ", updated=" ++ ratio updated replicas,
    )

  unfoldable pub daemonset_health : Option Health
  daemonset_health = do
    desired ← counted "desiredNumberScheduled"
    ready ← counted "numberReady"
    updated ← counted "updatedNumberScheduled"
    some (
      int_le generation observed
          && not (int_le desired (pos 0))
          && int_le desired ready
          && int_le desired updated,
      false,
      "daemonset ready=" ++ ratio ready desired ++ ", updated=" ++ ratio updated desired,
    )

unfoldable pub pod_health : Fields → Option Health
pod_health status = do
  containers ← dicts_of (get "containerStatuses" status)
  let phase = get "phase" status in
      let ready = not (is_nil containers) && all (λ c. truthy (get "ready" c)) containers in
      some (
        is_text "Running" phase && ready,
        is_text "Failed" phase,
        "pod phase=" ++ text phase ++ ", ready=" ++ bool_text ready,
      )

abbrev pub job_verdict : Bool → Bool → Health
job_verdict true completed = (false, true, "job reported Failed=True")
job_verdict false completed = (completed, false, "job complete=" ++ bool_text completed)

unfoldable pub job_health : Fields → Option Health
job_health status = do
  conditions ← dicts_of (get "conditions" status)
  some (
      job_verdict (holds (status_of "Failed" conditions)) (holds (status_of "Complete" conditions)))

-- The verdict by the kind, in lower case.
abbrev pub health_of : String → ℤ → ℤ → Fields → Fields → Option Health
health_of kind generation observed spec status =
    if kind == "deployment"
    then deployment_health generation observed spec status
    else if kind == "statefulset"
    then statefulset_health generation observed spec status
    else if kind == "daemonset"
    then daemonset_health generation observed spec status
    else if kind == "pod"
    then pod_health status
    else if kind == "job"
    then job_health status
    else some (true, false, "resource exists and desired fields match")

abbrev pub kind_of : Fields → String
kind_of resource = lower (text_or (get "kind" resource) "")

unfoldable pub workload_health : Fields → Option Health
workload_health resource = do
  metadata ← dict_of (get "metadata" resource)
  spec ← dict_of (get "spec" resource)
  status ← dict_of (get "status" resource)
  generation ← int_or_zero (get "generation" metadata)
  observed ← int_or_zero (get "observedGeneration" status)
  health_of (kind_of resource) generation observed spec status
