-- ===== src/Commands/Errors.antt =====
-- mcp/utils/commands.py: which commands may be repeated, and what an error message says.
use cloudops_agent.Prelude.{
  String, Bool, true, false, ◌&&◌, List, [], ◌∷◌, any, one_of, ◌==◌, if◌then◌else◌,
}
use cloudops_agent.Text.{contains, lower}

abbrev pub kubectl_read_only : List String
kubectl_read_only =
    "api-resources" ∷ "api-versions" ∷ "auth" ∷ "cluster-info" ∷ "describe" ∷ "diff" ∷ "explain"
    ∷ "get" ∷ "logs" ∷ "top" ∷ "version" ∷ []

abbrev pub kubectl_rollout_read_only : List String
kubectl_rollout_read_only = "history" ∷ "status" ∷ []

abbrev pub argo_read_only : List String
argo_read_only = "get" ∷ "history" ∷ "list" ∷ "status" ∷ []

abbrev pub helm_read_only : List String
helm_read_only = "env" ∷ "get" ∷ "history" ∷ "list" ∷ "search" ∷ "show" ∷ "status" ∷ []

abbrev pub transient_markers : List String
transient_markers =
    "connection refused" ∷ "connection reset" ∷ "context deadline exceeded" ∷ "gateway timeout"
    ∷ "i/o timeout" ∷ "no route to host" ∷ "service unavailable" ∷ "server is currently unable"
    ∷ "temporarily unavailable" ∷ "tls handshake timeout" ∷ "transport is closing"
    ∷ "unexpected eof" ∷ []

abbrev pub rate_limit_markers : List String
rate_limit_markers = "429" ∷ "rate limit" ∷ "too many requests" ∷ "throttl" ∷ []

abbrev pub auth_markers : List String
auth_markers =
    "access denied" ∷ "authentication required" ∷ "forbidden" ∷ "permission denied" ∷ "unauthorized"
    ∷ []

abbrev pub conflict_markers : List String
conflict_markers = "already exists" ∷ "conflict" ∷ "object has been modified" ∷ []

abbrev pub not_found_markers : List String
not_found_markers = "not found" ∷ "notfound" ∷ "no such file or directory" ∷ []

abbrev pub invalid_markers : List String
invalid_markers = "invalid argument" ∷ "required flag" ∷ "unknown flag" ∷ "unknown command" ∷ []

-- len(args) > i and args[i] in {…}, for the list from place i on
abbrev pub head_in : List String → List String → Bool
head_in allowed [] = false
head_in allowed (arg ∷ rest) = one_of allowed arg

-- args[:2] == ["argo", "rollouts"]
abbrev pub is_argo : List String → Bool
is_argo (a ∷ b ∷ rest) = a == "argo" && b == "rollouts"
is_argo _ = false

abbrev pub after_one : List String → List String
after_one [] = []
after_one (a ∷ rest) = rest

abbrev pub retry_safe_kubectl : List String → Bool
retry_safe_kubectl args =
    if is_argo args
    then head_in argo_read_only (after_one (after_one args))
    else if head_in ("rollout" ∷ []) args
    then head_in kubectl_rollout_read_only (after_one args)
    else head_in kubectl_read_only args

abbrev pub retry_safe_args : String → List String → Bool
retry_safe_args cmd args =
    if cmd == "kubectl"
    then retry_safe_kubectl args
    else if cmd == "helm"
    then head_in helm_read_only args
    else false

unfoldable pub is_retry_safe : String → List String → Bool
is_retry_safe cmd [] = false
is_retry_safe cmd (arg ∷ args) = retry_safe_args cmd (arg ∷ args)

-- any(marker in normalized for marker in markers)
unfoldable pub mentions : List String → String → Bool
mentions markers normalized = any (λ marker. contains normalized marker) markers

abbrev pub classify : String → String × Bool
classify normalized =
    if mentions rate_limit_markers normalized
    then ("rate_limited", true)
    else if mentions auth_markers normalized
    then ("authorization", false)
    else if mentions conflict_markers normalized
    then ("conflict", false)
    else if mentions not_found_markers normalized
    then ("not_found", false)
    else if mentions invalid_markers normalized
    then ("invalid_input", false)
    else if mentions transient_markers normalized
    then ("transient", true)
    else ("command_failed", false)

unfoldable pub classify_error : String → Bool → String × Bool
classify_error message timed_out = if timed_out then ("timeout", true) else classify (lower message)
