-- ===== src/Lib.antt =====
-- The engine's mutation control, its executor of tools and the MCP server's command runner.
--
-- The engine (engine/src/api) lets a language model call infrastructure tools. A call that changes
-- infrastructure passes the capability registry and the policy, is written to a journal before it is
-- executed, runs under a lease, and is verified against the cluster afterwards. The MCP server (mcp)
-- runs the commands of the tools as subprocesses that belong to a workflow run, which can be stopped.
--
-- Capability (engine/src/api/services/tool_capabilities.py): `get_tool_capability`,
--   `is_infrastructure_tool`, `capability_error`. A tool's metadata has the fields that the program
--   reads; its annotations are a dict or absent, as the MCP client's types give them.
-- Mutation (engine/src/api/services/mutation_utils.py, engine/src/api/models/mutation.py): the journal's
--   row, redaction, the canonical JSON that is fingerprinted, manifests. PyYAML is the record `Yaml` and
--   HMAC-SHA256 the argument `digest`. Documents are trees; `spread_aliases` of `Yaml` is what marking
--   them in place does to a dict that an alias puts at a second place.
-- Policy (engine/src/api/services/mutation_policy.py): `evaluate`, a chain of stages that deny or go on.
-- Journal (engine/src/api/services/mutation_journal.py): Rows has what each method does with the row that
--   it has locked, as an `Action`: raise, leave the row, or save it. Table has the methods on the whole
--   table, Steps every call as an `Event` and what an event can make of one row (`RowStep`), and
--   History what holds after every sequence of events. Each call but `prepare` and
--   `converge_stopped_run` is one transaction or one statement, and an event. `converge_stopped_run` is
--   two updates that are committed one by one, and so two events. So the sequences are the
--   interleavings of the workers' calls; in them `prepare` runs as one call, while Prepare has its query
--   and its insertion apart, with `meanwhile` for what happens between. Stop is about one claim,
--   Converge about a stop with other calls between its updates.
-- Verifier (engine/src/api/services/mutation_verifier.py): Plan has `build_verification_plan`, Match
--   `_subset_matches`, Health `_workload_health`, Kubernetes `_verify_kubernetes` and Helm
--   `_verify_helm` on what each call of a tool with its arguments gives and on what `json.loads` gives,
--   and Loop `verify` on the journal's table. Adapters puts the adapters' passes into the loop,
--   Cancelled has the cancellation of `verify`, and Recovery a pass of `MutationRecoveryWorker`: Calls shows it as a sequence of journal
--   calls, its own and other workers'.
-- Memory (engine/src/api/memory/policy.py, with types of engine/src/api/models/memory.py and
--   engine/src/api/memory/schemas.py): the access policy of memory stores.
-- Commands (mcp/utils/commands.py): Errors has the classification of commands and messages, Registry the
--   processes of runs and the tombstones of stopped runs, Run the loop of `run_command`.
-- Tools (mcp/tools/helm.py and argo.py): the command line of each Helm tool and of the Argo tools that
--   run `kubectl argo rollouts`, how it is taken apart at its spaces, and its run by `run_command`.
--   `_verify_helm` reads the description that these command lines set.
-- Executor (engine/src/api/services/tool_executor.py, tools_cache.py and approvals.py beside it, and
--   engine/src/api/integrations/jenkins/jenkins.py): Metadata has the cache of tools and the need for an
--   approval, Jenkins the integration's part, Toolsets the filter of the tools by loaded
--   toolsets. `execute` is in two parts: Admit, up to the journal, is a chain of stages that end the call or go on, and Run goes
--   from the journal to the tool's answer on the table of Journal. A call gives its outcome, the
--   journal afterwards and a trace of effects: notices to the event stream, its calls of the journal,
--   those of other workers while it waits, and the tool's call. The record `World` has what the call
--   meets: the answer of the tool's server, the other workers' calls and the texts of exceptions.
-- Graph (engine/src/api/agent/graph.py and state.py, with the input of a turn from
--   engine/src/api/endpoints/agent.py): State has the state and the routes between nodes, Gate,
--   Verification and Memory the nodes, Toolsets the loading of toolsets and the arguments of memory
--   tools, and Steps the steps of the graph over any number of turns, each of which may break off
--   anywhere. What the executor, the verifier, the model and the retrieval give is a parameter.
-- Messages (engine/src/api/utils/sanitization.py): what of a conversation the model is sent. Window has
--   `window_messages`, Pairs the tool messages and the calls that they answer.
-- Settings (engine/src/api/config/settings.py), Json, Text, Prelude: what these share.
--
-- Numbers and times. Journal times are microseconds, and `clock i` is what the i-th call of
-- `timezone.now()` in a method's text gives. Differences of times are written as sums, with no
-- subtraction that could stop at 0. Python's integers have no width, so there is none to wrap.
-- Texts. Cases are mapped and words bounded for ASCII. Identifiers are canonical texts, so the error of
-- a malformed UUID is not modelled. Values are JSON values without floats.
-- Loops. `run_command`'s loop runs on the number of attempts that are left, which its range gives. The
-- verification loop runs on fuel, which is enough where the clock reads the deadline after some pass that
-- it reaches. The other loops run over a list.
--
-- Not modelled: the loop of the recovery worker around its passes, the signals that end a process,
-- delays, logging, the database's own behaviour beyond rows with two unique columns, and the components
-- that have no module here: conversations, the memory service, the command lines of the other MCP
-- tools, HTTP endpoints and authentication. Of the Helm tools, the temporary file with values; of the
-- executor, a notice that cannot be sent; of the graph, its events and the messages of `invoke`.
pub mod Prelude
pub mod Text
pub mod Json
pub mod Capability
pub mod Mutation
pub mod Settings
pub mod Policy
pub mod Journal
pub mod Tools
pub mod Verifier
pub mod Memory
pub mod Commands
pub mod Executor
pub mod Graph
pub mod Messages
