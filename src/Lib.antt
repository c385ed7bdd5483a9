-- ===== src/Lib.antt =====
-- rebuno: a kernel that runs the executions of agents durably. Workers claim dispatches, submit each
-- effect as a step, and record its outcome; the kernel decides on steps by policy, keeps an event log
-- of every execution and survives crashes of workers by leases on dispatches.
--
-- The parts, and the files that model them (paths from the repository's root):
--   Domain      internal/domain (records, statuses, errors) and internal/payload (event payloads);
--               Domain/Json stands for encoding/json, with a json.RawMessage as no bytes, bytes that
--               do not parse, or a value.
--   Action      a function that changes a store and may fail: `Action Store A` takes a store and gives
--               a result beside the new store. There is no rollback, as in the in-memory store.
--               Action/Always has the rules for what an action does to its state however it ends.
--   Context     what a context.Context carries: the principal, the clock, cancellation.
--   Auth        internal/auth/access.go and principal.go: Access.Authorize, Matches, Identity.
--   Identity    internal/identity/identity.go: ComputeStepID.
--   Policy      internal/policy: Compile and Build (NewRuleEngine and the checks of a configuration),
--               Glob (compileGlob), Arguments (lookupArgument, matchArguments), Matching (matches),
--               Clause (matchClause), Engine (Evaluate and Judge.decide), Cache (cache.go), Resolver
--               (resolver.go), Tester and Replayed (tester.go). First, Denied, Window, Validated,
--               Cached, Resolved and Fuel are about these.
--   Memstore    internal/store/memstore. Store is the struct with its maps as association lists;
--               Steps, Dispatches, Executions, Approvals, Resources and Events have one function for
--               each method, named as the method without `Locked`: upsertStepLocked is `upsert`,
--               claimLocked `claim`, updateExecutionStatusLocked `update_execution_status`. Cleanup
--               has the clean-up of old executions and the idle sessions of executions.go, Agents
--               agents.go, and Keys api_keys.go, whose map of keys is a state of its own.
--   Kernel      internal/kernel: Env (authorization.go, enqueueDispatchTx, releaseDispatchesLocked,
--               Heartbeat), Policy, Decision, Submit and Step (step.go), Resource (resource.go),
--               Suspend (suspend.go), Approval (approval.go), Opening and Create (CreateExecution of
--               execution.go), Sweeps (AdmitQueued and Cleanup), Agents (agent.go), Keys
--               (api_key.go), Execution and Terminal (execution.go, dispatch.go, subagent.go,
--               lifecycle.go), Deliver (deliver and reclaimAllStalled of dispatch.go). The methods
--               keep their names: SubmitStep is `submit_step`, GrantApproval `grant_approval`. What
--               RunLocked and RunInTx wrap is one action.
--   Kernel/Keeps what every operation of the kernel does to the store whatever it returns, and
--               Kernel/Reach the stores that the operations other than Cleanup lead to;
--               Kernel/Retention adds Cleanup.
--   Kernel/Closing the count of open executions that the cancellation of a tree of subagents lowers.
--   Samples     a run on concrete values, and the theorems applied to it.
--
-- The kernel calls the store as the source does, and each operation runs alone: the in-memory store
-- serialises calls by its mutex and RunLocked serialises the operations on one execution. A call is
-- given one reading of the clock. Identifiers are numbers, 0 for the nil UUID, and uuid.NewV7 is a
-- function of how many identifiers were handed out before; times and durations are numbers of
-- nanoseconds. Counts and sequence numbers are natural numbers. The one subtraction is that of a window
-- from the time of a decision in the policy engine, which stops at 0, the zero time.
--
-- Arguments of the model, since they are interfaces, libraries or the outside world: the policy
-- engine behind the kernel's interface, the rate limiter, the hash of a step's arguments and its
-- identifier, rand.N, the parser of token usage, the delivery to a webhook and the backoff after it.
-- The policy engine is given a GoLibrary: regular expressions, path.Match, json.Compact, the texts
-- of numbers and UUIDs, and floating-point numbers, whose arithmetic is opaque; the judge's request
-- is a function that answers probabilities or fails. The resolver is given the YAML decoder and
-- SHA-256; ComputeStepID the texts of numbers and UUIDs and SHA-256; the API keys their hash,
-- strings.TrimSpace and uuid.Parse; CreateExecution the store of agents and the check of an input
-- against a JSON schema.
--
-- Fuel: `subagents_from` has one page more than there are executions, and each page that is not the
-- last holds 200; `cancel_from` has one level more than there are executions, and each level makes
-- one more of them terminal before it goes down; `reclaim_from` has one
-- round more than there are dispatches, and each round that is not the last puts back 100. Running
-- out is the error `out_of_fuel`, or the end of the list. `lookup_argument` has the length of the
-- key, and each round drops a part with its dot;
-- `glob_text` has one round for each character of the pattern, and each round reads at least one.
--
-- Not modelled: internal/store/postgres (SQL), internal/api, internal/stream, internal/observe,
-- internal/config and cmd (input and output), internal/ratelimit and internal/usage (taken as
-- arguments), the canonical JSON of internal/identity, internal/lifecycle (timers around the
-- sweeps), the dispatcher's request, the judge's request and its configuration, OIDC, fork.go and
-- policytest.go of the kernel, the registration of resources by a worker, listing calls, logs and
-- metrics.
pub mod Prelude
pub mod Domain
pub mod Action
pub mod Context
pub mod Memstore
pub mod Auth
pub mod Identity
pub mod Policy
pub mod Kernel
pub mod Samples
