-- ===== src/Lib.antt =====
-- A model of the agent's core, with its correctness theorems.
--
-- The agent runs on a customer's server. It takes work from a backend, runs it with whatever
-- privilege it was given, and posts the results. Two parts of it carry most of the risk.
--
-- The broker (internal/migration) is a privileged process that moves a workload to another host. It
-- consumes signed task envelopes, stops the services that write to the data being moved, and keeps
-- them stopped by a writer fence until a release is authorized. Its state is one JSON file.
--   * Envelope.antt: `TaskEnvelope` and the readers of inputs (task.go, executor.go, broker.go).
--   * Broker/State.antt: `writerFenceState`, `brokerPersistentState`, `loadFences`.
--   * Broker/System.antt: what the broker reaches through the operating system, as a record of calls
--     that may answer anything at any time, and `persistFences`.
--   * Broker/Services.antt: the loops over systemctl and the inhibitor markers
--     (writer_fence_inhibitor.go).
--   * Broker/Admission.antt: `acceptFence`.
--   * Broker/Fence.antt: `activateWriterFence`, `completeAuthorizedWriterFenceRelease`,
--     `restoreActiveWriterFence`; Broker/Release.antt: `releaseWriterFence`.
--   * Broker/Watchdog.antt: `verifyWriterFence`, `reconcileWriterFences` and
--     `resumeAuthorizedWriterFenceReleases`.
--
-- The migration agent (internal/migration) has no privileges. Its task runner claims one envelope at a
-- time, runs the primitive that it names, and posts the result; the files of a workload go from the
-- source's agent to the target's over the data plane.
--   * Migration/Canonical.antt: `CanonicalJSON` and `Digest` (canonical.go).
--   * Migration/Task.antt: the state and its file, `signedBody`, `postSigned` (task.go);
--     Task/Envelopes.antt: `verifySignedTaskEnvelope` and `verifyEnvelope`; Task/Reports.antt:
--     `progressCallback`, the heartbeat and the results they settle; Task/Rounds.antt: `flushPending`,
--     `persistAndPostResult` and `RunOnce`; Task/Bindings.antt: `expectedBindingPurpose`;
--     Task/Secrets.antt: `resolveBinding`, with the cryptographic libraries as parameters.
--   * Migration/Scope.antt: `cleanRelative` (scope.go).
--   * Migration/Files: `hasFileSystemCapacity` and its helpers (Capacity.antt), and
--     `validateTransferredManifest` (Manifest.antt), both of files.go.
--   * Migration/Transfer.antt: `handleChunk` (dataplane.go) and the loop over the chunks of a file in
--     `downloadManifestTree` (files.go); Transfer/Lookup.antt: `findManifestEntry`.
--   * Migration/Tickets.antt: `validateDataPlaneTicket`, `ensureTicket` (dataplane.go).
--
-- The operations (internal/operations, internal/remediation) are actions that a user starts from
-- the web console: scripts, plans of handlers, playbooks of commands, and Ansible playbooks.
--   * Remediation/Machine.antt: `ExecSimple`, the executors with their fallbacks, `Redact`.
--   * Remediation/Playbooks.antt and Engine.antt: the built-in playbooks and `Engine.Run`.
--   * Operations/Data.antt: the messages of internal/model/model.go; Params.antt: `fmt.Sprint`,
--     `substituteParams`, timeouts; Handlers.antt: the handlers and the default registry;
--     Plan.antt, Playbook.antt, Runner.antt: `execPlan`, `execPlaybook`, the other kinds, `Execute`.
--   * Daemon.antt: `handlePendingAction` (internal/agent/operations_handler.go), which runs an
--     action and caches a result that it cannot post.
--
-- The gateway (internal/gateway) relays for hosts that cannot reach the backend.
--   * Gateway.antt: `ValidateHostToken` (auth.go); HMAC and base64 are parameters.
--
-- How it is modelled. A Go method is a function from a state to an outcome, a value or an error with
-- the state after it (Base/Action.antt); an error keeps what was changed before it. Base/Action has
-- the ways to reason on methods: Keeps (an invariant), Ends (what holds at every exit), Returns
-- (what holds after a return). The operating system is a record of functions on a host of any type;
-- no law is assumed of it, so a theorem holds for every sequence of failures. A map is an association
-- list (Base/Dict.antt). Text is ASCII where it is folded or trimmed (Base/Text.antt, Base/Strings.antt).
-- Times are nanoseconds as natural numbers; counters and tokens do not reach the bound of int64, and
-- `parseInt` and durations, which can, wrap around as 64-bit numbers, and so do the sizes and offsets
-- of files (Migration/Int64.antt). A primitive is a tree of reports, heartbeats and work, so that every
-- interleaving of the lease timer with the primitive is one such tree.
--
-- Fuel. `observe_until` counts the rounds of the verification, each of which waits up to a second;
-- the division of a number into digits takes its value and one as fuel, and the replacement of text
-- the text's length, since each of their steps makes its argument smaller. The binary search takes the
-- number of entries, since each step makes its range shorter.
--
-- Not modelled: locks (each method is one step; the mutex makes its changes of the fences atomic),
-- sockets, TLS and peer credentials, the compose primitives, the data movers for databases, the
-- walks over directory trees, the wiping of byte slices after use, the gateway's server, the audit
-- and discovery probes, configuration, the command line and logging.
pub mod Base
pub mod Envelope
pub mod Broker
pub mod Remediation
pub mod Operations
pub mod Daemon
pub mod Gateway
pub mod Migration
