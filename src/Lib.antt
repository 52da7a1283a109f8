-- ===== src/Lib.antt =====
-- Fraisier deploys services: it runs the steps of a deploy as a saga that is taken back when a
-- step fails, asks a policy gate before the database schema changes, moves the traffic between
-- two fleets, and prunes old database archives. This library models the parts that decide what
-- happens; the programs that they call are parameters.
--
-- Saga models crates/fraisier-saga/src. Saga/Types has the types of events.rs, saga.rs and
-- state_store.rs, Saga/Key the slugs of `FraiseKey`, Saga/Redact the text redaction of redact.rs,
-- whose searches are in Saga/Redact/Scan. Saga/Store is the trait `StateStore` as a record of
-- operations, with two records of laws that a client asks for; Saga/Memory is `MemoryStateStore`,
-- and Saga/Memory/Contract says what they are about in it. Saga/Driver is the driver of saga.rs:
-- `run_with_state` and below it `run_inner`, `execute`, `rollback` and `transition`, as functions
-- that pass the store's state and the environment of the steps. A loop is a function on the list
-- that is left (`execute_from`, `rollback_from`), and what follows a fallible call is a function
-- of its result (`after_forward`, `after_compensate`, `after_release`). Saga/Spec and
-- Saga/Lifecycle say what a run does without the driver, Saga/Stages what holds between its
-- steps.
--
-- Gate models crates/fraisier-core/src/policy.rs and the risk contract of adapter_axes.rs.
-- Gate/Tier and Gate/Report are the tiers, the change-set and the preflight report; Gate/Rules
-- the policy; Gate/Decision the decisions and `assemble`; Gate/Evaluate `evaluate`, cut into
-- `baseline_verdict`, `judge_policy`, `judge_report` and `judge` at its early returns; Gate/Admit
-- `inspect` and `PolicyGate::admit`.
--
-- Budget models crates/fraisier-core/src/connection_budget.rs, with the saturation of `u32`
-- written out.
--
-- BlueGreen models crates/fraisier-core/src/blue_green.rs and readiness.rs. BlueGreen/Types has
-- the state and the collaborators, BlueGreen/Preflight the first step, which calls the gate and
-- the budget, BlueGreen/Deploy the others and the saga of all of them, which the saga driver
-- runs. BlueGreen/Traffic states the contract of the collaborators.
--
-- Adapters models the errors, the context and the traits of adapter_axes.rs that a deploy calls;
-- a trait is a record of operations.
--
-- SingleHost models crates/fraisier-core/src/single_host.rs and restore_rehearsal.rs.
-- SingleHost/Types has the deploy and its run state, SingleHost/Rehearsal the rehearsal on a
-- throwaway database, SingleHost/Preflight the first step in its two orders, SingleHost/Steps the
-- others with their compensations, SingleHost/Deploy the saga and the release ledger around it
-- (`run_reporting`). A step's function takes the run state with the world; what follows a
-- fallible call is a function of its result. SingleHost/Contract states the contract of the
-- collaborators, SingleHost/Conditions what holds between the steps on the way forward and on the
-- way back.
--
-- MultiHost models of crates/fraisier-core/src/multi_host.rs the batches (`plan_batches`,
-- MultiHost/Batches) and what happens to one host of a batch (`advance_host` and `restore_host`,
-- MultiHost/Host). MultiHost/Contract states the contract of the adapters.
--
-- SelfUpgrade models crates/fraisier-self-upgrade/src, with the helpers of
-- crates/fraisier-adapter-support/src/staging.rs: SelfUpgrade/Source fetches and checks a binary,
-- SelfUpgrade/Layout has `stage`, `activate` and `prune`, SelfUpgrade/Apply the controller, cut
-- into one function for what follows each fallible call. SelfUpgrade/Laws states what is asked of
-- the file system and of the supervised unit.
--
-- Webhook models sign.rs and drain.rs of crates/fraisier-webhook/src: Webhook/Sign signs and
-- verifies a request, Webhook/Drain waits for the deploys in flight.
--
-- Retention models crates/fraisier-db/src/retention.rs. Retention/Policy has `Policy::new` and
-- the types, Retention/Sort the stable sort by age, Retention/Plan the function `plan`, whose
-- loop is `plan_from` and whose round is `place`, Retention/Glob the file-name pattern of
-- `matches`, against the language that Retention/Glob/Language gives a pattern.
--
-- Common holds what the parts share. A `Result` is `ok` or `err`; a map with text keys is an
-- association list.
--
-- Times, sizes and counts are natural numbers. A `SystemTime` is counted from the earliest one,
-- so that `checked_sub` fails below zero. The polling loop of `bring_up` runs for the rounds that
-- end before its timeout, a parameter. Fuel stands in four places: in the loop of
-- `drain_in_flight`, whose rounds each advance the clock by the polling interval, so that one
-- round more than the timeout is enough; in the loop of `matches` it counts the rounds, each of
-- which shortens the pattern or the name or what the last star may swallow; in the loops of
-- redact.rs it is the length of the text, and each round takes at least one character off it; in
-- the decimal display of a number `n` it is `n + 1` rounds, each of which divides by ten.
--
-- Parameters stand for the clock, the Unicode character classes, the stable hash of a key, the
-- steps of a saga, the adapters, the fleet, the approval hook, the probes and the verification of
-- an archive. Each may change the world. What a theorem needs of them is a hypothesis: the laws
-- `Locks` and `Records` of a state store (a release frees the lock if it succeeds),
-- `IsCompensable` and `Stages` of the steps, `Snapshots` of its ledger, `Steers` of the
-- collaborators of a blue-green deploy, `IsQuiet` and `IsHost` of those of a single-host deploy,
-- `MultiHost.Contract.IsHost` of the adapters of a rollout, `IsMachine` of what a self-upgrade
-- works on, `IsCrypto` and `IsServer` of what the webhook does.
--
-- Not modelled: the rest of multi_host.rs (the hosts of a batch that run concurrently, and the
-- saga over the batches), the drill, the token provider, the configuration, the archives, dumps
-- and restores of the database, the versions that ship raises, and the adapters' own crates;
-- further log records and trace spans, concurrency inside one process (a lock that another writer
-- holds is a state of the store), the stores on files and SQLite, and the parts of the program
-- that only run other programs, read files or print.
pub mod Common
pub mod Adapters
pub mod Saga
pub mod Gate
pub mod Budget
pub mod BlueGreen
pub mod SingleHost
pub mod MultiHost
pub mod SelfUpgrade
pub mod Webhook
pub mod Retention
