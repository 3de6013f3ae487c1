-- ===== src/Lib.antt =====
-- Agent Harness OS runs coding tasks with model workers: a workflow is a sequence of worker stages
-- (plan, implement, test, review, repair) that ends in an approval, and its state is what the events of
-- its journal say. This library models the parts that decide: what an event may do, what a journal
-- holds, what a task's history shows, how a worker's loop runs, which worker a task gets, which policy
-- binds it, which paths a pattern matches and a worker may change, how an attempt is evaluated, and how many
-- operations run at once.
--
-- Domain.antt: the enumerations and records of src/domain/types.ts that several parts share.
--
-- Workflow/: src/workflow. Types has the workflow types; Transitions is transitions.ts; Definition is
-- `validateWorkflowDefinition` with its helpers; Stages and Projection are `projectWorkflowEvent` of
-- event-model.ts, split by event type, on a `Projection` that the source mutates and the model
-- passes on. A test of the source that throws is `throw_if`, and an error is kept by its code. Values
-- are typed, so the source's tests of keys and of `typeof` hold by construction. Journal is
-- `append` and `readTimeline` of journal.ts over the list of event files in the order of their
-- names; SHA-256, JSON, dates and the redactor are the fields of `Runtime`. The fields of a file's
-- name are those of `EventFile`. Not modelled: `create`, `list`, the ready marker's file, the
-- recovery of publications, and the file system below src/artifacts/secure-io.ts with its limit on
-- the size of one file.
--
-- Glob.antt: src/lib/glob.ts, over UTF-16 code units, with the worklist as a list of states, the
-- visited set as a list of keys and the budget as a number. The loop runs on fuel `2 * budget + 2`:
-- each round takes a state off the list or a unit off the budget, and puts at most two states
-- on the list for that unit. Search, Keys, Views, Meaning, Correct, Complete and Converse are the
-- steps from the loop to the relation `Matches`, and Decides puts them together.
--
-- Router.antt: `routeWorkers` of src/provider/router.ts without historical evidence, with the fields of
-- src/config.ts that it reads. `localeCompare` is a parameter; the sort is a stable insertion sort;
-- a reason is a constructor in place of its text. Not modelled: `applyRoutingEvidence` (its scores are
-- floating-point), the digest of a decision and `describeWorker`.
--
-- Policy/: src/policy/engine.ts. Documents reads a policy document from a JSON value; Resolution
-- loads the documents and binds a task. The contents of the policy files, `JSON.parse`, SHA-256 and
-- `JSON.stringify` are parameters. Not modelled: `isResolvedPolicy`, the checks of the organization's
-- policy file. The bound routing of Resolution is the policy that Router takes.
--
-- Runner.antt: the guards of src/worker/command-runner.ts and the network that a container gets.
-- Policy/Resolution/Enforcement puts them and the path policy together with the bound task.
--
-- Semaphore.antt: src/lib/semaphore.ts, one function for each of `acquire`, the abort listener and
-- `release`; a promise is an outcome, and `Step` composes them the way `use` does.
--
-- Command.antt: `CommandPolicy` of src/security/command-policy.ts; its regular expressions are searches over
-- code points, with the flag `i` on ASCII letters, the only ones in the patterns.
--
-- Task/: a task is one run of the harness, with attempts by workers, a patch and its application. Types
-- has the task types of src/domain/types.ts, where a field that only some schema versions have is an
-- option; Validation is `validateTaskEvent` of src/artifacts/task-event-model.ts with the provenance of
-- src/workflow/provenance.ts; Attempts and Projection are `projectTaskEvent`, whose guards are the conditions
-- of the source's throws. Projection.Invariant says what holds of every projection, Journal is
-- `create`, `append` and `readTimeline` of src/artifacts/task-journal.ts, with the fields of `TaskRuntime` for
-- what it calls. The redactor of src/lib/redaction.ts, which the journal's constructor takes, is such a
-- field. Not modelled: `list`, `recentTimelines`, `isRunLinked`, the ready marker's file, the routing index,
-- the recovery of publications and the file system.
--
-- Agent.antt: src/worker/agent-loop.ts, over a provider and a tool executor with a state of their own. The
-- loop is a recursion on the rounds that are left. Observing is the observer that src/worker/service.ts
-- gives the loop: each observation becomes an event, which is redacted, checked and projected as `append` does it;
-- what an `append` leaves is what the next one reads (Agent/Appending compares a recording with `append`).
-- The identifiers and times of events are parameters. The observations are recorded in their order after the
-- loop, where the source records each as it comes. The transcript is not modelled.
--
-- Evaluation/: src/evaluation. Commands classifies the validation commands, Deterministic is the evaluator of
-- deterministic.ts, Schema is schema.ts, and Recording is what src/worker/service.ts does with evaluations: it
-- runs the evaluators, joins their outcomes, settles the status of the run and makes the event. Texts has the
-- summaries and the evidence, written with Base/Texts. An evaluator comes to a result or an error, which
-- stands for its cancellation too. The size of a summary in bytes is a parameter.
--
-- Paths.antt: src/security/path-policy.ts, with the lists of patterns in Paths/Defaults. `path` and the file system
-- are parameters. Resolving has `resolveForRead` and `resolveForWrite`; the search for an existing parent runs
-- on fuel, one round for each character of the path and one more, since `dirname` shortens an absolute path.
--
-- Base: names of the libraries, tests, lists, sets and results that all parts share.
--
-- Not modelled at all: the workflow service and lease, the repository lock, the worker's tools and
-- (but for what Agent and Evaluation take of it) its service, the providers, Git, the protocol server, the
-- configuration's parsing, observability, logging and the command line.
pub mod Base
pub mod Domain
pub mod Workflow
pub mod Glob
pub mod Router
pub mod Runner
pub mod Policy
pub mod Semaphore
pub mod Command
pub mod Task
pub mod Agent
pub mod Evaluation
pub mod Paths
