-- ===== src/Lib.antt =====
-- Verification library for icos: what the assistant's server keeps about dangerous actions.
--
-- Before a tool with effects runs, the server stores an approval request, waits for the user's
-- decision, and records the invocation in a ledger; the runs of the agent list the requests that they
-- made, and what the memory promotes to a belief, a claim, goes through a journal and an approval too. Requests, retries
-- and recoveries reach these tables in any order.
--
-- Base: a state and error monad with transactions (Exec), SQL tables with SELECT and UPDATE
-- (Table), ORDER BY (Sort), texts (Text), lists and tests.
-- Approvals: core/src/approvals/sqlite-approval.repository.ts and its table definitions in
-- core/src/session/database.ts. create_approval, get_approval, list_approvals, resolve_approval and
-- list_events are createApproval, getApproval, listApprovals, resolveApproval and listEvents;
-- apply_lazy_expiry and expire_lapsed are applyLazyExpiry and expireLapsed. Approvals/Runs has any
-- sequence of these calls, Approvals/Service is core/src/approvals/approval.service.ts.
-- Ledger: core/src/tools/tool-execution.repository.ts and the CHECKs of its table. Ledger/Register
-- has register, Ledger/Claims the five claims of an execution, releaseOwner, claimTranscript and
-- claimFinal, Ledger/Finishes has finishSearch, finishTool, finishRename, mirrorOutcome,
-- resolveReleasedToUnknown and finishFinal, Ledger/Recent has
-- recentExecutions. Ledger/Moves is the state machine of a row and Ledger/Runs any sequence of calls.
-- Execution: core/src/tools/tool-execution.service.ts, which drives the ledger and the approvals.
-- Execution has validate, Execution/Methods what the methods have in common (execute_foreign is
-- executeForeign, maybe_final maybeFinal), Execution/Methods/Resume has resume, and
-- Execution/Methods/Consume has consume, consumeForeign, renameInline and recentPairs. Execution/Runs has
-- any sequence of calls, Execution/Course what one call does by itself. At each await other requests run: a
-- list of ledger calls, approval calls, and claims with the execution that follows them. A search that is
-- late is finished by such a call. What the registry, the search, an MCP server and the model answer is an
-- argument, and what the process sends out is a list of effects, apart for the calls that are looked at and
-- for the others.
-- Agent: core/src/agent/agent-run.repository.ts and core/src/agent/observation.ts. create_run,
-- transition_run, record_step, mark_parked, mark_terminal, cancel_run, find_by_request and observations
-- are the methods of those names; Agent/Calls has any sequence of those that write, and the
-- observations read the rows of the ledger.
-- Journal: core/src/memory/sqlite-promotion-journal.repository.ts and its table. record_proposal and
-- set_state are recordProposal and setState, and the reads have their names; Journal/Runs has any
-- sequence of proposals and transitions.
-- Claims: core/src/memory/sqlite-claim.repository.ts (create_claim is createClaim, and so on), with
-- core/src/memory/claim-identity.ts in Claims/Identity, the lists in Claims/Listing, and
-- core/src/memory/sqlite-memory-candidate.repository.ts in Claims/Candidates. Claims/Runs is any sequence
-- of the calls that write. Prospective: core/src/memory/sqlite-prospective-item.repository.ts.
-- Promotion: core/src/memory/promotion.service.ts, which drives the claims, the journal, the approvals
-- and the parked questions. Promotion has the reads off the claims (derive_intent is deriveIntent),
-- Promotion/Apply has apply and createActive, Promotion/Parking maybeParkQuestion, Promotion/Execute
-- executeEntry, Promotion/Sweep sweep, onModuleInit and listByStates, Promotion/Propose proposeCandidates.
-- Promotion/Runs is any sequence of proposals, executions, sweeps and restarts, each run to its end
-- before the next.
-- Clarifications: core/src/clarifications/sqlite-clarification.repository.ts (create_clarification,
-- get_clarification, list_clarifications, answer_clarification, cancel_clarification, list_events) and
-- core/src/clarifications/clarification.service.ts (Clarifications/Service). Clarifications/Spec is the
-- life of one question, Clarifications/Runs any sequence of calls.
-- Commands: core/src/commands/slash-command.parser.ts (Commands has is_slash_command_input,
-- parse_slash_command and split_args), with Commands/Split and Commands/Parse on the printed form of a
-- command. Commands/Registry is core/src/commands/command-registry.ts and the dispatch of
-- core/src/commands/command-dispatcher.ts.
-- Login: the login and its throttle in core/src/auth/auth.service.ts; Login/Session is
-- core/src/auth/session.ts, createSession and verifySession; Login/Cookies is core/src/auth/cookies.ts,
-- with verify, csrfMatches, loginCookies and clearCookies of the service. The browser is a parameter:
-- a function from the texts of the Set-Cookie headers to the Cookie header of a later request.
--
-- A method is a function from the database to a result and the database after it; a transaction
-- that throws ends where it began. SQLite runs one statement at a time and the server is one process,
-- so an interleaving is an order of calls. The clock is a function from the number of the reading to
-- milliseconds, with no assumption on it; a UUID is an argument. Dates are milliseconds where the code
-- has ISO texts of one fixed width, whose order is the same. JSON documents that are only stored and
-- compared are their canonical texts; the size of an outcome in bytes is a parameter. A confidence is a whole number of
-- millionths where the code has a double, so a sum is exact; toLowerCase and toFixed are parameters. No loop needs
-- fuel: each runs over the rows of a table.
--
-- Not modelled: the language model, MCP servers, network and sockets, the schema library, migrations
-- and the database engine itself, beyond the statements issued; the agent loop, the handlers of the commands,
-- the recall, ranking and ageing of claims, and the web client.
pub mod Base
pub mod Approvals
pub mod Ledger
pub mod Agent
pub mod Journal
pub mod Login
pub mod Execution
pub mod Clarifications
pub mod Commands
pub mod Claims
pub mod Prospective
pub mod Promotion
