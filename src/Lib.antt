-- ===== src/Lib.antt =====
-- The deterministic core of the after-sales agent: the rules that decide, without a language model,
-- which order a customer may see, what a message starts, which reads run and which evidence they may
-- become, what a customer's replies establish, when a ticket is proposed, how a case, a run, a proposal
-- and an action move, and in which order the events of all this reach those who follow them.
--
-- A message is triaged; the policy router authorizes each order that it mentions and opens a case
-- for one of them. The governed executor runs the read tools: it validates and authorizes a call,
-- looks in the cache, counts against the budget, and returns results in one envelope. What the
-- customer answers to a question becomes an assertion in the ledger of case facts. The evidence gate
-- decides over the results of the reads by a truth table for each issue. Its decision moves the
-- case, makes a proposal, and after the customer's confirmation an action; the customer sees the
-- projection of all these states. Each step appends events to the log of its conversation, which
-- subscribers read from a cursor on.
--
-- The files, with the code that each models (paths below src/after_sales_agent):
--   Domain/State       domain/state.py: every string enum, its texts and its lookup by text
--   Domain/Models      domain/models.py: snapshots with the field constraints and the validators
--   Domain/Transitions domain/transitions.py: the transition tables and functions; below it what a
--                      single move (Cases, Runs, Proposals, Actions) and a chain of moves
--                      (CaseHistory, ActionHistory) promise
--   Domain/Dispositions  domain/dispositions.py: the outcome shown to the customer
--   Policy/Authorization policy/authorization.py: authorize_order
--   Policy/Router      application/policy_router.py: route_triage
--   Policy/Gate        policy/evidence_gate.py: Facts (inputs and result), Guards (the guards of both
--                      tables), Signed and Stalled (the tables); Clear and Governed say when a guard
--                      lets a case pass, SignedReady to StalledProposal when a ticket is proposed, and
--                      Outcomes is about the model of the result
--   Tools/EvidenceRef, Tools/Contracts  tools/contracts.py, and PolicyFactSnapshot of
--                      policy/corpus.py; Tools/ResultLaws is about the validator of ToolResult
--   Tools/Budget       tools/budget.py: ToolBudget
--   Tools/Cache        tools/cache.py: CaseToolCache
--   Tools/Executor     tools/service.py: GovernedToolExecutor; below it which reads run (Governed), what
--                      is not read again (Tally, Settled, Retries) and what is counted (Counts)
--   Domain/CaseFacts   domain/case_facts.py: Codes (the enums), Records, Reply (what a reply says),
--                      Entries and Rebuild (the snapshot and the question policy); Accepted,
--                      Retractions, Known and Questions are about them; Disputes, Tracking and
--                      Current hold the lemmas behind Known
--   Events/Models      events/models.py: envelopes and their fields
--   Events/Store       events/store.py: append and the queries, over the tables of storage/models.py;
--                      Copy is the copy of a payload
--   Events/Subscription  events/store.py: the hub and subscribe
--   Events/Replay, Log, Growth, Acceptance, Pages, Lookup  what appends and queries promise
--   Events/Delivery    what a subscriber receives
--   Common             results, enums, times, texts and the lemmas that the parts share
--
-- A model that pydantic validates is a record, and its field constraints and validators are a function
-- into Result, in their order; model_validate of an update is the validator on the updated record. An
-- exception is a constructor of Error, and a method that changes its object returns the new object.
-- A dictionary is the list of its entries. A datetime is a number of microseconds with a mark that
-- says whether its offset is known; hours and confidences, floats in the code, are whole microseconds
-- and millionths. Every loop of the code but one runs over a list, so nothing runs on fuel. An early
-- return of a long function ends one stage, and each stage is the function from there to its end.
--
-- The one loop is that of subscribe, an asynchronous generator. It is modelled as a machine that
-- runs in pieces, each from one point where it may wait or yield to the next, and a history is a
-- list of acts: a piece of this subscriber, an append, another subscriber's arrival or leaving. An
-- append is one act with its publication: the hub's lock is never held while its task is suspended,
-- so on one event loop nothing runs in between. Tasks of other loops and processes are not modelled.
-- A page has at most 500 events, as in list_after; three pieces for each stored event, one for each
-- queued event and two more are enough to receive all that is stored.
--
-- Parameters, since the code calls a library for them: the SHA-256 of a fact snapshot and of a case
-- fact snapshot (canonical_hash), the hash of a result, the JSON text of a tool's arguments and the id
-- and hash of a policy query, Python's casefold and strip, the source of orders behind authorization,
-- and the reads of the catalog behind the executor, which may raise. A theorem that needs a read to
-- return says for which calls.
--
-- Not modelled: the diagnostics of a policy search and their validator, the JSON normalization behind
-- the result hash, the adapters of the synthetic catalog, the JSON text of an event, the batch hash and
-- the merge records of case facts, the action and application services, the rest of the storage,
-- retrieval, the language-model agents, the HTTP interface and the evaluations. They orchestrate
-- sessions, networks and models around the parts above.
pub mod Common
pub mod Events
pub mod Tools
pub mod Domain
pub mod Policy
