-- ===== src/Lib.antt =====
-- SafeRefund: a refund agent for a shop. A language model proposes actions for a customer's case, a
-- deterministic policy decides on each of them, and a gate carries out what policy allows, with an
-- append-only event log as the record of what happened. This library models the program under
-- src/saferefund and the model's process under worker/, and proves what makes them safe.
--
-- The parts, from the bottom up:
--   Common       Boolean tests, lists and signed integers over the native numbers; text as code points
--                (Common/Chars), JSON documents and their printing (Common/Json), byte strings.
--   Domain       domain/: enums, event payloads, the event catalogue (`build_canonical_event`), the
--                exceptions, Python's `Decimal` as the program uses it, and how values are spelled in
--                a prompt (Domain/Spelling).
--   Actions, Config
--                actions/models.py and config.py.
--   Projection   projections/: the folds of a customer's events into the summaries of a case, a
--                customer and an order.
--   Policy       policy/: the checks, `evaluate` and `authorise`, and the single-use capability.
--                Policy/Evaluate/Spec is the specification: what is permitted, without the checks.
--   Store        domain/tables.py, repositories/, adapters/, clock.py and ids.py: the rows, the state
--                `World`, the queries, `append_canonical_event`, `transition_refund_status`, the seed, the
--                evidence behind a refund row, and the mock adapters. Store/Keeps has the rules by
--                which an operation is shown to keep a predicate on the state, and
--                Store/Delivers and Store/Returns those by which it is shown what a return stands for.
--   Gate         gate/: the effects of the agent's actions, refund proposals and payments, the
--                operator's decisions, the sweep of expired approvals, verification, escalation.
--                Gate/Progress counts the agent's steps that the log shows, and Gate/Sweep is about the
--                cases that a sweep reopens.
--   Bounds       bounds.py: the truncation of an invalid output, on the UTF-8 of Common/Utf8.
--   Agent        agent/: the loop of a case (Agent/Loop), the model boundary and the parser
--                (Agent/Boundary), the prompt (Agent/Prompt), the heuristic model (Agent/Models),
--                prompt_serialization.py (Agent/Serialization) and the gateway (Agent/Gateway).
--   Worker       worker/saferefund_model_worker/: the heuristic (Worker/Heuristic), the framed
--                messages (Worker/Protocol) and `main` (Worker/Main).
--   Api          api/routes.py: the routes, the queue of case loops, and Api/Server, which answers a
--                list of requests one after another. Api/Seeded is about the program from its seed on.
--
-- State. `World` holds the database as the session sees it, the database as last committed, what
-- the adapters have recorded, the readings of the clock to come, and the next number for an
-- identifier. An operation is a function `World → Result A × World`: what it wrote before it raised
-- stays written until a savepoint (`in_savepoint`) or the end of its transaction (`in_transaction`)
-- takes it back. The program holds an advisory lock on a customer for the length of an operation;
-- the model runs operations one at a time. At the primary keys and the unique indexes of the rows
-- that it inserts the model has the IntegrityError and the code's answer to it: another transaction
-- may have been there, and identifiers start again with each process.
--
-- Representation. An identifier is its number, without its prefix; names are ordered as strings of
-- decimal digits (`name_leb`). Stored money is in cents. A text that the program composes is the
-- list of its pieces until a prompt spells it out. An event's type is the constructor of its
-- payload. The text of an order in a `link_order` proposal is an order's identifier or any other
-- text (`OrderRef`). The source compares a capability's proposal with the one at hand by object
-- identity; the model, which has values and no objects, compares the values (`same_action`): every
-- caller hands on the very proposal that was authorised, so that the two answer alike. A text that
-- the tables or a proposal hold is a native text, which has no surrogates; a prompt is code points,
-- where a surrogate makes `encode` raise.
--
-- Parameters. In the loop the model, what json.loads and pydantic make of its output, and SHA-256
-- are the fields of `Environment`, about which nothing is assumed; `str.lower` is a parameter of
-- the routes and of the seed. In the gateway and the worker the reading and the printing of JSON
-- text are `loads`, `dumps` and `dumps_action`, and the pipe to the worker is `deliver`, which cuts
-- what is written into pieces; the theorem that needs more of them than that they are functions
-- says so.
--
-- Fuel. `run_agent_loop` and `drain_agent_loop_queue` run on fuel, and their result is `none` where
-- it runs out. The theorems about all requests hold for every amount of fuel. For the loop of a
-- case 13, one more than the step limit, is enough, since every round adds a step to the log; for
-- the queue the number of initial cases and of all cases together is enough, since a case has one
-- turn. The worker's `read_rounds` has the number of bytes that remain as its fuel, and a round
-- reads one of them at the least.
--
-- Not modelled: HTTP schemas and response bodies, the demonstration, logging, the construction of
-- the application, process locks, the worker's resource limits and import path, and the
-- prompt-obedient model, which is a stub for tests. A pipe that stays open and delivers nothing:
-- the worker waits for it until the gateway's timeout kills it.
pub mod Actions
pub mod Agent
pub mod Api
pub mod Bounds
pub mod Common
pub mod Config
pub mod Domain
pub mod Gate
pub mod Policy
pub mod Projection
pub mod Store
pub mod Worker
