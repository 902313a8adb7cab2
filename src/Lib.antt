-- ===== src/Lib.antt =====
-- dDuo Solo Founder, a memory and work server for coding assistants: a verification library beside
-- the Python of backend/dduo_solo_founder.
--
-- The program keeps, for every project, sprints and tasks, memories that a nightly job distils from
-- recorded turns, and an account of what the assistants cost; it composes the context that an
-- assistant gets without asking, keeps a vector collection of the tasks in step with the tables,
-- and hands a project's database from one node of a team to another. The library models six parts.
-- They meet in the tables: Work and Memory write events to the outbox, Index delivers them, and the
-- fence of Team decides which node may do either.
--
-- Work (sprint_work.py, with rows of models.py and helpers of service.py and task_index.py). The
-- tables are lists in one record, Work.Store.Db; an operation takes the tables and returns the new
-- ones or the error that it raises. Work.Sprints.Rows holds the queries and the placements,
-- Work.Sprints.Mutate `mutate_sprint` with its six operations and its receipts, and
-- Work.Sprints.Preview `close_preview` and `placement_predicate`, which only read. Identifiers and
-- times are natural numbers that are only compared, 0 stands for the empty text, and the closed
-- task row stands for the card of a closure snapshot. The hash of a request is a number of the call.
-- The rest of Work.Sprints and Work.Consistency are the proofs: what opens a sprint, what an
-- archived sprint leaves behind, the receipt of a call, and how the preview and the placements fit
-- the rows. Work.Later has sequences of sprint operations and task actions. Work.Previewed has a
-- preview, task actions after it and then the closure, with Work.Writes and Work.UniqueTasks for
-- what those actions touch and keep.
--
-- Work.Tasks is one action on one task (`apply_task_action` of service.py) on the same tables:
-- Work.Tasks.Values compares and sets the fields that were given, Work.Tasks.Checks has the checks
-- and Work.Tasks.Action the rest. The comparison of titles in lower case, which the database makes,
-- is a parameter.
--
-- Pricing (pricing.py). Pricing.Catalog is the price list entry by entry with its lookup,
-- Pricing.Cost the validation of the counters and the bill, Pricing.Decimal the decimals, a
-- coefficient and a scale, with exact sums and products.
--
-- Context (context_budget.py). Context.Text and Context.Json are the Python texts and `json.dumps`
-- as the source uses them, Context.Fragment the fragments and their lines, Context.Measure the
-- measurements, Context.Render the rendered lines, Context.Delivery the structured manifest and
-- Context.Compose the selection, the delivery and both fallbacks. SHA-256 is a parameter. Every
-- `ValueError` is `none`; arguments of a wrong type cannot be written. The decimal digits of a
-- number take that number and one as fuel, for which Context.Digits stands.
--
-- Memory (memory_engine.py, with rows of models.py and payloads of schemas.py). Memory.Keys is the
-- normalisation of a node key, Memory.Targets the queries that choose the memory of an action,
-- Memory.Sleep `apply_sleep_action` and `forget_memory` on the tables of Memory.Store; `none` is the
-- exception. Identifiers are texts, metadata are JSON objects, and the clock, the principal and the
-- identifiers of `uid` are arguments. Lowercasing is exact up to characters that the key replaces
-- anyway. Memory.Chain says what the revision chains are; the other files hold the proofs.
--
-- Index (task_index.py, outbox.py, and the calls for task points of embeddings.py). Index.Bytes is
-- UTF-8 with the exact decoder that drops what is cut off, Index.Labels the compact labels,
-- Index.Document the document under its two budgets with Index.Slices and Index.Cuts for how it is
-- cut, Index.Payload the payload and its comparison, Index.Projection `index_task`. The vector
-- database and the embedding model are one parameter, the record VectorStore, with the laws of a
-- collection of points as hypotheses; the lower case of a text and SHA-256 are parameters too.
-- Index.Events has the rows of the queue and the condition of the claim, and Index.Outbox is
-- `process_one` with the branches of an event; the write of a memory's point is a parameter.
-- Index.Emptied has the calls of `process_one` that the worker's loop makes, until one finds no work.
-- It takes as fuel the number of calls, of which one more than the open events is enough, and every
-- call of it has the same clock. The loop itself never ends, and schedules and runs sleep jobs
-- between the calls, which are left out.
-- The measurements of an observation are not kept, and one call runs at a time: two workers that
-- claim at once are left out, as are the locks on the rows. Index.Converged is about the loop and
-- `index_task` together, with the law that memories are stored elsewhere, and Index.Caught about the
-- loop and `pending_task_projection_ids`.
--
-- Team (the fence of team.py, the authority routes of main.py, and authority_receipts.py).
-- Team.Authority is the fence and the SQL condition of the workers, Team.Requests the errors, the
-- host and the receipts, Team.Handoff the routes on the row of the project, which exists.
-- Team.Nodes is a team of nodes as a step relation: each node has its own row, and requests come in
-- any order. Of the restores of a backup, which the launcher makes without asking the fence, two
-- kinds are steps: another node's database on a node without a database or whose database names
-- another owner, and a node's own database on the node in charge. A restore on a node that gave the
-- project away is none, since it would bring back a second writer, as a run in Tests.TeamRuns shows;
-- nor is the recovery from a lost node, where a person decides that the old node is gone.
-- A token is its receipt with the secret that signed it, and one that the node's own secret signed
-- is authentic. Node ids are stripped texts, as the routes write them; only the fence is also
-- modelled for other texts, with `strip` as a parameter. Team.Encoding and Team.Tokens are base64url
-- and the signed tokens as bytes, with the keyed digest as a parameter; the JSON inside a token, its
-- validation and its times are left out, and so are the sleep jobs that a transfer resets and the
-- backups that a recovery resets.
--
-- Prelude has the helpers of all parts, and Tests the runs at concrete inputs.
--
-- Not modelled: language inference and the reading functions of memory_engine.py, the recording of
-- turns (service.py), the sleep engine, retrieval, the other vectors of embeddings.py, and the
-- principals, memberships and invitations of team.py; and the HTTP and MCP surfaces, the command
-- line, launchers, hooks, backups and migrations, which are input and output around these parts.
pub mod Prelude
pub mod Pricing
pub mod Work
pub mod Context
pub mod Memory
mod Tests
pub mod Index
pub mod Team
