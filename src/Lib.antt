-- ===== src/Lib.antt =====
-- Ops-Knowledge: a knowledge platform with departments, reviewed documents, agents that route
-- messages by rules, and workflows.
--
-- The library models the decision logic of the Python services as functions on explicit tables.
-- A database row is a record, a table a list or a dictionary by id, an identifier a number, a
-- string of configuration a string, and a text from users a list of code points. A method that
-- raises returns a `Result`; a method that writes returns the new tables. Code that other packages
-- supply (language models, digests, LangGraph, handlers, the clock) is an argument.
--
-- The parts, with the code that each is about:
--   Prelude      shared types: tests on numbers, lists, membership, dictionaries by number and by
--                string, results, texts with the string methods of the code, selections.
--   Department   app/department/: `Models` the rows, `Service` the methods of `DepartmentService`
--                that write, `Access` the descent over sub-departments and the access levels
--                (`get_descendant_department_ids`, `check_resource_access`,
--                `get_accessible_resource_ids`). `Integrity` and `Membership` are about the
--                references between the tables, over sequences of calls.
--   Knowledge    app/knowledge/: `Reviewers` the queries of review/reviewers.py over the rows of
--                departments, shares and knowledge bases; `Review` the methods of `ReviewService`,
--                which ask `Reviewers` whom to notify; `Chunking` the strategy of
--                chunking/recursive.py; `Tagging` the function `normalize_tags` of
--                tagging/normalizer.py over the tag dictionary, and, in `Tagging/Governance`, the
--                writes of `TagDictionaryService` and the handlers of tagging/router.py;
--                `Lifecycle` the daily sweep of lifecycle/tasks.py; `Chunks` the methods of `ChunkService`, with the handlers of
--                chunk_router.py that call them.
--   Agent        app/agent/orchestrator/: `Cache` the calls of cache.py; `Matchers` the keyword
--                matcher; `Engine` the cascade of rules (`evaluate`) over any table of matchers;
--                `Dispatcher` the run of a handler as events and an outcome; `Routing` the loop of `OrchestratorService.route`, which
--                calls both, with the rows that audit.py writes.
--   Workflow     app/workflow/: `Dsl` the validation of dsl.py; `Compiler` langgraph/compiler.py,
--                whose result is the list of calls made on the StateGraph; `State` the reducer of
--                langgraph/state.py; `Webhook` the methods of `WebhookService`; `Bus` the
--                `EventBus` of events.py, whose calls and consumers take turns; `Service` the
--                methods of `WorkflowService`, which ask `Dsl` before they publish; `Execution` the
--                runs of `ExecutionService`, over the tables of `Service`, which call `Dsl`, `Compiler`
--                and, as an argument, LangGraph.
--   Examples     tests of the definitions on small inputs, and the theorems at inputs that meet
--                their conditions.
--
-- Loops. A `for` is structural recursion. The `while` loops of the descent over departments, of
-- Kahn's algorithm and of the reachability run on fuel: one round for each department and one more,
-- one turn for each node and one more, one turn for each start and each edge. Theorems of the list
-- below show that this is enough. The loop of `route` has its own bound of five attempts.
--
-- Databases. The collation of names is an argument. A JSON column that is changed in place after it was
-- loaded is not written, as the session sees no change of it.
--
-- Bounds. Numbers are natural numbers; the code compares and counts only. The cache holds 256
-- agents, a tag 64 characters. A chunk size of 0 raises, as the slicing of the code does. The sizes
-- of the queues and of the history of a bus are arguments, 256 in the code. Times of the sweep are
-- seconds, and `t < now - d` is written `t + d < now`.
--
-- Left out: HTTP handlers other than those of chunk_router.py and tagging/router.py, sessions and
-- transactions other than the roll back of a request that raises, columns that no modelled method reads, the
-- order in which a query without `order_by` returns rows, the average latency of a rule, the texts
-- that every audit row of a request repeats, and white space outside ASCII other than the no-break
-- and the ideographic space. A lost race between two requests is not modelled: calls follow each
-- other.
pub mod Prelude
pub mod Department
pub mod Knowledge
pub mod Workflow
pub mod Agent
pub mod Examples
