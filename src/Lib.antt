-- ===== src/Lib.antt =====
-- The action layer of an after-sales assistant: a model proposes an action on an order, and these
-- parts decide whether it may happen, ask an operator where they must, and record what happened.
--
-- An intent (a function name and arguments) is validated against a closed contract; the Guard reads
-- the records of the order and decides by an ordered matrix of prerequisites over those records and
-- the published rules; the gateway stores a request that waits for an approval, takes the operator's
-- decision, and compares the records again before it acts.
--
-- Files:
--   Prelude     shared types: lists, results, dicts, Python's integers and its sort
--   Schema      aftersales/schema.py and the vocabularies of aftersales/guard_state.py
--   Actions     aftersales/actions.py (ActionIntentValidator.validate) and, in Capabilities,
--               aftersales/capabilities.py (CapabilityGate.narrow)
--   Policy      aftersales/policy.py; Catalog is select_policies of aftersales/policy_catalog.py
--   Derived     aftersales/derived.py: facts computed from evidence; Window the return and exchange
--               windows, Conflict the rules on order and logistics states
--   GuardState  aftersales/guard_state.py: the captured rows, their evidence and their versions;
--               Cells has the raw rows and their decoders, Templates the queries and Reader
--               GuardStateReader.read; the other files prove what a returned state holds
--   Guard       aftersales/guard.py (Guard.decide) and aftersales/action_policy.py: Types has the
--               decisions and facts, Check the evaluation that records facts until it passes, denies
--               or fails, Decide the matrix; Cause says what each reason code and each grant mean,
--               OnTables what a decision on a captured state means for the tables
--   Snapshot    aftersales/guard_snapshot.py: the stale comparison; Document what is persisted
--               (snapshot_document of aftersales/guard.py) and Parser parse_snapshot_document, over
--               the values of Json and the texts of Words; Rows, Records, Facts and RoundTrip
--               prove that what is written is read back
--   Ids, Approval, Outcome
--               aftersales/ids.py, aftersales/approval.py, aftersales/action_outcome.py; the texts
--               for the user are in Outcome/Render
--   Store       aftersales/action_store.py and aftersales/action_schema.sql: the pending actions with
--               their guarded updates, and the audit trail; Inserts has the rows that are added, the
--               constraints on them and the lookups
--   Gateway     aftersales/action_gateway.py: T1 (record_decision) and the views of a stored row;
--               Execution the capture and the execution rows, Attempt and Start start_action,
--               ResumeSteps and Resume T2 (execute_approved), resume_action and get_outcome. Runs
--               is a logic of what a returning call has done, whatever fails; Effects, Attempted,
--               Started, Resumed, Confirmed and Approved use it, and Guarantees, Approvals and
--               Soundness draw the consequences, Finished those for an ended row; Rebuilt has what a
--               rebuilt action shares with its row; Fresh follows a stored snapshot to T2;
--               Succeeds has the statements that meet no fault, from which Recorded (T1) and, over
--               Compared, Executes and ClosedStale (T2) show what a call brings about: Resource has
--               the rows that it inserts, Executed and Added describe what is there then
--
-- How the code is represented:
--   - A timestamp is the instant that it denotes, in microseconds; the clock is an argument. A
--     calendar day is a division of the instant shifted by the offset, so the limits of Python's
--     calendar are left out.
--   - Statuses, codes and decisions are enumerations; the texts of the columns are read by the
--     parsers of Schema. A digit of a pattern is an ASCII digit.
--   - The canonical text of a mapping stands as its sorted items; a validated action keeps its
--     arguments, of which its text and digest are functions.
--   - A computation of the database is a function on a session: the tables of the transaction, the
--     faults that the next statements meet, and the row loaded so far. A fault raises where the
--     statement stands; a commit that fails, or an exception, leaves the committed tables.
--   - What the gateway takes from outside is in Services: ids, the text behind a key, the persona
--     that the server resolves, and in Codec the functions of hashlib, json and datetime. A fault
--     hook of the code is a statement that fails; an audit observer is left out.
--   - The rows of the domain are raw cells, which a read decodes or refuses; a read hook answers
--     with the rows, with others, or fails.
--   - Loops run over lists, so there is no fuel.
--
-- Not modelled: the foreign keys of the tables, the grounding gate before the action layer, the
-- database set-up, and all that calls a language model, the network or the file system.
pub mod Prelude
pub mod Schema
pub mod Actions
pub mod Policy
pub mod Derived
pub mod GuardState
pub mod Guard
pub mod Snapshot
pub mod Ids
pub mod Approval
pub mod Outcome
pub mod Store
pub mod Gateway
