-- ===== src/Lib.antt =====
-- A verification of the core of the backend of Factorial, a web application in which users plan
-- experiments in a conversation with a language model.
--
-- The program. A user signs up, is approved and given a role by an admin, sets a password, and logs in
-- to a session that a cookie carries. In a conversation the agent loop alternates between the
-- Anthropic API and tools of the package process_improve; simulators of processes keep a hidden state,
-- which is spliced into and out of the calls of tools. Designed experiments are stored with their
-- results, and shared by links. A tracker watches the API, and each call is priced.
--
-- Files and code (paths from the repository's root, services under backend/src/app/services):
-- - Prelude: tests, lists as tables (select, update, count), sorting, signed integers, dicts.
-- - Config: backend/src/app/config.py. Model: backend/src/app/models, and JSON values (Model.Json).
-- - Database: the rows of each table and the monad of the services: a result or an exception, with the
--   rows as they are at that point. `transaction` is get_db_session of backend/src/app/db/session.py.
-- - Session: session_service.py, and `logout_all` of backend/src/app/api/v1/endpoints/auth.py.
--   Session.Cookie is `_encode_id` and `_decode_id`, with base64 as the interpreter's binascii has it.
-- - Account.Auth, Account.SetupTokens, Account.Signups, Account.Roles, Account.Admins: auth_service.py,
--   setup_token_service.py, signup_service.py, role_service.py, admin_service.py.
-- - Design.Experiments and Design.Shares: experiment_service.py and share_service.py.
-- - Agent.Interception: simulator_interception.py. Agent.Simulators: simulator_service.py.
--   Agent.Tools: tools.py and exceptions.py.
--   Agent.Conversation and Agent.Loop: `_run_agent_loop` of agent_loop.py.
-- - Chat: agent_service.py, and `_replay_events` of backend/src/app/api/v1/endpoints/chat.py. Chat.History
--   and Chat.Persist are the messages as they are read and stored, Chat.Events the stream with its rows,
--   Chat.Prompt the system prompt, Chat.Turn the steps of `run_chat` and Chat.Run their composition.
-- - Access: deps.py and csrf.py of backend/src/app/api.
-- - Access.Login: `login` and `logout` of backend/src/app/api/v1/endpoints/auth.py, with auth_cookies.py.
-- - Upload: upload_parsing_service.py. Upload.Discover: upload_claude_service.py. Upload.Drafts: the
--   endpoints of backend/src/app/api/v1/endpoints/uploads.py.
-- - Export, Export.Evaluation, Export.Sheets: export_service.py. Export.Script and Export.Notebook:
--   reproducible_export_service.py. Export.Public and Export.View: the endpoints of exports in
--   experiments.py and of public links in shares_public.py of backend/src/app/api/v1/endpoints.
-- - AdminEvents: admin_event_service.py.
-- - Status: anthropic_status.py. Pricing: pricing.py.
-- A function has the name of the one in the source, without a leading underscore. An asynchronous
-- function of a service is a function into Exec; its arguments also hold what the source draws: the
-- clock, random tokens and new ids. Times are in microseconds. The modules Tests run the code at small
-- inputs.
--
-- Parameters. bcrypt (Account.Auth.Bcrypt), the Unicode tables of lower case and white space
-- (Account.Roles.Unicode, Agent.Loop.World), the order in which the database collates names, the
-- package process_improve (Agent.Tools.ProcessImprove; its results are JSON), the Anthropic client (Agent.Loop.World), how
-- Python writes values (Design.Experiments.Create.Format, the `dumps` of Chat.Turn.Surroundings), and
-- which inserts of events succeed (the `available` of Chat.Events).
-- Uploads: openpyxl, csv and the UTF-8 decoder (Upload.Readers), pydantic and the client
-- (Upload.Discover.Claude). Exports: how Python writes numbers and dicts (Export.Script.Python), labels
-- and sets (Export.Evaluation.Showing), the templates (Export.Notebook.Renderers), and, for the endpoints,
-- the builders of the formats (Export.Public.Builders).
-- Where a theorem needs a law of one, it is a hypothesis of the theorem. The index of a row of results is an
-- integer, a bool, a text or missing; a theorem on rows of results says so where it matters.
--
-- Bounds. The `while` of the agent loop is recursion on the turns that are left, from
-- `max_agent_turns` on, as the source counts them; no other loop needs fuel. A query reads rows of a
-- list, so a row is found by the columns that the source filters by; the columns that the models
-- declare unique are checked by the operations that insert.
--
-- Not modelled: measurements and logs, the text of some messages, HTTP and its schemas, mails, charts and
-- the rendering of documents, feedback, rate limits, migrations and the frontend. They are
-- input and output, formatting by libraries, or stores of their own beside the parts named above.
pub mod Prelude
pub mod Config
pub mod Model
pub mod Database
pub mod Pricing
pub mod Session
pub mod Account
pub mod Design
pub mod Agent
pub mod Status
pub mod Chat
pub mod Access
pub mod AdminEvents
pub mod Upload
pub mod Export
