-- ===== src/Chat.antt =====
-- backend/src/app/services/agent_service.py and the endpoint chat.py: a turn of a conversation around the
-- agent loop, what it stores, and how a client that lost its connection reads the rest.
mod Tests
pub mod Rows
pub mod History
pub mod Persist
pub mod Events
pub mod Prompt
pub mod Turn
pub mod Run
