-- ===== src/Agent.antt =====
-- backend/src/app/services: the loop that talks to the language model, and the tools that it calls.
pub mod Interception
pub mod Tools
pub mod Simulators
pub mod Conversation
pub mod Loop
mod Tests
