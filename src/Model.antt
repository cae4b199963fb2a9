-- ===== src/Model.antt =====
-- The rows of the tables that backend/src/app/models declares. A time is a number of microseconds,
-- a UUID is a number. The columns `updated_at`, which the database writes by itself and no service
-- reads, and the `relationship` attributes, which stand for a second query, are left out.
pub mod Json
mod Account
mod Design
pub use Account.*
pub use Design.*
