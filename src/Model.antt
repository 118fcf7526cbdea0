-- ===== src/Model.antt =====
-- src/anchor/models.py: the value types that the engine, the store and the API share. Times and
-- durations are natural numbers of microseconds, money is in millionths of a dollar.
mod Types
pub mod RoundTrip
unfoldable pub use Types.*
