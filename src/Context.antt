-- ===== src/Context.antt =====
-- src/anchor/context.py: `RunContext`, the API that workflows call. The attributes that an attempt
-- never changes are `Runtime`; those that it changes are `Machine.Context`.
pub mod Replay
pub mod Guards
pub mod Steps
pub mod Preserves
pub mod Keeps
pub mod Durable
pub mod Calls
