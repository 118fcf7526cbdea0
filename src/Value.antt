-- ===== src/Value.antt =====
-- The values that workflows, tools and JSON columns hold (`Any` in the source), and the test that
-- `_ensure_json` of src/anchor/context.py makes. `int` is a Python integer: `neg n` stands for
-- -(n + 1). `float` is a non-negative float in millionths. `opaque` is a value of any type that
-- `json.dumps` refuses.
mod Laws
pub use Laws.*
unfoldable pub use Defs.*
mod Defs
