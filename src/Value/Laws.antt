-- ===== src/Value/Laws.antt =====
-- Reading a dict after a write.
use anchor_runtime.Base.{String, ◌≡◌, refl, some, arith, ◌==◌, eq_iff, if◌then◌else◌}
use anchor_runtime.Value.Defs.{Value, Dict, end, field, get?, set}

pub get?-set :
    (k j : String) (v : Value) (d : Dict)
    → get? j (set k v d) ≡ (if k == j then some v else get? j d)
get?-set k j v end = refl
get?-set k j v (field i w d) = ground (arith, eq_iff k j, eq_iff i k, eq_iff i j, get?-set k j v d)
