-- ===== src/Tests/Settings.antt =====
-- Settings from small environments.
use anchor_runtime.Base.{String, none, some, ◌≡◌, refl, ◌==◌, if◌then◌else◌}
use anchor_runtime.Exec.{ok}
use anchor_runtime.Config.{Environment, settings, read_settings, env_int}

-- Only this variable is set.
abbrev only : String → String → Environment
only name value = record {
  getenv = λ n. if n == name then some value else none;
  float = λ raw. ok 7;
  int = λ raw. ok 9;
}

abbrev empty_environment : Environment
empty_environment = record { getenv = λ n. none; float = λ raw. ok 7; int = λ raw. ok 9 }

nothing_set : read_settings empty_environment ≡ (ok settings, empty_environment)
unfolding read_settings
nothing_set = refl

set_number : (env_int "ANCHOR_POOL_MAX" 10 (only "ANCHOR_POOL_MAX" "9")).0 ≡ ok 9
unfolding env_int
set_number = refl

-- An empty variable counts as unset where a number is read.
empty_number : (env_int "ANCHOR_POOL_MAX" 10 (only "ANCHOR_POOL_MAX" "")).0 ≡ ok 10
unfolding env_int
empty_number = refl
