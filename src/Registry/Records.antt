-- ===== src/Registry/Records.antt =====
-- The record classes of worlds/jak3/registry.py.
use jak3_ap.Prelude.{ℕ, String, Bool, Option}

pub record ItemRecord : Type 0 where
  pub name : String
  pub code : ℕ
  pub classification : String
  pub family : String
  pub pool_count : ℕ

abbrev pub item : String → ℕ → String → String → ℕ → ItemRecord
item n c k f p = record { name = n; code = c; classification = k; family = f; pool_count = p }

pub record LocationRecord : Type 0 where
  pub name : String
  pub code : ℕ
  pub family : String
  pub native_task_id : Option ℕ
  pub native_node_id : Option ℕ
  pub orb_threshold : Option ℕ
  pub default_excluded : Bool

abbrev pub location : String → ℕ → String → Option ℕ → Option ℕ → Option ℕ → Bool → LocationRecord
location n c f t d o x = record {
  name = n;
  code = c;
  family = f;
  native_task_id = t;
  native_node_id = d;
  orb_threshold = o;
  default_excluded = x;
}

pub record MissionRecord : Type 0 where
  pub task_id : ℕ
  pub native_alias : String
  pub runtime_alias : String
  pub display_name : String
  pub bootstrap_profile_id : Option String
  pub shadow_profile_id : Option String

abbrev pub mission : ℕ → String → String → String → Option String → Option String → MissionRecord
mission t n r d b s = record {
  task_id = t;
  native_alias = n;
  runtime_alias = r;
  display_name = d;
  bootstrap_profile_id = b;
  shadow_profile_id = s;
}

pub record MissionProfileRecord : Type 0 where
  pub profile_id : String
  pub native_task_id : ℕ
