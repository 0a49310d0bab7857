-- ===== src/Repository/Once.antt =====
-- Two commits that expect the same revision (`_commit` of worlds/jak3/persistence.py).
use jak3_ap.Prelude.{ℕ, ◌≡◌, Bool, ok, ◌==◌}
use text.Mathlib.Text.{◌==◌ as str_eq}
use jak3_ap.Persistence.State.{PersistentState}
use jak3_ap.Persistence.Identity.{Platform}
use jak3_ap.Repository.{Codec, Disk, Stage, load_state_file, commit}
use jak3_ap.Repository.Held.{Held}

module _ {p : Platform} (codec : Codec p) (s : PersistentState) (expected : ℕ) where
  open codec use {Bytes, deserialize}

  -- The state is proposed at the expected revision, which the primary has, of the same instance.
  pub record Succeeds (disk : Disk Bytes) : Type 0 where
    pub proposed : s.state_revision ≡ expected
    pub current : PersistentState
    pub loads : load_state_file codec disk.primary ≡ ok current
    pub same_revision : current.state_revision ≡ expected
    pub same_instance : current.state_instance_id ≡ s.state_instance_id

module _ {p : Platform} (codec : Codec p) (fault : Stage → Bool) (s : PersistentState)
    (expected : ℕ) (disk : Disk (Codec.Bytes codec)) (c : PersistentState)
    (returned : (commit codec fault s expected disk).0 ≡ ok c) where
  abbrev after : Disk (Codec.Bytes codec)
  after = (commit codec fault s expected disk).1
