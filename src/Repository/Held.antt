-- ===== src/Repository/Held.antt =====
-- The state that a primary file holds.
use jak3_ap.Prelude.{◌≡◌, ◌⊎◌, refl, ap, ◌∙◌, Option, none, some, ok, inl, inr}
use jak3_ap.Persistence.State.{PersistentState}
use jak3_ap.Persistence.Identity.{Platform}
use jak3_ap.Repository.{Codec, Disk, load_state_file}

module _ {p : Platform} (codec : Codec p) where
  open codec use {Bytes, deserialize, canonical, canonical_same}

  -- the primary loads as the state or as its canonical form
  pub record Held (s : PersistentState) (disk : Disk Bytes) : Type 0 where
    pub previous : Bytes
    pub current : PersistentState
    pub on_disk : disk.primary ≡ some previous
    pub holds : deserialize previous ≡ ok current
    pub near : (current ≡ s) ⊎ (current ≡ canonical s)

  pub near-same :
      (s current : PersistentState)
      → (current ≡ s) ⊎ (current ≡ canonical s)
      → (current.state_instance_id ≡ s.state_instance_id)
        × (current.state_revision ≡ s.state_revision)
  near-same s current (inl e) = (
    ap (λ (t : PersistentState). t.state_instance_id) e,
    ap (λ (t : PersistentState). t.state_revision) e,
  )
  near-same s current (inr e) =
      let (id, revision) = canonical_same s in
      (
        ap (λ (t : PersistentState). t.state_instance_id) e ∙ id,
        ap (λ (t : PersistentState). t.state_revision) e ∙ revision,
      )

  pub loads-some :
      (file : Option Bytes) (s : PersistentState)
      → load_state_file codec file ≡ ok s
      → (bytes : Bytes) × (file ≡ some bytes) × (deserialize bytes ≡ ok s)
  unfolding load_state_file
  loads-some none s h = cc
  loads-some (some bytes) s h = (bytes, refl, h)

  pub loads-Held :
      (disk : Disk Bytes) (s : PersistentState)
      → load_state_file codec disk.primary ≡ ok (canonical s)
      → Held s disk
  loads-Held disk s h =
      let (previous, on_disk, holds) = loads-some disk.primary (canonical s) h in
      record {
        previous = previous;
        current = canonical s;
        on_disk = on_disk;
        holds = holds;
        near = inr refl;
      }

  pub same-Held :
      (disk : Disk Bytes) (s : PersistentState)
      → load_state_file codec disk.primary ≡ ok s
      → Held s disk
  same-Held disk s h =
      let (previous, on_disk, holds) = loads-some disk.primary s h in
      record { previous = previous; current = s; on_disk = on_disk; holds = holds; near = inl refl }
