-- ===== src/Encoding/Json/Canonical.antt =====
-- The canonical bytes of a JSON value.
use jak3_ap.Prelude.{◌≡◌, refl, ap, ◌∙◌, sym, some, ok}
use jak3_ap.Value.{Value, validate_json_value}
use jak3_ap.Encoding.Json.{Library, sort_keys, render, canonical_json_bytes}
use jak3_ap.Encoding.Json.Order.{sort_keys_again}
use jak3_ap.Encoding.Json.Reading.{json_safe_lem}
use jak3_ap.Encoding.Json.Reordered.{Reordered, sort_keys-Reordered}
use jak3_ap.Encoding.Json.Valid.{validate_json_value-sort_keys}

module _ (lib : Library) (v : Value) (h : validate_json_value v ≡ ok tt) where
  pub canonical_bytes : canonical_json_bytes lib v ≡ some (lib.dumps (sort_keys v))
  unfolding canonical_json_bytes
  canonical_bytes = ap (render lib) (json_safe_lem v h) ∙ unfold render in refl

  -- sorting the keys first changes no byte
  pub canonical_again : canonical_json_bytes lib (sort_keys v) ≡ some (lib.dumps (sort_keys v))
  unfolding canonical_json_bytes
  canonical_again =
      ap (render lib) (json_safe_lem (sort_keys v) (validate_json_value-sort_keys v h))
      ∙ unfold render in ap (λ w. some (lib.dumps w)) (sort_keys_again v)

-- Two JSON values that differ at most in the order of the keys of their mappings, at any depth,
-- have the same canonical bytes, and so the same checksum. The bytes read back as a value that has
-- the same canonical bytes again.
pub canonical_json_bytes-Reordered :
    (lib : Library) (v w : Value)
    → validate_json_value v ≡ ok tt
    → validate_json_value w ≡ ok tt
    → Reordered v w
    → (bytes : Library.Bytes lib) × (read : Value) × (canonical_json_bytes lib v ≡ some bytes)
      × (canonical_json_bytes lib w ≡ some bytes)
      × (lib.loads bytes ≡ some read)
      × (canonical_json_bytes lib read ≡ some bytes)
canonical_json_bytes-Reordered lib v w h g r = (
  lib.dumps (sort_keys v),
  sort_keys v,
  canonical_bytes lib v h,
  canonical_bytes lib w g ∙ ap (λ u. some (lib.dumps u)) (sym (sort_keys-Reordered r)),
  lib.loads_dumps (sort_keys v) (validate_json_value-sort_keys v h),
  canonical_again lib v h,
)
