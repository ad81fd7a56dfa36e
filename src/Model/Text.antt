-- ===== src/Model/Text.antt =====
-- What the program asks of a text, which the standard library answers, and `validate_source_id` of
-- crates/posebridge-core/src/model.rs.
use Prim.Native.String.{String}
use pose_bridge.Prelude.{ℕ, Bool, ltb, ◌||◌}
use pose_bridge.Model.{Result, invalid, fail_if}

-- `trim().is_empty()`, `len()` and `chars().any(char::is_control)`; `◌++◌` of two texts, for `format!`.
pub record Text : Type 0 where
  pub is_blank : String → Bool
  pub byte_length : String → ℕ
  pub has_control : String → Bool
  pub join : String → String → String

abbrev pub max_source_id_bytes : ℕ
max_source_id_bytes = 256

unfoldable pub validate_source_id : Text → String → Result (Unit {0})
validate_source_id t value =
    fail_if
      (t.is_blank value || (ltb max_source_id_bytes (t.byte_length value) || t.has_control value))
      invalid
