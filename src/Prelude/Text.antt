-- ===== src/Prelude/Text.antt =====
-- Texts are only compared, so they are native strings.
pub use text.Mathlib.Text.{◌==◌}
pub use text.Mathlib.TextEquality.{eq_iff}
pub use text.Mathlib.TextPositions.{eq_refl}
