-- ===== src/Common/Text.antt =====
-- Equality of texts as a test.
use Prim.Native.String.{String}
use mathlib.Core.Path.{◌≡◌}
use mathlib.Core.Bool.{Bool, true}
use text.Mathlib.Text.{◌==◌}
use text.Mathlib.TextEquality.{eq_iff}
use text.Mathlib.TextPositions.{eq_refl}

abbrev pub same_text : String → String → Bool
same_text s t = s == t

pub same_text→eq : (s t : String) → same_text s t ≡ true → s ≡ t
same_text→eq s t h = (eq_iff s t).0 h

pub same_text_refl : (s : String) → same_text s s ≡ true
same_text_refl s = eq_refl s
