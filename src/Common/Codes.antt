-- ===== src/Common/Codes.antt =====
-- The characters of a text as numbers: two texts with the same numbers are equal.
use Prim.Native.Nat.{ℕ, Ordering, compare}
use Prim.Native.Char.{code}
use Prim.Native.String.{String, [], ◌∷◌}
use mathlib.Core.Path.{◌≡◌, refl}
use mathlib.Core.List.{List, [] as []ᴸ, ◌∷◌ as ◌∷ᴸ◌}
use text.Mathlib.TextEquality.{codes_equal}
use native.Mathlib.Omega.{arith}

unfoldable pub codes : String → List ℕ
codes [] = []ᴸ
codes (c ∷ s) = code c ∷ᴸ codes s

same_code : (n m : ℕ) → n ≡ m → compare n m ≡ Ordering.eq
same_code n m e = ground arith

pub codes_injective : (s t : String) → codes s ≡ codes t → s ≡ t
unfolding codes
codes_injective [] [] h = refl
codes_injective [] (d ∷ t) h = cc h
codes_injective (c ∷ s) [] h = cc h
codes_injective (c ∷ s) (d ∷ t) h =
    let e : code c ≡ code d = cc in
    let p = codes_equal c d (same_code (code c) (code d) e) in
    let q = codes_injective s t cc in λ i. p i ∷ q i
