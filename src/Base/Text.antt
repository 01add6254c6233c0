-- ===== src/Base/Text.antt =====
-- Texts as sequences of code points, for the operations that look into them.
use Prim.Native.Nat.{ℕ, ◌-◌}
use Prim.Native.Char.{code}
use Prim.Native.String.{String, [], ◌∷◌}
use mathlib.Core.Path.{◌≡◌, refl}
use text.Mathlib.TextEquality.{Char-path}
use mathlib.Core.Logic.{◌↔◌}
use native.Mathlib.Omega.{arith}
use mathlib.Core.Bool.{Bool, true, false, ◌&&◌, ◌||◌}
use mathlib.Core.Option.{Option, none, some}
use text.Mathlib.Text.{◌==◌}
use mathlib.Core.List as L
use mathlib.Core.List.{List, map}
use complif_techinical_chall.Base.Tests.{leb, nat_eq, if◌then◌else◌}

abbrev pub codes : String → List ℕ
codes [] = L.[]
codes (c ∷ s) = L.◌∷◌ (code c) (codes s)

-- Equality of two sequences of code points.
unfoldable pub codes_eq : List ℕ → List ℕ → Bool
codes_eq L.[] L.[] = true
codes_eq L.[] (L.◌∷◌ b bs) = false
codes_eq (L.◌∷◌ a as') L.[] = false
codes_eq (L.◌∷◌ a as') (L.◌∷◌ b bs) = nat_eq a b && codes_eq as' bs

-- `toUpperCase` of one code point: the letters a to z; every other letter stands for itself.
unfoldable pub upper : ℕ → ℕ
upper c = if leb b'a' c && leb c b'z' then c - 32 else c

-- String.prototype.toUpperCase, over the code points
unfoldable pub to_upper_case : String → List ℕ
unfolding upper
to_upper_case s = map upper (codes s)

-- String.prototype.startsWith and String.prototype.includes, over the code points
unfoldable pub starts_with : List ℕ → List ℕ → Bool
starts_with cs L.[] = true
starts_with L.[] (L.◌∷◌ p ps) = false
starts_with (L.◌∷◌ c cs) (L.◌∷◌ p ps) = nat_eq c p && starts_with cs ps

unfoldable pub text_includes : List ℕ → List ℕ → Bool
unfolding starts_with
text_includes L.[] part = starts_with L.[] part
text_includes (L.◌∷◌ c cs) part = starts_with (L.◌∷◌ c cs) part || text_includes cs part

-- `text || default`, of a text that may be missing
abbrev pub or_text : Option String → String → String
or_text none default = default
or_text (some s) default = if s == "" then default else s

-- `!text`, the test for the empty text
unfoldable pub is_empty : String → Bool
is_empty [] = true
is_empty (c ∷ s) = false

-- `!text` is seen by the code points.
pub codes_eq-upper_nil : (s : String) → is_empty s ≡ false → codes_eq L.[] (to_upper_case s) ≡ false
unfolding is_empty to_upper_case codes_eq
codes_eq-upper_nil [] h = h
codes_eq-upper_nil (c ∷ s) h = refl

-- Equality of code points does not depend on the order of its arguments.
pub codes_eq_symm : (a b : List ℕ) → codes_eq a b ≡ codes_eq b a
unfolding codes_eq
codes_eq_symm L.[] L.[] = refl
codes_eq_symm L.[] (L.◌∷◌ b bs) = refl
codes_eq_symm (L.◌∷◌ a as') L.[] = refl
codes_eq_symm (L.◌∷◌ a as') (L.◌∷◌ b bs) = ground (arith, codes_eq_symm as' bs)

pub codes_eq_iff : (a b : List ℕ) → (codes_eq a b ≡ true) ↔ (a ≡ b)
unfolding codes_eq
codes_eq_iff L.[] L.[] = ground arith
codes_eq_iff L.[] (L.◌∷◌ b bs) = ground arith
codes_eq_iff (L.◌∷◌ a as') L.[] = ground arith
codes_eq_iff (L.◌∷◌ a as') (L.◌∷◌ b bs) = ground (arith, codes_eq_iff as' bs)

-- A text is told by its code points.
pub codes-inj : (s t : String) → codes s ≡ codes t → s ≡ t
codes-inj [] [] h = refl
codes-inj [] (d ∷ t) h = absurd (cc)
codes-inj (c ∷ s) [] h = absurd (cc)
codes-inj (c ∷ s) (d ∷ t) h =
    let first = Char-path c d (cc) in let rest = codes-inj s t (cc) in λ i. first i ∷ rest i
