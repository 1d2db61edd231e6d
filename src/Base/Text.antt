-- ===== src/Base/Text.antt =====
-- `String.prototype.trim`: white space and line terminators are taken off both ends.
use Prim.Native.Char.{Char, code}
use Prim.Native.String.{String, [], ◌∷◌}
use Prim.Native.Nat.{ℕ}
use mathlib.Core.Bool.{Bool, false, false≢true, ◌&&◌, ◌||◌}
use text.Mathlib.Text.{◌==◌ as str_eq}
use text.Mathlib.TextEquality.{eq_iff}
use text.Mathlib.TextLemmas.{cons-ne-nil}
use mathlib.Core.Path.{◌≡◌, sym, ◌∙◌}
use mathlib.Core.Logic.{inl, inr}
use icos_v.Base.Tests.{leb, ◌==◌, if◌then◌else◌, Bool-cases}

unfoldable pub is_space : ℕ → Bool
is_space c =
    (leb 9 c && leb c 13)
    || c == 32
    || c == 160
    || c == 0x1680
    || (leb 0x2000 c && leb c 0x200a)
    || c == 0x2028
    || c == 0x2029
    || c == 0x202f
    || c == 0x205f
    || c == 0x3000
    || c == 0xfeff

unfoldable pub trim_start : String → String
unfolding is_space
trim_start [] = ""
trim_start (c ∷ s) = let rest = trim_start s in if is_space (code c) then rest else c ∷ s

unfoldable pub trim_end : String → String
unfolding is_space
trim_end [] = ""
trim_end (c ∷ s) =
    let rest = trim_end s in if is_space (code c) && str_eq rest "" then "" else c ∷ rest

unfoldable pub trim : String → String
unfolding trim_start trim_end
trim s = trim_end (trim_start s)

-- Two texts are equal or not.
unfoldable pub String-discrete : Discrete String
String-discrete s t = elim (Bool-cases (str_eq s t)) [
  | inl e ↦ yes ((eq_iff s t).0 e)
  | inr n ↦ no (λ p. false≢true (sym n ∙ (eq_iff s t).1 p))
]

pub cons-str_eq : (c : Char) (s : String) → str_eq (c ∷ s) "" ≡ false
cons-str_eq c s = elim (Bool-cases (str_eq (c ∷ s) "")) [
  | inl same ↦ absurd (cons-ne-nil c s ((eq_iff (c ∷ s) "").0 same))
  | inr other ↦ other
]
