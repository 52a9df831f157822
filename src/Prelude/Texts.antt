-- ===== src/Prelude/Texts.antt =====
-- Maps with text keys, as association lists in the order of insertion, and which bytes are text.
use Prim.Native.Nat.{ℕ, zero, suc}
use Prim.Native.Char.{code}
use Prim.Native.String.{String}
use mathlib.Core.Path.{◌≡◌}
use mathlib.Core.Bool.{Bool, true, false, ◌||◌, ◌&&◌}
use mathlib.Core.List.{List, [], ◌∷◌}
use mathlib.Core.Option.{Option, none, some}
use text.Mathlib.Text.{◌==◌ as str_eq}
use text.Mathlib.TextEquality.{eq_iff}
use shake_cloud.Prelude.Tests.{if◌then◌else◌, ltb, leb, ◌==◌}

module _ {ℓ} {V : Type ℓ} where
  unfoldable pub lookup : String → List (String × V) → Option V
  lookup k [] = none
  lookup k ((j, v) ∷ m) = if str_eq j k then some v else lookup k m

-- Go's `slices.Contains` on strings.
abbrev pub contains : List String → String → Bool
contains [] a = false
contains (x ∷ xs) a = str_eq x a || contains xs a

-- The code points of a text: its bytes, if it is ASCII.
abbrev pub codes : String → List ℕ
codes String.[] = []
codes (String.◌∷◌ c s) = code c ∷ codes s

-- How many bytes of the sequence are missing, and the bounds of the next one.
abbrev Missing : Type 0
Missing = ℕ × ℕ × ℕ

-- After the first byte of a sequence of UTF-8 (RFC 3629); `none` where no sequence starts with it.
abbrev after_first : ℕ → Option Missing
after_first b =
    if ltb 0 b && ltb b 128
    then some (0, 128, 191)
    else if leb 194 b && leb b 223
    then some (1, 128, 191)
    else if b == 224
    then some (2, 160, 191)
    else if b == 237
    then some (2, 128, 159)
    else if leb 225 b && leb b 239
    then some (2, 128, 191)
    else if b == 240
    then some (3, 144, 191)
    else if b == 244
    then some (3, 128, 143)
    else if leb 241 b && leb b 243
    then some (3, 128, 191)
    else none

abbrev after_byte : Missing → ℕ → Option Missing
after_byte (zero, low, high) b = after_first b
after_byte (suc n, low, high) b = if leb low b && leb b high then some (n, 128, 191) else none

unfoldable pub is_text_from : Option Missing → List ℕ → Bool
is_text_from none bytes = false
is_text_from (some (n, low, high)) [] = n == 0
is_text_from (some missing) (b ∷ bytes) = is_text_from (after_byte missing b) bytes

-- The bytes that Postgres takes as text: UTF-8 without a zero byte.
unfoldable pub is_text : List ℕ → Bool
unfolding is_text_from
is_text bytes = is_text_from (some (0, 128, 191)) bytes

-- A statement with a parameter that is not text fails, and changes nothing.
abbrev pub stored {ℓ} : {A : Type ℓ} → List ℕ → A → A → A
stored text written kept = if is_text text then written else kept

pub str_eq-refl_of : (s t : String) → s ≡ t → str_eq s t ≡ true
str_eq-refl_of s t e = (eq_iff s t).1 e
