-- ===== src/Base/Text.antt =====
-- The tests on texts that the program makes: `not text`, `str.isspace`, `str.strip`, `len`.
use Prim.Native.Char.{code}
use Prim.Native.String.{String}
use Prim.Native.Nat.{ℕ, suc}
use mathlib.Core.Path.{◌≡◌, refl}
use mathlib.Core.Bool.{Bool, true, false, ◌&&◌, ◌||◌}
use native.Mathlib.Omega.{arith}
use coldsnap.Base.Tests.{leb, eqb, if◌then◌else◌}
use coldsnap.Base.Keys.{string_eq, cons_eq}

-- `not text`
abbrev pub is_empty : String → Bool
is_empty String.[] = true
is_empty (String.◌∷◌ c s) = false

-- `first + second`
unfoldable pub append : String → String → String
append String.[] t = t
append (String.◌∷◌ c s) t = String.◌∷◌ c (append s t)

-- `text.startswith(prefix)`
unfoldable pub starts_with : String → String → Bool
starts_with String.[] text = true
starts_with (String.◌∷◌ c prefix) String.[] = false
starts_with (String.◌∷◌ c prefix) (String.◌∷◌ d text) =
    eqb (code c) (code d) && starts_with prefix text

-- The number of characters, which for ASCII is the number of bytes.
abbrev pub text_length : String → ℕ
text_length String.[] = 0
text_length (String.◌∷◌ c s) = suc (text_length s)

-- The code points of Unicode white space, as Python's `str.isspace` has them.
unfoldable pub is_space : ℕ → Bool
is_space c =
    (leb 9 c && leb c 13)
    || (leb 28 c && leb c 32)
    || eqb c 133
    || eqb c 160
    || eqb c 5760
    || (leb 8192 c && leb c 8202)
    || eqb c 8232
    || eqb c 8233
    || eqb c 8239
    || eqb c 8287
    || eqb c 12288

-- `any(character.isspace() for character in text)`
unfoldable pub any_space : String → Bool
unfolding is_space
any_space String.[] = false
any_space (String.◌∷◌ c s) = is_space (code c) || any_space s

unfoldable pub strip_left : String → String
strip_left String.[] = String.[]
strip_left (String.◌∷◌ c s) =
    let rest = strip_left s in if is_space (code c) then rest else String.◌∷◌ c s

unfoldable pub strip_right : String → String
strip_right String.[] = String.[]
strip_right (String.◌∷◌ c s) =
    let rest = strip_right s in
    if is_space (code c) && is_empty rest then String.[] else String.◌∷◌ c rest

-- `text.strip()`
unfoldable pub strip : String → String
unfolding strip_left strip_right is_space
strip s = strip_right (strip_left s)

strip_left_of_no_space : (s : String) → any_space s ≡ false → strip_left s ≡ s
unfolding any_space strip_left
strip_left_of_no_space String.[] h = refl
strip_left_of_no_space (String.◌∷◌ c s) h = ground arith

strip_right_of_no_space : (s : String) → any_space s ≡ false → strip_right s ≡ s
unfolding any_space strip_right
strip_right_of_no_space String.[] h = refl
strip_right_of_no_space (String.◌∷◌ c s) h =
    ground (arith, cons_eq c c (strip_right s) s refl, strip_right_of_no_space s)

-- A text with no white space at all has none to strip.
pub strip_of_no_space : (s : String) → any_space s ≡ false → strip s ≡ s
unfolding strip
strip_of_no_space s h = rw (strip_left_of_no_space s h) (strip_right_of_no_space s h)
