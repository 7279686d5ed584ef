-- ===== src/Base/Decimal.antt =====
-- Decimal texts: Python's `str(n)` and `int(text)`, the latter for ASCII digits.
use Prim.Native.Char.{Char, code}
use Prim.Native.String.{String}
use Prim.Native.Nat.{ℕ, zero, suc, ◌+◌, ◌-◌, ◌*◌, ◌/◌, ◌%◌, ◌<◌, ◌≤◌}
use mathlib.Core.Path.{◌≡◌, refl, ap, ◌∙◌}
use mathlib.Core.Logic.{inl, inr}
use mathlib.Core.Bool.{Bool, true, false, ◌&&◌}
use mathlib.Core.Option
use mathlib.Core.Option.{Option, none, some}
use native.Mathlib.Omega.{arith}
use coldsnap.Base.Tests.{ltb, leb, eqb, if◌then◌else◌, Bool-cases}
use coldsnap.Base.Ints.{ℤ, pos, negsuc, sub_ℕ}
use coldsnap.Base.Text.{strip, is_space, any_space, strip_of_no_space}

unfoldable pub digit : ℕ → Char
digit zero = "0"
digit (suc zero) = "1"
digit (suc (suc zero)) = "2"
digit (suc (suc (suc zero))) = "3"
digit (suc (suc (suc (suc zero)))) = "4"
digit (suc (suc (suc (suc (suc zero))))) = "5"
digit (suc (suc (suc (suc (suc (suc zero)))))) = "6"
digit (suc (suc (suc (suc (suc (suc (suc zero))))))) = "7"
digit (suc (suc (suc (suc (suc (suc (suc (suc zero)))))))) = "8"
digit _ = "9"

-- The digits of `n` in front of `rest`; a number needs no more rounds than itself.
unfoldable pub show_digits : ℕ → ℕ → String → String
unfolding digit
show_digits zero n rest = String.◌∷◌ (digit (n % 10)) rest
show_digits (suc rounds) n rest =
    let more = show_digits rounds (n / 10) (String.◌∷◌ (digit (n % 10)) rest) in
    if ltb n 10 then String.◌∷◌ (digit n) rest else more

unfoldable pub show_ℕ : ℕ → String
unfolding show_digits
show_ℕ n = show_digits n n String.[]

-- `str(n)`
unfoldable pub show_ℤ : ℤ → String
unfolding show_ℕ
show_ℤ (pos n) = show_ℕ n
show_ℤ (negsuc n) = String.◌∷◌ "-" (show_ℕ (suc n))

abbrev pub is_digit : ℕ → Bool
is_digit c = leb 48 c && leb c 57

-- Digits, with single underscores between them; `after` says that a digit has just been read.
unfoldable pub read_digits : ℕ → Bool → String → Option ℕ
read_digits v after String.[] = if after then some v else none
read_digits v after (String.◌∷◌ c s) =
    let next = read_digits (v * 10 + (code c - 48)) true s in
    let skip = read_digits v false s in
    if is_digit (code c) then next else if eqb (code c) 95 && after then skip else none

unfoldable pub read_signed : String → Option ℤ
unfolding read_digits
read_signed String.[] = none
read_signed (String.◌∷◌ c s) =
    if eqb (code c) 45
    then Option.map (λ n. sub_ℕ 0 n) (read_digits 0 false s)
    else if eqb (code c) 43
    then Option.map pos (read_digits 0 false s)
    else Option.map pos (read_digits 0 false (String.◌∷◌ c s))

-- `int(text)`; none for a `ValueError`
unfoldable pub read_int : String → Option ℤ
unfolding read_signed strip
read_int s = read_signed (strip s)

pub code-digit : (n : ℕ) → n < 10 → code (digit n) ≡ 48 + n
unfolding digit
code-digit zero h = refl
code-digit (suc zero) h = refl
code-digit (suc (suc zero)) h = refl
code-digit (suc (suc (suc zero))) h = refl
code-digit (suc (suc (suc (suc zero)))) h = refl
code-digit (suc (suc (suc (suc (suc zero))))) h = refl
code-digit (suc (suc (suc (suc (suc (suc zero)))))) h = refl
code-digit (suc (suc (suc (suc (suc (suc (suc zero))))))) h = refl
code-digit (suc (suc (suc (suc (suc (suc (suc (suc zero)))))))) h = refl
code-digit (suc (suc (suc (suc (suc (suc (suc (suc (suc zero))))))))) h = refl
code-digit (suc (suc (suc (suc (suc (suc (suc (suc (suc (suc n)))))))))) h = absurd (omega arith)

read_digits-digit :
    (n v : ℕ) (after : Bool) (rest : String)
    → n < 10
    → read_digits v after (String.◌∷◌ (digit n) rest) ≡ read_digits (v * 10 + n) true rest
unfolding read_digits
read_digits-digit n v after rest h = ground (arith, code-digit n h)

read_digits-show_digits :
    (rounds n : ℕ) (after : Bool) (rest : String)
    → n ≤ rounds
    → read_digits 0 after (show_digits rounds n rest) ≡ read_digits n true rest
unfolding show_digits
read_digits-show_digits zero n after rest h =
    read_digits-digit (n % 10) 0 after rest (omega arith)
    ∙ ap (λ m. read_digits m true rest) (omega arith)
read_digits-show_digits (suc rounds) n after rest h = elim (Bool-cases (ltb n 10)) [
  | inl small ↦ rw small (
      read_digits-digit n 0 after rest (ground arith)
      ∙ ap (λ m. read_digits m true rest) (omega arith))
  | inr large ↦ rw large (
      read_digits-show_digits rounds (n / 10) after (String.◌∷◌ (digit (n % 10)) rest)
        (ground arith)
      ∙ read_digits-digit (n % 10) (n / 10) true rest (omega arith)
      ∙ ap (λ m. read_digits m true rest) (omega arith))
]

any_space-digit :
    (n : ℕ) (rest : String) → n < 10 → any_space (String.◌∷◌ (digit n) rest) ≡ any_space rest
unfolding any_space is_space
any_space-digit n rest h = ground (arith, code-digit n h)

any_space-show_digits :
    (rounds n : ℕ) (rest : String) → any_space (show_digits rounds n rest) ≡ any_space rest
unfolding show_digits
any_space-show_digits zero n rest = any_space-digit (n % 10) rest (omega arith)
any_space-show_digits (suc rounds) n rest = elim (Bool-cases (ltb n 10)) [
  | inl small ↦ rw small (any_space-digit n rest (ground arith))
  | inr large ↦ rw large (
      any_space-show_digits rounds (n / 10) (String.◌∷◌ (digit (n % 10)) rest)
      ∙ any_space-digit (n % 10) rest (omega arith))
]

-- The text of a number starts with a digit.
record Leads (s : String) : Type 0 where
  first : ℕ
  tail : String
  small : first < 10
  starts : s ≡ String.◌∷◌ (digit first) tail

show_digits-Leads : (rounds n : ℕ) (rest : String) → Leads (show_digits rounds n rest)
unfolding show_digits
show_digits-Leads zero n rest = record {
  first = n % 10;
  tail = rest;
  small = omega arith;
  starts = refl;
}
show_digits-Leads (suc rounds) n rest = elim (Bool-cases (ltb n 10)) [
  | inl small ↦ record { first = n; tail = rest; small = ground arith; starts = rw small }
  | inr large ↦
      let more = show_digits-Leads rounds (n / 10) (String.◌∷◌ (digit (n % 10)) rest) in
      record {
        first = more.first;
        tail = more.tail;
        small = more.small;
        starts = rw large more.starts;
      }
]

read_signed-digit :
    (d : ℕ) (tail : String)
    → d < 10
    → read_signed (String.◌∷◌ (digit d) tail)
      ≡ Option.map pos (read_digits 0 false (String.◌∷◌ (digit d) tail))
unfolding read_signed
read_signed-digit d tail h = ground (arith, code-digit d h)

read_signed-Leads : (s : String) → Leads s → read_signed s ≡ Option.map pos (read_digits 0 false s)
read_signed-Leads s h = rw h.starts (read_signed-digit h.first h.tail h.small)

read_digits-show_ℕ : (n : ℕ) → read_digits 0 false (show_ℕ n) ≡ some n
unfolding show_ℕ
read_digits-show_ℕ n = read_digits-show_digits n n false String.[] (omega arith) ∙ read_digits_end n
  where
    read_digits_end : (n : ℕ) → read_digits n true String.[] ≡ some n
    read_digits_end n = unfold read_digits in refl

any_space-show_ℕ : (n : ℕ) → any_space (show_ℕ n) ≡ false
unfolding show_ℕ
any_space-show_ℕ n = any_space-show_digits n n String.[] ∙ (unfold any_space in refl)

any_space-show_ℤ : (n : ℤ) → any_space (show_ℤ n) ≡ false
unfolding show_ℤ any_space
any_space-show_ℤ (pos n) = any_space-show_ℕ n
any_space-show_ℤ (negsuc n) = ground (arith, any_space-show_ℕ (suc n))

read_signed-show_ℤ : (n : ℤ) → read_signed (show_ℤ n) ≡ some n
unfolding show_ℤ
read_signed-show_ℤ (pos n) =
    read_signed-Leads (show_ℕ n) (unfold show_ℕ in show_digits-Leads n n String.[])
    ∙ ap (Option.map pos) (read_digits-show_ℕ n)
read_signed-show_ℤ (negsuc n) =
    unfold read_signed in
    (ap (Option.map (λ m. sub_ℕ 0 m)) (read_digits-show_ℕ (suc n)) ∙ ground arith)

-- The decimal text of an integer is read back as that integer.
pub read_int-show_ℤ : (n : ℤ) → read_int (show_ℤ n) ≡ some n
unfolding read_int
read_int-show_ℤ n = rw (strip_of_no_space (show_ℤ n) (any_space-show_ℤ n)) (read_signed-show_ℤ n)
