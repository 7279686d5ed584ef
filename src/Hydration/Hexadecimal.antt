-- ===== src/Hydration/Hexadecimal.antt =====
-- Hexadecimal texts are read back.
use coldsnap.Base.{
  ℕ, suc, ◌+◌, ◌*◌, ◌/◌, ◌%◌, ◌^◌, ◌<◌, String, true, false, some, List, [], ◌∷◌, ◌≡◌, refl, ap,
  ◌∙◌, arith, All, length, text_length, strip, strip_of_no_space, any_space,
}
use coldsnap.Hydration.Digests.{
  hex_digit, from_hex, to_hex, is_lower, hex_digits, hex8, read_hex, int_16,
}
use coldsnap.Hydration.Digits.{
  is_lower-hex_digit, any_space-hex_digit, from_hex-hex_digit, read_hex-hex_digit,
}

-- Bytes, written and read.
pub from_hex-to_hex : (bs : List ℕ) → All (λ b. b < 256) bs → from_hex (to_hex bs) ≡ some bs
unfolding to_hex
from_hex-to_hex [] h = unfold from_hex in refl
from_hex-to_hex (b ∷ bs) h =
    from_hex-hex_digit (b / 16) (b % 16) (to_hex bs) bs (omega (arith, h.0)) (omega arith)
      (from_hex-to_hex bs h.1)
    ∙ ap (λ x. some (x ∷ bs)) (omega arith)

pub is_lower-to_hex : (bs : List ℕ) → All (λ b. b < 256) bs → is_lower (to_hex bs) ≡ true
unfolding to_hex
is_lower-to_hex [] h = unfold is_lower in refl
is_lower-to_hex (b ∷ bs) h =
    is_lower-hex_digit (b / 16) _ (omega (arith, h.0))
    ∙ is_lower-hex_digit (b % 16) _ (omega arith)
    ∙ is_lower-to_hex bs h.1

pub text_length-to_hex : (bs : List ℕ) → text_length (to_hex bs) ≡ 2 * length bs
unfolding to_hex
text_length-to_hex [] = refl
text_length-to_hex (b ∷ bs) = omega (arith, text_length-to_hex bs)

-- The four bytes of a 32-bit number.
abbrev bytes_of : ℕ → List ℕ
bytes_of n = n / 256 / 256 / 256 % 256 ∷ n / 256 / 256 % 256 ∷ n / 256 % 256 ∷ n % 256 ∷ []

bytes_bound : (n : ℕ) → All (λ b. b < 256) (bytes_of n)
bytes_bound n = (omega arith, (omega arith, (omega arith, (omega arith, tt))))

hex_digits_two :
    (count n : ℕ) (rest : String)
    → hex_digits (suc (suc count)) n rest
      ≡ hex_digits count
          (n / 256)
          (String.◌∷◌ (hex_digit (n % 256 / 16)) (String.◌∷◌ (hex_digit (n % 256 % 16)) rest))
unfolding hex_digits
hex_digits_two count n rest =
    let a : n / 16 / 16 ≡ n / 256 = omega arith in
    let b : n / 16 % 16 ≡ n % 256 / 16 = omega arith in
    let c : n % 16 ≡ n % 256 % 16 = omega arith in
    ap
      (λ x.
        hex_digits count x
          (String.◌∷◌ (hex_digit (n / 16 % 16)) (String.◌∷◌ (hex_digit (n % 16)) rest)))
      a
    ∙ ap
        (λ x.
          hex_digits count (n / 256)
            (String.◌∷◌ (hex_digit x) (String.◌∷◌ (hex_digit (n % 16)) rest)))
        b
    ∙ ap
        (λ x.
          hex_digits count (n / 256)
            (String.◌∷◌ (hex_digit (n % 256 / 16)) (String.◌∷◌ (hex_digit x) rest)))
        c

hex8_bytes : (n : ℕ) → hex8 n ≡ to_hex (bytes_of n)
unfolding hex8 to_hex
hex8_bytes n =
    hex_digits_two 6 n _
    ∙ hex_digits_two 4 (n / 256) _
    ∙ hex_digits_two 2 (n / 256 / 256) _
    ∙ hex_digits_two 0 (n / 256 / 256 / 256) _
    ∙ (unfold hex_digits in refl)

pub text_length-hex8 : (n : ℕ) → text_length (hex8 n) ≡ 8
text_length-hex8 n = ap text_length (hex8_bytes n) ∙ text_length-to_hex (bytes_of n)

pub is_lower-hex8 : (n : ℕ) → is_lower (hex8 n) ≡ true
is_lower-hex8 n = ap is_lower (hex8_bytes n) ∙ is_lower-to_hex (bytes_of n) (bytes_bound n)

pub from_hex-hex8 : (n : ℕ) → from_hex (hex8 n) ≡ some (bytes_of n)
from_hex-hex8 n = ap from_hex (hex8_bytes n) ∙ from_hex-to_hex (bytes_of n) (bytes_bound n)

any_space-to_hex : (bs : List ℕ) → All (λ b. b < 256) bs → any_space (to_hex bs) ≡ false
unfolding to_hex
any_space-to_hex [] h = unfold any_space in refl
any_space-to_hex (b ∷ bs) h =
    any_space-hex_digit (b / 16) _ (omega (arith, h.0))
    ∙ any_space-hex_digit (b % 16) _ (omega arith)
    ∙ any_space-to_hex bs h.1

abbrev value_of : ℕ → List ℕ → ℕ
value_of v [] = v
value_of v (b ∷ bs) = value_of (v * 256 + b) bs

read_hex-to_hex :
    (v : ℕ) (bs : List ℕ) → All (λ b. b < 256) bs → read_hex v (to_hex bs) ≡ some (value_of v bs)
unfolding to_hex
read_hex-to_hex v [] h = unfold read_hex in refl
read_hex-to_hex v (b ∷ bs) h =
    read_hex-hex_digit v (b / 16) _ (omega (arith, h.0))
    ∙ read_hex-hex_digit (v * 16 + b / 16) (b % 16) _ (omega arith)
    ∙ read_hex-to_hex ((v * 16 + b / 16) * 16 + b % 16) bs h.1
    ∙ ap (λ x. some (value_of x bs)) (omega arith)

value_of-bytes_of : (n : ℕ) → n < 2 ^ 32 → value_of 0 (bytes_of n) ≡ n
value_of-bytes_of n h = omega arith

-- A 32-bit number, written with eight digits and read.
pub int_16-hex8 : (n : ℕ) → n < 2 ^ 32 → int_16 (hex8 n) ≡ some n
unfolding int_16
int_16-hex8 n h =
    ap (λ s. read_hex 0 (strip s)) (hex8_bytes n)
    ∙ ap (read_hex 0)
        (strip_of_no_space (to_hex (bytes_of n)) (any_space-to_hex (bytes_of n) (bytes_bound n)))
    ∙ read_hex-to_hex 0 (bytes_of n) (bytes_bound n)
    ∙ ap some (value_of-bytes_of n h)
