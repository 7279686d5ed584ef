-- ===== src/Hydration/Digests.antt =====
-- Digests as hexadecimal text: Python's `bytes.fromhex`, `bytes.hex`, `int(text, 16)` and `f"{n:08x}"`,
-- with the exceptions of hydration.py.
use Prim.Native.Char.{Char, code}
use coldsnap.Base.{
  ℕ, zero, suc, ◌+◌, ◌-◌, ◌*◌, ◌/◌, ◌%◌, String, Bool, true, ◌&&◌, ◌||◌, not, Option, none, some,
  List, [], ◌∷◌, if◌then◌else◌, leb, eqb, strip,
}

-- The texts of several messages of one place are one reason.
pub data HydrationFailure : Type 0 where
  invalid_extent invalid_crc32 invalid_sha256 sha256_without_crc32 : HydrationFailure
  invalid_capture_extent invalid_checksum : HydrationFailure
  unknown_backend backend_unavailable no_backend : HydrationFailure
  no_extents invalid_chunk invalid_depth : HydrationFailure
  gds_unverified incompatible_abi no_capture_abi : HydrationFailure
  overlapping_extents unaligned_offset : HydrationFailure
  crc32_value sha256_size checksum_key : HydrationFailure
  native_error : Option String → HydrationFailure

-- `text.lower() == text` for ASCII
unfoldable pub is_lower : String → Bool
is_lower String.[] = true
is_lower (String.◌∷◌ c s) = not (leb 65 (code c) && leb (code c) 90) && is_lower s

abbrev pub hex_value : ℕ → Option ℕ
hex_value c =
    if leb 48 c && leb c 57
    then some (c - 48)
    else if leb 97 c && leb c 102
    then some (c - 87)
    else if leb 65 c && leb c 70
    then some (c - 55)
    else none

abbrev pub ascii_space : ℕ → Bool
ascii_space c = (leb 9 c && leb c 13) || eqb c 32

abbrev pub pair_value : Option ℕ → Option ℕ → Option (List ℕ) → Option (List ℕ)
pair_value (some a) (some b) (some rest) = some ((a * 16 + b) ∷ rest)
pair_value _ _ _ = none

-- `bytes.fromhex(text)`: pairs of digits, with space between the pairs; none for its `ValueError`.
unfoldable pub from_hex : String → Option (List ℕ)
from_hex String.[] = some []
from_hex (String.◌∷◌ c String.[]) = if ascii_space (code c) then some [] else none
from_hex (String.◌∷◌ c (String.◌∷◌ d s)) =
    let skip = from_hex (String.◌∷◌ d s) in
    let rest = from_hex s in
    if ascii_space (code c) then skip else pair_value (hex_value (code c)) (hex_value (code d)) rest

unfoldable pub hex_digit : ℕ → Char
hex_digit zero = "0"
hex_digit (suc zero) = "1"
hex_digit (suc (suc zero)) = "2"
hex_digit (suc (suc (suc zero))) = "3"
hex_digit (suc (suc (suc (suc zero)))) = "4"
hex_digit (suc (suc (suc (suc (suc zero))))) = "5"
hex_digit (suc (suc (suc (suc (suc (suc zero)))))) = "6"
hex_digit (suc (suc (suc (suc (suc (suc (suc zero))))))) = "7"
hex_digit (suc (suc (suc (suc (suc (suc (suc (suc zero)))))))) = "8"
hex_digit (suc (suc (suc (suc (suc (suc (suc (suc (suc zero))))))))) = "9"
hex_digit (suc (suc (suc (suc (suc (suc (suc (suc (suc (suc zero)))))))))) = "a"
hex_digit (suc (suc (suc (suc (suc (suc (suc (suc (suc (suc (suc zero))))))))))) = "b"
hex_digit (suc (suc (suc (suc (suc (suc (suc (suc (suc (suc (suc (suc zero)))))))))))) = "c"
hex_digit (suc (suc (suc (suc (suc (suc (suc (suc (suc (suc (suc (suc (suc zero))))))))))))) = "d"
hex_digit (suc (suc (suc (suc (suc (suc (suc (suc (suc (suc (suc (suc (suc (suc zero)))))))))))))) =
    "e"
hex_digit _ = "f"

-- `bytes(values).hex()`
unfoldable pub to_hex : List ℕ → String
unfolding hex_digit
to_hex [] = String.[]
to_hex (b ∷ bs) = String.◌∷◌ (hex_digit (b / 16)) (String.◌∷◌ (hex_digit (b % 16)) (to_hex bs))

-- The last `count` digits of `n`, in front of `rest`; `f"{n:08x}"` of a 32-bit number has eight.
unfoldable pub hex_digits : ℕ → ℕ → String → String
unfolding hex_digit
hex_digits zero n rest = rest
hex_digits (suc count) n rest = hex_digits count (n / 16) (String.◌∷◌ (hex_digit (n % 16)) rest)

unfoldable pub hex8 : ℕ → String
unfolding hex_digits
hex8 n = hex_digits 8 n String.[]

-- `int(text, 16)` of a nonempty text of the characters that `bytes.fromhex` takes
unfoldable pub read_hex : ℕ → String → Option ℕ
read_hex v String.[] = some v
read_hex v (String.◌∷◌ c s) = elim (hex_value (code c)) [
  | none ↦ none
  | some d ↦ read_hex (v * 16 + d) s
]

unfoldable pub int_16 : String → Option ℕ
unfolding read_hex strip
int_16 s = read_hex 0 (strip s)
