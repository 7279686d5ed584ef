-- ===== src/Hydration/Digits.antt =====
-- Hexadecimal digits, one at a time.
use Prim.Native.Char.{code}
use coldsnap.Base.{
  ℕ, zero, suc, ◌+◌, ◌*◌, ◌<◌, String, false, ◌&&◌, ◌||◌, some, List, ◌∷◌, ◌≡◌, refl, arith, leb,
  eqb, any_space, is_space,
}
use coldsnap.Hydration.Digests.{hex_value, hex_digit, from_hex, is_lower, read_hex}

-- What the code of a digit is, for each test that is made of it.
record IsDigit (c n : ℕ) : Type 0 where
  value : hex_value c ≡ some n
  plain : (leb 9 c && leb c 13) || eqb c 32 ≡ false
  lower : (leb 65 c && leb c 90) ≡ false
  solid : is_space c ≡ false

hex_digit-IsDigit : (n : ℕ) → n < 16 → IsDigit (code (hex_digit n)) n
unfolding hex_digit is_space
hex_digit-IsDigit zero h = record { value = refl; plain = refl; lower = refl; solid = refl }
hex_digit-IsDigit (suc zero) h = record { value = refl; plain = refl; lower = refl; solid = refl }
hex_digit-IsDigit (suc (suc zero)) h = record {
  value = refl;
  plain = refl;
  lower = refl;
  solid = refl;
}
hex_digit-IsDigit (suc (suc (suc zero))) h = record {
  value = refl;
  plain = refl;
  lower = refl;
  solid = refl;
}
hex_digit-IsDigit (suc (suc (suc (suc zero)))) h = record {
  value = refl;
  plain = refl;
  lower = refl;
  solid = refl;
}
hex_digit-IsDigit (suc (suc (suc (suc (suc zero))))) h = record {
  value = refl;
  plain = refl;
  lower = refl;
  solid = refl;
}
hex_digit-IsDigit (suc (suc (suc (suc (suc (suc zero)))))) h = record {
  value = refl;
  plain = refl;
  lower = refl;
  solid = refl;
}
hex_digit-IsDigit (suc (suc (suc (suc (suc (suc (suc zero))))))) h = record {
  value = refl;
  plain = refl;
  lower = refl;
  solid = refl;
}
hex_digit-IsDigit (suc (suc (suc (suc (suc (suc (suc (suc zero)))))))) h = record {
  value = refl;
  plain = refl;
  lower = refl;
  solid = refl;
}
hex_digit-IsDigit (suc (suc (suc (suc (suc (suc (suc (suc (suc zero))))))))) h = record {
  value = refl;
  plain = refl;
  lower = refl;
  solid = refl;
}
hex_digit-IsDigit (suc (suc (suc (suc (suc (suc (suc (suc (suc (suc zero)))))))))) h = record {
  value = refl;
  plain = refl;
  lower = refl;
  solid = refl;
}
hex_digit-IsDigit (suc (suc (suc (suc (suc (suc (suc (suc (suc (suc (suc zero))))))))))) h =
    record { value = refl; plain = refl; lower = refl; solid = refl }
hex_digit-IsDigit (suc (suc (suc (suc (suc (suc (suc (suc (suc (suc (suc (suc zero)))))))))))) h =
    record { value = refl; plain = refl; lower = refl; solid = refl }
hex_digit-IsDigit (suc (suc (suc (suc (suc (suc (suc (suc (suc (suc (suc (suc (suc zero)))))))))))))
      h =
    record { value = refl; plain = refl; lower = refl; solid = refl }
hex_digit-IsDigit
      (suc (suc (suc (suc (suc (suc (suc (suc (suc (suc (suc (suc (suc (suc zero)))))))))))))) h =
    record { value = refl; plain = refl; lower = refl; solid = refl }
hex_digit-IsDigit
      (suc (suc (suc (suc (suc (suc (suc (suc (suc (suc (suc (suc (suc (suc (suc zero)))))))))))))))
      h =
    record { value = refl; plain = refl; lower = refl; solid = refl }
hex_digit-IsDigit
      (suc
        (suc (suc (suc (suc (suc (suc (suc (suc (suc (suc (suc (suc (suc (suc (suc n))))))))))))))))
      h =
    absurd (omega arith)

pub is_lower-hex_digit :
    (n : ℕ) (s : String) → n < 16 → is_lower (String.◌∷◌ (hex_digit n) s) ≡ is_lower s
unfolding is_lower
is_lower-hex_digit n s h = rw (hex_digit-IsDigit n h).lower refl

pub any_space-hex_digit :
    (n : ℕ) (s : String) → n < 16 → any_space (String.◌∷◌ (hex_digit n) s) ≡ any_space s
unfolding any_space
any_space-hex_digit n s h = rw (hex_digit-IsDigit n h).solid refl

pub from_hex-hex_digit :
    (a b : ℕ) (s : String) (bs : List ℕ)
    → a < 16
    → b < 16
    → from_hex s ≡ some bs
    → from_hex (String.◌∷◌ (hex_digit a) (String.◌∷◌ (hex_digit b) s)) ≡ some ((a * 16 + b) ∷ bs)
unfolding from_hex
from_hex-hex_digit a b s bs p q h =
    rw
      (
        (hex_digit-IsDigit a p).plain,
        (hex_digit-IsDigit a p).value,
        (hex_digit-IsDigit b q).value,
        h,
      )
      refl

pub read_hex-hex_digit :
    (v n : ℕ) (s : String)
    → n < 16
    → read_hex v (String.◌∷◌ (hex_digit n) s) ≡ read_hex (v * 16 + n) s
unfolding read_hex
read_hex-hex_digit v n s h = rw ((hex_digit-IsDigit n h).value, read_hex) refl
