-- ===== src/Validation/Opening.antt =====
-- What `_normalize_sha256`, `_open_regular_file` and the reading of a record have found when they return.
use Prim.Native.Char.{code}
use coldsnap.Base.{
  ℕ, ◌≤◌, ◌/◌, ◌%◌, String, Bool, true, false, ◌&&◌, ◌||◌, not, Option, none, some, List, ◌≡◌, ◌⊎◌,
  inl, inr, refl, arith, Result, ok, raised, raise_if-eq-ok, ok_injective, Bool-cases, and-true,
  cons_eq, eqb, eqb_iff, leb, append, text_length, Json, sym, ap, ◌∙◌,
}
use coldsnap.Hydration.Digests.{hex_value, ascii_space, pair_value, from_hex, is_lower}
use coldsnap.Hydration.Extents.{fails, refuses_hex}
use coldsnap.Validation.Stats.{
  ValidationError, invalid_expected_digest, unusable_path, Stat, System, is_regular, is_private,
  regular_or_close, opened, open_regular_file, without_prefix, or_text, removeprefix,
  normalize_sha256,
}
use coldsnap.Validation.Payloads.{after_stat, after_text, read_marker}

-- A lower-case hexadecimal digit, or white space of ASCII, which `bytes.fromhex` leaves out
abbrev pub IsDigitCode : ℕ → Type 0
IsDigitCode c = (48 ≤ c × c ≤ 57) ⊎ (97 ≤ c × c ≤ 102) ⊎ (9 ≤ c × c ≤ 13) ⊎ (c ≡ 32)

abbrev pub AreDigits : String → Type 0
AreDigits String.[] = Unit
AreDigits (String.◌∷◌ c s) = IsDigitCode (code c) × AreDigits s

space_code : (c : ℕ) → ascii_space c ≡ true → IsDigitCode c
space_code c h = grind (arith, h)

digit_code :
    (c : ℕ) → not (leb 65 c && leb c 90) ≡ true → fails (hex_value c) ≡ false → IsDigitCode c
digit_code c lower h = grind (arith, lower, h)

both_values :
    (a b : Option ℕ) (rest : Option (List ℕ))
    → fails (pair_value a b rest) ≡ false
    → (fails a ≡ false) × (fails b ≡ false) × (fails rest ≡ false)
both_values (some a) (some b) (some rest) h = (refl, refl, refl)
both_values (some a) (some b) none h = cc
both_values (some a) none rest h = cc
both_values none b rest h = cc

from_hex-AreDigits : (s : String) → is_lower s ≡ true → fails (from_hex s) ≡ false → AreDigits s
unfolding is_lower from_hex
from_hex-AreDigits String.[] lower h = tt
from_hex-AreDigits (String.◌∷◌ c String.[]) lower h = elim (Bool-cases (ascii_space (code c))) [
  | inl space ↦ (space_code (code c) space, tt)
  | inr other ↦ let e : true ≡ false = (rw other at h) in cc
]
from_hex-AreDigits (String.◌∷◌ c (String.◌∷◌ d s)) lower h =
    let (first, rest) = and-true (not (leb 65 (code c) && leb (code c) 90)) _ lower in
    let (second, later) = and-true (not (leb 65 (code d) && leb (code d) 90)) _ rest in
    elim (Bool-cases (ascii_space (code c))) [
      | inl space ↦
          let e : fails (from_hex (String.◌∷◌ d s)) ≡ false = (rw space at h) in
          (space_code (code c) space, from_hex-AreDigits (String.◌∷◌ d s) rest e)
      | inr other ↦
          let e : fails (pair_value (hex_value (code c)) (hex_value (code d)) (from_hex s))
              ≡ false =
            (rw other at h) in
          let (p, q, r) = both_values _ _ (from_hex s) e in
          (
            digit_code (code c) first p,
            (digit_code (code d) second q, from_hex-AreDigits s later r),
          )
    ]

-- The digest is the prefix and 64 characters, which are the text that is given, or the rest of it after the prefix.
pub record IsDigest (value digest : String) : Type 0 where
  pub text : String
  pub given : (value ≡ append "sha256:" text) ⊎ (value ≡ text)
  pub size : text_length text ≡ 64
  pub digits : AreDigits text
  pub prefixed : digest ≡ append "sha256:" text

without_prefix-eq :
    (prefix text rest : String) → without_prefix prefix text ≡ some rest → text ≡ append prefix rest
unfolding without_prefix append
without_prefix-eq String.[] text rest h = ground (arith, h)
without_prefix-eq (String.◌∷◌ c prefix) String.[] rest h = cc
without_prefix-eq (String.◌∷◌ c prefix) (String.◌∷◌ d text) rest h =
    elim (Bool-cases (eqb (code c) (code d))) [
      | inl same ↦
          let e : without_prefix prefix text ≡ some rest = (rw same at h) in
          cons_eq d c text (append prefix rest) (sym ((eqb_iff (code c) (code d)).0 same))
            (without_prefix-eq prefix text rest e)
      | inr other ↦ let e : none ≡ some rest = (rw other at h) in cc
    ]

prefix_or_none :
    (prefix value : String)
    → (value ≡ append prefix (removeprefix prefix value)) ⊎ (value ≡ removeprefix prefix value)
unfolding removeprefix
prefix_or_none prefix value = found (without_prefix prefix value) refl
  where
    found :
        (o : Option String)
        → without_prefix prefix value ≡ o
        → (value ≡ append prefix (or_text value o)) ⊎ (value ≡ or_text value o)
    found (some rest) e = inl (without_prefix-eq prefix value rest e)
    found none e = inr refl

hex_facts :
    (size : ℕ) (text : String)
    → refuses_hex size text ≡ false
    → (text_length text ≡ size) × AreDigits text
unfolding refuses_hex
hex_facts size text h =
    let (a, b, c) = facts (eqb (text_length text) size) (is_lower text) (fails (from_hex text)) h in
    ((eqb_iff (text_length text) size).0 a, from_hex-AreDigits text b c)
  where
    facts : (a b c : Bool) → (not a || not b || c) ≡ false → (a ≡ true) × (b ≡ true) × (c ≡ false)
    facts true true c h = (refl, refl, h)
    facts true false c h = cc
    facts false b c h = cc

pub normalize_sha256-IsDigest :
    (value digest : String) → normalize_sha256 value ≡ ok digest → IsDigest value digest
unfolding normalize_sha256
normalize_sha256-IsDigest value digest h =
    let bare = removeprefix "sha256:" value in
    let (fine, made) =
      raise_if-eq-ok (refuses_hex 64 bare) invalid_expected_digest (ok (append "sha256:" bare)) h in
    let (size, digits) = hex_facts 64 bare fine in
    record {
      text = bare;
      given = prefix_or_none "sha256:" value;
      size = size;
      digits = digits;
      prefixed = sym (ok_injective made);
    }

module _ {W D : Type 0} (sys : System W D) where
  -- The file was opened, and was seen to be regular by its descriptor: the type of its mode is that of regular files.
  pub record IsOpened (path : String) (w : W) (d : D) (v : W) : Type 0 where
    pub returned : (sys.open_file path w).0 ≡ ok d
    pub information : Stat
    pub stat : (sys.fstat d (sys.open_file path w).1).0 ≡ ok information
    pub left : v ≡ (sys.fstat d (sys.open_file path w).1).1
    pub regular : information.st_mode / 4096 % 16 ≡ 8

  -- The value was read from a file that was seen to be regular, and private: its mode gives the group and the
  -- others nothing.
  pub record IsRead (path : String) (w : W) (value : Json) : Type 0 where
    pub information : Stat
    pub stat : (sys.lstat path w).0 ≡ ok information
    pub regular : information.st_mode / 4096 % 16 ≡ 8
    pub confined : information.st_mode % 64 ≡ 0
    pub text : String
    pub content : (sys.read_text path (sys.lstat path w).1).0 ≡ ok text
    pub parsed : sys.loads text ≡ some value

  regular_or_close-IsOpened :
      (path : String) (d e : D) (o : Result ValidationError Stat × W)
      → (regular_or_close sys path d o).0 ≡ ok e
      → (st : Stat) × (d ≡ e)
        × (o.0 ≡ ok st)
        × (st.st_mode / 4096 % 16 ≡ 8)
        × ((regular_or_close sys path d o).1 ≡ o.1)
  regular_or_close-IsOpened path d e (ok st, w) h = elim (Bool-cases (is_regular st)) [
    | inl regular ↦
        let same : ok d ≡ ok e = (rw regular at h) in
        (st, ok_injective same, refl, (eqb_iff _ 8).0 regular, rw regular refl)
    | inr other ↦ let e : raised (unusable_path path) ≡ ok e = (rw other at h) in cc
  ]
  regular_or_close-IsOpened path d e (raised x, w) h = cc

  opened-IsOpened :
      (path : String) (o : Result ValidationError D × W) (e : D)
      → (opened sys path o).0 ≡ ok e
      → (st : Stat) × (o.0 ≡ ok e)
        × ((sys.fstat e o.1).0 ≡ ok st)
        × (st.st_mode / 4096 % 16 ≡ 8)
        × ((opened sys path o).1 ≡ (sys.fstat e o.1).1)
  opened-IsOpened path (ok d, w) e h =
      let (st, same, seen, regular, left) = regular_or_close-IsOpened path d e (sys.fstat d w) h in
      (
        st,
        ap ok same,
        ap (λ x. (sys.fstat x w).0) (sym same) ∙ seen,
        regular,
        left ∙ ap (λ x. (sys.fstat x w).1) same,
      )
  opened-IsOpened path (raised x, w) e h = cc

  pub open_regular_file-IsOpened :
      (path : String) (w : W) (d : D)
      → (open_regular_file sys path w).0 ≡ ok d
      → IsOpened path w d (open_regular_file sys path w).1
  unfolding open_regular_file
  open_regular_file-IsOpened path w d h =
      let (st, p, q, r, s) = opened-IsOpened path (sys.open_file path w) d h in
      record { returned = p; information = st; stat = q; left = s; regular = r }

  after_text-eq :
      (mode_ok : Bool) (o : Result ValidationError String × W) (value : Json)
      → (after_text sys mode_ok o).0.1 ≡ some value
      → (text : String) × (o.0 ≡ ok text)
        × (sys.loads text ≡ some value)
        × ((after_text sys mode_ok o).0.0 ≡ mode_ok)
  after_text-eq mode_ok (ok text, w) value h = (text, refl, h, refl)
  after_text-eq mode_ok (raised e, w) value h = cc

  after_stat-IsRead :
      (path : String) (w : W) (value : Json) (o : Result ValidationError Stat × W)
      → sys.lstat path w ≡ o
      → (after_stat sys path o).0.0 ≡ true
      → (after_stat sys path o).0.1 ≡ some value
      → IsRead path w value
  after_stat-IsRead path w value (ok st, u) is mode h =
      let (text, p, q, r) =
        after_text-eq (is_regular st && is_private st) (sys.read_text path u) value h in
      let (regular, confined) = and-true (is_regular st) (is_private st) (sym r ∙ mode) in
      record {
        information = st;
        stat = ap (λ x. x.0) is;
        regular = (eqb_iff _ 8).0 regular;
        confined = (eqb_iff _ 0).0 confined;
        text = text;
        content = ap (λ x. (sys.read_text path x.1).0) is ∙ p;
        parsed = q;
      }
  after_stat-IsRead path w value (raised e, u) is mode h = cc

  pub read_marker-IsRead :
      (path : String) (w : W) (value : Json)
      → (read_marker sys path w).0.0 ≡ true
      → (read_marker sys path w).0.1 ≡ some value
      → IsRead path w value
  unfolding read_marker
  read_marker-IsRead path w value mode h =
      after_stat-IsRead path w value (sys.lstat path w) refl mode h
