-- ===== src/Coordinator/Ports.antt =====
-- The texts of a host and a port.
use Prim.Native.Char.{Char, code}
use coldsnap.Base.{
  append, ℕ, zero, suc, ◌+◌, ◌*◌, ◌/◌, ◌%◌, ◌≤◌, ◌<◌, String, true, false, none, some, ◌≡◌, inl,
  inr, refl, arith, ok, Bool-cases, is_empty, starts_with, ltb, eqb, digit, code-digit, show_digits,
  show_ℕ, ap, ◌∙◌,
}
use coldsnap.Coordinator.Addresses.{
  drop, rpartition, all_digits, is_decimal, read_decimal, host_and_port, partition_address,
  split_address,
}

all_digits-digit :
    (n : ℕ) (rest : String) → n < 10 → all_digits (String.◌∷◌ (digit n) rest) ≡ all_digits rest
all_digits-digit n rest h = ground (arith, code-digit n h)

all_digits-show_digits :
    (rounds n : ℕ) (rest : String) → all_digits (show_digits rounds n rest) ≡ all_digits rest
unfolding show_digits
all_digits-show_digits zero n rest = all_digits-digit (n % 10) rest (omega arith)
all_digits-show_digits (suc rounds) n rest = elim (Bool-cases (ltb n 10)) [
  | inl small ↦ rw small (all_digits-digit n rest (ground arith))
  | inr large ↦ rw large (
      all_digits-show_digits rounds (n / 10) (String.◌∷◌ (digit (n % 10)) rest)
      ∙ all_digits-digit (n % 10) rest (omega arith))
]

is_empty-show_digits : (rounds n : ℕ) (rest : String) → is_empty (show_digits rounds n rest) ≡ false
unfolding show_digits
is_empty-show_digits zero n rest = refl
is_empty-show_digits (suc rounds) n rest = elim (Bool-cases (ltb n 10)) [
  | inl small ↦ rw small refl
  | inr large ↦ rw large (is_empty-show_digits rounds (n / 10) (String.◌∷◌ (digit (n % 10)) rest))
]

read_decimal-digit :
    (n v : ℕ) (rest : String)
    → n < 10
    → read_decimal v (String.◌∷◌ (digit n) rest) ≡ read_decimal (v * 10 + n) rest
unfolding read_decimal
read_decimal-digit n v rest h = ap (λ m. read_decimal m rest) (omega (arith, code-digit n h))

read_decimal-show_digits :
    (rounds n : ℕ) (rest : String)
    → n ≤ rounds
    → read_decimal 0 (show_digits rounds n rest) ≡ read_decimal n rest
unfolding show_digits
read_decimal-show_digits zero n rest h =
    read_decimal-digit (n % 10) 0 rest (omega arith) ∙ ap (λ m. read_decimal m rest) (omega arith)
read_decimal-show_digits (suc rounds) n rest h = elim (Bool-cases (ltb n 10)) [
  | inl small ↦
      rw small
        (read_decimal-digit n 0 rest (ground arith) ∙ ap (λ m. read_decimal m rest) (omega arith))
  | inr large ↦ rw large (
      read_decimal-show_digits rounds (n / 10) (String.◌∷◌ (digit (n % 10)) rest) (ground arith)
      ∙ read_decimal-digit (n % 10) (n / 10) rest (omega arith)
      ∙ ap (λ m. read_decimal m rest) (omega arith))
]

is_decimal-show_ℕ : (n : ℕ) → is_decimal (show_ℕ n) ≡ true
unfolding show_ℕ
is_decimal-show_ℕ n =
    rw (is_empty-show_digits n n String.[], all_digits-show_digits n n String.[]) refl

read_decimal-show_ℕ : (n : ℕ) → read_decimal 0 (show_ℕ n) ≡ n
unfolding show_ℕ
read_decimal-show_ℕ n =
    read_decimal-show_digits n n String.[] (omega arith) ∙ (unfold read_decimal in refl)

-- Neither separator stands in the digits of a port.
rpartition-digits :
    (s : String) → all_digits s ≡ true → (rpartition ":" 1 s ≡ none) × (rpartition "]:" 2 s ≡ none)
unfolding rpartition starts_with
rpartition-digits String.[] h = (refl, refl)
rpartition-digits (String.◌∷◌ c s) h =
    let digits : all_digits s ≡ true = ground (arith, h) in
    let (p, q) = rpartition-digits s digits in
    let colon : eqb 58 (code c) ≡ false = ground (arith, h) in
    let bracket : eqb 93 (code c) ≡ false = ground (arith, h) in
    (rw (p, colon) refl, rw (q, bracket) refl)

rpartition-append :
    (separator : String) (width : ℕ) (host rest : String) (b a : String)
    → rpartition separator width rest ≡ some (b, a)
    → rpartition separator width (append host rest) ≡ some (append host b, a)
unfolding rpartition append
rpartition-append separator width String.[] rest b a h = h
rpartition-append separator width (String.◌∷◌ c host) rest b a h =
    rw (rpartition-append separator width host rest b a h) refl

append_nil : (s : String) → append s String.[] ≡ s
unfolding append
append_nil String.[] = refl
append_nil (String.◌∷◌ c s) = ap (String.◌∷◌ c) (append_nil s)

host_and_port-some :
    (value host : String) (port : ℕ)
    → is_empty host ≡ false
    → 0 < port
    → port < 65536
    → host_and_port value (some (host, show_ℕ port)) ≡ ok (host, port)
unfolding host_and_port
host_and_port-some value host port h low high =
    let l : ltb 0 port ≡ true = ground (arith, low) in
    let u : ltb port 65536 ≡ true = ground (arith, high) in
    rw (h, is_decimal-show_ℕ port, read_decimal-show_ℕ port, l, u) refl

all_digits-show_ℕ : (port : ℕ) → all_digits (show_ℕ port) ≡ true
all_digits-show_ℕ port = ground (arith, is_decimal-show_ℕ port)

unbracketed :
    (c : Char) (host : String)
    → starts_with "[" (String.◌∷◌ c host) ≡ false
    → eqb (code c) 91 ≡ false
unfolding starts_with
unbracketed c host k = ground (arith, k)

partition_plain :
    (host : String) (port : ℕ)
    → is_empty host ≡ false
    → starts_with "[" host ≡ false
    → partition_address (append host (String.◌∷◌ ":" (show_ℕ port))) ≡ some (host, show_ℕ port)
unfolding partition_address append
partition_plain String.[] port h k = cc
partition_plain (String.◌∷◌ c host) port h k =
    let digits = (rpartition-digits (show_ℕ port) (all_digits-show_ℕ port)).0 in
    let open_bracket : eqb (code c) 91 ≡ false = unbracketed c host k in
    let at_colon : rpartition ":" 1 (String.◌∷◌ ":" (show_ℕ port)) ≡ some (String.[], show_ℕ port) =
      unfold rpartition starts_with drop in rw digits refl in
    rw open_bracket (
      rpartition-append ":" 1 (String.◌∷◌ c host) (String.◌∷◌ ":" (show_ℕ port)) String.[]
        (show_ℕ port) at_colon
      ∙ ap (λ s. some (s, show_ℕ port)) (append_nil (String.◌∷◌ c host)))

partition_bracketed :
    (host : String) (port : ℕ)
    → partition_address (String.◌∷◌ "[" (append host (append "]:" (show_ℕ port))))
      ≡ some (host, show_ℕ port)
unfolding partition_address append
partition_bracketed host port =
    let digits = (rpartition-digits (show_ℕ port) (all_digits-show_ℕ port)).1 in
    let at_bracket : rpartition "]:" 2 (append "]:" (show_ℕ port)) ≡ some (String.[], show_ℕ port) =
      unfold rpartition starts_with drop in rw digits refl in
    rpartition-append "]:" 2 host (append "]:" (show_ℕ port)) String.[] (show_ℕ port) at_bracket
    ∙ ap (λ s. some (s, show_ℕ port)) (append_nil host)

-- A host and a port from 1 to 65535 are read back from the address that joins them: with a colon between
-- them when the host does not start with a bracket, and with any host when it stands in brackets.
pub split_address-join :
    (host : String) (port : ℕ)
    → is_empty host ≡ false
    → 0 < port
    → port < 65536
    → (starts_with "[" host ≡ false
        → split_address (append host (String.◌∷◌ ":" (show_ℕ port))) ≡ ok (host, port))
      × (split_address (String.◌∷◌ "[" (append host (append "]:" (show_ℕ port)))) ≡ ok (host, port))
unfolding split_address
split_address-join host port h low high = (
  λ k.
      rw (partition_plain host port h k)
        (host_and_port-some (append host (String.◌∷◌ ":" (show_ℕ port))) host port h low high),
  rw (partition_bracketed host port) (
      host_and_port-some (String.◌∷◌ "[" (append host (append "]:" (show_ℕ port)))) host port h low
        high),
)
