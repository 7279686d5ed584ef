-- ===== src/Coordinator/Addresses.antt =====
-- coldsnap_coord.py: `Endpoint.parse`, `Endpoint.read` and `_split_address`.
use Prim.Native.Char.{Char, code}
use coldsnap.Base.{
  ℕ, zero, suc, ◌+◌, ◌-◌, ◌*◌, String, Bool, true, ◌&&◌, ◌||◌, not, Option, none, some, List, [],
  ◌∷◌, Result, ok, raised, ◌>>=◌, ◌>>◌, raise_if, if◌then◌else◌, ltb, eqb, is_space, any_space,
  is_empty, starts_with, is_digit, ◌==◌, string_eq, any,
}
use coldsnap.Coordinator.Wire.{
  Endpoint, CoordinatorError, invalid_endpoint, endpoint_too_large, endpoint_with_space,
  invalid_address, invalid_port,
}

-- A character before the words of the rest: it starts one, or stands in front of the first.
abbrev pub in_front : Char → List String → List String
in_front c [] = String.◌∷◌ c String.[] ∷ []
in_front c (word ∷ words) = String.◌∷◌ c word ∷ words

abbrev pub starts_space : String → Bool
starts_space String.[] = true
starts_space (String.◌∷◌ c s) = is_space (code c)

-- `value.split()`: the longest runs without white space
unfoldable pub split_words : String → List String
unfolding is_space
split_words String.[] = []
split_words (String.◌∷◌ c s) =
    let rest = split_words s in
    if is_space (code c)
    then rest
    else if starts_space s
    then String.◌∷◌ c String.[] ∷ rest
    else in_front c rest

unfoldable pub endpoint_of : List String → Result CoordinatorError Endpoint
unfolding any_space
endpoint_of (form ∷ address ∷ scope ∷ token ∷ []) = do
  raise_if (not (form == "coldsnap-coord-v1")) invalid_endpoint
  raise_if (any (λ field. is_empty field || any_space field) (address ∷ scope ∷ token ∷ []))
      endpoint_with_space
  ok (record { address = address; scope = scope; token = token })
endpoint_of _ = raised invalid_endpoint

unfoldable pub parse : String → Result CoordinatorError Endpoint
unfolding split_words endpoint_of
parse value = endpoint_of (split_words value)

-- What the code asks of a file, by its path
pub record Files : Type 0 where
  pub size : String → Result CoordinatorError ℕ
  pub read_text : String → Result CoordinatorError String

-- `Endpoint.read`
unfoldable pub read : Files → String → Result CoordinatorError Endpoint
unfolding parse
read files path = do
  size ← files.size path
  raise_if (ltb 16384 size) (endpoint_too_large path)
  content ← files.read_text path
  parse content

abbrev pub extend : Char → Option (String × String) → Option (String × String)
extend c (some (before, after)) = some (String.◌∷◌ c before, after)
extend c _ = none

unfoldable pub drop : ℕ → String → String
drop zero s = s
drop (suc n) String.[] = String.[]
drop (suc n) (String.◌∷◌ c s) = drop n s

abbrev pub or_else : Option (String × String) → Option (String × String) → Option (String × String)
or_else (some p) q = some p
or_else _ q = q

-- `value.rpartition(separator)` for a separator of `width` characters; none when it does not occur
unfoldable pub rpartition : String → ℕ → String → Option (String × String)
unfolding starts_with drop
rpartition separator width String.[] = none
rpartition separator width (String.◌∷◌ c s) = or_else (extend c (rpartition separator width s)) (
    if starts_with separator (String.◌∷◌ c s)
    then some (String.[], drop width (String.◌∷◌ c s))
    else none)

abbrev pub all_digits : String → Bool
all_digits String.[] = true
all_digits (String.◌∷◌ c s) = is_digit (code c) && all_digits s

-- `text.isdecimal()` and `int(text)`, for ASCII digits
abbrev pub is_decimal : String → Bool
is_decimal s = not (is_empty s) && all_digits s

unfoldable pub read_decimal : ℕ → String → ℕ
read_decimal v String.[] = v
read_decimal v (String.◌∷◌ c s) = read_decimal (v * 10 + (code c - 48)) s

unfoldable pub host_and_port :
    String → Option (String × String) → Result CoordinatorError (String × ℕ)
unfolding read_decimal
host_and_port value (some (host, port)) = do
  raise_if (is_empty host || not (is_decimal port)) (invalid_address value)
  raise_if (not (ltb 0 (read_decimal 0 port) && ltb (read_decimal 0 port) 65536))
      (invalid_port (read_decimal 0 port))
  ok (host, read_decimal 0 port)
host_and_port value _ = raised (invalid_address value)

unfoldable pub partition_address : String → Option (String × String)
unfolding rpartition
partition_address String.[] = none
partition_address (String.◌∷◌ c s) =
    if eqb (code c) 91 then rpartition "]:" 2 s else rpartition ":" 1 (String.◌∷◌ c s)

unfoldable pub split_address : String → Result CoordinatorError (String × ℕ)
unfolding partition_address host_and_port
split_address value = host_and_port value (partition_address value)
