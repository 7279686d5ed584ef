-- ===== src/Coordinator/Wire.antt =====
-- coldsnap_coord.py: `Endpoint`, `_encode_request` and the reply's header. A byte is a number, and a packed
-- number is written with the most significant byte first. Timeouts are a parameter.
use Prim.Native.Char.{code}
use coldsnap.Base.{
  ℕ, ◌+◌, ◌*◌, ◌/◌, ◌%◌, String, Bool, ◌&&◌, ◌||◌, Option, some, List, [], ◌∷◌, ◌++◌, length,
  append, is_empty, Result, ok, raised, ◌>>=◌, ◌>>◌, raise_if, if◌then◌else◌, ltb, leb,
}

abbrev pub Bytes : Type 0
Bytes = List ℕ

pub record Endpoint : Type 0 where
  pub address : String
  pub scope : String
  pub token : String

-- Seconds as floating-point numbers: the test of the range, the rounded milliseconds (none for what is no
-- number), truth, and addition.
pub record Clock (T : Type 0) : Type 0 where
  pub out_of_range : T → Bool
  pub milliseconds : T → Option ℕ
  pub is_true : T → Bool
  pub add : T → T → T

pub data CoordinatorError : Type 0 where
  invalid_endpoint endpoint_with_space timeout_out_of_range request_too_large not_a_number :
      CoordinatorError
  struct_error unsupported_response response_too_large incomplete_response negative_size :
      CoordinatorError
  endpoint_too_large invalid_address : String → CoordinatorError
  invalid_port : ℕ → CoordinatorError
  os_error : String → CoordinatorError
  not_found timed_out : String → CoordinatorError
  unauthorized : CoordinatorError
  rejected : String → ℕ → Bytes → CoordinatorError
  undecodable : Bytes → CoordinatorError
  not_an_integer : String → CoordinatorError
  loop_unfinished : CoordinatorError

-- `text.encode()`
abbrev pub utf8_bytes : ℕ → Bytes
utf8_bytes n =
    if ltb n 128
    then n ∷ []
    else if ltb n 2048
    then (192 + n / 64) ∷ (128 + n % 64) ∷ []
    else if ltb n 65536
    then (224 + n / 4096) ∷ (128 + n / 64 % 64) ∷ (128 + n % 64) ∷ []
    else (240 + n / 262144) ∷ (128 + n / 4096 % 64) ∷ (128 + n / 64 % 64) ∷ (128 + n % 64) ∷ []

unfoldable pub encode : String → Bytes
encode String.[] = []
encode (String.◌∷◌ c s) = utf8_bytes (code c) ++ encode s

-- The formats `B`, `H` and `I` of `struct`
unfoldable pub pack16 : ℕ → Bytes
pack16 n = n / 256 % 256 ∷ n % 256 ∷ []

unfoldable pub pack32 : ℕ → Bytes
pack32 n = n / 16777216 % 256 ∷ n / 65536 % 256 ∷ n / 256 % 256 ∷ n % 256 ∷ []

abbrev pub fits32 : ℕ → Bool
fits32 n = leb n 4294967295

abbrev pub magic : Bytes
magic = 67 ∷ 83 ∷ 75 ∷ 86 ∷ []

abbrev pub version : ℕ
version = 1

abbrev pub max_value : ℕ
max_value = 16777216

-- `_REQUEST.pack`, which refuses a number that its format cannot hold
unfoldable pub pack_request : ℕ → ℕ → ℕ → ℕ → ℕ → ℕ → Result CoordinatorError Bytes
unfolding pack16 pack32
pack_request operation timeout token key value total =
    if leb operation 255
      && fits32 timeout
      && fits32 token
      && fits32 key
      && fits32 value
      && fits32 total
    then ok (
        magic
        ++ version ∷ operation ∷ pack16 0
        ++ pack32 timeout
        ++ pack32 token
        ++ pack32 key
        ++ pack32 value
        ++ pack32 total)
    else raised struct_error

-- `f"{endpoint.scope}/{key}".encode() if key else b""`
unfoldable pub scoped_key : Endpoint → String → Bytes
unfolding append encode
scoped_key endpoint key =
    if is_empty key then [] else encode (append endpoint.scope (String.◌∷◌ "/" key))

abbrev pub rounded : Option ℕ → Result CoordinatorError ℕ
rounded (some n) = ok n
rounded _ = raised not_a_number

unfoldable pub exceeds_limit : Bytes → Bytes → Bytes → Bool
exceeds_limit token key value =
    ltb 65536 (length key)
    || ltb max_value (length value)
    || ltb 4294967295 (length token + length key + length value)

unfoldable pub encode_request :
    {T : Type 0} → Clock T → Endpoint → ℕ → String → Bytes → T → Result CoordinatorError Bytes
unfolding scoped_key encode exceeds_limit pack_request
encode_request clock endpoint operation key value timeout =
    let token = encode endpoint.token in
    let scoped = scoped_key endpoint key in
    do
      raise_if (clock.out_of_range timeout) timeout_out_of_range
      raise_if (exceeds_limit token scoped value) request_too_large
      milliseconds ← rounded (clock.milliseconds timeout)
      header ←
          pack_request operation milliseconds (length token) (length scoped) (length value)
            (length token + length scoped + length value)
      ok (header ++ token ++ scoped ++ value)

-- The header of a reply
pub record Reply : Type 0 where
  pub sign : Bytes
  pub edition : ℕ
  pub status : ℕ
  pub flags : ℕ
  pub value_length : ℕ

abbrev pub number32 : ℕ → ℕ → ℕ → ℕ → ℕ
number32 a b c d = ((a * 256 + b) * 256 + c) * 256 + d

-- `_RESPONSE.unpack`, which refuses anything but twelve bytes
unfoldable pub unpack_response : Bytes → Result CoordinatorError Reply
unpack_response (m ∷ a ∷ g ∷ i ∷ v ∷ s ∷ f ∷ f' ∷ l ∷ l' ∷ l'' ∷ l''' ∷ []) = ok (record {
  sign = m ∷ a ∷ g ∷ i ∷ [];
  edition = v;
  status = s;
  flags = f * 256 + f';
  value_length = number32 l l' l'' l''';
})
unpack_response _ = raised struct_error
