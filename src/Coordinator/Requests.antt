-- ===== src/Coordinator/Requests.antt =====
-- What the bytes of a request say, read back by the layout that a coordinator reads.
use coldsnap.Base.{
  ℕ, zero, suc, ◌+◌, ◌/◌, ◌%◌, ◌≤◌, ◌<◌, Bool, true, false, ◌&&◌, Option, none, some, [], ◌∷◌, ◌++◌,
  length, ◌≡◌, ◌≢◌, inl, inr, refl, arith, ok, raised, if◌then◌else◌, leb, eqb, sym, ap, ◌∙◌,
  String, ◌==◌, list_eq, nat_eq, raise_if, ◌>>=◌, >>=-eq-ok, raise_if-eq-ok, >>=-eq-raised,
  raise_if-eq-raised, raise_if-ok,
}
use coldsnap.Coordinator.Wire.{
  Bytes, CoordinatorError, Clock, Endpoint, encode, pack16, pack32, number32, magic, version,
  rounded, exceeds_limit, fits32, scoped_key, pack_request, encode_request, timeout_out_of_range,
  request_too_large, struct_error,
}
use coldsnap.Coordinator.Streams.{++_assoc}

pub record Request : Type 0 where
  pub operation : ℕ
  pub milliseconds : ℕ
  pub token : Bytes
  pub key : Bytes
  pub value : Bytes

-- The first bytes, and what follows them
abbrev pub before : Option (Bytes × Bytes) → ℕ → Option (Bytes × Bytes)
before (some (xs, ys)) x = some (x ∷ xs, ys)
before _ x = none

unfoldable pub split_at : ℕ → Bytes → Option (Bytes × Bytes)
split_at zero xs = some ([], xs)
split_at (suc n) [] = none
split_at (suc n) (x ∷ xs) = before (split_at n xs) x

abbrev pub the_end : Option (Bytes × Bytes) → Option Bytes
the_end (some (xs, [])) = some xs
the_end _ = none

abbrev pub value_of : ℕ → ℕ → Bytes → Bytes → Option Bytes → Option Request
value_of operation ms token key (some value) =
    some
      (record { operation = operation; milliseconds = ms; token = token; key = key; value = value })
value_of operation ms token key _ = none

unfoldable pub key_of : ℕ → ℕ → ℕ → Bytes → Option (Bytes × Bytes) → Option Request
unfolding split_at
key_of operation ms size token (some (key, rest)) =
    value_of operation ms token key (the_end (split_at size rest))
key_of operation ms size token _ = none

unfoldable pub token_of : ℕ → ℕ → ℕ → ℕ → Option (Bytes × Bytes) → Option Request
unfolding split_at key_of
token_of operation ms key_size size (some (token, rest)) =
    key_of operation ms size token (split_at key_size rest)
token_of operation ms key_size size _ = none

-- The three texts, of the lengths that the header gives and that its total sums
unfoldable pub texts_of : ℕ → ℕ → ℕ → ℕ → ℕ → ℕ → Bytes → Option Request
unfolding split_at token_of
texts_of operation ms token key value total rest =
    if eqb total (token + key + value)
    then token_of operation ms key value (split_at token rest)
    else none

unfoldable pub decode_request : Bytes → Option Request
unfolding texts_of
decode_request
      (m ∷ a ∷ g ∷ i ∷ v ∷ operation ∷ f ∷ f' ∷ m0 ∷ m1 ∷ m2 ∷ m3 ∷ t0 ∷ t1 ∷ t2 ∷ t3 ∷ k0 ∷ k1 ∷ k2
        ∷ k3 ∷ v0 ∷ v1 ∷ v2 ∷ v3 ∷ s0 ∷ s1 ∷ s2 ∷ s3 ∷ rest) =
    if (m ∷ a ∷ g ∷ i ∷ v ∷ f ∷ f' ∷ []) == magic ++ version ∷ 0 ∷ 0 ∷ []
    then texts_of operation (number32 m0 m1 m2 m3) (number32 t0 t1 t2 t3) (number32 k0 k1 k2 k3)
        (number32 v0 v1 v2 v3) (number32 s0 s1 s2 s3) rest
    else none
decode_request _ = none

split_at-++ : (xs ys : Bytes) → split_at (length xs) (xs ++ ys) ≡ some (xs, ys)
unfolding split_at
split_at-++ [] ys = refl
split_at-++ (x ∷ xs) ys = rw (split_at-++ xs ys) refl

split_at_all : (xs : Bytes) → split_at (length xs) xs ≡ some (xs, [])
unfolding split_at
split_at_all [] = refl
split_at_all (x ∷ xs) = rw (split_at_all xs) refl

texts_of-++ :
    (operation ms : ℕ) (token key value : Bytes)
    → texts_of operation ms
        (length token)
        (length key)
        (length value)
        (length token + length key + length value)
        (token ++ (key ++ value))
      ≡ some (record {
        operation = operation;
        milliseconds = ms;
        token = token;
        key = key;
        value = value;
      })
unfolding texts_of token_of key_of
texts_of-++ operation ms token key value =
    let same : eqb (length token + length key + length value)
          (length token + length key + length value)
        ≡ true =
      ground arith in
    rw (same, split_at-++ token (key ++ value), split_at-++ key value, split_at_all value) refl

number32_of :
    (n : ℕ)
    → fits32 n ≡ true
    → number32 (n / 16777216 % 256) (n / 65536 % 256) (n / 256 % 256) (n % 256) ≡ n
number32_of n h = let small : n < 4294967296 = ground (arith, h) in omega (arith, small)

if-eq-ok :
    (c : Bool) (x y : Bytes) (e : CoordinatorError)
    → (if c then ok x else raised e) ≡ ok y
    → (c ≡ true) × (x ≡ y)
if-eq-ok true x y e h = (refl, cc)
if-eq-ok false x y e h = cc

decode_request-packed :
    (operation ms t k v total : ℕ) (header rest : Bytes)
    → pack_request operation ms t k v total ≡ ok header
    → decode_request (header ++ rest) ≡ texts_of operation ms t k v total rest
unfolding decode_request pack_request pack16 pack32
decode_request-packed operation ms t k v total header rest h =
    let (fits, same) =
      if-eq-ok (leb operation 255 && fits32 ms && fits32 t && fits32 k && fits32 v && fits32 total)
        _ header struct_error h in
    let f0 : fits32 ms ≡ true = ground (arith, fits) in
    let f1 : fits32 t ≡ true = ground (arith, fits) in
    let f2 : fits32 k ≡ true = ground (arith, fits) in
    let f3 : fits32 v ≡ true = ground (arith, fits) in
    let f4 : fits32 total ≡ true = ground (arith, fits) in
    rw (sym same) (
      rw
        (
          number32_of ms f0,
          number32_of t f1,
          number32_of k f2,
          number32_of v f3,
          number32_of total f4,
        )
        refl)

rounded-ok : (o : Option ℕ) (n : ℕ) → rounded o ≡ ok n → o ≡ some n
rounded-ok (some m) n h = cc
rounded-ok none n h = cc

-- The bytes of a request that is encoded are read back, by the layout of the header and its lengths alone, as
-- the operation, the milliseconds, and the bytes of the token, the scoped key and the value.
pub decode_request-encode_request :
    {T : Type 0} (clock : Clock T) (endpoint : Endpoint) (operation : ℕ) (key : String)
    (value message : Bytes) (timeout : T)
    → encode_request clock endpoint operation key value timeout ≡ ok message
    → (ms : ℕ) × (clock.milliseconds timeout ≡ some ms)
      × (decode_request message
          ≡ some (record {
            operation = operation;
            milliseconds = ms;
            token = encode endpoint.token;
            key = scoped_key endpoint key;
            value = value;
          }))
unfolding encode_request
decode_request-encode_request clock endpoint operation key value message timeout h =
    let token = encode endpoint.token in
    let scoped = scoped_key endpoint key in
    let (a, h1) = raise_if-eq-ok (clock.out_of_range timeout) timeout_out_of_range _ h in
    let (b, h2) = raise_if-eq-ok (exceeds_limit token scoped value) request_too_large _ h1 in
    let (ms, p, h3) = >>=-eq-ok (rounded (clock.milliseconds timeout)) _ h2 in
    let (header, q, h4) =
      >>=-eq-ok
        (pack_request operation ms (length token) (length scoped) (length value)
          (length token + length scoped + length value))
        _ h3 in
    let made : header ++ token ++ scoped ++ value ≡ message = cc in
    let order : header ++ (token ++ (scoped ++ value)) ≡ message =
      sym (++_assoc header token (scoped ++ value))
      ∙ sym (++_assoc (header ++ token) scoped value)
      ∙ made in
    (
      ms,
      rounded-ok (clock.milliseconds timeout) ms p,
      ap decode_request (sym order)
          ∙ decode_request-packed operation ms (length token) (length scoped) (length value) _
              header _ q
          ∙ texts_of-++ operation ms token scoped value,
    )

rounded-struct : (o : Option ℕ) → rounded o ≢ raised struct_error
rounded-struct (some m) h = cc
rounded-struct none h = cc

-- Texts within the limits and milliseconds of 32 bits fit the header.
packed :
    (operation ms : ℕ) (token key value : Bytes)
    → operation ≤ 255
    → ms ≤ 4294967295
    → exceeds_limit token key value ≡ false
    → (after : Bytes → Bytes)
    → (pack_request operation ms
          (length token)
          (length key)
          (length value)
          (length token + length key + length value)
        >>= λ header. ok (after header))
      ≢ raised struct_error
unfolding pack_request exceeds_limit
packed operation ms token key value small bound within after h =
    let all_fit : (leb operation 255
          && fits32 ms
          && fits32 (length token)
          && fits32 (length key)
          && fits32 (length value)
          && fits32 (length token + length key + length value))
        ≡ true =
      ground (arith, small, bound, within) in
    chosen
      (leb operation 255
        && fits32 ms
        && fits32 (length token)
        && fits32 (length key)
        && fits32 (length value)
        && fits32 (length token + length key + length value))
      _ all_fit h
  where
    chosen :
        (c : Bool) (x : Bytes)
        → c ≡ true
        → ((if c then ok x else raised struct_error) >>= λ header. ok (after header))
          ≢ raised struct_error
    chosen true x p h = cc
    chosen false x p h = cc

-- When milliseconds in range have at most 32 bits, no request with an operation of one byte is refused for a
-- number that does not fit: what the limits let through can be packed.
pub encode_request-packs :
    {T : Type 0} (clock : Clock T) (endpoint : Endpoint) (operation : ℕ) (key : String)
    (value : Bytes) (timeout : T)
    → ((t : T) (ms : ℕ)
        → clock.out_of_range t ≡ false
        → clock.milliseconds t ≡ some ms
        → ms ≤ 4294967295)
    → operation ≤ 255
    → encode_request clock endpoint operation key value timeout ≢ raised struct_error
unfolding encode_request
encode_request-packs clock endpoint operation key value timeout law small h =
    let token = encode endpoint.token in
    let scoped = scoped_key endpoint key in
    elim (>>=-eq-raised (raise_if (clock.out_of_range timeout) timeout_out_of_range) _ h) [
      | inl p ↦
          let e = (raise_if-eq-raised (clock.out_of_range timeout) timeout_out_of_range p).1 in cc
      | inr (u, within, h1) ↦
          elim (>>=-eq-raised (raise_if (exceeds_limit token scoped value) request_too_large) _
            h1) [
              | inl p ↦
                  let e =
                    (raise_if-eq-raised (exceeds_limit token scoped value) request_too_large p).1 in
                  cc
              | inr (u', limited, h2) ↦
                  elim (>>=-eq-raised (rounded (clock.milliseconds timeout)) _ h2) [
                    | inl p ↦ rounded-struct (clock.milliseconds timeout) p
                    | inr (ms, p, h3) ↦
                        packed operation ms token scoped value small
                          (law timeout ms
                            (raise_if-ok (clock.out_of_range timeout) timeout_out_of_range within)
                            (rounded-ok (clock.milliseconds timeout) ms p))
                          (raise_if-ok (exceeds_limit token scoped value) request_too_large limited)
                          (λ header. header ++ token ++ scoped ++ value) h3
                  ]
            ]
    ]
