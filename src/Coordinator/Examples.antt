-- ===== src/Coordinator/Examples.antt =====
-- Requests over a toy network that delivers one byte at a time, and the theorems at them.
use coldsnap.Base.{
  ℕ, zero, suc, ◌≤◌, ◌<◌, String, false, some, [], ◌∷◌, ◌++◌, length, ◌≡◌, ◌≢◌, refl, arith, Result,
  ok, raised, sym, ltb, append, show_ℕ, show_digits, digit, pos, show_ℤ, any_space, is_space,
  starts_with, if◌then◌else◌, list_eq, nat_eq, ◌==◌,
}
use coldsnap.Coordinator.Wire.{
  Bytes, Endpoint, Clock, CoordinatorError, encode, pack16, pack32, pack_request, encode_request,
  scoped_key, exceeds_limit, loop_unfinished, struct_error, incomplete_response,
  endpoint_with_space,
}
use coldsnap.Coordinator.Addresses.{
  parse, split_address, partition_address, host_and_port, rpartition, drop, read_decimal,
}
use coldsnap.Coordinator.Client.{
  Network, Client, recv_exact, recv_loop, after_recv, answer, request,
}
use coldsnap.Coordinator.Operations.{add}
use coldsnap.Coordinator.Streams.{Delivers, IsLive, recv_exact-prefix}
use coldsnap.Coordinator.Returns.{recv_exact-finishes, recv_exact-returns}
use coldsnap.Coordinator.Replies.{encode_reply, request-answer}
use coldsnap.Coordinator.Requests.{
  decode_request, decode_request-encode_request, encode_request-packs,
}
use coldsnap.Coordinator.Parsing.{IsWord, render, parse-render, parse-words}
use coldsnap.Coordinator.Ports.{split_address-join}
use coldsnap.Coordinator.Numbers.{add-returns}

-- Timeouts in milliseconds
abbrev ticks : Clock ℕ
ticks = record {
  out_of_range = λ t. ltb 4294967295 t;
  milliseconds = λ t. some t;
  is_true = λ t. ltb 0 t;
  add = λ t u. u;
}

abbrev one_byte : ℕ → Bytes → Result CoordinatorError Bytes × Bytes
one_byte zero w = (ok [], w)
one_byte (suc n) [] = (ok [], [])
one_byte (suc n) (b ∷ w) = (ok (b ∷ []), w)

abbrev decode_42 : Bytes → String
decode_42 b = if b == (52 ∷ 50 ∷ []) then "42" else ""

-- A coordinator that answers every message with `42`.
abbrev toy : Network Bytes ℕ
toy = record {
  clock = ticks;
  connect = λ host port t w. (ok tt, w);
  settimeout = λ t w. w;
  sendall = λ message w. (ok tt, encode_reply 0 0 (52 ∷ 50 ∷ []) ++ []);
  recv = one_byte;
  close = λ w. [];
  decode = λ b. some (decode_42 b);
}

abbrev pending : Bytes → Bytes
pending w = w

toy-Delivers : Delivers toy pending
toy-Delivers = record { received = go }
  where
    go :
        (n : ℕ) (w chunk : Bytes)
        → (one_byte n w).0 ≡ ok chunk
        → (length chunk ≤ n) × (chunk ++ (one_byte n w).1 ≡ w)
    go zero w chunk h = let e : [] ≡ chunk = cc in rw (sym e) (omega arith, refl)
    go (suc n) [] chunk h = let e : [] ≡ chunk = cc in rw (sym e) (omega arith, refl)
    go (suc n) (b ∷ w) chunk h = let e : b ∷ [] ≡ chunk = cc in rw (sym e) (omega arith, refl)

toy-IsLive : IsLive toy pending
toy-IsLive = record { delivers = toy-Delivers; answers = go }
  where
    go :
        (n : ℕ) (w : Bytes)
        → 0 < n
        → 0 < length w
        → (chunk : Bytes) × ((one_byte n w).0 ≡ ok chunk) × (0 < length chunk)
    go zero w h k = absurd (omega (arith, h))
    go (suc n) [] h k = absurd (omega (arith, k))
    go (suc n) (b ∷ w) h k = (b ∷ [], refl, omega arith)

toy_finishes : (n : ℕ) (w : Bytes) → (one_byte n w).0 ≢ raised loop_unfinished
toy_finishes zero w h = cc
toy_finishes (suc n) [] h = cc
toy_finishes (suc n) (b ∷ w) h = cc

abbrev home : Endpoint
home = record { address = "[::1]:7000"; scope = "run"; token = "key" }

abbrev client : Client ℕ
client = record { endpoint = home; connect_timeout = 5000 }

reads_three : (recv_exact toy 3 (7 ∷ 8 ∷ 9 ∷ 10 ∷ [])).0 ≡ ok (7 ∷ 8 ∷ 9 ∷ [])
unfolding recv_exact recv_loop after_recv
reads_three = refl

misses_one : (recv_exact toy 3 (7 ∷ 8 ∷ [])).0 ≡ raised incomplete_response
unfolding recv_exact recv_loop after_recv
misses_one = refl

abbrev message : Bytes
message =
    67 ∷ 83 ∷ 75 ∷ 86 ∷ 1 ∷ 5 ∷ 0 ∷ 0 ∷ 0 ∷ 0 ∷ 0 ∷ 0 ∷ 0 ∷ 0 ∷ 0 ∷ 3 ∷ 0 ∷ 0 ∷ 0 ∷ 5 ∷ 0 ∷ 0 ∷ 0
    ∷ 1 ∷ 0 ∷ 0 ∷ 0 ∷ 9 ∷ 107 ∷ 101 ∷ 121 ∷ 114 ∷ 117 ∷ 110 ∷ 47 ∷ 110 ∷ 55 ∷ []

encodes : encode_request ticks home 5 "n" (55 ∷ []) 0 ≡ ok message
unfolding encode_request encode scoped_key exceeds_limit pack_request pack16 pack32
encodes = refl

splits_home : split_address "[::1]:7000" ≡ ok ("::1", 7000)
unfolding split_address partition_address host_and_port rpartition drop read_decimal starts_with
splits_home = refl

adds : (request toy client 5 "n" (55 ∷ []) 0 []).0 ≡ ok (52 ∷ 50 ∷ [])
unfolding request answer
adds =
    request-answer toy pending toy-IsLive client 5 "n" "::1" 7000 (55 ∷ []) message 0 [] 0 0
      (52 ∷ 50 ∷ []) [] encodes splits_home refl [] refl refl refl (omega arith)

encodes_seven : encode (show_ℤ (pos 7)) ≡ 55 ∷ []
unfolding encode show_ℤ show_ℕ show_digits digit
encodes_seven = refl

encodes_42 : encode (show_ℤ (pos 42)) ≡ 52 ∷ 50 ∷ []
unfolding encode show_ℤ show_ℕ show_digits digit
encodes_42 = refl

shows_42 : show_ℤ (pos 42) ≡ "42"
unfolding show_ℤ show_ℕ show_digits digit
shows_42 = refl

abbrev stream : Bytes
stream = 7 ∷ 8 ∷ 9 ∷ 10 ∷ []

abbrev three : Bytes
three = 7 ∷ 8 ∷ 9 ∷ []

recv_exact-prefix_example : (length three ≡ 3) × (three ++ (recv_exact toy 3 stream).1 ≡ stream)
recv_exact-prefix_example = recv_exact-prefix toy pending toy-Delivers 3 stream three reads_three

recv_exact-finishes_example : (recv_exact toy 3 (7 ∷ 8 ∷ [])).0 ≢ raised loop_unfinished
recv_exact-finishes_example = recv_exact-finishes toy toy_finishes 3 (7 ∷ 8 ∷ [])

returns_two : (body : Bytes) × ((recv_exact toy 2 (7 ∷ 8 ∷ 9 ∷ [])).0 ≡ ok body)
returns_two = recv_exact-returns toy pending toy-IsLive 2 (7 ∷ 8 ∷ 9 ∷ []) (omega arith)

request-answer_example : (request toy client 5 "n" (55 ∷ []) 0 []).0 ≡ answer "n" 0 (52 ∷ 50 ∷ [])
request-answer_example =
    request-answer toy pending toy-IsLive client 5 "n" "::1" 7000 (55 ∷ []) message 0 [] 0 0
      (52 ∷ 50 ∷ []) [] encodes splits_home refl [] refl refl refl (omega arith)

decode_request-encode_request_example :
    (ms : ℕ) × (some 0 ≡ some ms)
    × (decode_request message
        ≡ some (record {
          operation = 5;
          milliseconds = ms;
          token = encode "key";
          key = scoped_key home "n";
          value = 55 ∷ [];
        }))
decode_request-encode_request_example =
    decode_request-encode_request ticks home 5 "n" (55 ∷ []) message 0 encodes

in_range : (t ms : ℕ) → ltb 4294967295 t ≡ false → some t ≡ some ms → ms ≤ 4294967295
in_range t ms h k = let e : t ≡ ms = cc in ground (arith, h, e)

small_request_packs : encode_request ticks home 1 "n" (55 ∷ []) 30000 ≢ raised struct_error
small_request_packs = encode_request-packs ticks home 1 "n" (55 ∷ []) 30000 in_range (omega arith)

parse-render_example : parse (render home) ≡ ok home
unfolding any_space is_space
parse-render_example = parse-render home (refl, refl) (refl, refl) (refl, refl)

words_of_endpoint :
    ((e : Endpoint)
      → parse "coldsnap-coord-v1 a b c" ≡ ok e
      → IsWord e.address × IsWord e.scope × IsWord e.token)
    × (parse "coldsnap-coord-v1 a b c" ≢ raised endpoint_with_space)
words_of_endpoint = parse-words "coldsnap-coord-v1 a b c"

split_address-join_example :
    (starts_with "[" "localhost" ≡ false
      → split_address (append "localhost" (String.◌∷◌ ":" (show_ℕ 7000))) ≡ ok ("localhost", 7000))
    × (split_address (String.◌∷◌ "[" (append "localhost" (append "]:" (show_ℕ 7000))))
        ≡ ok ("localhost", 7000))
split_address-join_example = split_address-join "localhost" 7000 refl (omega arith) (omega arith)

adds_number : (add toy 0 client "n" (pos 7) []).0 ≡ ok (pos 42)
unfolding encode show_ℤ show_ℕ show_digits digit
adds_number = add-returns toy 0 client "n" (pos 7) (pos 42) [] adds refl
