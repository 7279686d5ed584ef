-- ===== src/Coordinator/Operations.antt =====
-- coldsnap_coord.py: the operations of `Client`.
use coldsnap.Base.{String, Option, some, [], Result, ok, raised, ℤ, show_ℤ, read_int}
use coldsnap.Coordinator.Wire.{Bytes, CoordinatorError, encode, undecodable, not_an_integer}
use coldsnap.Coordinator.Actions.{Action, ◌>>=◌, ◌>>◌, lift}
use coldsnap.Coordinator.Client.{Network, Client, request}

-- A `str` or `bytes`
pub data Value : Type 0 where
  text : String → Value
  bytes : Bytes → Value

unfoldable pub encoded : Value → Bytes
unfolding encode
encoded (text s) = encode s
encoded (bytes b) = b

abbrev pub decoded : Bytes → Option String → Result CoordinatorError String
decoded body (some s) = ok s
decoded body _ = raised (undecodable body)

abbrev pub integer : String → Option ℤ → Result CoordinatorError ℤ
integer s (some n) = ok n
integer s _ = raised (not_an_integer s)

module _ {W T : Type 0} (net : Network W T) (no_wait : T) (client : Client T) where
  unfoldable pub set : String → Value → Action W CoordinatorError (Unit {0})
  unfolding request encoded
  set key value = request net client 1 key (encoded value) no_wait >> lift (ok tt)

  unfoldable pub get : String → T → Action W CoordinatorError Bytes
  unfolding request
  get key wait = request net client 2 key [] wait

  unfoldable pub wait : String → T → Action W CoordinatorError String
  unfolding get
  wait key timeout = get key timeout >>= λ body. lift (decoded body (net.decode body))

  unfoldable pub delete : String → Action W CoordinatorError (Unit {0})
  unfolding request
  delete key = request net client 3 key [] no_wait >> lift (ok tt)

  unfoldable pub health : Action W CoordinatorError (Unit {0})
  unfolding request
  health = request net client 4 "" [] no_wait >> lift (ok tt)

  unfoldable pub add : String → ℤ → Action W CoordinatorError ℤ
  unfolding request encode show_ℤ read_int
  add key amount = request net client 5 key (encode (show_ℤ amount)) no_wait >>= λ body.
      lift (decoded body (net.decode body)) >>= λ s. lift (integer s (read_int s))

  unfoldable pub append : String → Bytes → Action W CoordinatorError (Unit {0})
  unfolding request
  append key value = request net client 6 key value no_wait >> lift (ok tt)
