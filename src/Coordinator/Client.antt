-- ===== src/Coordinator/Client.antt =====
-- coldsnap_coord.py: `_recv_exact` and the request of `Client`. The network is a parameter: its operations act on a world,
-- where a request has one connection open at a time.
use coldsnap.Base.{
  ℕ, zero, suc, ◌-◌, String, ◌||◌, not, Option, List, [], ◌∷◌, ◌++◌, length, Result, ok, raised,
  raise_if, if◌then◌else◌, ltb, eqb, list_eq, nat_eq, ◌==◌,
}
use coldsnap.Coordinator.Wire.{
  Bytes, Endpoint, Clock, CoordinatorError, encode_request, Reply, unpack_response, magic, version,
  max_value, unsupported_response, response_too_large, incomplete_response, negative_size,
  not_found, timed_out, unauthorized, rejected, loop_unfinished,
}
use coldsnap.Coordinator.Addresses.{split_address}
use coldsnap.Coordinator.Actions.{Action, ◌>>=◌, ◌>>◌, lift}

-- `socket` and the clock, in a world `W` and with seconds `T`; an `OSError` is its message.
pub record Network (W T : Type 0) : Type 0 where
  pub clock : Clock T
  pub connect : String → ℕ → T → Action W CoordinatorError (Unit {0})
  pub settimeout : T → W → W
  pub sendall : Bytes → Action W CoordinatorError (Unit {0})
  pub recv : ℕ → Action W CoordinatorError Bytes
  pub close : W → W
  pub decode : Bytes → Option String

pub record Client (T : Type 0) : Type 0 where
  pub endpoint : Endpoint
  pub connect_timeout : T

abbrev pub join : List Bytes → Bytes
join [] = []
join (chunk ∷ chunks) = chunk ++ join chunks

-- What follows one `recv`: the chunk is refused if empty, kept otherwise, and the loop goes on with `more`. A
-- chunk of more than was asked for would leave a negative size, which the next `recv` refuses.
unfoldable pub after_recv :
    {W : Type 0}
    → ℕ
    → (ℕ → Action W CoordinatorError (List Bytes))
    → Bytes
    → Action W CoordinatorError (List Bytes)
after_recv remaining more [] = lift (raised incomplete_response)
after_recv remaining more (b ∷ chunk) =
    if ltb remaining (length (b ∷ chunk))
    then lift (raised negative_size)
    else more (remaining - length (b ∷ chunk)) >>= λ chunks. lift (ok ((b ∷ chunk) ∷ chunks))

module _ {W T : Type 0} (net : Network W T) where
  -- The loop of `_recv_exact`, for at most the given number of rounds
  unfoldable pub recv_loop : ℕ → ℕ → Action W CoordinatorError (List Bytes)
  unfolding after_recv
  recv_loop rounds zero = lift (ok [])
  recv_loop zero (suc remaining) = lift (raised loop_unfinished)
  recv_loop (suc rounds) (suc remaining) =
      net.recv (suc remaining) >>= after_recv (suc remaining) (recv_loop rounds)

  unfoldable pub recv_exact : ℕ → Action W CoordinatorError Bytes
  unfolding recv_loop
  recv_exact size = recv_loop size size >>= λ chunks. lift (ok (join chunks))

  unfoldable pub check_reply : Reply → Result CoordinatorError (Unit {0})
  check_reply reply =
      if not (reply.sign == magic) || not (eqb reply.edition version)
      then raised unsupported_response
      else raise_if (ltb max_value reply.value_length) response_too_large

  -- The status and the body
  unfoldable pub read_body : Reply → Action W CoordinatorError (ℕ × Bytes)
  unfolding recv_exact
  read_body reply = recv_exact reply.value_length >>= λ body. lift (ok (reply.status, body))

  unfoldable pub read_response : Bytes → Action W CoordinatorError (ℕ × Bytes)
  unfolding unpack_response check_reply read_body
  read_response response =
      lift (unpack_response response) >>= λ reply. lift (check_reply reply) >> read_body reply

  -- Inside the `with` of the connection
  unfoldable pub converse : T → Bytes → Action W CoordinatorError (ℕ × Bytes)
  unfolding recv_exact read_response
  converse network_timeout request w =
      (net.sendall request >> (recv_exact 12 >>= read_response)) (net.settimeout network_timeout w)

  -- The `with` closes the connection, whatever was raised in it.
  abbrev pub closing : {A : Type 0} → Result CoordinatorError A × W → Result CoordinatorError A × W
  closing (result, w) = (result, net.close w)

-- What a status means for a request of a key
unfoldable pub answer : String → ℕ → Bytes → Result CoordinatorError Bytes
answer key status body =
    if eqb status 0
    then ok body
    else if eqb status 1
    then raised (not_found key)
    else if eqb status 4
    then raised (timed_out key)
    else if eqb status 2
    then raised unauthorized
    else if eqb status 3
    then raised (rejected "invalid request" status body)
    else if eqb status 5
    then raised (rejected "request too large" status body)
    else raised (rejected "request failed" status body)

module _ {W T : Type 0} (net : Network W T) where
  abbrev pub network_timeout : Client T → T → T
  network_timeout client timeout =
      if net.clock.is_true timeout
      then net.clock.add client.connect_timeout timeout
      else client.connect_timeout

  -- `_request`
  unfoldable pub request : Client T → ℕ → String → Bytes → T → Action W CoordinatorError Bytes
  unfolding encode_request split_address converse answer
  request client operation key value timeout = do
    message ← lift (encode_request net.clock client.endpoint operation key value timeout)
    address ← lift (split_address client.endpoint.address)
    net.connect address.0 address.1 client.connect_timeout
    reply ← λ w. closing net (converse net (network_timeout client timeout) message w)
    lift (answer key reply.0 reply.1)
