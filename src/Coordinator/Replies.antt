-- ===== src/Coordinator/Replies.antt =====
-- A request over a connection that is up, and the reply that comes over it.
use coldsnap.Base.{
  ℕ, ◌+◌, ◌*◌, ◌/◌, ◌%◌, ◌≤◌, ◌<◌, false, List, [], ◌∷◌, ◌++◌, length, ◌≡◌, refl, arith, Result, ok,
  ltb, sym, ap, ◌∙◌, subst, String, list_eq, nat_eq,
}
use coldsnap.Coordinator.Wire.{
  Bytes, CoordinatorError, pack16, pack32, number32, magic, version, unpack_response,
  encode_request,
}
use coldsnap.Coordinator.Addresses.{split_address}
use coldsnap.Coordinator.Actions.{Action, resume, ◌>>=◌, lift, resume-ok}
use coldsnap.Coordinator.Client.{
  Network, Client, recv_exact, read_body, read_response, check_reply, converse, closing, answer,
  network_timeout, request,
}
use coldsnap.Coordinator.Streams.{IsLive, length-++, ++_assoc, recv_exact-prefix}
use coldsnap.Coordinator.Returns.{recv_exact-returns}

-- The reply's header as the coordinator packs it
pub reply_header : ℕ → ℕ → ℕ → Bytes
reply_header status flags size = magic ++ version ∷ status ∷ (pack16 flags ++ pack32 size)

pub encode_reply : ℕ → ℕ → Bytes → Bytes
encode_reply status flags body = reply_header status flags (length body) ++ body

++_cancel :
    {A : Type 0} (xs ys us vs : List A)
    → length xs ≡ length ys
    → xs ++ us ≡ ys ++ vs
    → (xs ≡ ys) × (us ≡ vs)
++_cancel [] [] us vs k h = (refl, h)
++_cancel [] (y ∷ ys) us vs k h = absurd (omega (arith, k))
++_cancel (x ∷ xs) [] us vs k h = absurd (omega (arith, k))
++_cancel (x ∷ xs) (y ∷ ys) us vs k h =
    let head : x ≡ y = cc in
    let tail : xs ++ us ≡ ys ++ vs = cc in
    let (p, q) = ++_cancel xs ys us vs (omega (arith, k)) tail in (cc, q)

number32-pack32 :
    (n : ℕ)
    → n < 4294967296
    → number32 (n / 16777216 % 256) (n / 65536 % 256) (n / 256 % 256) (n % 256) ≡ n
number32-pack32 n h = omega (arith, h)

module _ {W T : Type 0} (net : Network W T) (pending : W → Bytes) (live : IsLive net pending) where
  recv_exact_next :
      (n : ℕ) (w : W) (body rest : Bytes)
      → pending w ≡ body ++ rest
      → length body ≡ n
      → ((recv_exact net n w).0 ≡ ok body) × (pending (recv_exact net n w).1 ≡ rest)
  recv_exact_next n w body rest h size =
      let enough : length (pending w) ≡ length body + length rest =
        ap length h ∙ length-++ body rest in
      let (got, p) = recv_exact-returns net pending live n w (omega (arith, enough, size)) in
      let (same, order) = recv_exact-prefix net pending live.delivers n w got p in
      let (a, b) =
        ++_cancel got body (pending (recv_exact net n w).1) rest (same ∙ sym size) (order ∙ h) in
      (p ∙ ap ok a, b)

  unpack_response-header :
      (status flags size : ℕ)
      → size ≤ 16777216
      → unpack_response (reply_header status flags size)
        ≡ ok (record {
          sign = magic;
          edition = version;
          status = status;
          flags = flags / 256 % 256 * 256 + flags % 256;
          value_length = size;
        })
  unfolding unpack_response reply_header pack16 pack32
  unpack_response-header status flags size h =
      ap
        (λ n. ok (record {
          sign = magic;
          edition = version;
          status = status;
          flags = flags / 256 % 256 * 256 + flags % 256;
          value_length = n;
        }))
        (number32-pack32 size (omega (arith, h)))

  read_response-header :
      (status flags : ℕ) (body rest : Bytes) (w : W)
      → length body ≤ 16777216
      → pending w ≡ body ++ rest
      → (read_response net (reply_header status flags (length body)) w).0 ≡ ok (status, body)
  unfolding read_response check_reply read_body
  read_response-header status flags body rest w h p =
      let (got, after) = recv_exact_next (length body) w body rest p refl in
      let fits : ltb 16777216 (length body) ≡ false = ground (arith, h) in
      rw (unpack_response-header status flags (length body) h) (
        rw fits (
          ap (λ o. o.0)
            (resume-ok (recv_exact net (length body) w) (λ b. lift (ok (status, b))) body got)))

  converse-reply :
      (t : T) (message : Bytes) (w : W) (status flags : ℕ) (body rest : Bytes)
      → (net.sendall message (net.settimeout t w)).0 ≡ ok tt
      → pending (net.sendall message (net.settimeout t w)).1
        ≡ encode_reply status flags body ++ rest
      → length body ≤ 16777216
      → (converse net t message w).0 ≡ ok (status, body)
  unfolding converse encode_reply
  converse-reply t message w status flags body rest sent p h =
      let w1 = (net.sendall message (net.settimeout t w)).1 in
      let header = reply_header status flags (length body) in
      let size : length header ≡ 12 = unfold reply_header pack16 pack32 in omega arith in
      let order : pending w1 ≡ header ++ (body ++ rest) = p ∙ ++_assoc header body rest in
      let (got, after) = recv_exact_next 12 w1 header (body ++ rest) order size in
      ap (λ o. o.0)
        (resume-ok (net.sendall message (net.settimeout t w))
            (λ u. recv_exact net 12 >>= read_response net) tt sent
          ∙ resume-ok (recv_exact net 12 w1) (read_response net) header got)
      ∙ read_response-header status flags body rest (recv_exact net 12 w1).1 h after

  closing-ok : {A : Type 0} (o : Result CoordinatorError A × W) → (closing net o).0 ≡ o.0
  closing-ok (result, w) = refl

  -- On a connection that is up, over which the coordinator answers the message with the reply of a status and
  -- a body of at most 16 MiB, in whatever chunks it comes, a request returns or raises what this status and
  -- body mean.
  pub request-answer :
      (client : Client T) (operation : ℕ) (key host : String) (port : ℕ) (value message : Bytes)
      (timeout : T) (w : W) (status flags : ℕ) (body rest : Bytes)
      → encode_request net.clock client.endpoint operation key value timeout ≡ ok message
      → split_address client.endpoint.address ≡ ok (host, port)
      → (net.connect host port client.connect_timeout w).0 ≡ ok tt
      → (w' : W)
      → w'
        ≡ net.settimeout
            (network_timeout net client timeout)
            (net.connect host port client.connect_timeout w).1
      → (net.sendall message w').0 ≡ ok tt
      → pending (net.sendall message w').1 ≡ encode_reply status flags body ++ rest
      → length body ≤ 16777216
      → (request net client operation key value timeout w).0 ≡ answer key status body
  unfolding request
  request-answer client operation key host port value message timeout w status flags body rest e s c
        w' from sent p h =
      let w1 = (net.connect host port client.connect_timeout w).1 in
      let t = network_timeout net client timeout in
      let talked : (converse net t message w1).0 ≡ ok (status, body) =
        converse-reply t message w1 status flags body rest
          (subst (λ x. (net.sendall message x).0 ≡ ok tt) from sent)
          (subst (λ x. pending (net.sendall message x).1 ≡ encode_reply status flags body ++ rest)
            from p)
          h in
      let closed : (closing net (converse net t message w1)).0 ≡ ok (status, body) =
        closing-ok (converse net t message w1) ∙ talked in
      let conclude : ℕ × Bytes → Action W CoordinatorError Bytes =
        λ reply. lift (answer key reply.0 reply.1) in
      rw e (
        rw s (
          ap (λ o. o.0)
            (resume-ok (net.connect host port client.connect_timeout w)
                (λ u w''. resume (closing net (converse net t message w'')) conclude) tt c
              ∙ resume-ok (closing net (converse net t message w1)) conclude (status, body)
                  closed)))
