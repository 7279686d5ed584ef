-- ===== src/Coordinator/Numbers.antt =====
-- The number that `add` returns.
use coldsnap.Base.{String, some, ◌≡◌, refl, ok, ap, ◌∙◌, ℤ, show_ℤ, read_int, read_int-show_ℤ}
use coldsnap.Coordinator.Wire.{Bytes, CoordinatorError, encode}
use coldsnap.Coordinator.Actions.{Action, ◌>>=◌, lift, resume-ok}
use coldsnap.Coordinator.Client.{Network, Client, request}
use coldsnap.Coordinator.Operations.{decoded, integer, add}

-- When the request that `add` makes returns a number's decimal text in bytes that decode to it, `add` returns
-- this number.
pub add-returns :
    {W T : Type 0} (net : Network W T) (no_wait : T) (client : Client T) (key : String)
    (amount n : ℤ) (w : W)
    → (request net client 5 key (encode (show_ℤ amount)) no_wait w).0 ≡ ok (encode (show_ℤ n))
    → net.decode (encode (show_ℤ n)) ≡ some (show_ℤ n)
    → (add net no_wait client key amount w).0 ≡ ok n
unfolding add
add-returns {W} net no_wait client key amount n w h d =
    let finish : Bytes → Action W CoordinatorError ℤ =
      λ body. lift (decoded body (net.decode body)) >>= λ s. lift (integer s (read_int s)) in
    ap (λ o. o.0)
      (resume-ok (request net client 5 key (encode (show_ℤ amount)) no_wait w) finish
        (encode (show_ℤ n)) h)
    ∙ rw d (rw (read_int-show_ℤ n) refl)
