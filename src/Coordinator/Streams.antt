-- ===== src/Coordinator/Streams.antt =====
-- Reading a stream of bytes that comes in chunks.
use coldsnap.Base.{
  ℕ, zero, suc, ◌+◌, ◌-◌, ◌≤◌, ◌<◌, List, [], ◌∷◌, ◌++◌, length, ◌≡◌, inl, inr, refl, arith, ok,
  raised, Bool-cases, ltb, sym, ap, ◌∙◌,
}
use coldsnap.Coordinator.Wire.{Bytes, CoordinatorError, negative_size}
use coldsnap.Coordinator.Actions.{Action, resume, lift, resume-eq-ok}
use coldsnap.Coordinator.Client.{Network, join, after_recv, recv_loop, recv_exact}

-- What `recv` promises of a connection on which `pending` is still to come: a chunk is no longer than was
-- asked for and is what comes next.
pub record Delivers {W T : Type 0} (net : Network W T) (pending : W → Bytes) : Type 0 where
  pub received :
      (n : ℕ) (w : W) (chunk : Bytes)
      → (net.recv n w).0 ≡ ok chunk
      → (length chunk ≤ n) × (chunk ++ pending (net.recv n w).1 ≡ pending w)

-- A connection that is up: while something is pending, `recv` returns some of it.
pub record IsLive {W T : Type 0} (net : Network W T) (pending : W → Bytes) : Type 0 where
  pub delivers : Delivers net pending
  pub answers :
      (n : ℕ) (w : W)
      → 0 < n
      → 0 < length (pending w)
      → (chunk : Bytes) × ((net.recv n w).0 ≡ ok chunk) × (0 < length chunk)

pub length-++ : {A : Type 0} (xs ys : List A) → length (xs ++ ys) ≡ length xs + length ys
length-++ [] ys = omega arith
length-++ (x ∷ xs) ys = omega (arith, length-++ xs ys)

pub ++_assoc : {A : Type 0} (xs ys zs : List A) → xs ++ ys ++ zs ≡ xs ++ (ys ++ zs)
++_assoc [] ys zs = refl
++_assoc (x ∷ xs) ys zs = ap (◌∷◌ x) (++_assoc xs ys zs)

module _ {W : Type 0} where
  after_recv-eq-ok :
      (n : ℕ) (more : ℕ → Action W CoordinatorError (List Bytes)) (chunk : Bytes) (w : W)
      (chunks : List Bytes)
      → (after_recv n more chunk w).0 ≡ ok chunks
      → (rest : List Bytes) × (chunks ≡ chunk ∷ rest)
        × (length chunk ≤ n)
        × ((more (n - length chunk) w).0 ≡ ok rest)
        × ((after_recv n more chunk w).1 ≡ (more (n - length chunk) w).1)
  unfolding after_recv
  after_recv-eq-ok n more [] w chunks h = cc
  after_recv-eq-ok n more (b ∷ bs) w chunks h = elim (Bool-cases (ltb n (length (b ∷ bs)))) [
    | inl large ↦
        let q : (after_recv n more (b ∷ bs) w).0 ≡ raised negative_size = rw large refl in
        let e : raised negative_size ≡ ok chunks = sym q ∙ h in cc
    | inr small ↦
        let next : List Bytes → Action W CoordinatorError (List Bytes) =
          λ cs. lift (ok ((b ∷ bs) ∷ cs)) in
        let q : after_recv n more (b ∷ bs) w ≡ resume (more (n - length (b ∷ bs)) w) next =
          rw small refl in
        let (rest, p, made, world) =
          resume-eq-ok (more (n - length (b ∷ bs)) w) next (sym (ap (λ o. o.0) q) ∙ h) in
        (rest, cc, ground (arith, small), p, ap (λ o. o.1) q ∙ world)
  ]

module _ {W T : Type 0} (net : Network W T) (pending : W → Bytes) (d : Delivers net pending) where
  recv_loop-prefix :
      (rounds n : ℕ) (w : W) (chunks : List Bytes)
      → (recv_loop net rounds n w).0 ≡ ok chunks
      → (length (join chunks) ≡ n)
        × (join chunks ++ pending (recv_loop net rounds n w).1 ≡ pending w)
  unfolding recv_loop
  recv_loop-prefix rounds zero w chunks h = let e : [] ≡ chunks = cc in rw (sym e) (refl, refl)
  recv_loop-prefix zero (suc n) w chunks h = cc
  recv_loop-prefix (suc rounds) (suc n) w chunks h =
      let (chunk, p, q, there) =
        resume-eq-ok (net.recv (suc n) w) (after_recv (suc n) (recv_loop net rounds)) h in
      let w' = (net.recv (suc n) w).1 in
      let (rest, made, small, later, last) =
        after_recv-eq-ok (suc n) (recv_loop net rounds) chunk w' chunks q in
      let (size, order) = recv_loop-prefix rounds (suc n - length chunk) w' rest later in
      let (bound, next) = d.received (suc n) w chunk p in
      let whole : chunk ++ join rest ++ pending (recv_loop net rounds (suc n - length chunk) w').1
          ≡ pending w =
        ++_assoc chunk (join rest) (pending (recv_loop net rounds (suc n - length chunk) w').1)
        ∙ ap (λ x. chunk ++ x) order
        ∙ next in
      rw made (
        length-++ chunk (join rest) ∙ omega (arith, size, bound),
        ap (λ x. chunk ++ join rest ++ pending x) (there ∙ last) ∙ whole,
      )

  -- When `recv` returns no more than it is asked for, in the order of the stream, what `_recv_exact` returns
  -- is exactly the first so many bytes of the stream, in however many chunks they came, and the rest is still
  -- to come.
  pub recv_exact-prefix :
      (n : ℕ) (w : W) (body : Bytes)
      → (recv_exact net n w).0 ≡ ok body
      → (length body ≡ n) × (body ++ pending (recv_exact net n w).1 ≡ pending w)
  unfolding recv_exact
  recv_exact-prefix n w body h =
      let joined : List Bytes → Action W CoordinatorError Bytes = λ cs. lift (ok (join cs)) in
      let (chunks, p, q, there) = resume-eq-ok (recv_loop net n n w) joined h in
      let made : join chunks ≡ body = cc in
      let (size, order) = recv_loop-prefix n n w chunks p in
      rw (sym made) (size, ap (λ x. join chunks ++ pending x) there ∙ order)
