-- ===== src/Coordinator/Returns.antt =====
-- The loop of `_recv_exact` ends, and on a connection that is up it returns.
use coldsnap.Base.{
  ℕ, zero, suc, ◌+◌, ◌-◌, ◌≤◌, ◌<◌, false, List, [], ◌∷◌, length, ◌≡◌, ◌≢◌, inl, inr, refl, arith,
  ok, raised, Bool-cases, ltb, sym, ap, ◌∙◌,
}
use coldsnap.Coordinator.Wire.{Bytes, CoordinatorError, loop_unfinished, negative_size}
use coldsnap.Coordinator.Actions.{Action, resume, lift, resume-ok, resume-eq-raised}
use coldsnap.Coordinator.Client.{Network, join, after_recv, recv_loop, recv_exact}
use coldsnap.Coordinator.Streams.{IsLive, length-++}

module _ {W : Type 0} where
  after_recv-finishes :
      (n : ℕ) (more : ℕ → Action W CoordinatorError (List Bytes)) (chunk : Bytes) (w : W)
      → ((m : ℕ) → m < n → (more m w).0 ≢ raised loop_unfinished)
      → 0 < n
      → (after_recv n more chunk w).0 ≢ raised loop_unfinished
  unfolding after_recv
  after_recv-finishes n more [] w h k e = cc
  after_recv-finishes n more (b ∷ bs) w h k e = elim (Bool-cases (ltb n (length (b ∷ bs)))) [
    | inl large ↦
        let q : (after_recv n more (b ∷ bs) w).0 ≡ raised negative_size = rw large refl in
        let e' : raised negative_size ≡ raised loop_unfinished = sym q ∙ e in cc
    | inr small ↦
        let next : List Bytes → Action W CoordinatorError (List Bytes) =
          λ cs. lift (ok ((b ∷ bs) ∷ cs)) in
        let q : after_recv n more (b ∷ bs) w ≡ resume (more (n - length (b ∷ bs)) w) next =
          rw small refl in
        elim (resume-eq-raised (more (n - length (b ∷ bs)) w) next (sym (ap (λ o. o.0) q) ∙ e)) [
          | inl p ↦ h (n - length (b ∷ bs)) (ground (arith, small, k)) p
          | inr (cs, p, r) ↦ cc
        ]
  ]

  after_recv-ok :
      (n : ℕ) (more : ℕ → Action W CoordinatorError (List Bytes)) (chunk : Bytes) (w : W)
      (chunks : List Bytes)
      → 0 < length chunk
      → length chunk ≤ n
      → (more (n - length chunk) w).0 ≡ ok chunks
      → (after_recv n more chunk w).0 ≡ ok (chunk ∷ chunks)
  unfolding after_recv
  after_recv-ok n more [] w chunks h k p = absurd (omega (arith, h))
  after_recv-ok n more (b ∷ bs) w chunks h k p =
      let next : List Bytes → Action W CoordinatorError (List Bytes) =
        λ cs. lift (ok ((b ∷ bs) ∷ cs)) in
      let small : ltb n (length (b ∷ bs)) ≡ false = ground (arith, k) in
      rw small (ap (λ o. o.0) (resume-ok (more (n - length (b ∷ bs)) w) next chunks p))

module _ {W T : Type 0} (net : Network W T) where
  recv_loop-finishes :
      ((n : ℕ) (w : W) → (net.recv n w).0 ≢ raised loop_unfinished)
      → (rounds n : ℕ) (w : W) → n ≤ rounds
      → (recv_loop net rounds n w).0 ≢ raised loop_unfinished
  unfolding recv_loop
  recv_loop-finishes h rounds zero w k e = cc
  recv_loop-finishes h zero (suc n) w k e = omega (arith, k)
  recv_loop-finishes h (suc rounds) (suc n) w k e =
      elim (resume-eq-raised (net.recv (suc n) w) (after_recv (suc n) (recv_loop net rounds)) e) [
        | inl p ↦ h (suc n) w p
        | inr (chunk, p, q) ↦
            after_recv-finishes (suc n) (recv_loop net rounds) chunk (net.recv (suc n) w).1
              (λ m small.
                recv_loop-finishes h rounds m (net.recv (suc n) w).1 (omega (arith, small, k)))
              (omega arith) q
      ]

  -- The loop of `_recv_exact` ends after at most as many rounds as bytes are asked for, whatever `recv` does.
  pub recv_exact-finishes :
      ((n : ℕ) (w : W) → (net.recv n w).0 ≢ raised loop_unfinished)
      → (n : ℕ) (w : W) → (recv_exact net n w).0 ≢ raised loop_unfinished
  unfolding recv_exact
  recv_exact-finishes h n w e =
      let joined : List Bytes → Action W CoordinatorError Bytes = λ cs. lift (ok (join cs)) in
      elim (resume-eq-raised (recv_loop net n n w) joined e) [
        | inl p ↦ recv_loop-finishes h n n w (omega arith) p
        | inr (cs, p, q) ↦ cc
      ]

module _ {W T : Type 0} (net : Network W T) (pending : W → Bytes) (live : IsLive net pending) where
  recv_loop-returns :
      (rounds n : ℕ) (w : W)
      → n ≤ rounds
      → n ≤ length (pending w)
      → (chunks : List Bytes) × ((recv_loop net rounds n w).0 ≡ ok chunks)
  unfolding recv_loop
  recv_loop-returns rounds zero w k h = ([], refl)
  recv_loop-returns zero (suc n) w k h = absurd (omega (arith, k))
  recv_loop-returns (suc rounds) (suc n) w k h =
      let w' = (net.recv (suc n) w).1 in
      let (chunk, p, some_bytes) = live.answers (suc n) w (omega arith) (omega (arith, h)) in
      let (bound, next) = live.delivers.received (suc n) w chunk p in
      let left : length chunk + length (pending w') ≡ length (pending w) =
        sym (length-++ chunk (pending w')) ∙ ap length next in
      let (chunks, later) =
        recv_loop-returns rounds (suc n - length chunk) w' (omega (arith, some_bytes, k))
          (omega (arith, left, h)) in
      (
        chunk ∷ chunks,
        ap (λ o. o.0)
              (resume-ok (net.recv (suc n) w) (after_recv (suc n) (recv_loop net rounds)) chunk p)
            ∙ after_recv-ok (suc n) (recv_loop net rounds) chunk w' chunks some_bytes bound later,
      )

  -- On a connection that is up, with at least as many bytes to come as are asked for, they are returned.
  pub recv_exact-returns :
      (n : ℕ) (w : W) → n ≤ length (pending w) → (body : Bytes) × ((recv_exact net n w).0 ≡ ok body)
  unfolding recv_exact
  recv_exact-returns n w h =
      let joined : List Bytes → Action W CoordinatorError Bytes = λ cs. lift (ok (join cs)) in
      let (chunks, p) = recv_loop-returns n n w (omega arith) h in
      (join chunks, ap (λ o. o.0) (resume-ok (recv_loop net n n w) joined chunks p))
