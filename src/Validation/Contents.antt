-- ===== src/Validation/Contents.antt =====
-- The digest that `_hash_descriptor` returns is that of the file's content.
use coldsnap.Base.{
  ℕ, zero, suc, ◌≤◌, ◌<◌, not, List, [], ◌∷◌, ◌++◌, length, ◌≡◌, ◌≢◌, inl, inr, refl, arith, ok,
  raised, raise_if, raise_if-ok, ok_injective, eqb, append, sym, ap, ◌∙◌,
}
use coldsnap.Coordinator.Wire.{Bytes}
use coldsnap.Coordinator.Actions.{Action, resume-eq-ok, resume-eq-raised}
use coldsnap.Coordinator.Streams.{length-++, ++_assoc}
use coldsnap.Validation.Stats.{
  ValidationError, chunk_not_positive, changed_during_validation, hash_unfinished, System,
  content_identity, diagnostic_identity,
}
use coldsnap.Validation.Hashing.{Hashed, same_content, after_read, read_loop, hash_descriptor}

-- What `os.read` and `os.fstat` promise of a descriptor at which `left` is still to be read: a read returns
-- what comes next, and nothing only at the end; looking at the file's status reads nothing.
pub record Reads {W D : Type 0} (sys : System W D) (d : D) (left : W → Bytes) : Type 0 where
  pub in_order :
      (n : ℕ) (w : W) (chunk : Bytes)
      → (sys.read d n w).0 ≡ ok chunk
      → chunk ++ left (sys.read d n w).1 ≡ left w
  pub at_end : (n : ℕ) (w : W) → 0 < n → (sys.read d n w).0 ≡ ok [] → left w ≡ []
  pub keeps : (w : W) → left (sys.fstat d w).1 ≡ left w

++_nil : {A : Type 0} (xs : List A) → xs ++ [] ≡ xs
++_nil [] = refl
++_nil (x ∷ xs) = ap (◌∷◌ x) (++_nil xs)

module _ {W D : Type 0} (sys : System W D) (d : D) (left : W → Bytes)
    (reads : Reads sys d left) where
  -- One round: the loop ends at the end of the file, or goes on with what it has got.
  after_read-contents :
      (more : Bytes → Action W ValidationError Bytes) (n : ℕ) (got bytes chunk : Bytes) (w : W)
      → 0 < n
      → (sys.read d n w).0 ≡ ok chunk
      → ((got' : Bytes)
          → (more got' (sys.read d n w).1).0 ≡ ok bytes
          → bytes ≡ got' ++ left (sys.read d n w).1)
      → (after_read more got chunk (sys.read d n w).1).0 ≡ ok bytes
      → bytes ≡ got ++ left w
  after_read-contents more n got bytes [] w k p later q =
      let same : got ≡ bytes = cc in
      sym same ∙ sym (++_nil got) ∙ ap (λ x. got ++ x) (sym (reads.at_end n w k p))
  after_read-contents more n got bytes (b ∷ chunk) w k p later q =
      later (got ++ b ∷ chunk) q
      ∙ ++_assoc got (b ∷ chunk) (left (sys.read d n w).1)
      ∙ ap (λ x. got ++ x) (reads.in_order n w (b ∷ chunk) p)

  read_loop-contents :
      (rounds n : ℕ) (got bytes : Bytes) (w : W)
      → 0 < n
      → (read_loop sys rounds d n got w).0 ≡ ok bytes
      → bytes ≡ got ++ left w
  unfolding read_loop
  read_loop-contents zero n got bytes w k h = cc
  read_loop-contents (suc rounds) n got bytes w k h =
      let more = read_loop sys rounds d n in
      let (chunk, p, q, there) = resume-eq-ok (sys.read d n w) (after_read more got) h in
      after_read-contents more n got bytes chunk w k p
        (λ got' later. read_loop-contents rounds n got' bytes (sys.read d n w).1 k later) q

  after_read-finishes :
      (more : Bytes → Action W ValidationError Bytes) (rounds n : ℕ) (got chunk : Bytes) (w : W)
      → (sys.read d n w).0 ≡ ok chunk
      → length (left w) ≤ rounds
      → ((got' : Bytes)
          → length (left (sys.read d n w).1) < rounds
          → (more got' (sys.read d n w).1).0 ≢ raised hash_unfinished)
      → (after_read more got chunk (sys.read d n w).1).0 ≢ raised hash_unfinished
  after_read-finishes more rounds n got [] w p h later e = cc
  after_read-finishes more rounds n got (b ∷ chunk) w p h later e =
      let size = length-++ (b ∷ chunk) (left (sys.read d n w).1) in
      let whole = ap length (reads.in_order n w (b ∷ chunk) p) in
      later (got ++ b ∷ chunk) (omega (arith, size, whole, h)) e

  -- With more rounds than bytes are left, the loop that reads a file comes to its end, in chunks of any size.
  pub read_loop-finishes :
      ((n : ℕ) (w : W) → (sys.read d n w).0 ≢ raised hash_unfinished)
      → (rounds n : ℕ) (got : Bytes) (w : W) → length (left w) < rounds
      → (read_loop sys rounds d n got w).0 ≢ raised hash_unfinished
  unfolding read_loop
  read_loop-finishes k zero n got w h e = omega (arith, h)
  read_loop-finishes k (suc rounds) n got w h e =
      let more = read_loop sys rounds d n in
      elim (resume-eq-raised (sys.read d n w) (after_read more got) e) [
        | inl p ↦ k n w p
        | inr (chunk, p, q) ↦
            after_read-finishes more rounds n got chunk w p (omega (arith, h))
              (λ got' small. read_loop-finishes k rounds n got' (sys.read d n w).1 small) q
      ]

  -- When reads return what comes next in the file, and nothing only at its end, a hash that is returned is
  -- that of all that was left to read, with its length, in whatever chunks it was read.
  pub hash_descriptor-contents :
      (rounds n : ℕ) (w : W) (h : Hashed)
      → (hash_descriptor sys rounds d n w).0 ≡ ok h
      → (h.digest ≡ append "sha256:" (sys.sha256 (left w))) × (h.hashed ≡ length (left w))
  unfolding hash_descriptor
  hash_descriptor-contents rounds n w h e =
      let (u, p, e1, w1) = resume-eq-ok (raise_if (eqb n 0) chunk_not_positive, w) _ e in
      let positive : 0 < n = ground (arith, raise_if-ok (eqb n 0) chunk_not_positive p) in
      let (earlier, p2, e2, w2) = resume-eq-ok (sys.fstat d w) _ e1 in
      let (bytes, p3, e3, w3) = resume-eq-ok (read_loop sys rounds d n [] (sys.fstat d w).1) _ e2 in
      let read : bytes ≡ left w =
        read_loop-contents rounds n [] bytes (sys.fstat d w).1 positive p3 ∙ reads.keeps w in
      let (later, p4, e4, w4) =
        resume-eq-ok (sys.fstat d (read_loop sys rounds d n [] (sys.fstat d w).1).1) _ e3 in
      let (u', p5, e5, w5) =
        resume-eq-ok
          (
            raise_if (not (same_content (content_identity earlier) (content_identity later)))
                changed_during_validation,
            (sys.fstat d (read_loop sys rounds d n [] (sys.fstat d w).1).1).1,
          )
          _ e4 in
      let same : record {
        digest = append "sha256:" (sys.sha256 bytes);
        hashed = length bytes;
        content = content_identity later;
        diagnostics = diagnostic_identity later;
      }
          ≡ h =
        ok_injective e5 in
      (
        sym (ap (λ x. x.digest) same) ∙ ap (λ b. append "sha256:" (sys.sha256 b)) read,
        sym (ap (λ x. x.hashed) same) ∙ ap length read,
      )
