-- ===== src/Validation/Acceptance.antt =====
-- What it takes for `_validate_payload_python` to accept a payload.
use coldsnap.Base.{
  pos, ℕ, String, Bool, true, ◌&&◌, not, Option, some, none, ◌≡◌, ◌⊎◌, inl, inr, refl, arith,
  Result, ok, raise_if, raise_if-ok, ok_injective, Bool-cases, and-true, eqb_ℤ, eqb_ℤ_iff, ◌==◌,
  ==_eq, string_eq, ℤ, Json, sym, ap, ◌∙◌, subst,
}
use coldsnap.Coordinator.Actions.{resume, lift, resume-eq-ok}
use coldsnap.Validation.Stats.{
  ValidationError, size_mismatch, digest_mismatch, Stat, content_identity, System, closing,
  open_regular_file, normalize_sha256,
}
use coldsnap.Validation.Hashing.{Hashed, hash_descriptor}
use coldsnap.Validation.Records.{record_matches, publish_validation_record}
use coldsnap.Validation.Opening.{
  IsDigest, IsOpened, IsRead, normalize_sha256-IsDigest, open_regular_file-IsOpened,
  read_marker-IsRead,
}
use coldsnap.Validation.Payloads.{
  Admission, Inspection, cached, rehashed, read_marker, inspect_marked, inspect, conclude,
  validate_payload_python,
}

module _ {W D : Type 0} (sys : System W D) where
  -- The record beside the payload serves: its file is regular and private, and it is for this payload.
  pub record IsCached (blob digest : String) (bytes : ℤ) (marker : String) (st : Stat) (w : W)
      (a : Admission) : Type 0 where
    pub value : Json
    pub read : IsRead sys marker w value
    pub matches :
        record_matches sys.float_is (sys.name blob) digest bytes (content_identity st) (some value)
        ≡ true
    pub hashed_none : a.bytes_hashed ≡ pos 0
    pub content : a.content ≡ content_identity st

  -- The descriptor was read in the world `w`, and its digest is the expected one.
  pub record IsRehashed (rounds : ℕ) (d : D) (chunk_bytes : ℕ) (digest : String) (w : W)
      (a : Admission) : Type 0 where
    pub found : Hashed
    pub hashing : (hash_descriptor sys rounds d chunk_bytes w).0 ≡ ok found
    pub expected : found.digest ≡ digest
    pub hashed_all : a.bytes_hashed ≡ pos found.hashed
    pub content : a.content ≡ found.content

  pub IsAccepted :
      (rounds chunk_bytes : ℕ) (blob expected : String) (bytes : ℤ) (marker : String) (w : W)
      (a : Admission)
      → Type 0
  IsAccepted rounds chunk_bytes blob expected bytes marker w a =
      (digest : String) × (d : D) × (st : Stat) × (v : W) × IsDigest expected digest
      × IsOpened sys blob w d v
      × ((sys.fstat d v).0 ≡ ok st)
      × (st.st_size ≡ bytes)
      × (IsCached blob digest bytes marker st (sys.fstat d v).1 a
          ⊎ IsRehashed rounds d chunk_bytes digest (read_marker sys marker (sys.fstat d v).1).1 a)

  matched_value :
      (name digest : String) (bytes : ℤ) (st : Stat) (found : Option Json)
      → record_matches sys.float_is name digest bytes (content_identity st) found ≡ true
      → (value : Json) × (found ≡ some value)
  unfolding record_matches
  matched_value name digest bytes st (some value) h = (value, refl)
  matched_value name digest bytes st none h = cc

  conclude-cached :
      (started : W) (blob digest : String) (bytes : ℤ) (marker : String) (st : Stat) (w : W)
      (a : Admission)
      → (conclude sys started blob digest bytes marker (cached st) w).0 ≡ ok a
      → (a.bytes_hashed ≡ pos 0) × (a.content ≡ content_identity st)
  unfolding conclude
  conclude-cached started blob digest bytes marker st w a h =
      let same = ok_injective h in
      (sym (ap (λ x. x.bytes_hashed) same), sym (ap (λ x. x.content) same))

  conclude-rehashed :
      (started : W) (blob digest : String) (bytes : ℤ) (marker : String) (f : Hashed) (w : W)
      (a : Admission)
      → (conclude sys started blob digest bytes marker (rehashed f) w).0 ≡ ok a
      → (f.digest ≡ digest) × (a.bytes_hashed ≡ pos f.hashed) × (a.content ≡ f.content)
  unfolding conclude
  conclude-rehashed started blob digest bytes marker f w a h =
      let (u, p, h1, w1) =
        resume-eq-ok (raise_if (not (f.digest == digest)) (digest_mismatch digest f.digest), w) _
          h in
      let (v, q, h2, w2) =
        resume-eq-ok
          (publish_validation_record sys blob digest bytes marker "full-sha256-this-operation" w) _
          h1 in
      let same = ok_injective h2 in
      let equal : (f.digest == digest) ≡ true =
        ground
          (arith, raise_if-ok (not (f.digest == digest)) (digest_mismatch digest f.digest) p) in
      (
        ==_eq f.digest digest equal,
        sym (ap (λ x. x.bytes_hashed) same),
        sym (ap (λ x. x.content) same),
      )

  -- What the inspection found, which the settlement is given.
  inspect_marked-cases :
      (rounds : ℕ) (d : D) (chunk_bytes : ℕ) (st : Stat) (blob digest : String) (bytes : ℤ)
      (seen : Bool × Option Json) (w : W) (i : Inspection)
      → (inspect_marked sys rounds d chunk_bytes st blob digest bytes (seen, w)).0 ≡ ok i
      → ((i ≡ cached st)
          × (seen.0 ≡ true)
          × (record_matches sys.float_is (sys.name blob) digest bytes (content_identity st) seen.1
              ≡ true))
        ⊎ ((f : Hashed) × (i ≡ rehashed f)
            × ((hash_descriptor sys rounds d chunk_bytes w).0 ≡ ok f))
  inspect_marked-cases rounds d chunk_bytes st blob digest bytes (mode, found) w i h =
      let test =
        record_matches sys.float_is (sys.name blob) digest bytes (content_identity st) found in
      elim (Bool-cases (mode && test)) [
        | inl serves ↦
            let q : (inspect_marked sys rounds d chunk_bytes st blob digest bytes
                  ((mode, found), w)).0
                ≡ ok (cached st) =
              unfold inspect_marked in rw serves refl in
            let (m, t) = and-true mode test serves in inl (ok_injective (sym h ∙ q), m, t)
        | inr stale ↦
            let q : inspect_marked sys rounds d chunk_bytes st blob digest bytes ((mode, found), w)
                ≡ resume (hash_descriptor sys rounds d chunk_bytes w)
                    (λ f. lift (ok (rehashed f))) =
              unfold inspect_marked in rw stale refl in
            let (f, p, made, w1) =
              resume-eq-ok (hash_descriptor sys rounds d chunk_bytes w)
                (λ f. lift (ok (rehashed f))) (sym (ap (λ o. o.0) q) ∙ h) in
            inr (f, sym (ok_injective made), p)
      ]

  closing-inner :
      {A : Type 0} (d : D) (o : Result ValidationError A × W) {a : A}
      → (closing sys d o).0 ≡ ok a
      → o.0 ≡ ok a
  closing-inner d (result, w) h = h

  inspect-cases :
      (rounds : ℕ) (d : D) (chunk_bytes : ℕ) (blob digest : String) (bytes : ℤ) (marker : String)
      (w : W) (i : Inspection)
      → (inspect sys rounds d chunk_bytes blob digest bytes marker w).0 ≡ ok i
      → (st : Stat) × ((sys.fstat d w).0 ≡ ok st)
        × (st.st_size ≡ bytes)
        × ((inspect_marked sys rounds d chunk_bytes st blob digest bytes
              (read_marker sys marker (sys.fstat d w).1)).0
            ≡ ok i)
  unfolding inspect
  inspect-cases rounds d chunk_bytes blob digest bytes marker w i h =
      let (st, p, h1, w1) = resume-eq-ok (sys.fstat d w) _ h in
      let (u, q, h2, w2) =
        resume-eq-ok
          (
            raise_if (not (eqb_ℤ st.st_size bytes)) (size_mismatch bytes st.st_size),
            (sys.fstat d w).1,
          )
          _ h1 in
      let equal : eqb_ℤ st.st_size bytes ≡ true =
        ground
          (arith, raise_if-ok (not (eqb_ℤ st.st_size bytes)) (size_mismatch bytes st.st_size) q) in
      (st, p, (eqb_ℤ_iff st.st_size bytes).0 equal, h2)

  -- A payload is accepted only if the digest that is expected is one of 64 characters, each a lower-case
  -- hexadecimal digit or white space of ASCII, with or without its prefix, the file that was opened is regular
  -- and of the expected size, and either a record was read from a regular and private file and is for its name,
  -- digest, size and present identity, and then nothing is hashed, or the open file was hashed and has the
  -- expected digest; the identity returned is the one that was compared.
  pub validate_payload_python-IsAccepted :
      (rounds chunk_bytes : ℕ) (blob expected : String) (bytes : ℤ) (marker : String) (w : W)
      (a : Admission)
      → (validate_payload_python sys rounds chunk_bytes blob expected bytes marker w).0 ≡ ok a
      → IsAccepted rounds chunk_bytes blob expected bytes marker w a
  unfolding validate_payload_python IsAccepted
  validate_payload_python-IsAccepted rounds chunk_bytes blob expected bytes marker w a h =
      let (digest, p, h1, w1) = resume-eq-ok (normalize_sha256 expected, w) _ h in
      let (d, q, h2, w2) = resume-eq-ok (open_regular_file sys blob w) _ h1 in
      let w' = (open_regular_file sys blob w).1 in
      let outcome = inspect sys rounds d chunk_bytes blob digest bytes marker w' in
      let (i, r, h3, w3) =
        resume-eq-ok (closing sys d outcome) (conclude sys w blob digest bytes marker) h2 in
      let (st, s, size, marked) =
        inspect-cases rounds d chunk_bytes blob digest bytes marker w' i
          (closing-inner d outcome r) in
      let w2 = (sys.fstat d w').1 in
      let seen = read_marker sys marker w2 in
      (
        digest,
        d,
        st,
        w',
        normalize_sha256-IsDigest expected digest p,
        open_regular_file-IsOpened sys blob w d q,
        s,
        size,
        judged d blob digest bytes marker st w2 i (closing sys d outcome).1
            (inspect_marked-cases rounds d chunk_bytes st blob digest bytes seen.0 seen.1 i marked)
            h3,
      )
    where
      judged :
          (d : D) (blob digest : String) (bytes : ℤ) (marker : String) (st : Stat) (u : W)
          (i : Inspection) (w' : W)
          → ((i ≡ cached st)
              × ((read_marker sys marker u).0.0 ≡ true)
              × (record_matches sys.float_is
                    (sys.name blob)
                    digest
                    bytes
                    (content_identity st)
                    (read_marker sys marker u).0.1
                  ≡ true))
            ⊎ ((f : Hashed) × (i ≡ rehashed f)
                × ((hash_descriptor sys rounds d chunk_bytes (read_marker sys marker u).1).0
                    ≡ ok f))
          → (conclude sys w blob digest bytes marker i w').0 ≡ ok a
          → IsCached blob digest bytes marker st u a
            ⊎ IsRehashed rounds d chunk_bytes digest (read_marker sys marker u).1 a
      judged d blob digest bytes marker st u i w' (inl (e, m, t)) k =
          let (none_hashed, content) =
            conclude-cached w blob digest bytes marker st w' a
              (subst (λ x. (conclude sys w blob digest bytes marker x w').0 ≡ ok a) e k) in
          let (value, is) = matched_value (sys.name blob) digest bytes st _ t in
          inl (record {
            value = value;
            read = read_marker-IsRead sys marker u value m is;
            matches =
                subst
                  (λ o.
                    record_matches sys.float_is (sys.name blob) digest bytes (content_identity st) o
                    ≡ true)
                  is t;
            hashed_none = none_hashed;
            content = content;
          })
      judged d blob digest bytes marker st u i w' (inr (f, e, p)) k =
          let (digest_found, size, content) =
            conclude-rehashed w blob digest bytes marker f w' a
              (subst (λ x. (conclude sys w blob digest bytes marker x w').0 ≡ ok a) e k) in
          inr (record {
            found = f;
            hashing = p;
            expected = digest_found;
            hashed_all = size;
            content = content;
          })
