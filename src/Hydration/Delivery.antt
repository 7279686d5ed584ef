-- ===== src/Hydration/Delivery.antt =====
-- What a hydration that returns has done.
use coldsnap.Base.{
  ℕ, String, Bool, true, false, ◌&&◌, ◌||◌, not, Option, none, some, List, [], ◌∷◌, ◌≡◌, ◌≢◌, inl,
  inr, refl, arith, ok, raised, ◌>>=◌, >>=-eq-ok, raise_if-eq-ok, if◌then◌else◌, eqb, eqb_iff, all,
  all-true, and-true, All, ℤ, ◌==◌, string_eq, ap, ◌∙◌, sym, subst, eq_iff, Bool-cases,
}
use coldsnap.Hydration.Digests.{
  no_extents, invalid_chunk, invalid_depth, gds_unverified, native_error, incompatible_abi,
  no_backend,
}
use coldsnap.Hydration.Extents.{
  HydrationExtent, NativeExtent, native_extent, verification_of, crc32_number, digest_bytes, u64,
  u32,
}
use coldsnap.Hydration.Backends.{
  NativeLibrary, NativeResult, hydration_id, backend_id, resolve_backend, is_aligned,
}
use coldsnap.Hydration.Transfers.{
  TransferTerms, HydrationMetrics, is_nil, refuses_chunk, refuses_depth, options_of, native_extents,
  metrics_of, is_zero, accept_result, hydrate,
}
use coldsnap.Hydration.Selection.{known-eq-ok, if_raised-eq-ok}

-- The library is told of each extent, and to check the bytes of each that has a CRC32.
pub Describes : List HydrationExtent → List NativeExtent → Type 0
Describes [] [] = Unit
Describes (e ∷ es) (n ∷ ns) =
    (n.file_offset ≡ u64 e.file_offset)
    × (n.destination ≡ u64 e.destination)
    × (n.length ≡ u64 e.length)
    × (e.crc32 ≢ none → n.verification ≢ 0)
    × Describes es ns
Describes _ _ = ⊥

verification_of-some : (e : HydrationExtent) → e.crc32 ≢ none → verification_of false e ≢ 0
verification_of-some e h z = go e.crc32 e.sha256 h z
  where
    go :
        (crc sha : Option String)
        → crc ≢ none
        → Path ℕ (elim crc [ none ↦ 0 | some c ↦ elim sha [ none ↦ 1 | some s ↦ 2 ] ]) 0
        → ⊥
    go none sha h z = h refl
    go (some c) none h z = omega arith
    go (some c) (some s) h z = omega arith

Describes-cons :
    (e : HydrationExtent) (es : List HydrationExtent) (n : NativeExtent) (ns : List NativeExtent)
    → native_extent false e ≡ ok n
    → Describes es ns
    → Describes (e ∷ es) (n ∷ ns)
unfolding native_extent Describes
Describes-cons e es n ns h d =
    let (crc, p, h1) = >>=-eq-ok (crc32_number e.crc32) _ h in
    let (bytes, q, h2) = >>=-eq-ok (digest_bytes e.sha256) _ h1 in
    let made : record {
      file_offset = u64 e.file_offset;
      destination = u64 e.destination;
      length = u64 e.length;
      verification = verification_of false e;
      expected_crc32 = u32 crc;
      expected_sha256 = bytes;
    }
        ≡ n =
      cc in
    subst (λ x. Describes (e ∷ es) (x ∷ ns)) made (refl, refl, refl, verification_of-some e, d)

native_extents-Describes :
    (es : List HydrationExtent) (ns : List NativeExtent)
    → native_extents false es ≡ ok ns
    → Describes es ns
unfolding native_extents
native_extents-Describes [] ns h =
    let e : [] ≡ ns = cc in subst (Describes []) e (unfold Describes in tt)
native_extents-Describes (e ∷ es) ns h =
    let (first, p, h1) = >>=-eq-ok (native_extent false e) _ h in
    let (rest, q, h2) = >>=-eq-ok (native_extents false es) _ h1 in
    let made : first ∷ rest ≡ ns = cc in
    subst (Describes (e ∷ es)) made
      (Describes-cons e es first rest p (native_extents-Describes es rest q))

-- `auto` is direct only where every extent is aligned, and an explicit backend is kept.
pub record IsResolved (requested : String) (extents : List HydrationExtent) (backend : String)
    : Type 0 where
  pub explicit : requested ≢ "auto" → backend ≡ requested
  pub fitting :
      requested ≡ "auto"
      → backend ≡ "direct"
      → All
          (λ (e : HydrationExtent). is_aligned e.file_offset && is_aligned e.length ≡ true)
          extents

module _ (l : NativeLibrary) (extents : List HydrationExtent) where
  auto-IsResolved :
      (backend : String)
      → (if all (λ (e : HydrationExtent). is_aligned e.file_offset && is_aligned e.length) extents
            && l.backend_available 2
          then ok "direct"
          else if l.backend_available 1
          then ok "buffered"
          else raised no_backend)
        ≡ ok backend
      → IsResolved "auto" extents backend
  auto-IsResolved backend h =
      elim (Bool-cases (
        all (λ (e : HydrationExtent). is_aligned e.file_offset && is_aligned e.length) extents
        && l.backend_available 2)) [
          | inl fits ↦
              let (aligned, there) = and-true _ _ fits in
              record {
                explicit = λ n. absurd (n refl);
                fitting = λ auto direct. (all-true _ extents).0 aligned;
              }
          | inr misfits ↦
              let (there, same) =
                if_raised-eq-ok (l.backend_available 1) "buffered" no_backend backend
                  (ground arith) in
              record {
                explicit = λ n. absurd (n refl);
                fitting = λ auto direct. absurd (buffered_not_direct (same ∙ direct));
              }
        ]
    where
      buffered_not_direct : Path String "buffered" "direct" → ⊥
      buffered_not_direct e = cc

  resolve_backend-IsResolved :
      (requested backend : String)
      → resolve_backend l requested extents ≡ ok backend
      → IsResolved requested extents backend
  unfolding resolve_backend
  resolve_backend-IsResolved requested backend h = elim (Bool-cases (requested == "auto")) [
    | inl auto ↦
        let same : requested ≡ "auto" = (eq_iff requested "auto").0 auto in
        subst (λ r. IsResolved r extents backend) (sym same)
          (auto-IsResolved backend (ground arith))
    | inr other ↦
        let n : requested ≢ "auto" = λ same. ground (arith, eq_iff requested "auto") in
        let kept : (backend_id requested >>= λ id. ok requested) ≡ ok backend = ground arith in
        let (id, p, q) = >>=-eq-ok (backend_id requested) _ kept in
        let same : requested ≡ backend = cc in
        record { explicit = λ m. sym same; fitting = λ auto direct. absurd (n auto) }
  ]

-- A hydration that has been carried out.
pub record IsHydrated (l : NativeLibrary) (path : String) (extents : List HydrationExtent)
    (terms : TransferTerms) (preverified register_device_buffers : Bool) (m : HydrationMetrics)
    : Type 0 where
  pub some_extent : is_nil extents ≡ false
  pub chosen : String
  pub resolved : IsResolved terms.backend extents chosen
  pub checked : chosen ≡ "gds" → preverified ≡ true
  pub id : ℕ
  pub numbered : hydration_id chosen ≡ some id
  pub natives : List NativeExtent
  pub given : native_extents preverified extents ≡ ok natives
  pub described : preverified ≡ false → Describes extents natives
  pub outcome : ℤ × NativeResult
  pub called :
      outcome
      ≡ l.hydrate_file path natives (options_of id (if register_device_buffers then 1 else 0) terms)
  pub succeeded : is_zero l outcome.0 ≡ true
  pub same_backend : outcome.1.backend ≡ id
  pub returned : m ≡ metrics_of l chosen outcome.1

accept_result-eq-ok :
    (l : NativeLibrary) (backend : String) (id : ℕ) (outcome : ℤ × NativeResult)
    (m : HydrationMetrics)
    → accept_result l backend id outcome ≡ ok m
    → (is_zero l outcome.0 ≡ true) × (outcome.1.backend ≡ id) × (m ≡ metrics_of l backend outcome.1)
unfolding accept_result
accept_result-eq-ok l backend id (status, result) m h =
    let (a, h1) = raise_if-eq-ok (not (is_zero l status)) (native_error l.last_error) _ h in
    let (b, h2) =
      raise_if-eq-ok (not (eqb result.abi_version 1) || not (eqb result.backend id))
        incompatible_abi _ h1 in
    let made : metrics_of l backend result ≡ m = cc in
    (ground arith, ground (arith, eqb_iff result.backend id), sym made)

backend_id-eq-ok : (name : String) (id : ℕ) → backend_id name ≡ ok id → hydration_id name ≡ some id
unfolding backend_id
backend_id-eq-ok name id h = known-eq-ok (hydration_id name) id h

module _ (l : NativeLibrary) (path : String) (extents : List HydrationExtent)
    (terms : TransferTerms) (preverified register_device_buffers : Bool)
    (m : HydrationMetrics) where
  describes :
      (natives : List NativeExtent)
      → native_extents preverified extents ≡ ok natives
      → preverified ≡ false
      → Describes extents natives
  describes natives given unverified =
      native_extents-Describes extents natives
        (ap (λ p. native_extents p extents) (sym unverified) ∙ given)

  accept_result-IsHydrated :
      (chosen : String) (id : ℕ) (natives : List NativeExtent) (outcome : ℤ × NativeResult)
      → is_nil extents ≡ false
      → IsResolved terms.backend extents chosen
      → (chosen == "gds" && not preverified) ≡ false
      → backend_id chosen ≡ ok id
      → native_extents preverified extents ≡ ok natives
      → outcome
        ≡ l.hydrate_file path natives
            (options_of id (if register_device_buffers then 1 else 0) terms)
      → accept_result l chosen id outcome ≡ ok m
      → IsHydrated l path extents terms preverified register_device_buffers m
  accept_result-IsHydrated chosen id natives outcome a r g q n called h =
      let (succeeded, same, made) = accept_result-eq-ok l chosen id outcome m h in
      record {
        some_extent = a;
        chosen = chosen;
        resolved = r;
        checked = λ is_gds. ground (arith, eq_iff chosen "gds");
        id = id;
        numbered = backend_id-eq-ok chosen id q;
        natives = natives;
        given = n;
        described = describes natives n;
        outcome = outcome;
        called = called;
        succeeded = succeeded;
        same_backend = same;
        returned = made;
      }

-- A hydration that returns has used the backend asked for, or for `auto` a direct one only on aligned
-- extents, and GDS only on preverified bytes; it told the native library of every extent, and without a
-- preverified artifact to check each that has a CRC32; and it reports what that one call left.
pub hydrate-IsHydrated :
    (l : NativeLibrary) (path : String) (extents : List HydrationExtent) (terms : TransferTerms)
    (preverified register_device_buffers : Bool) (m : HydrationMetrics)
    → hydrate l path extents terms preverified register_device_buffers ≡ ok m
    → IsHydrated l path extents terms preverified register_device_buffers m
unfolding hydrate
hydrate-IsHydrated l path extents terms preverified register_device_buffers m h =
    let (a, h1) = raise_if-eq-ok (is_nil extents) no_extents _ h in
    let (b, h2) = raise_if-eq-ok (refuses_chunk terms.chunk_bytes) invalid_chunk _ h1 in
    let (c, h3) = raise_if-eq-ok (refuses_depth terms.queue_depth) invalid_depth _ h2 in
    let (chosen, p, h4) = >>=-eq-ok (resolve_backend l terms.backend extents) _ h3 in
    let (g, h5) = raise_if-eq-ok (chosen == "gds" && not preverified) gds_unverified _ h4 in
    let (id, q, h6) = >>=-eq-ok (backend_id chosen) _ h5 in
    let (natives, n, h7) = >>=-eq-ok (native_extents preverified extents) _ h6 in
    accept_result-IsHydrated l path extents terms preverified register_device_buffers m chosen id
      natives
      (l.hydrate_file path natives (options_of id (if register_device_buffers then 1 else 0) terms))
      a (resolve_backend-IsResolved l extents terms.backend chosen p) g q n refl h7
