-- ===== src/Hydration/Conduct.antt =====
-- What a capture that returns has done.
use coldsnap.Base.{
  ℕ, String, true, false, ◌&&◌, not, Option, none, some, List, [], ◌∷◌, ◌≡◌, ◌≢◌, inl, inr, refl,
  arith, ok, >>=-eq-ok, raise_if-eq-ok, eqb, eqb_iff, ◌==◌, string_eq, ap, ◌∙◌, sym, eq_iff,
  Bool-cases,
}
use coldsnap.Hydration.Digests.{
  no_extents, invalid_chunk, invalid_depth, native_error, incompatible_abi,
}
use coldsnap.Hydration.Extents.{CaptureExtent}
use coldsnap.Hydration.Captures.{
  CaptureFlags, CaptureResult, capture, named_result, run_capture, native_capture_extents, flags_of,
  capture_name, request_id, accept_capture, capture_result, check_order,
}
use coldsnap.Hydration.Transfers.{
  TransferTerms, is_zero, is_nil, refuses_chunk, refuses_depth, options_of,
}
use coldsnap.Hydration.Selection.{IsUsable, known-eq-ok, resolve_capture_backend-IsUsable}
use coldsnap.Hydration.Ordering.{IsOrdered, check_order_iff}
use coldsnap.Hydration.Backends.{
  NativeCaptureExtent, NativeOptions, CaptureOutcome, NativeLibrary, resolve_capture_backend,
  capture_id,
}

-- The name of a result's number is that of the request, when one was made by name.
capture_name-capture_id :
    (requested : String) (id : ℕ)
    → capture_id requested ≡ some id
    → capture_name id ≡ some requested
unfolding capture_id
capture_name-capture_id requested id h =
    ground (arith, eq_iff requested "buffered", eq_iff requested "direct")

capture_id_pos : (name : String) (id : ℕ) → capture_id name ≡ some id → eqb id 0 ≡ false
unfolding capture_id
capture_id_pos name id h = ground arith

module _ (l : NativeLibrary) where
  named_result-eq-ok :
      (id : ℕ) (extents : List CaptureExtent) (flags : CaptureFlags) (outcome : CaptureOutcome)
      (o : Option String) (r : CaptureResult)
      → named_result l id extents flags outcome o ≡ ok r
      → (name : String) × (o ≡ some name)
        × (eqb id 0 ≡ false → outcome.result.backend ≡ id)
        × (r ≡ capture_result l extents flags outcome name)
  unfolding named_result
  named_result-eq-ok id extents flags outcome none r h = cc
  named_result-eq-ok id extents flags outcome (some name) r h =
      let (a, made) =
        raise_if-eq-ok (not (eqb id 0) && not (eqb outcome.result.backend id)) incompatible_abi _
          h in
      let same : capture_result l extents flags outcome name ≡ r = cc in
      (name, refl, λ n. ground (arith, eqb_iff outcome.result.backend id), sym same)

-- A capture that has been carried out: the native call succeeded on the extents in order, and the result
-- holds what it left, under the backend's name.
pub record IsCaptured (l : NativeLibrary) (path : String) (extents : List CaptureExtent)
    (terms : TransferTerms) (flags : CaptureFlags) (r : CaptureResult) : Type 0 where
  pub some_extent : extents ≢ []
  pub ordered : IsOrdered flags.pad_extents extents
  pub chosen : String
  pub usable : IsUsable l terms.backend extents flags.pad_extents chosen
  pub operation : String → List NativeCaptureExtent → NativeOptions → CaptureOutcome
  pub exposed : l.capture_file ≡ some operation
  pub id : ℕ
  pub asked : request_id terms.backend chosen ≡ ok id
  pub natives : List NativeCaptureExtent
  pub given : native_capture_extents extents ≡ ok natives
  pub outcome : CaptureOutcome
  pub called : outcome ≡ operation path natives (options_of id (flags_of flags) terms)
  pub succeeded : is_zero l outcome.status ≡ true
  pub backend : String
  pub reported : capture_name outcome.result.backend ≡ some backend
  pub honoured : terms.backend ≢ "auto" → backend ≡ terms.backend
  pub returned : r ≡ capture_result l extents flags outcome backend

request_id_explicit :
    (requested backend : String) (id : ℕ)
    → requested ≢ "auto"
    → request_id requested backend ≡ ok id
    → capture_id backend ≡ some id
unfolding request_id
request_id_explicit requested backend id n h =
    elim (Bool-cases (requested == "auto" && backend == "direct")) [
      | inl both ↦ absurd (n ((eq_iff requested "auto").0 (ground arith)))
      | inr other ↦ known-eq-ok (capture_id backend) id (ground arith)
    ]

honoured_request :
    (requested chosen backend : String) (id number : ℕ)
    → requested ≢ "auto"
    → chosen ≡ requested
    → request_id requested chosen ≡ ok id
    → (eqb id 0 ≡ false → number ≡ id)
    → capture_name number ≡ some backend
    → backend ≡ requested
honoured_request requested chosen backend id number n same asked agreed named =
    let c : capture_id requested ≡ some id =
      ap capture_id (sym same) ∙ request_id_explicit requested chosen id n asked in
    let e : capture_name number ≡ some requested =
      ap capture_name (agreed (capture_id_pos requested id c))
      ∙ capture_name-capture_id requested id c in
    cc

module _ (l : NativeLibrary) (path : String) (extents : List CaptureExtent) (terms : TransferTerms)
    (flags : CaptureFlags) (r : CaptureResult) where
  accept_capture-IsCaptured :
      (chosen : String)
      (operation : String → List NativeCaptureExtent → NativeOptions → CaptureOutcome) (id : ℕ)
      (natives : List NativeCaptureExtent) (outcome : CaptureOutcome)
      → extents ≢ []
      → IsOrdered flags.pad_extents extents
      → IsUsable l terms.backend extents flags.pad_extents chosen
      → l.capture_file ≡ some operation
      → request_id terms.backend chosen ≡ ok id
      → native_capture_extents extents ≡ ok natives
      → outcome ≡ operation path natives (options_of id (flags_of flags) terms)
      → accept_capture l id extents flags outcome ≡ ok r
      → IsCaptured l path extents terms flags r
  unfolding accept_capture
  accept_capture-IsCaptured chosen operation id natives outcome n o u e asked given called h =
      let (a, h1) =
        raise_if-eq-ok (not (is_zero l outcome.status)) (native_error l.last_error) _ h in
      let (b, h2) = raise_if-eq-ok (not (eqb outcome.result.abi_version 1)) incompatible_abi _ h1 in
      let (name, named, agreed, made) =
        named_result-eq-ok l id extents flags outcome (capture_name outcome.result.backend) r h2 in
      record {
        some_extent = n;
        ordered = o;
        chosen = chosen;
        usable = u;
        operation = operation;
        exposed = e;
        id = id;
        asked = asked;
        natives = natives;
        given = given;
        outcome = outcome;
        called = called;
        succeeded = ground arith;
        backend = name;
        reported = named;
        honoured = λ m.
            honoured_request terms.backend chosen name id outcome.result.backend m (u.explicit m)
              asked agreed named;
        returned = made;
      }

  run_capture-IsCaptured :
      (chosen : String)
      (o : Option (String → List NativeCaptureExtent → NativeOptions → CaptureOutcome))
      → extents ≢ []
      → IsOrdered flags.pad_extents extents
      → IsUsable l terms.backend extents flags.pad_extents chosen
      → l.capture_file ≡ o
      → run_capture l path chosen extents terms flags o ≡ ok r
      → IsCaptured l path extents terms flags r
  unfolding run_capture
  run_capture-IsCaptured chosen none n o u e h = cc
  run_capture-IsCaptured chosen (some operation) n o u e h =
      let (id, asked, h1) = >>=-eq-ok (request_id terms.backend chosen) _ h in
      let (natives, given, h2) = >>=-eq-ok (native_capture_extents extents) _ h1 in
      accept_capture-IsCaptured chosen operation id natives
        (operation path natives (options_of id (flags_of flags) terms)) n o u e asked given refl h2

not_nil : (extents : List CaptureExtent) → is_nil extents ≡ false → extents ≢ []
not_nil [] h e = cc
not_nil (x ∷ xs) h e = cc

-- A capture that returns has passed the checks of its extents, in order and not overlapping, used a
-- backend that the policy allows, called the native library once with success, and reports what that call
-- left; a backend requested by name is the one reported.
pub capture-IsCaptured :
    (l : NativeLibrary) (path : String) (extents : List CaptureExtent) (terms : TransferTerms)
    (flags : CaptureFlags) (r : CaptureResult)
    → capture l path extents terms flags ≡ ok r
    → IsCaptured l path extents terms flags r
unfolding capture
capture-IsCaptured l path extents terms flags r h =
    let (a, h1) = raise_if-eq-ok (is_nil extents) no_extents _ h in
    let (b, h2) = raise_if-eq-ok (refuses_chunk terms.chunk_bytes) invalid_chunk _ h1 in
    let (c, h3) = raise_if-eq-ok (refuses_depth terms.queue_depth) invalid_depth _ h2 in
    let (u, o, h4) = >>=-eq-ok (check_order flags.pad_extents 0 extents) _ h3 in
    let (chosen, p, h5) =
      >>=-eq-ok (resolve_capture_backend l terms.backend extents flags.pad_extents) _ h4 in
    run_capture-IsCaptured l path extents terms flags r chosen l.capture_file (not_nil extents a)
      ((check_order_iff flags.pad_extents extents).0.0 o)
      (resolve_capture_backend-IsUsable l extents flags.pad_extents terms.backend chosen p) refl h5
