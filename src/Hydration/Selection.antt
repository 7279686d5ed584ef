-- ===== src/Hydration/Selection.antt =====
-- The backend that a capture uses.
use coldsnap.Base.{
  ℕ, String, Bool, true, false, ◌&&◌, ◌||◌, Option, none, some, List, ◌≡◌, ◌≢◌, inl, inr, refl,
  arith, Result, ok, raised, ◌>>=◌, ◌>>◌, >>=-eq-ok, raise_if, raise_if-eq-ok, if◌then◌else◌, all,
  all-true, and-true, All, ◌==◌, string_eq, ap, ◌∙◌, sym, subst, eq_iff, Bool-cases,
}
use coldsnap.Hydration.Digests.{HydrationFailure, unknown_backend, backend_unavailable, no_backend}
use coldsnap.Hydration.Extents.{CaptureExtent, fails}
use coldsnap.Hydration.Backends.{
  NativeLibrary, capture_answer, capture_available, resolve_capture_backend, capture_id, is_aligned,
  known,
}

-- A backend that may be used for a request: one of the two, which the library says it has; the requested
-- one, or for `auto` a choice that is direct only if direct transfers can express every extent.
pub record IsUsable (l : NativeLibrary) (requested : String) (extents : List CaptureExtent)
    (pad : Bool) (backend : String) : Type 0 where
  pub id : ℕ
  pub named : capture_id backend ≡ some id
  pub answered : capture_answer l id ≡ true
  pub explicit : requested ≢ "auto" → backend ≡ requested
  pub fitting :
      requested ≡ "auto"
      → backend ≡ "direct"
      → All
          (λ (e : CaptureExtent). is_aligned e.file_offset && (pad || is_aligned e.length) ≡ true)
          extents

pub if_raised-eq-ok :
    (test : Bool) (value : String) (e : HydrationFailure) (backend : String)
    → (if test then ok value else raised e) ≡ ok backend
    → (test ≡ true) × (value ≡ backend)
if_raised-eq-ok true value e backend h = let same : value ≡ backend = cc in (refl, same)
if_raised-eq-ok false value e backend h = cc

pub known-eq-ok : (o : Option ℕ) (id : ℕ) → known o ≡ ok id → o ≡ some id
known-eq-ok none id h = cc
known-eq-ok (some n) id h = let same : n ≡ id = cc in ap some same

module _ (l : NativeLibrary) (extents : List CaptureExtent) (pad : Bool) where
  capture_available-eq-true :
      (name : String)
      → capture_available l name ≡ ok true
      → (id : ℕ) × (capture_id name ≡ some id) × (capture_answer l id ≡ true)
  unfolding capture_available
  capture_available-eq-true name h =
      let (id, a, b) = >>=-eq-ok (known (capture_id name)) _ h in
      let granted : capture_answer l id ≡ true = cc in
      (id, known-eq-ok (capture_id name) id a, granted)

  explicit-IsUsable :
      (requested backend : String)
      → requested ≢ "auto"
      → (raise_if (fails (capture_id requested)) unknown_backend
          >> (capture_available l requested >>= λ usable.
              if usable then ok requested else raised backend_unavailable))
        ≡ ok backend
      → IsUsable l requested extents pad backend
  explicit-IsUsable requested backend n h =
      let (f, h1) = raise_if-eq-ok (fails (capture_id requested)) unknown_backend _ h in
      let (usable, p, h2) = >>=-eq-ok (capture_available l requested) _ h1 in
      let (granted, same) = if_raised-eq-ok usable requested backend_unavailable backend h2 in
      let (id, named, answered) = capture_available-eq-true requested (p ∙ ap ok granted) in
      record {
        id = id;
        named = ap capture_id (sym same) ∙ named;
        answered = answered;
        explicit = λ m. sym same;
        fitting = λ auto direct. absurd (n auto);
      }

  direct-IsUsable :
      (backend : String)
      → (all
            (λ (e : CaptureExtent). is_aligned e.file_offset && (pad || is_aligned e.length))
            extents
          && capture_answer l 2)
        ≡ true
      → "direct" ≡ backend
      → IsUsable l "auto" extents pad backend
  direct-IsUsable backend h same =
      let (fits, answered) = and-true _ _ h in
      record {
        id = 2;
        named = ap capture_id (sym same) ∙ (unfold capture_id in refl);
        answered = answered;
        explicit = λ n. absurd (n refl);
        fitting = λ auto direct. (all-true _ extents).0 fits;
      }

  buffered-IsUsable :
      (backend : String)
      → capture_answer l 1 ≡ true
      → "buffered" ≡ backend
      → IsUsable l "auto" extents pad backend
  buffered-IsUsable backend answered same = record {
    id = 1;
    named = ap capture_id (sym same) ∙ (unfold capture_id in refl);
    answered = answered;
    explicit = λ n. absurd (n refl);
    fitting = λ auto direct. absurd (buffered_not_direct (same ∙ direct));
  }
    where
      buffered_not_direct : Path String "buffered" "direct" → ⊥
      buffered_not_direct e = cc

  auto-IsUsable :
      (backend : String)
      → (if all
              (λ (e : CaptureExtent). is_aligned e.file_offset && (pad || is_aligned e.length))
              extents
            && capture_answer l 2
          then ok "direct"
          else if capture_answer l 1
          then ok "buffered"
          else raised no_backend)
        ≡ ok backend
      → IsUsable l "auto" extents pad backend
  auto-IsUsable backend h =
      elim (Bool-cases (
        all (λ (e : CaptureExtent). is_aligned e.file_offset && (pad || is_aligned e.length))
          extents
        && capture_answer l 2)) [
          | inl fits ↦
              let chosen : Path (Result HydrationFailure String) (ok "direct") (ok backend) =
                ground arith in
              direct-IsUsable backend fits cc
          | inr misfits ↦
              let (granted, same) =
                if_raised-eq-ok (capture_answer l 1) "buffered" no_backend backend (ground arith) in
              buffered-IsUsable backend granted same
        ]

  -- The backend that the capture policy returns is one of the two, the native library has it, it is the
  -- requested one unless that is `auto`, and `auto` is direct only where every extent is aligned.
  pub resolve_capture_backend-IsUsable :
      (requested backend : String)
      → resolve_capture_backend l requested extents pad ≡ ok backend
      → IsUsable l requested extents pad backend
  unfolding resolve_capture_backend
  resolve_capture_backend-IsUsable requested backend h = elim (Bool-cases (requested == "auto")) [
    | inl auto ↦
        let same : requested ≡ "auto" = (eq_iff requested "auto").0 auto in
        subst (λ r. IsUsable l r extents pad backend) (sym same)
          (auto-IsUsable backend (ground arith))
    | inr other ↦
        explicit-IsUsable requested backend (λ same. ground (arith, eq_iff requested "auto"))
          (ground arith)
  ]
