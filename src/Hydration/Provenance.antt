-- ===== src/Hydration/Provenance.antt =====
-- What the selection of a native library from the environment makes sure of.
use coldsnap.Base.{
  String, Bool, true, false, ◌&&◌, not, Option, none, some, ◌≡◌, ◌≢◌, ◌⊎◌, inl, inr, refl, Result,
  ok, ◌>>=◌, ◌>>◌, raise_if, Bool-cases, is_empty, ◌==◌, ==_eq, string_eq, >>=-eq-ok,
  raise_if-eq-ok, raise_if-ok, ok_injective, sym, ap, ◌∙◌, subst,
}
use coldsnap.Hydration.Extents.{refuses_hex, fails}
use coldsnap.Hydration.Backends.{hydration_id}
use coldsnap.Hydration.Environment.{
  SelectionFailure, library_required, invalid_library_sha256, unknown_selection, digest_differs,
  Loader, NativeHydrator, text_or_empty, configured, native_hydrator, check_library,
  native_transport, selected, hydrator_from_env,
}

module _ (loader : Loader) (environ : String → Option String) where
  check_library-ok :
      (expected : String) (hydrator : NativeHydrator) {u : Unit {0}}
      → check_library loader environ expected hydrator ≡ ok u
      → (is_empty expected ≡ true) ⊎ (loader.sha256 hydrator.library_path ≡ ok expected)
  unfolding check_library
  check_library-ok expected hydrator h = elim (Bool-cases (is_empty expected)) [
    | inl none_given ↦ inl none_given
    | inr given ↦
        let checks : Result SelectionFailure (Unit {0}) = (do
          raise_if (refuses_hex 64 expected) invalid_library_sha256
          actual ← loader.sha256 hydrator.library_path
          raise_if (not (actual == expected)) (digest_differs expected actual)) in
        let q : check_library loader environ expected hydrator ≡ checks = rw given refl in
        let (fine, h1) =
          raise_if-eq-ok (refuses_hex 64 expected) invalid_library_sha256 _ (sym q ∙ h) in
        let (actual, p, h2) = >>=-eq-ok (loader.sha256 hydrator.library_path) _ h1 in
        let same =
          unnegated (actual == expected)
            (raise_if-ok (not (actual == expected)) (digest_differs expected actual) h2) in
        inr (p ∙ ap ok (==_eq actual expected same))
  ]
    where
      unnegated : (b : Bool) → not b ≡ false → b ≡ true
      unnegated true h = refl
      unnegated false h = cc

  native_transport-ok :
      (hydrator : NativeHydrator)
      → native_transport loader environ ≡ ok hydrator
      → (is_empty (text_or_empty (environ "COLDSNAP_HYDRATION_NATIVE_SHA256")) ≡ true)
        ⊎ (loader.sha256 hydrator.library_path
            ≡ ok (text_or_empty (environ "COLDSNAP_HYDRATION_NATIVE_SHA256")))
  unfolding native_transport
  native_transport-ok hydrator h =
      let path = text_or_empty (environ "COLDSNAP_HYDRATION_NATIVE_LIBRARY") in
      let expected = text_or_empty (environ "COLDSNAP_HYDRATION_NATIVE_SHA256") in
      let (a, h1) = raise_if-eq-ok (is_empty path) library_required _ h in
      let (made, p, h2) = >>=-eq-ok (native_hydrator loader environ path) _ h1 in
      let (u, q, h3) = >>=-eq-ok (check_library loader environ expected made) _ h2 in
      let same = ok_injective h3 in
      subst
        (λ (x : NativeHydrator).
          (is_empty expected ≡ true) ⊎ (loader.sha256 x.library_path ≡ ok expected))
        same (check_library-ok expected made q)

  selected-some :
      (unknown : Bool) (backend name : String) (hydrator : NativeHydrator)
      → selected loader environ unknown backend ≡ ok (some (hydrator, name))
      → (name ≡ backend)
        × (unknown ≡ false)
        × ((backend == "python") ≡ false)
        × (native_transport loader environ ≡ ok hydrator)
  unfolding selected
  selected-some unknown backend name hydrator h = elim (Bool-cases (backend == "python")) [
    | inl plain ↦
        let q : selected loader environ unknown backend ≡ ok none = rw plain refl in
        let e : Path (Option (NativeHydrator × String)) none (some (hydrator, name)) =
          ok_injective (sym q ∙ h) in
        cc
    | inr native ↦
        let chain : Result SelectionFailure (Option (NativeHydrator × String)) = (do
          raise_if unknown unknown_selection
          made ← native_transport loader environ
          ok (some (made, backend))) in
        let q : selected loader environ unknown backend ≡ chain = rw native refl in
        let (a, h1) = raise_if-eq-ok unknown unknown_selection _ (sym q ∙ h) in
        let (made, p, h2) = >>=-eq-ok (native_transport loader environ) _ h1 in
        let e : some (made, backend) ≡ some (hydrator, name) = ok_injective h2 in
        let (same, named) = some_pair made hydrator backend name e in
        (sym named, a, native, p ∙ ap ok same)
  ]
    where
      some_pair :
          (h h' : NativeHydrator) (b b' : String)
          → Path (Option (NativeHydrator × String)) (some (h, b)) (some (h', b'))
          → (h ≡ h') × (b ≡ b')
      some_pair h h' b b' e =
          let p : Path (NativeHydrator × String) (h, b) (h', b') = cc in
          (ap (λ x. x.0) p, ap (λ x. x.1) p)

  -- A native library for hydration is selected loader environ only if the environment asks for a backend that is not Python's
  -- and is known or automatic, and if the digest in the environment is empty or missing, or is that of the
  -- library's file.
  pub hydrator_from_env-selects :
      (hydrator : NativeHydrator) (backend : String)
      → hydrator_from_env loader environ ≡ ok (some (hydrator, backend))
      → (backend ≡ configured (environ "COLDSNAP_HYDRATION_BACKEND"))
        × (backend ≢ "python")
        × ((not (backend == "auto") && fails (hydration_id backend)) ≡ false)
        × ((is_empty (text_or_empty (environ "COLDSNAP_HYDRATION_NATIVE_SHA256")) ≡ true)
            ⊎ (loader.sha256 hydrator.library_path
                ≡ ok (text_or_empty (environ "COLDSNAP_HYDRATION_NATIVE_SHA256"))))
  unfolding hydrator_from_env
  hydrator_from_env-selects hydrator backend h =
      let wanted = configured (environ "COLDSNAP_HYDRATION_BACKEND") in
      let (named, known, native, made) =
        selected-some (not (wanted == "auto") && fails (hydration_id wanted)) wanted backend
          hydrator h in
      (
        named,
        λ e.
            let same : wanted ≡ "python" = sym named ∙ e in
            let yes_python : (wanted == "python") ≡ true =
              subst (λ s. (s == "python") ≡ true) (sym same) refl in
            let clash : true ≡ false = sym yes_python ∙ native in cc,
        subst (λ b. (not (b == "auto") && fails (hydration_id b)) ≡ false) (sym named) known,
        native_transport-ok hydrator made,
      )
