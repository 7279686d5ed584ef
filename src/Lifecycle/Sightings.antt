-- ===== src/Lifecycle/Sightings.antt =====
-- What the client has seen of the engine when `wait_state` and `infer` return.
use coldsnap.Base.{
  ℕ, zero, suc, Bool, true, false, not, Option, some, ◌≡◌, ◌⊎◌, inl, inr, refl, Result, ok, raised,
  raise_if, raise_if-ok, ok_injective, Bool-cases, if◌then◌else◌, ltb, ◌==◌, ==_eq, string_eq, Json,
  sym, ap, ◌∙◌,
}
use coldsnap.Coordinator.Actions.{Action, lift, resume, resume-eq-ok}
use coldsnap.Lifecycle.Machine.{
  LifecycleError, state_not_converged, response_mismatch, Args, Machine, eq_bool,
}
use coldsnap.Lifecycle.Client.{
  request, sleeping, wait_round, wait_state, question, answer_of, infer,
}

-- A call that returns a value and leaves a world
abbrev pub Returns : {W A : Type 0} → Result LifecycleError A × W → A → W → Type 0
Returns o x v = (o.0 ≡ ok x) × (o.1 ≡ v)

pub resume-Returns :
    {W A B : Type 0} (o : Result LifecycleError A × W) (next : A → Action W LifecycleError B)
    (y : B) (v : W)
    → Returns (resume o next) y v
    → (x : A) × Returns o x o.1 × Returns (next x o.1) y v
resume-Returns o next y v h =
    let (x, p, q, r) = resume-eq-ok o next h.0 in (x, (p, refl), (q, sym r ∙ h.1))

unnegated : (b : Bool) → not b ≡ false → b ≡ true
unnegated true h = refl
unnegated false h = cc

eq_bool-eq : (a b : Bool) → eq_bool a b ≡ true → a ≡ b
eq_bool-eq true true h = refl
eq_bool-eq true false h = cc
eq_bool-eq false true h = cc
eq_bool-eq false false h = refl

decided :
    {W : Type 0} (same : Bool) (u next : W) (again : Action W LifecycleError (Unit {0})) {v : W}
    → Returns (if same then (ok tt, u) else again next) tt v
    → ((same ≡ true) × (u ≡ v)) ⊎ Returns (again next) tt v
decided true u next again h = inl (refl, h.1)
decided false u next again h = inr h

module _ {W D : Type 0} (sys : Machine W D) (args : Args) (rounds deadline : ℕ) where
  -- The state was seen, in time.
  abbrev pub Converged : Bool → W → Type 0
  Converged expected v =
      (u : W) × Returns (sleeping sys args deadline u) expected v
      × (ltb (sys.monotonic u) deadline ≡ true)

  -- The engine answered the prompt with the expected text.
  abbrev pub Answered : W → W → Type 0
  Answered u v =
      (reply : Option Json) × Returns
        (request sys args deadline "POST" "/v1/chat/completions" (some (question sys args deadline))
          u)
        reply v
      × (answer_of sys args deadline reply ≡ ok args.expected)

  pub wait_state-Converged :
      (n : ℕ) (expected : Bool) (w v : W)
      → Returns (wait_state sys args deadline n expected w) tt v
      → Converged expected v
  unfolding wait_state wait_round
  wait_state-Converged zero expected w v h = let e = h.0 in cc
  wait_state-Converged (suc n) expected w v h = elim (Bool-cases (ltb (sys.monotonic w) deadline)) [
    | inl early ↦
        let (state, seen, rest) =
          resume-Returns (sleeping sys args deadline w) _ tt v (in_time early h) in
        elim (decided (eq_bool state expected) _ _ (wait_state sys args deadline n expected) rest) [
          | inl (same, here) ↦ (w, (seen.0 ∙ ap ok (eq_bool-eq state expected same), here), early)
          | inr again ↦ wait_state-Converged n expected _ v again
        ]
    | inr late ↦ let e = (over late h).0 in cc
  ]
    where
      in_time :
          ltb (sys.monotonic w) deadline ≡ true
          → Returns (wait_state sys args deadline (suc n) expected w) tt v
          → Returns
              (wait_round sys args deadline expected (wait_state sys args deadline n expected) w)
              tt
              v
      in_time early h = rw early at h

      over :
          ltb (sys.monotonic w) deadline ≡ false
          → Returns (wait_state sys args deadline (suc n) expected w) tt v
          → Returns {A = Unit {0}} (raised state_not_converged, w) tt v
      over late h = rw late at h

  pub infer-Answered :
      (accepted : Bool) (w v : W)
      → Returns (infer sys args deadline w) accepted v
      → (accepted ≡ true) × Answered w v
  unfolding infer
  infer-Answered accepted w v h =
      let (reply, p, h1) =
        resume-Returns
          (request sys args deadline "POST" "/v1/chat/completions"
            (some (question sys args deadline)) w)
          _ accepted v h in
      let (actual, q, h2) =
        resume-Returns (lift (answer_of sys args deadline reply) _) _ accepted v h1 in
      let (u, r, h3) =
        resume-Returns (lift (raise_if (not (actual == args.expected)) response_mismatch) _) _
          accepted v h2 in
      let same : actual ≡ args.expected =
        ==_eq actual args.expected (unnegated _ (raise_if-ok _ response_mismatch r.0)) in
      (sym (ok_injective h3.0), (reply, (p.0, h3.1), q.0 ∙ ap ok same))
