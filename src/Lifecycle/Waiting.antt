-- ===== src/Lifecycle/Waiting.antt =====
-- The loops of `control` end: as many rounds as the time allows are enough.
use coldsnap.Base.{
  ℕ, zero, suc, ◌+◌, ◌*◌, ◌≤◌, String, Bool, true, false, Option, none, some, List, [], ◌∷◌, ◌≡◌,
  inl, inr, refl, arith, Result, ok, raised, raise_if, Bool-cases, if◌then◌else◌, ltb, Json,
}
use coldsnap.Coordinator.Actions.{Action, lift}
use coldsnap.Lifecycle.Machine.{
  LifecycleError, response_mismatch, Engine, vllm, sglang, Args, Machine, eq_bool, json_error,
  first_item, get_field, subscript, vllm_state, sglang_state, parsed_text,
}
use coldsnap.Lifecycle.Client.{
  body_of, load_json, request, states_of, sleeping_on, sleeping, wait_round, wait_state, healthy_or,
  health, answer_of, infer, question,
}
use coldsnap.Lifecycle.Clock.{
  is_exhausted, IsStep, MachineLaws, StepsFrom, resume-IsStep, >>=-StepsFrom, lift-StepsFrom,
  demand-fine, and_then-fine, raise_if-fine, get_field-fine, subscript-fine, first_item-fine,
  vllm_state-fine, sglang_state-fine, parsed_text-fine,
}

module _ {W D : Type 0} (sys : Machine W D) (laws : MachineLaws sys) (args : Args)
    (deadline : ℕ) where
  body_of-fine : (payload : Option Json) → is_exhausted (body_of sys payload) ≡ false
  body_of-fine payload = ground arith

  pub request-StepsFrom :
      (d : ℕ) (method path : String) (payload : Option Json)
      → StepsFrom sys d (request sys args deadline method path payload)
  unfolding request
  request-StepsFrom d method path payload w h =
      >>=-StepsFrom sys d (lift (body_of sys payload)) _
        (lift-StepsFrom sys d (body_of sys payload) (body_of-fine payload))
        (λ body.
          >>=-StepsFrom sys d (λ v. sys.urlopen method _ body _ v) _
            (λ v k. laws.ask method _ body _ v)
            (λ raw.
              lift-StepsFrom sys d (parsed_text sys.loads raw) (parsed_text-fine sys.loads raw)))
        w h

  load_json-StepsFrom : (d : ℕ) (path : String) → StepsFrom sys d (load_json sys path)
  unfolding load_json
  load_json-StepsFrom d path =
      >>=-StepsFrom sys d (sys.read_text path) _ (λ v k. laws.read path v)
        (λ text. lift-StepsFrom sys d _ (demand-fine json_error (sys.loads text) refl))

  states_of-StepsFrom :
      (d : ℕ) (paths : List String) → StepsFrom sys d (states_of sys args deadline paths)
  states_of-StepsFrom d [] =
      let nothing : Result LifecycleError (List Json) = ok [] in lift-StepsFrom sys d nothing refl
  states_of-StepsFrom d (path ∷ paths) =
      >>=-StepsFrom sys d (load_json sys path) _ (load_json-StepsFrom d path) (λ value.
        >>=-StepsFrom sys d (lift (get_field "state" value)) _
          (lift-StepsFrom sys d (get_field "state" value) (get_field-fine "state" value))
          (λ state.
            >>=-StepsFrom sys d (states_of sys args deadline paths) _ (states_of-StepsFrom d paths)
              (λ rest. lift-StepsFrom sys d (ok (state ∷ rest)) refl)))

  pub sleeping-StepsFrom : (d : ℕ) → StepsFrom sys d (sleeping sys args deadline)
  unfolding sleeping
  sleeping-StepsFrom d w h = on_engine args.engine
    where
      on_engine : (e : Engine) → IsStep sys.monotonic w (sleeping_on sys args deadline e w)
      on_engine vllm =
          >>=-StepsFrom sys d (request sys args deadline "GET" "/is_sleeping" none) _
            (request-StepsFrom d "GET" "/is_sleeping" none)
            (λ value. lift-StepsFrom sys d (vllm_state value) (vllm_state-fine value)) w h
      on_engine sglang =
          >>=-StepsFrom sys d (states_of sys args deadline _) _ (states_of-StepsFrom d _)
            (λ states. lift-StepsFrom sys d (sglang_state states) (sglang_state-fine states)) w h

  wait_round-StepsFrom :
      (expected : Bool) (again : Action W LifecycleError (Unit {0})) (d : ℕ)
      → StepsFrom sys (d + 100) again
      → StepsFrom sys d (wait_round sys args deadline expected again)
  unfolding wait_round
  wait_round-StepsFrom expected again d steps w h =
      resume-IsStep sys d w (sleeping sys args deadline w) _ h (sleeping-StepsFrom d w h) decided
    where
      decided :
          (state : Bool)
          → StepsFrom sys d
              (λ v. if eq_bool state expected then (ok tt, v) else again (sys.sleep_for 100 v))
      decided state v k = elim (Bool-cases (eq_bool state expected)) [
        | inl same ↦ rw same (omega arith, refl)
        | inr other ↦
            let p = laws.pause 100 v in
            let s = steps (sys.sleep_for 100 v) (omega (arith, p, k)) in
            rw other (omega (arith, s.0, p), s.1)
      ]

  -- With a round for each pause that the time left allows, and one more, the wait for the state ends.
  pub wait_state-StepsFrom :
      (n : ℕ) (expected : Bool) (d : ℕ)
      → deadline ≤ d + 100 * n
      → StepsFrom sys d (wait_state sys args deadline (suc n) expected)
  unfolding wait_state
  wait_state-StepsFrom zero expected d enough w h =
      elim (Bool-cases (ltb (sys.monotonic w) deadline)) [
        | inl early ↦ absurd (ground (arith, early, enough, h))
        | inr late ↦ rw late (omega arith, refl)
      ]
  wait_state-StepsFrom (suc n) expected d enough w h =
      elim (Bool-cases (ltb (sys.monotonic w) deadline)) [
        | inl early ↦
            let r =
              wait_round-StepsFrom expected (wait_state sys args deadline (suc n) expected) d
                (wait_state-StepsFrom n expected (d + 100) (omega (arith, enough))) w h in
            rw early r
        | inr late ↦ rw late (omega arith, refl)
      ]

  healthy_or-IsStep :
      (again : Action W LifecycleError (Unit {0})) (d : ℕ) (w : W)
      (o : Result LifecycleError (Option Json) × W)
      → d ≤ sys.monotonic w
      → IsStep sys.monotonic w o
      → StepsFrom sys (d + 250) again
      → IsStep sys.monotonic w (healthy_or sys args deadline again o)
  healthy_or-IsStep again d w (ok reply, v) h k steps = (k.0, refl)
  healthy_or-IsStep again d w (raised e, v) h k steps =
      let p = laws.pause 250 v in
      let s = steps (sys.sleep_for 250 v) (omega (arith, p, k.0, h)) in
      (omega (arith, s.0, p, k.0), s.1)

  pub health-StepsFrom :
      (n d : ℕ) → deadline ≤ d + 250 * n → StepsFrom sys d (health sys args deadline (suc n))
  unfolding health
  health-StepsFrom zero d enough w h = elim (Bool-cases (ltb (sys.monotonic w) deadline)) [
    | inl early ↦ absurd (ground (arith, early, enough, h))
    | inr late ↦ rw late (omega arith, refl)
  ]
  health-StepsFrom (suc n) d enough w h = elim (Bool-cases (ltb (sys.monotonic w) deadline)) [
    | inl early ↦
        let r =
          healthy_or-IsStep (health sys args deadline (suc n)) d w
            (request sys args deadline "GET" args.health_path none w) h
            (request-StepsFrom d "GET" args.health_path none w h)
            (health-StepsFrom n (d + 250) (omega (arith, enough))) in
        rw early r
    | inr late ↦ rw late (omega arith, refl)
  ]

  answer_of-fine : (reply : Option Json) → is_exhausted (answer_of sys args deadline reply) ≡ false
  unfolding answer_of
  answer_of-fine none = refl
  answer_of-fine (some value) =
      and_then-fine (subscript "choices" value) _ (subscript-fine "choices" value) (λ choices.
        and_then-fine (first_item choices) _ (first_item-fine choices) (λ choice.
          and_then-fine (subscript "message" choice) _ (subscript-fine "message" choice) (λ message.
            and_then-fine (subscript "content" message) _ (subscript-fine "content" message)
              (λ content. refl))))

  pub infer-StepsFrom : (d : ℕ) → StepsFrom sys d (infer sys args deadline)
  unfolding infer
  infer-StepsFrom d =
      >>=-StepsFrom sys d
        (request sys args deadline "POST" "/v1/chat/completions"
          (some (question sys args deadline)))
        _ (request-StepsFrom d "POST" "/v1/chat/completions" (some (question sys args deadline)))
        (λ value.
          >>=-StepsFrom sys d (lift (answer_of sys args deadline value)) _
            (lift-StepsFrom sys d (answer_of sys args deadline value) (answer_of-fine value))
            (λ actual.
              >>=-StepsFrom sys d (lift (raise_if _ response_mismatch)) _
                (lift-StepsFrom sys d (raise_if _ response_mismatch)
                  (raise_if-fine _ response_mismatch refl))
                (λ done. lift-StepsFrom sys d (ok true) refl)))
