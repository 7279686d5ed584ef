-- ===== src/Lifecycle/Finishing.antt =====
-- `control` ends.
use coldsnap.Base.{
  ℕ, suc, ◌+◌, ◌*◌, ◌≤◌, String, Bool, true, false, not, Option, none, some, List, [], ◌∷◌, ◌≡◌,
  ◌≢◌, refl, arith, Result, ok, raised, raise_if, strip, Json, sym, ap, ◌∙◌,
}
use coldsnap.Coordinator.Actions.{◌>>=◌, lift}
use coldsnap.Lifecycle.Machine.{
  LifecycleError, rounds_exhausted, invalid_activation_provider, Engine, vllm, sglang, Order, sleep,
  wake, status, Args, Machine,
}
use coldsnap.Lifecycle.Client.{sleeping, wait_state, health, infer}
use coldsnap.Lifecycle.Control.{
  is_one_provider, is_recovery, tags, post, release, update_weights, providers_of, resume_engine,
  woken, put_to_sleep, act, run_control, unlocked, locked, control,
}
use coldsnap.Lifecycle.Clock.{
  is_exhausted, IsStep, MachineLaws, StepsFrom, >>=-StepsFrom, lift-StepsFrom, raise_if-fine,
}
use coldsnap.Lifecycle.Waiting.{
  request-StepsFrom, sleeping-StepsFrom, wait_state-StepsFrom, health-StepsFrom, infer-StepsFrom,
}

module _ {W D : Type 0} (sys : Machine W D) (laws : MachineLaws sys) (args : Args) (n : ℕ)
    (deadline d : ℕ) where
  reply-StepsFrom :
      (path : String) (payload : Option Json)
      → StepsFrom sys d (post sys args (suc n) deadline path payload >>= λ reply. lift (ok tt))
  reply-StepsFrom path payload =
      >>=-StepsFrom sys d (post sys args (suc n) deadline path payload) _
        (request-StepsFrom sys laws args deadline d "POST" path payload)
        (λ reply. lift-StepsFrom sys d (ok tt) refl)

  release-StepsFrom : (e : Engine) → StepsFrom sys d (release sys args (suc n) deadline e)
  release-StepsFrom vllm = request-StepsFrom sys laws args deadline d "POST" _ none
  release-StepsFrom sglang = request-StepsFrom sys laws args deadline d "POST" _ (some tags)

  providers_of-StepsFrom : (paths : List String) → StepsFrom sys d (providers_of sys paths)
  providers_of-StepsFrom [] =
      let nothing : Result LifecycleError (List String) = ok [] in lift-StepsFrom sys d nothing refl
  providers_of-StepsFrom (path ∷ paths) =
      >>=-StepsFrom sys d (sys.read_text path) _ (λ v k. laws.read path v)
        (λ text.
          >>=-StepsFrom sys d (providers_of sys paths) _ (providers_of-StepsFrom paths)
            (λ rest. lift-StepsFrom sys d (ok (strip text ∷ rest)) refl))

  update_weights-StepsFrom :
      (b : Bool) → StepsFrom sys d (update_weights sys args (suc n) deadline b)
  update_weights-StepsFrom true = reply-StepsFrom "/update_weights_from_disk" _
  update_weights-StepsFrom false = lift-StepsFrom sys d (ok tt) refl

  resume_engine-StepsFrom :
      (e : Engine) → StepsFrom sys d (resume_engine sys args (suc n) deadline e)
  unfolding resume_engine
  resume_engine-StepsFrom vllm = reply-StepsFrom "/wake_up" none
  resume_engine-StepsFrom sglang =
      >>=-StepsFrom sys d (post sys args (suc n) deadline _ (some tags)) _
        (request-StepsFrom sys laws args deadline d "POST" _ (some tags))
        (λ reply.
          >>=-StepsFrom sys d
            (λ w. providers_of sys (sys.glob "hydration" "*/activation-provider" w) w) _
            (λ w k. providers_of-StepsFrom (sys.glob "hydration" "*/activation-provider" w) w k)
            (λ providers.
              >>=-StepsFrom sys d
                (lift (raise_if (not (is_one_provider providers)) invalid_activation_provider)) _
                (lift-StepsFrom sys d
                  (raise_if (not (is_one_provider providers)) invalid_activation_provider)
                  (raise_if-fine _ invalid_activation_provider refl))
                (λ done. update_weights-StepsFrom (is_recovery providers))))

  module _ (enough : deadline ≤ d + 100 * n) where
    waits : (expected : Bool) → StepsFrom sys d (wait_state sys args deadline (suc n) expected)
    waits expected = wait_state-StepsFrom sys laws args deadline n expected d enough

    polls : StepsFrom sys d (health sys args deadline (suc n))
    polls = health-StepsFrom sys laws args deadline n d (omega (arith, enough))

    put_to_sleep-StepsFrom :
        (before : Bool) → StepsFrom sys d (put_to_sleep sys args (suc n) deadline before)
    unfolding put_to_sleep
    put_to_sleep-StepsFrom true = lift-StepsFrom sys d (ok false) refl
    put_to_sleep-StepsFrom false =
        >>=-StepsFrom sys d (health sys args deadline (suc n)) _ polls (λ done.
          >>=-StepsFrom sys d (infer sys args deadline) _ (infer-StepsFrom sys laws args deadline d)
            (λ accepted.
              >>=-StepsFrom sys d (release sys args (suc n) deadline args.engine) _
                (release-StepsFrom args.engine)
                (λ reply.
                  >>=-StepsFrom sys d (wait_state sys args deadline (suc n) true) _ (waits true)
                    (λ asleep. lift-StepsFrom sys d (ok accepted) refl))))

    woken-StepsFrom : (before : Bool) → StepsFrom sys d (woken sys args (suc n) deadline before)
    woken-StepsFrom true =
        >>=-StepsFrom sys d (resume_engine sys args (suc n) deadline args.engine) _
          (resume_engine-StepsFrom args.engine) (λ done. waits false)
    woken-StepsFrom false = lift-StepsFrom sys d (ok tt) refl

    act-StepsFrom :
        (order : Order) (before : Bool)
        → StepsFrom sys d (act sys args (suc n) deadline order before)
    unfolding act
    act-StepsFrom sleep before = put_to_sleep-StepsFrom before
    act-StepsFrom wake before =
        >>=-StepsFrom sys d (woken sys args (suc n) deadline before) _ (woken-StepsFrom before)
          (λ done.
            >>=-StepsFrom sys d (health sys args deadline (suc n)) _ polls
              (λ healthy. infer-StepsFrom sys laws args deadline d))
    act-StepsFrom status before = lift-StepsFrom sys d (ok false) refl

    run_control-StepsFrom : StepsFrom sys d (run_control sys args (suc n) deadline)
    unfolding run_control
    run_control-StepsFrom w h =
        >>=-StepsFrom sys d (sleeping sys args deadline) _
          (sleeping-StepsFrom sys laws args deadline d)
          (λ before.
            >>=-StepsFrom sys d (act sys args (suc n) deadline args.action before) _
              (act-StepsFrom args.action before)
              (λ accepted.
                >>=-StepsFrom sys d (sleeping sys args deadline) _
                  (sleeping-StepsFrom sys laws args deadline d) (λ after v k. (omega arith, refl))))
          w h

module _ {W D : Type 0} (sys : Machine W D) (laws : MachineLaws sys) (args : Args) (n : ℕ) where
  locked-IsStep :
      (lock : D) (w : W)
      → args.timeout ≤ 100 * n
      → IsStep sys.monotonic w (locked sys args (suc n) lock w)
  unfolding locked
  locked-IsStep lock w enough =
      >>=-StepsFrom sys 0 (sys.flock lock) _ (λ v k. laws.take lock v)
        (λ done v k.
          run_control-StepsFrom sys laws args n (sys.monotonic v + args.timeout) (sys.monotonic v)
            (omega (arith, enough)) v (omega arith))
        w (omega arith)

  unlocked-IsStep :
      {A : Type 0} (lock : D) (w : W) (o : Result LifecycleError A × W)
      → IsStep sys.monotonic w o
      → IsStep sys.monotonic w (unlocked sys lock o)
  unlocked-IsStep lock w (result, v) h = (omega (arith, h.0, laws.shut lock v), h.1)

  -- When the timeout is at most a number of pauses of 100 ms, control with one round more than that number for
  -- each of its loops never runs out of rounds: it returns or raises as the code does.
  pub control-finishes :
      (w : W) → args.timeout ≤ 100 * n → (control sys args (suc n) w).0 ≢ raised rounds_exhausted
  unfolding control
  control-finishes w enough h =
      let steps =
        >>=-StepsFrom sys 0 sys.make_runtime_root _ (λ v k. laws.root v)
          (λ done.
            >>=-StepsFrom sys 0 sys.open_lock _ (λ v k. laws.open_ v)
              (λ lock v k.
                unlocked-IsStep lock v (locked sys args (suc n) lock v)
                  (locked-IsStep lock v enough)))
          w (omega arith) in
      no_end (sym (ap is_exhausted h) ∙ steps.1)
    where
      no_end : true ≡ false → ⊥
      no_end e = cc
