-- ===== src/Lifecycle/Control.antt =====
-- coldsnap_lifecycle.py: `control`, which takes the lock, puts the engine to sleep or wakes it, and reports.
use coldsnap.Base.{
  ℕ, ◌+◌, ◌-◌, String, Bool, true, false, ◌&&◌, ◌||◌, not, Option, none, some, List, [], ◌∷◌,
  Result, ok, raise_if, all, ◌==◌, string_eq, strip, Json, bool, str, arr, obj, nil, cons, end,
  field,
}
use coldsnap.Coordinator.Actions.{Action, ◌>>=◌, ◌>>◌, lift}
use coldsnap.Lifecycle.Machine.{
  LifecycleError, invalid_activation_provider, Engine, vllm, sglang, Order, sleep, wake, status,
  Args, Machine,
}
use coldsnap.Lifecycle.Client.{request, sleeping, wait_state, health, infer}

-- What `control` prints
pub record Report : Type 0 where
  pub action : Order
  pub is_sleeping : Bool
  pub accepted : Bool
  pub seconds : ℕ

-- `len(providers) != 1 or not providers <= {"native", "recovery"}`, for the set of the texts
abbrev pub is_one_provider : List String → Bool
is_one_provider [] = false
is_one_provider (p ∷ ps) = all (λ q. p == q) ps && (p == "native" || p == "recovery")

abbrev pub is_recovery : List String → Bool
is_recovery [] = false
is_recovery (p ∷ ps) = p == "recovery"

abbrev pub tags : Json
tags = obj (
    field "tags" (arr (cons (str "kv_cache") (cons (str "weights") (cons (str "cuda_graph") nil))))
      end)

module _ {W D : Type 0} (sys : Machine W D) where
  abbrev pub providers_of : List String → Action W LifecycleError (List String)
  providers_of [] = lift (ok [])
  providers_of (path ∷ paths) = do
    text ← sys.read_text path
    rest ← providers_of paths
    lift (ok (strip text ∷ rest))

  module _ (args : Args) (rounds : ℕ) (deadline : ℕ) where
    abbrev pub post : String → Option Json → Action W LifecycleError (Option Json)
    post path payload = request sys args deadline "POST" path payload

    abbrev pub release : Engine → Action W LifecycleError (Option Json)
    release vllm = post "/sleep?level=1&mode=wait" none
    release sglang = post "/release_memory_occupation" (some tags)

    abbrev pub update_weights : Bool → Action W LifecycleError (Unit {0})
    update_weights true = do
      reply ← post "/update_weights_from_disk" (
          some (
            obj (
              field "model_path" (str args.model) (
                field "load_format" (str args.load_format)
                  (field "recapture_cuda_graph" (bool false) end)))))
      lift (ok tt)
    update_weights false = lift (ok tt)

    unfoldable pub resume_engine : Engine → Action W LifecycleError (Unit {0})
    unfolding request strip
    resume_engine vllm = do reply ← post "/wake_up" none; lift (ok tt)
    resume_engine sglang = do
      reply ← post "/resume_memory_occupation" (some tags)
      providers ← λ w. providers_of (sys.glob "hydration" "*/activation-provider" w) w
      lift (raise_if (not (is_one_provider providers)) invalid_activation_provider)
      update_weights (is_recovery providers)

    unfoldable pub put_to_sleep : Bool → Action W LifecycleError Bool
    unfolding request health infer wait_state
    put_to_sleep true = lift (ok false)
    put_to_sleep false = do
      health sys args deadline rounds
      accepted ← infer sys args deadline
      reply ← release args.engine
      wait_state sys args deadline rounds true
      lift (ok accepted)

    abbrev pub woken : Bool → Action W LifecycleError (Unit {0})
    woken true = do resume_engine args.engine; wait_state sys args deadline rounds false
    woken false = lift (ok tt)

    unfoldable pub act : Order → Bool → Action W LifecycleError Bool
    unfolding put_to_sleep resume_engine wait_state health infer
    act sleep before = put_to_sleep before
    act wake before = do woken before; health sys args deadline rounds; infer sys args deadline
    act status before = lift (ok false)

    unfoldable pub run_control : Action W LifecycleError Report
    unfolding sleeping act
    run_control w =
        (do
          before ← sleeping sys args deadline
          accepted ← act args.action before
          after ← sleeping sys args deadline
          λ v. (
            ok (record {
              action = args.action;
              is_sleeping = after;
              accepted = accepted;
              seconds = sys.monotonic v - sys.monotonic w;
            }),
            v,
          ))
          w

  -- `finally: os.close(lock)`
  abbrev pub unlocked : {A : Type 0} → D → Result LifecycleError A × W → Result LifecycleError A × W
  unlocked lock (result, w) = (result, sys.close lock w)

  unfoldable pub locked : Args → ℕ → D → Action W LifecycleError Report
  unfolding run_control
  locked args rounds lock = do
    sys.flock lock
    λ w. run_control args rounds (sys.monotonic w + args.timeout) w

  unfoldable pub control : Args → ℕ → Action W LifecycleError Report
  unfolding locked
  control args rounds = do
    sys.make_runtime_root
    lock ← sys.open_lock
    λ w. unlocked lock (locked args rounds lock w)
