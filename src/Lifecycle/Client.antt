-- ===== src/Lifecycle/Client.antt =====
-- coldsnap_lifecycle.py: `BackendClient`.
use coldsnap.Base.{
  ℕ, zero, suc, String, Bool, true, not, Option, none, some, List, [], ◌∷◌, Result, ok, raised,
  raise_if, if◌then◌else◌, ltb, pos, ◌==◌, string_eq, append, strip, show_ℕ, Json, int, str, arr,
  obj, nil, cons, end, field,
}
use coldsnap.Coordinator.Actions.{Action, ◌>>=◌, ◌>>◌, lift}
use coldsnap.Lifecycle.Machine.{
  LifecycleError, Engine, Args, Machine, eq_bool, demand, get_field, subscript, and_then,
  first_item, vllm_state, sglang_state, parsed_text, request_timeout, state_not_converged,
  health_not_ready, response_mismatch, json_error, type_error, rounds_exhausted, vllm, sglang,
}

module _ {W D : Type 0} (sys : Machine W D) where
  abbrev pub body_of : Option Json → Result LifecycleError (Option String)
  body_of (some payload) = write_closed (sys.dumps payload)
    where
      write_closed : Option String → Result LifecycleError (Option String)
      write_closed (some s) = ok (some s)
      write_closed _ = raised type_error
  body_of _ = ok none

  unfoldable pub load_json : String → Action W LifecycleError Json
  load_json path = do text ← sys.read_text path; lift (demand json_error (sys.loads text))

  -- `str(value)`
  abbrev pub shown : Json → String
  shown (str s) = s
  shown v = sys.to_str v

  module _ (args : Args) (deadline : ℕ) where
    -- `BackendClient.request`
    unfoldable pub request : String → String → Option Json → Action W LifecycleError (Option Json)
    unfolding append show_ℕ
    request method path payload w =
        (do
          body ← lift (body_of payload)
          raw ←
              sys.urlopen method (append "http://127.0.0.1:" (append (show_ℕ args.port) path)) body
                (request_timeout deadline (sys.monotonic w))
          lift (parsed_text sys.loads raw))
          w

    abbrev pub states_of : List String → Action W LifecycleError (List Json)
    states_of [] = lift (ok [])
    states_of (path ∷ paths) = do
      value ← load_json path
      state ← lift (get_field "state" value)
      rest ← states_of paths
      lift (ok (state ∷ rest))

    abbrev pub sleeping_on : Engine → Action W LifecycleError Bool
    sleeping_on vllm w = (do value ← request "GET" "/is_sleeping" none; lift (vllm_state value)) w
    sleeping_on sglang w =
        (do states ← states_of (sys.glob "hibernate-states" "*.json" w); lift (sglang_state states))
          w

    unfoldable pub sleeping : Action W LifecycleError Bool
    unfolding request load_json get_field vllm_state sglang_state
    sleeping = sleeping_on args.engine

    -- One round of `wait_state` when the time is not over, and what follows the round
    unfoldable pub wait_round :
        Bool → Action W LifecycleError (Unit {0}) → Action W LifecycleError (Unit {0})
    unfolding sleeping
    wait_round expected again = do
      state ← sleeping
      λ w. if eq_bool state expected then (ok tt, w) else again (sys.sleep_for 100 w)

    unfoldable pub wait_state : ℕ → Bool → Action W LifecycleError (Unit {0})
    unfolding wait_round
    wait_state zero expected w = (raised rounds_exhausted, w)
    wait_state (suc n) expected w =
        let again = wait_round expected (wait_state n expected) w in
        if ltb (sys.monotonic w) deadline then again else (raised state_not_converged, w)

    -- Any exception of the request means another try.
    abbrev pub healthy_or :
        Action W LifecycleError (Unit {0})
        → Result LifecycleError (Option Json) × W
        → Result LifecycleError (Unit {0}) × W
    healthy_or again (ok reply, w) = (ok tt, w)
    healthy_or again (raised e, w) = again (sys.sleep_for 250 w)

    unfoldable pub health : ℕ → Action W LifecycleError (Unit {0})
    unfolding request
    health zero w = (raised rounds_exhausted, w)
    health (suc n) w =
        let again = healthy_or (health n) (request "GET" args.health_path none w) in
        if ltb (sys.monotonic w) deadline then again else (raised health_not_ready, w)

    abbrev pub question : Json
    question = obj (
        field "model" (str args.model) (
          field "messages"
            (arr
              (cons (obj (field "role" (str "user") (field "content" (str args.prompt) end))) nil))
            (field "max_tokens" (int (pos 64)) (field "temperature" (int (pos 0)) end))))

    -- `str(value["choices"][0]["message"]["content"]).strip()`
    unfoldable pub answer_of : Option Json → Result LifecycleError String
    unfolding subscript strip
    answer_of (some value) = and_then (subscript "choices" value) λ choices.
        and_then (first_item choices) λ choice.
          and_then (subscript "message" choice)
            λ message. and_then (subscript "content" message) λ content. ok (strip (shown content))
    answer_of _ = raised type_error

    unfoldable pub infer : Action W LifecycleError Bool
    unfolding request answer_of
    infer = do
      value ← request "POST" "/v1/chat/completions" (some question)
      actual ← lift (answer_of value)
      lift (raise_if (not (actual == args.expected)) response_mismatch)
      lift (ok true)
