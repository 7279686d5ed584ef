-- ===== src/Lifecycle/Machine.antt =====
-- coldsnap_lifecycle.py: the reasons to raise, the arguments, what the code calls, and the reading of JSON
-- replies. Times are in thousandths of a second.
use coldsnap.Base.{
  ℕ, ◌-◌, String, Bool, true, false, ◌&&◌, ◌||◌, not, Option, none, some, List, [], ◌∷◌, Result, ok,
  raised, if◌then◌else◌, ltb, ◌==◌, string_eq, is_empty, Float, Json, null, bool, str, arr, obj,
  nil, cons,
}
use coldsnap.Coordinator.Wire.{Bytes}
use coldsnap.Validation.Stats.{Stat}
use coldsnap.Validation.Records.{last_of}
use coldsnap.Coordinator.Actions.{Action}

-- A reason for each place that raises, and what the libraries and the system raise
pub data LifecycleError : Type 0 where
  invalid_is_sleeping invalid_sglang_evidence state_not_converged health_not_ready response_mismatch
        invalid_activation_provider invalid_inventory duplicate_inventory invalid_evidence_file
        identity_mismatch worker_set_mismatch worker_identity_mismatch invalid_capture_identity
        invalid_marker marker_not_object json_error type_error attribute_error key_error index_error
        rounds_exhausted :
      LifecycleError
  system_error : String → LifecycleError

pub data Engine : Type 0 where
  vllm sglang : Engine

pub data Order : Type 0 where
  sleep wake status : Order

pub record Args : Type 0 where
  pub engine : Engine
  pub action : Order
  pub port : ℕ
  pub model : String
  pub health_path : String
  pub prompt : String
  pub expected : String
  pub load_format : String
  pub timeout : ℕ

-- What the code calls. `dumps` has none for what JSON cannot write, `loads` for what is no JSON.
pub record Machine (W D : Type 0) : Type 0 where
  pub urlopen : String → String → Option String → ℕ → Action W LifecycleError String
  pub monotonic : W → ℕ
  pub sleep_for : ℕ → W → W
  pub glob : String → String → W → List String
  pub read_text : String → Action W LifecycleError String
  pub lstat : String → Action W LifecycleError Stat
  pub make_runtime_root : Action W LifecycleError (Unit {0})
  pub open_lock : Action W LifecycleError D
  pub flock : D → Action W LifecycleError (Unit {0})
  pub close : D → W → W
  pub dumps : Json → Option String
  pub dumps_sorted : Json → Option String
  pub loads : String → Option Json
  pub to_str : Json → String
  pub stem : String → String
  pub temporary : String → String
  pub marker_temporary : String
  pub create : String → Action W LifecycleError D
  pub write : D → Bytes → Action W LifecycleError (Unit {0})
  pub fsync : D → Action W LifecycleError (Unit {0})
  pub replace : String → String → Action W LifecycleError (Unit {0})
  pub unlink : String → W → W
  pub read_stdin : ℕ → Action W LifecycleError Bytes
  pub encode : String → Bytes
  pub loads_bytes : Bytes → Option Json
  pub time : W → Float

abbrev pub eq_bool : Bool → Bool → Bool
eq_bool true b = b
eq_bool false b = not b

abbrev pub max : ℕ → ℕ → ℕ
max a b = if ltb a b then b else a

abbrev pub min : ℕ → ℕ → ℕ
min a b = if ltb b a then b else a

abbrev pub demand {ℓ} : {A : Type ℓ} → LifecycleError → Option A → Result LifecycleError A
demand e (some x) = ok x
demand e _ = raised e

-- `value.get(key)` and `value[key]`
unfoldable pub get_field : String → Json → Result LifecycleError Json
unfolding last_of
get_field key (obj fs) = ok (or_null (last_of key fs))
  where
    or_null : Option Json → Json
    or_null (some v) = v
    or_null _ = null
get_field key _ = raised attribute_error

unfoldable pub subscript : String → Json → Result LifecycleError Json
unfolding last_of
subscript key (obj fs) = demand key_error (last_of key fs)
subscript key _ = raised type_error

abbrev pub and_then :
    {A B : Type 0}
    → Result LifecycleError A
    → (A → Result LifecycleError B)
    → Result LifecycleError B
and_then (ok x) next = next x
and_then (raised e) next = raised e

-- `value[0]`; of a text's first character only that it is a text counts.
abbrev pub first_item : Json → Result LifecycleError Json
first_item (arr (cons v vs)) = ok v
first_item (arr nil) = raised index_error
first_item (str s) = if is_empty s then raised index_error else ok (str s)
first_item (obj fs) = raised key_error
first_item _ = raised type_error

abbrev pub is_sleeping_of : Option Json → Result LifecycleError Bool
is_sleeping_of (some (bool b)) = ok b
is_sleeping_of _ = raised invalid_is_sleeping

unfoldable pub vllm_state : Option Json → Result LifecycleError Bool
unfolding last_of
vllm_state (some (obj fs)) = is_sleeping_of (last_of "is_sleeping" fs)
vllm_state _ = raised invalid_is_sleeping

abbrev pub is_state : Json → Bool
is_state (str s) = s == "running" || s == "sleeping"
is_state _ = false

-- A list or a dict cannot be looked up in a set.
abbrev pub is_hashable : Json → Bool
is_hashable (arr vs) = false
is_hashable (obj fs) = false
is_hashable _ = true

-- `any(value not in {"running", "sleeping"} for value in states)`
abbrev pub any_unknown : List Json → Result LifecycleError Bool
any_unknown [] = ok false
any_unknown (v ∷ vs) =
    let rest = any_unknown vs in
    if not (is_hashable v) then raised type_error else if is_state v then rest else ok true

abbrev pub is_text : String → Json → Bool
is_text s (str t) = s == t
is_text s _ = false

abbrev pub all_text : String → List Json → Bool
all_text s [] = true
all_text s (v ∷ vs) = is_text s v && all_text s vs

-- The states are some, and known, and one; with `states[0] == "sleeping"`
unfoldable pub sglang_state : List Json → Result LifecycleError Bool
sglang_state [] = raised invalid_sglang_evidence
sglang_state (v ∷ vs) = settled (any_unknown (v ∷ vs))
  where
    settled : Result LifecycleError Bool → Result LifecycleError Bool
    settled (raised e) = raised e
    settled (ok unknown) =
        if unknown || not (all_text "running" (v ∷ vs) || all_text "sleeping" (v ∷ vs))
        then raised invalid_sglang_evidence
        else ok (is_text "sleeping" v)

abbrev pub parsed_text : (String → Option Json) → String → Result LifecycleError (Option Json)
parsed_text loads raw = if is_empty raw then ok none else demanded (loads raw)
  where
    demanded : Option Json → Result LifecycleError (Option Json)
    demanded (some v) = ok (some v)
    demanded _ = raised json_error

-- `max(1.0, min(600.0, deadline - now))`
abbrev pub request_timeout : ℕ → ℕ → ℕ
request_timeout deadline now = max 1000 (min 600000 (deadline - now))
