-- ===== src/KvCapacity/Guard.antt =====
-- coldsnap_vllm_kv_capacity.py: `_boolean`, `kv_capacity_guard_enabled` and `_guard_automatic_capacity`.
use Prim.Native.Char.{code}
use coldsnap.Base.{
  ℕ, ◌+◌, String, Bool, true, false, ◌&&◌, ◌||◌, Option, none, some, Result, ok, raised, ◌>>=◌,
  ◌>>◌, raise_if, if◌then◌else◌, string_eq, eqb, leb, strip, ℤ, pos, ◌-ℤ◌, ltb_ℤ, leb_ℤ,
}

-- A `VllmContractError` for each place that raises one, and the exception of `int` on a float that is no
-- number.
pub data CapacityError : Type 0 where
  not_boolean : String → CapacityError
  reported_invalid : CapacityError
  no_cache_config : CapacityError
  invalid_input : String → CapacityError
  envelope_exceeded : CapacityError
  no_config : CapacityError
  no_memory_left : CapacityError
  not_integral : CapacityError
  no_single_worker_class : CapacityError
  no_hooks : CapacityError

-- Whether a text is one of the words up to the case of ASCII letters; no other character has a lower case
-- that stands in the words.
abbrev pub lower_code : ℕ → ℕ
lower_code c = if leb 65 c && leb c 90 then c + 32 else c

unfoldable pub is_word : String → String → Bool
is_word String.[] String.[] = true
is_word (String.◌∷◌ c word) (String.◌∷◌ d text) =
    eqb (code c) (lower_code (code d)) && is_word word text
is_word _ _ = false

unfoldable pub boolean : Option String → Result CapacityError Bool
unfolding is_word strip
boolean none = ok false
boolean (some value) =
    let text = strip value in
    if is_word "0" text
      || is_word "false" text
      || is_word "no" text
      || is_word "off" text
      || is_word "" text
    then ok false
    else if is_word "1" text || is_word "true" text || is_word "yes" text || is_word "on" text
    then ok true
    else raised (not_boolean value)

unfoldable pub kv_capacity_guard_enabled : (String → Option String) → Result CapacityError Bool
unfolding boolean
kv_capacity_guard_enabled values = boolean (values "COLDSNAP_KV_CAPACITY_GUARD")

-- What the code reads of a Python value: an `int`, a `float` by its sign test and its `int`, which a
-- float that is no finite number does not have, or another object.
pub data Value : Type 0 where
  whole : ℤ → Value
  fraction : Bool → Option ℤ → Value
  other : Value

pub record Status : Type 0 where
  pub reported_bytes : ℤ
  pub requested_memory_bytes : ℤ
  pub total_consumed_bytes : ℤ
  pub peak_activation_memory_bytes : ℤ
  pub unreserved_limit_bytes : ℤ
  pub guarded_bytes : ℤ
  pub selected_bytes : ℤ
  pub clamped : Bool

-- The worker's attributes; an absent attribute and `None` are one to the code. A configuration holds what
-- the reservation is given of it.
pub record Worker (M P : Type 0) : Type 0 where
  -- The configuration of the cache, and whether its size is set in it.
  pub kv_cache_memory_bytes : Option Bool
  pub requested_memory : Value
  pub total_consumed : Value
  pub peak_activation_memory : Value
  pub model_config : Option M
  pub parallel_config : Option P
  pub status : Option Status
  pub available_kv_cache_memory_bytes : Option ℤ

unfoldable pub capacity_input : String → Value → Result CapacityError ℤ
capacity_input name (whole n) = if ltb_ℤ n (pos 0) then raised (invalid_input name) else ok n
capacity_input name (fraction true n) = raised (invalid_input name)
capacity_input name (fraction false (some n)) = ok n
capacity_input name (fraction false none) = raised not_integral
capacity_input name other = raised (invalid_input name)

unfoldable pub positive_report : Value → Result CapacityError ℤ
positive_report (whole n) = if leb_ℤ n (pos 0) then raised reported_invalid else ok n
positive_report _ = raised reported_invalid

abbrev pub min_ℤ : ℤ → ℤ → ℤ
min_ℤ a b = if ltb_ℤ b a then b else a

module _ {M P : Type 0} (reserve : ℤ → M → P → ℤ) where
  abbrev pub configs : Option M → Option P → Result CapacityError (M × P)
  configs (some m) (some p) = ok (m, p)
  configs _ _ = raised no_config

  -- The worker after the guard: its status, and with a clamped capacity the limit.
  unfoldable pub record_status : Worker M P → Status → Worker M P
  record_status worker s = record {
    kv_cache_memory_bytes = worker.kv_cache_memory_bytes;
    requested_memory = worker.requested_memory;
    total_consumed = worker.total_consumed;
    peak_activation_memory = worker.peak_activation_memory;
    model_config = worker.model_config;
    parallel_config = worker.parallel_config;
    status = some s;
    available_kv_cache_memory_bytes =
        if s.clamped then some s.unreserved_limit_bytes else worker.available_kv_cache_memory_bytes;
  }

  abbrev pub status_of : ℤ → ℤ → ℤ → ℤ → ℤ → ℤ → Status
  status_of reported requested consumed peak limit guarded = record {
    reported_bytes = reported;
    requested_memory_bytes = requested;
    total_consumed_bytes = consumed;
    peak_activation_memory_bytes = peak;
    unreserved_limit_bytes = limit;
    guarded_bytes = guarded;
    selected_bytes = min_ℤ reported guarded;
    clamped = ltb_ℤ (min_ℤ reported guarded) reported;
  }

  -- The second half, from the inputs on.
  unfoldable pub guard_inputs : Worker M P → ℤ → ℤ → ℤ → ℤ → Result CapacityError (ℤ × Worker M P)
  unfolding record_status ◌-ℤ◌
  guard_inputs worker reported requested consumed peak = do
    let limit = requested -ℤ consumed -ℤ peak
    raise_if (leb_ℤ limit (pos 0)) envelope_exceeded
    both ← configs worker.model_config worker.parallel_config
    let guarded = reserve limit both.0 both.1
    raise_if (leb_ℤ guarded (pos 0)) no_memory_left
    ok (
      min_ℤ reported guarded,
      record_status worker (status_of reported requested consumed peak limit guarded),
    )

  unfoldable pub guard_automatic : Worker M P → ℤ → Result CapacityError (ℤ × Worker M P)
  unfolding capacity_input guard_inputs
  guard_automatic worker reported = do
    requested ← capacity_input "requested_memory" worker.requested_memory
    consumed ← capacity_input "total_consumed" worker.total_consumed
    peak ← capacity_input "peak_activation_memory" worker.peak_activation_memory
    guard_inputs worker reported requested consumed peak

  unfoldable pub by_config : Worker M P → ℤ → Option Bool → Result CapacityError (ℤ × Worker M P)
  unfolding guard_automatic
  by_config worker reported none = raised no_cache_config
  by_config worker reported (some true) = ok (reported, worker)
  by_config worker reported (some false) = guard_automatic worker reported

  unfoldable pub guard_automatic_capacity :
      Worker M P → Value → Result CapacityError (ℤ × Worker M P)
  unfolding positive_report by_config
  guard_automatic_capacity worker reported_bytes = do
    reported ← positive_report reported_bytes
    by_config worker reported worker.kv_cache_memory_bytes
