-- ===== src/Lifecycle/Clock.antt =====
-- Steps in time: actions that do not turn the clock back and whose rounds are enough.
use coldsnap.Base.{
  ℕ, ◌+◌, ◌≤◌, String, Bool, true, false, Option, none, some, List, [], ◌∷◌, ◌≡◌, refl, arith,
  Result, ok, raised, raise_if, Json,
}
use coldsnap.Coordinator.Actions.{Action, ◌>>=◌, lift, resume}
use coldsnap.Lifecycle.Machine.{
  LifecycleError, rounds_exhausted, Machine, demand, and_then, first_item, get_field, subscript,
  any_unknown, vllm_state, sglang_state, parsed_text,
}

abbrev pub is_own : LifecycleError → Bool
is_own rounds_exhausted = true
is_own _ = false

abbrev pub is_exhausted : {A : Type 0} → Result LifecycleError A → Bool
is_exhausted (raised e) = is_own e
is_exhausted (ok x) = false

-- A step turns the clock not back, and the rounds that it runs are enough.
abbrev pub IsStep : {W A : Type 0} → (W → ℕ) → W → Result LifecycleError A × W → Type 0
IsStep clock w o = (clock w ≤ clock o.1) × (is_exhausted o.0 ≡ false)

-- What is documented of the clock, the pauses and the libraries: the clock does not run backwards, a pause lasts
-- as long as it is told to, and no library raises the model's own reason.
pub record MachineLaws {W D : Type 0} (sys : Machine W D) : Type 0 where
  pub pause : (n : ℕ) (w : W) → sys.monotonic w + n ≤ sys.monotonic (sys.sleep_for n w)
  pub ask :
      (method path : String) (body : Option String) (timeout : ℕ) (w : W)
      → IsStep sys.monotonic w (sys.urlopen method path body timeout w)
  pub read : (path : String) (w : W) → IsStep sys.monotonic w (sys.read_text path w)
  pub root : (w : W) → IsStep sys.monotonic w (sys.make_runtime_root w)
  pub open_ : (w : W) → IsStep sys.monotonic w (sys.open_lock w)
  pub take : (lock : D) (w : W) → IsStep sys.monotonic w (sys.flock lock w)
  pub shut : (lock : D) (w : W) → sys.monotonic w ≤ sys.monotonic (sys.close lock w)

module _ {W D : Type 0} (sys : Machine W D) where
  -- From the time on, the action is a step.
  abbrev pub StepsFrom : {A : Type 0} → ℕ → Action W LifecycleError A → Type 0
  StepsFrom d a = (w : W) → d ≤ sys.monotonic w → IsStep sys.monotonic w (a w)

  pub resume-IsStep :
      {A B : Type 0} (d : ℕ) (w : W) (o : Result LifecycleError A × W)
      (next : A → Action W LifecycleError B)
      → d ≤ sys.monotonic w
      → IsStep sys.monotonic w o
      → ((x : A) → StepsFrom d (next x))
      → IsStep sys.monotonic w (resume o next)
  resume-IsStep d w (ok x, v) next h k n =
      let s = n x v (omega (arith, h, k.0)) in (omega (arith, s.0, k.0), s.1)
  resume-IsStep d w (raised e, v) next h k n = k

  pub >>=-StepsFrom :
      {A B : Type 0} (d : ℕ) (first : Action W LifecycleError A)
      (next : A → Action W LifecycleError B)
      → StepsFrom d first
      → ((x : A) → StepsFrom d (next x))
      → StepsFrom d (first >>= next)
  >>=-StepsFrom d first next f n w h = resume-IsStep d w (first w) next h (f w h) n

  pub lift-StepsFrom :
      {A : Type 0} (d : ℕ) (r : Result LifecycleError A)
      → is_exhausted r ≡ false
      → StepsFrom d (lift r)
  lift-StepsFrom d r h w k = (omega arith, h)

pub demand-fine :
    {A : Type 0} (e : LifecycleError) (o : Option A)
    → is_own e ≡ false
    → is_exhausted (demand e o) ≡ false
demand-fine e (some x) h = refl
demand-fine e none h = h

pub and_then-fine :
    {A B : Type 0} (r : Result LifecycleError A) (next : A → Result LifecycleError B)
    → is_exhausted r ≡ false
    → ((x : A) → is_exhausted (next x) ≡ false)
    → is_exhausted (and_then r next) ≡ false
and_then-fine (ok x) next h k = k x
and_then-fine (raised e) next h k = h

pub raise_if-fine :
    (t : Bool) (e : LifecycleError) → is_own e ≡ false → is_exhausted (raise_if t e) ≡ false
raise_if-fine true e h = h
raise_if-fine false e h = refl

pub get_field-fine : (key : String) (v : Json) → is_exhausted (get_field key v) ≡ false
unfolding get_field
get_field-fine key v = ground arith

pub subscript-fine : (key : String) (v : Json) → is_exhausted (subscript key v) ≡ false
unfolding subscript
subscript-fine key v = ground arith

pub first_item-fine : (v : Json) → is_exhausted (first_item v) ≡ false
first_item-fine v = ground arith

pub vllm_state-fine : (o : Option Json) → is_exhausted (vllm_state o) ≡ false
unfolding vllm_state
vllm_state-fine o = ground arith

pub any_unknown-fine : (vs : List Json) → is_exhausted (any_unknown vs) ≡ false
any_unknown-fine [] = refl
any_unknown-fine (v ∷ vs) = ground (arith, any_unknown-fine vs)

pub sglang_state-fine : (vs : List Json) → is_exhausted (sglang_state vs) ≡ false
unfolding sglang_state
sglang_state-fine [] = refl
sglang_state-fine (v ∷ vs) = ground (arith, any_unknown-fine (v ∷ vs))

pub parsed_text-fine :
    (loads : String → Option Json) (raw : String) → is_exhausted (parsed_text loads raw) ≡ false
parsed_text-fine loads raw = ground arith
