-- ===== src/KvCapacity/Hook.antt =====
-- coldsnap_vllm_kv_capacity.py: the hook around the worker's method and its installation.
use coldsnap.Base.{
  String, Bool, true, ◌||◌, not, Option, none, some, Result, ok, raised, ◌>>=◌, if◌then◌else◌, Eq,
  ◌==◌, ℤ,
}
use coldsnap.KvCapacity.Guard.{
  CapacityError, no_single_worker_class, no_hooks, Value, whole, Worker, guard_automatic_capacity,
  kv_capacity_guard_enabled,
}

-- A method of the worker class: a call of it may change the worker.
pub record Method (M P : Type 0) : Type 0 where
  pub is_callable : Bool
  pub is_marked : Bool
  pub run : Worker M P → Result CapacityError (Value × Worker M P)

-- The attributes of the imported module: the classes under the two names, and the reservation if it can be called
pub record Module (C M P : Type 0) : Type 0 where
  pub worker : Option C
  pub gpu_worker : Option C
  pub reserve : Option (ℤ → M → P → ℤ)

-- `determine_available_memory` as it is installed
unfoldable pub guarded : {M P : Type 0} → (ℤ → M → P → ℤ) → Method M P → Method M P
unfolding guard_automatic_capacity
guarded reserve original = record {
  is_callable = true;
  is_marked = true;
  run = λ worker. do
    reported ← original.run worker
    selected ← guard_automatic_capacity reserve reported.1 reported.0
    ok (whole selected.0, selected.1);
}

abbrev pub hooks :
    {M P : Type 0}
    → Option (Method M P)
    → Option (ℤ → M → P → ℤ)
    → Result CapacityError (Method M P × (ℤ → M → P → ℤ))
hooks (some original) (some reserve) =
    if original.is_callable then ok (original, reserve) else raised no_hooks
hooks _ _ = raised no_hooks

module _ {C M P : Type 0} ⦃e : Eq C⦄ where
  unfoldable pub worker_class : Module C M P → Result CapacityError C
  worker_class m = one_of m.worker m.gpu_worker
    where
      one_of : Option C → Option C → Result CapacityError C
      one_of (some c) (some d) = if c == d then ok c else raised no_single_worker_class
      one_of (some c) none = ok c
      one_of none (some d) = ok d
      one_of none none = raised no_single_worker_class

  abbrev pub set_method : C → Method M P → (C → Option (Method M P)) → C → Option (Method M P)
  set_method c method methods d = if d == c then some method else methods d

  -- The method that `getattr` finds on each class, its own or an inherited one, after `_install_worker_hook`
  unfoldable pub install_worker_hook :
      Module C M P → (C → Option (Method M P)) → Result CapacityError (C → Option (Method M P))
  unfolding worker_class guarded
  install_worker_hook m methods = do
    c ← worker_class m
    both ← hooks (methods c) m.reserve
    ok (if both.0.is_marked then methods else set_method c (guarded both.1 both.0) methods)

-- `after_module_import` is a parameter; the result holds what is returned or raised, and `_installed`.
unfoldable pub install_kv_capacity_guard :
    {W : Type 0}
    → (W → Result CapacityError (Unit {0}) × W)
    → (String → Option String)
    → Bool × W
    → Result CapacityError Bool × (Bool × W)
unfolding kv_capacity_guard_enabled
install_kv_capacity_guard {W} after_import environment (installed, w) =
    switched (kv_capacity_guard_enabled environment)
  where
    imported : Result CapacityError (Unit {0}) × W → Result CapacityError Bool × (Bool × W)
    imported (ok done, v) = (ok true, (true, v))
    imported (raised e, v) = (raised e, (installed, v))

    switched : Result CapacityError Bool → Result CapacityError Bool × (Bool × W)
    switched (raised e) = (raised e, (installed, w))
    switched (ok enabled) =
        if not enabled || installed then (ok enabled, (installed, w)) else imported (after_import w)
