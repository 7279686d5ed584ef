-- ===== src/KvCapacity/Examples.antt =====
-- Runs of the capacity guard, and its theorem at one.
use coldsnap.Base.{
  ℕ, ◌-◌, true, false, none, some, Option, nat_eq, ◌≡◌, refl, arith, ok, raised, ℤ, pos, negsuc,
  ◌≤ℤ◌,
}
use coldsnap.KvCapacity.Guard.{
  whole, fraction, Worker, not_boolean, no_single_worker_class, status_of, guard_automatic_capacity,
  kv_capacity_guard_enabled,
}
use coldsnap.KvCapacity.Hook.{Method, Module, guarded, set_method, install_worker_hook}
use coldsnap.KvCapacity.Envelope.{IsWithin, guard_automatic_capacity-IsWithin}

-- A reservation of ten bytes
abbrev reserve_ten : ℤ → ℕ → ℕ → ℤ
reserve_ten (pos n) m p = pos (n - 10)
reserve_ten (negsuc n) m p = negsuc n

reserve_ten_shrinks : (limit : ℤ) (m p : ℕ) → reserve_ten limit m p ≤ℤ limit
reserve_ten_shrinks (pos n) m p = omega arith
reserve_ten_shrinks (negsuc n) m p = omega arith

abbrev busy : Worker ℕ ℕ
busy = record {
  kv_cache_memory_bytes = some false;
  requested_memory = whole (pos 1000);
  total_consumed = fraction false (some (pos 400));
  peak_activation_memory = whole (pos 100);
  model_config = some 0;
  parallel_config = some 1;
  status = none;
  available_kv_cache_memory_bytes = none;
}

abbrev warned : Worker ℕ ℕ
warned = record {
  kv_cache_memory_bytes = some false;
  requested_memory = whole (pos 1000);
  total_consumed = fraction false (some (pos 400));
  peak_activation_memory = whole (pos 100);
  model_config = some 0;
  parallel_config = some 1;
  status =
      some (status_of reserve_ten (pos 700) (pos 1000) (pos 400) (pos 100) (pos 500) (pos 490));
  available_kv_cache_memory_bytes = some (pos 500);
}

clamps : guard_automatic_capacity reserve_ten busy (whole (pos 700)) ≡ ok (pos 490, warned)
unfolding guard_automatic_capacity
clamps = refl

enables : kv_capacity_guard_enabled (λ name. some " Yes ") ≡ ok true
unfolding kv_capacity_guard_enabled
enables = refl

refuses_word : kv_capacity_guard_enabled (λ name. some "maybe") ≡ raised (not_boolean "maybe")
unfolding kv_capacity_guard_enabled
refuses_word = refl

guard_automatic_capacity-IsWithin_example : IsWithin busy warned (whole (pos 700)) (pos 490)
guard_automatic_capacity-IsWithin_example =
    guard_automatic_capacity-IsWithin reserve_ten busy warned (whole (pos 700)) (pos 490)
      reserve_ten_shrinks refl clamps

-- A module whose two names are of one class, and the class's method, which reports 700 bytes
abbrev worker_module : Module ℕ ℕ ℕ
worker_module = record { worker = some 7; gpu_worker = some 7; reserve = some reserve_ten }

abbrev measures : Method ℕ ℕ
measures = record {
  is_callable = true;
  is_marked = false;
  run = λ worker. ok (whole (pos 700), worker);
}

abbrev own_methods : ℕ → Option (Method ℕ ℕ)
own_methods c = some measures

abbrev hooked_methods : ℕ → Option (Method ℕ ℕ)
hooked_methods = set_method 7 (guarded reserve_ten measures) own_methods

hooked_method_clamps : (guarded reserve_ten measures).run busy ≡ ok (whole (pos 490), warned)
unfolding guarded
hooked_method_clamps = refl

two_classes_are_refused :
    install_worker_hook
      (record { worker = some 7; gpu_worker = some 8; reserve = some reserve_ten })
      own_methods
    ≡ raised no_single_worker_class
unfolding install_worker_hook
two_classes_are_refused = refl
