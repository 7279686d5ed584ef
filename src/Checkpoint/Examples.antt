-- ===== src/Checkpoint/Examples.antt =====
-- Runs of the registry and of the search for rings, and the theorems at them.
use coldsnap.Base.{
  append, starts_with, ◌↔◌, String, Bool, true, false, ◌&&◌, ◌||◌, not, none, List, [], ◌∷◌, ◌≡◌,
  refl, Result, ok, raised, ◌==◌, string_eq, Fields, end, reverse, member, ℤ, pos, strip, show_ℕ,
  ap, ◌++◌,
}
use coldsnap.Checkpoint.Registry.{
  active, Registry, Resources, new, resource_name, register, assign, prepare_loop, rollback,
  settle_prepare, finish_prepare, prepare_all, restore_loop, finish_restore, restore_all,
  named_report, prepare_failed,
}
use coldsnap.Checkpoint.Phases.{IsSettled, Reached-IsSettled, here, next, prepares, restores}
use coldsnap.Checkpoint.Rollback.{Contract}
use coldsnap.Checkpoint.Atomicity.{prepare_all_rolled_back, restore_all-prepare_all}
use coldsnap.Checkpoint.Naming.{IsNumbered, new-IsNumbered, register-IsNumbered}
use coldsnap.Checkpoint.Rings.{
  found, missing, Process, is_ring_worker, remaining_in, ring_tasks, ring_users, all_ring_users,
  assert_no_io_uring, rings_remain,
}
use coldsnap.Checkpoint.RingFree.{Passes, assert_no_io_uring_iff}

-- A world is the set of the resources suspended; the one called "broken" refuses to be.
abbrev World : Type 0
World = String → Bool

abbrev suspend : Bool → String → World → Result String Fields × World
suspend true r w = (raised "cannot suspend", w)
suspend false r w = (ok end, λ x. x == r || w x)

abbrev toy : Resources String World
toy = record {
  has_contract = λ r. true;
  prepare = λ r w. suspend (r == "broken") r w;
  restore = λ r w. (ok end, λ x. not (x == r) && w x);
  assert_no_io_uring = λ w. (ok tt, w);
}

abbrev is_held : World → String → Bool
is_held w r = w r

suspend_ok :
    (b : Bool) (r : String) (w : World) (report : Fields)
    → (suspend b r w).0 ≡ ok report
    → (x : String) → (suspend b r w).1 x ≡ (x == r || w x)
suspend_ok true r w report h x = cc
suspend_ok false r w report h x = refl

suspend_raised :
    (b : Bool) (r : String) (w : World) (message : String)
    → (suspend b r w).0 ≡ raised message
    → (x : String) → (suspend b r w).1 x ≡ w x
suspend_raised true r w message h x = refl
suspend_raised false r w message h x = cc

abbrev toy_contract : Contract toy is_held
toy_contract = record {
  prepare_ok = λ r w. suspend_ok (r == "broken") r w;
  prepare_raised = λ r w. suspend_raised (r == "broken") r w;
  restore_ok = λ r w report h x. refl;
  rings_only_read = λ w x. refl;
}

abbrev none_held : World
none_held r = false

abbrev of_two : String → Registry String
of_two second = record {
  resources = ("loader-1", "loader") ∷ ("engine-2", second) ∷ [];
  prepared_resources = [];
  phase = active;
  sequence = 2;
  report = none;
}

-- The second resource refuses, and the first is given back.
refuses_second :
    (prepare_all toy (of_two "broken") none_held).0
    ≡ (raised (prepare_failed "cannot suspend" []), of_two "broken")
unfolding prepare_all prepare_loop finish_prepare settle_prepare rollback reverse
refuses_second = refl

abbrev reports_of_two : List Fields
reports_of_two = named_report "loader-1" end ∷ named_report "engine-2" end ∷ []

prepares_two : (prepare_all toy (of_two "engine") none_held).0.0 ≡ ok reports_of_two
unfolding prepare_all prepare_loop finish_prepare settle_prepare
prepares_two = refl

restores_two :
    (restore_all toy
      (prepare_all toy (of_two "engine") none_held).0.1
      (prepare_all toy (of_two "engine") none_held).1).0.0
    ≡ ok reports_of_two
unfolding prepare_all prepare_loop finish_prepare settle_prepare restore_all restore_loop
    finish_restore
restores_two = refl

abbrev registered : Registry String
registered = record {
  resources = ("loader-1", "loader") ∷ [];
  prepared_resources = [];
  phase = active;
  sequence = 1;
  report = none;
}

registers_loader : register toy "loader" "loader" new ≡ ok ("loader-1", registered)
unfolding register new resource_name append show_ℕ assign
registers_loader = refl

abbrev reader : ℤ → Process
reader pid = record {
  descriptors =
      found (("0", found "/dev/null") ∷ ("3", found "anon_inode:[eventfd]") ∷ ("4", missing) ∷ []);
  tasks = found (("7", found "python\n") ∷ []);
}

abbrev ring_holder : ℤ → Process
ring_holder pid = record {
  descriptors = found (("3", found "anon_inode:[io_uring]") ∷ []);
  tasks = found (("8", found "iou-wrk-8\n") ∷ []);
}

finds_rings :
    assert_no_io_uring ring_holder (pos 7 ∷ [])
    ≡ raised (rings_remain ((pos 7, "3") ∷ (pos 7, "8") ∷ []))
unfolding assert_no_io_uring all_ring_users ring_users remaining_in ring_tasks is_ring_worker
    starts_with strip
finds_rings = refl

Reached-IsSettled_example :
    IsSettled
      (restore_all toy (prepare_all toy new none_held).0.1 (prepare_all toy new none_held).1).0.1
Reached-IsSettled_example = Reached-IsSettled toy none_held (
    next (next here (prepares new none_held))
      (restores (prepare_all toy new none_held).0.1 (prepare_all toy new none_held).1))

refused_idle : (prepare_all toy (of_two "broken") none_held).0.1.phase ≡ active
refused_idle = ap (λ y. y.1.phase) refuses_second

prepare_all_rolled_back_example : (prepare_all toy (of_two "broken") none_held).1 "loader" ≡ false
prepare_all_rolled_back_example =
    prepare_all_rolled_back toy is_held toy_contract (of_two "broken") none_held refl (λ x h. refl)
      refused_idle "loader"

restore_all-prepare_all_example :
    ((x : String)
      → (prepare_all toy (of_two "engine") none_held).1 x
        ≡ (member x ("loader" ∷ "engine" ∷ []) || false))
    × ((x : String)
        → (restore_all toy
              (prepare_all toy (of_two "engine") none_held).0.1
              (prepare_all toy (of_two "engine") none_held).1).1
            x
          ≡ false)
    × ((restore_all toy
          (prepare_all toy (of_two "engine") none_held).0.1
          (prepare_all toy (of_two "engine") none_held).1).0.1.phase
        ≡ active)
restore_all-prepare_all_example =
    restore_all-prepare_all toy is_held toy_contract (of_two "engine") none_held reports_of_two
      reports_of_two refl (λ x h. refl) prepares_two restores_two

register-IsNumbered_example :
    (registered.resources ≡ [] ++ ("loader-1", "loader") ∷ [])
    × IsNumbered registered
    × (registered.phase ≡ active)
unfolding new
register-IsNumbered_example =
    register-IsNumbered toy "loader" "loader" "loader-1" new registered (new-IsNumbered String)
      registers_loader

assert_no_io_uring_iff_example :
    (assert_no_io_uring reader (pos 7 ∷ []) ≡ ok tt) ↔ (Passes (reader (pos 7)) × Unit {0})
assert_no_io_uring_iff_example = assert_no_io_uring_iff reader (pos 7 ∷ [])
