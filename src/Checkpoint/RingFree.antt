-- ===== src/Checkpoint/RingFree.antt =====
-- What `assert_no_io_uring` promises when it returns.
use coldsnap.Base.{
  String, Bool, true, false, List, [], ◌∷◌, ◌++◌, ◌≡◌, ◌↔◌, refl, Result, ok, ◌>>=◌, >>=-eq-ok,
  if◌then◌else◌, ℤ, All, ap, ◌∙◌,
}
use coldsnap.Checkpoint.Rings.{
  Read, found, missing, denied, Process, RingError, remaining_in, is_ring, is_ring_worker,
  ring_tasks, ring_users, tag, all_ring_users, refuse_remaining, assert_no_io_uring,
  descriptor_unreadable, threads_unreadable,
}

-- An entry is gone, or was read and fails the test.
abbrev pub IsClear : (String → Bool) → String × Read String → Type 0
IsClear test (name, found text) = test text ≡ false
IsClear test (name, missing) = Unit {0}
IsClear test (name, denied message) = ⊥

abbrev pub AreClear : (String → Bool) → Read (List (String × Read String)) → Type 0
AreClear test (found entries) = All (IsClear test) entries
AreClear test missing = Unit {0}
AreClear test (denied message) = ⊥

-- A process has exited, or its descriptors and tasks are clear.
abbrev pub IsRingFree :
    Read (List (String × Read String)) → Read (List (String × Read String)) → Type 0
IsRingFree (found entries) tasks = All (IsClear is_ring) entries × AreClear is_ring_worker tasks
IsRingFree missing tasks = Unit {0}
IsRingFree (denied message) tasks = ⊥

module _ (test : String → Bool) (error : String → RingError) where
  remaining_in-IsClear :
      (entries : List (String × Read String))
      → remaining_in test error entries ≡ ok []
      → All (IsClear test) entries
  unfolding remaining_in
  remaining_in-IsClear [] h = tt
  remaining_in-IsClear ((name, found text) ∷ entries) h =
      let (names, p, q) = >>=-eq-ok (remaining_in test error entries) _ h in
      let (a, b) = kept (test text) name names q in (a, remaining_in-IsClear entries (p ∙ ap ok b))
    where
      kept :
          (t : Bool) (name : String) (names : List String)
          → Path (Result RingError (List String)) (ok (if t then name ∷ names else names)) (ok [])
          → (t ≡ false) × (names ≡ [])
      kept true name names q = cc
      kept false name names q = (refl, cc)
  remaining_in-IsClear ((name, missing) ∷ entries) h = (tt, remaining_in-IsClear entries h)
  remaining_in-IsClear ((name, denied message) ∷ entries) h = cc

  remaining_in-of_clear :
      (entries : List (String × Read String))
      → All (IsClear test) entries
      → remaining_in test error entries ≡ ok []
  unfolding remaining_in
  remaining_in-of_clear [] h = refl
  remaining_in-of_clear ((name, found text) ∷ entries) h =
      rw (remaining_in-of_clear entries h.1, h.0) refl
  remaining_in-of_clear ((name, missing) ∷ entries) h = remaining_in-of_clear entries h.1
  remaining_in-of_clear ((name, denied message) ∷ entries) h = absurd h.0

ring_tasks_iff :
    (r : Read (List (String × Read String))) → (ring_tasks r ≡ ok []) ↔ AreClear is_ring_worker r
unfolding ring_tasks
ring_tasks_iff (found entries) = (
  remaining_in-IsClear is_ring_worker threads_unreadable entries,
  remaining_in-of_clear is_ring_worker threads_unreadable entries,
)
ring_tasks_iff missing = (λ h. tt, λ h. refl)
ring_tasks_iff (denied message) = (λ h. cc, λ h. absurd h)

no_pairs :
    {A : Type 0} (xs ys : List A)
    → Path (Result RingError (List A)) (ok (xs ++ ys)) (ok [])
    → (xs ≡ []) × (ys ≡ [])
no_pairs [] ys h = (refl, cc)
no_pairs (x ∷ xs) ys h = cc

tag-nil : (pid : ℤ) (names : List String) → tag pid names ≡ [] → names ≡ []
tag-nil pid [] h = refl
tag-nil pid (n ∷ ns) h = cc

ring_users_of :
    (d t : Read (List (String × Read String)))
    → (ring_users (record { descriptors = d; tasks = t }) ≡ ok []) ↔ IsRingFree d t
unfolding ring_users
ring_users_of missing t = (λ h. tt, λ h. refl)
ring_users_of (denied message) t = (λ h. cc, λ h. absurd h)
ring_users_of (found entries) t = (free, clear)
  where
    free :
        (remaining_in is_ring descriptor_unreadable entries >>= λ rings.
        ring_tasks t >>= λ workers. ok (rings ++ workers))
          ≡ ok []
        → All (IsClear is_ring) entries × AreClear is_ring_worker t
    free h =
        let (rings, p, q) = >>=-eq-ok (remaining_in is_ring descriptor_unreadable entries) _ h in
        let (workers, p', q') = >>=-eq-ok (ring_tasks t) _ q in
        let (a, b) = no_pairs rings workers q' in
        (
          remaining_in-IsClear is_ring descriptor_unreadable entries (p ∙ ap ok a),
          (ring_tasks_iff t).0 (p' ∙ ap ok b),
        )

    clear :
        All (IsClear is_ring) entries × AreClear is_ring_worker t
        → (remaining_in is_ring descriptor_unreadable entries >>= λ rings.
            ring_tasks t >>= λ workers. ok (rings ++ workers))
          ≡ ok []
    clear (a, b) =
        rw (remaining_in-of_clear is_ring descriptor_unreadable entries a, (ring_tasks_iff t).1 b)
          refl

-- Whether a process passes.
pub Passes : Process → Type 0
Passes p = IsRingFree p.descriptors p.tasks

ring_users_iff : (p : Process) → (ring_users p ≡ ok []) ↔ Passes p
unfolding Passes
ring_users_iff p = ring_users_of p.descriptors p.tasks

chained_iff :
    (pid : ℤ) (first : Result RingError (List String))
    (later : Result RingError (List (ℤ × String))) {A B : Type 0}
    → (first ≡ ok []) ↔ A
    → (later ≡ ok []) ↔ B
    → ((first >>= λ here. later >>= λ rest. ok (tag pid here ++ rest)) ≡ ok []) ↔ (A × B)
chained_iff pid first later f g = (
  λ h.
      let (here, p, q) = >>=-eq-ok first _ h in
      let (rest, p', q') = >>=-eq-ok later _ q in
      let (a, b) = no_pairs (tag pid here) rest q' in
      (f.0 (p ∙ ap ok (tag-nil pid here a)), g.0 (p' ∙ ap ok b)),
  λ h. rw (f.1 h.0, g.1 h.1) refl,
)

all_ring_users_iff :
    (proc : ℤ → Process) (pids : List ℤ)
    → (all_ring_users proc pids ≡ ok []) ↔ All (λ pid. Passes (proc pid)) pids
unfolding all_ring_users
all_ring_users_iff proc [] = (λ h. tt, λ h. refl)
all_ring_users_iff proc (pid ∷ pids) =
    chained_iff pid (ring_users (proc pid)) (all_ring_users proc pids) (ring_users_iff (proc pid))
      (all_ring_users_iff proc pids)

-- The check returns exactly when each of the processes is gone, or all that is left of its descriptors and
-- tasks could be read and none of it is a ring or a ring's worker.
pub assert_no_io_uring_iff :
    (proc : ℤ → Process) (pids : List ℤ)
    → (assert_no_io_uring proc pids ≡ ok tt) ↔ All (λ pid. Passes (proc pid)) pids
unfolding assert_no_io_uring
assert_no_io_uring_iff proc pids = (
  λ h.
      let (r, p, q) = >>=-eq-ok (all_ring_users proc pids) refuse_remaining h in
      (all_ring_users_iff proc pids).0 (p ∙ ap ok (nothing r q)),
  λ h. rw ((all_ring_users_iff proc pids).1 h) refl,
)
  where
    nothing : (r : List (ℤ × String)) → refuse_remaining r ≡ ok tt → r ≡ []
    nothing [] h = refl
    nothing (x ∷ xs) h = cc
