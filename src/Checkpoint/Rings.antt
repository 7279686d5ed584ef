-- ===== src/Checkpoint/Rings.antt =====
-- checkpoint.py: `assert_no_io_uring`. What the code reads below /proc is a parameter.
use coldsnap.Base.{
  String, Bool, ◌||◌, List, [], ◌∷◌, ◌++◌, Result, ok, raised, ◌>>=◌, ◌==◌, string_eq,
  if◌then◌else◌, ℤ, strip,
}
use coldsnap.Base.{starts_with}

-- A read below /proc: it succeeds, the entry is gone, or another `OSError`.
pub data Read (A : Type 0) : Type 0 where
  found : A → Read A
  missing : Read A
  denied : String → Read A

-- A process: the targets of its descriptors and the names of its tasks.
pub record Process : Type 0 where
  pub descriptors : Read (List (String × Read String))
  pub tasks : Read (List (String × Read String))

pub data RingError : Type 0 where
  descriptors_unreadable descriptor_unreadable threads_unreadable : String → RingError
  rings_remain : List (ℤ × String) → RingError

abbrev pub is_ring : String → Bool
is_ring target = target == "anon_inode:[io_uring]" || target == "anon_inode:io_uring"

unfoldable pub is_ring_worker : String → Bool
unfolding starts_with strip
is_ring_worker comm = starts_with "iou-wrk-" (strip comm) || starts_with "iou-sqp-" (strip comm)

-- The loops over the entries of one directory, which a vanished entry does not end.
unfoldable pub remaining_in :
    (String → Bool)
    → (String → RingError)
    → List (String × Read String)
    → Result RingError (List String)
remaining_in test error [] = ok []
remaining_in test error ((name, read) ∷ entries) =
    let later = remaining_in test error entries in
    elim read [
      | found text ↦ later >>= λ names. ok (if test text then name ∷ names else names)
      | missing ↦ later
      | denied message ↦ raised (error message)
    ]

abbrev pub tag : ℤ → List String → List (ℤ × String)
tag pid [] = []
tag pid (name ∷ names) = (pid, name) ∷ tag pid names

unfoldable pub ring_tasks : Read (List (String × Read String)) → Result RingError (List String)
unfolding remaining_in is_ring_worker
ring_tasks (found entries) = remaining_in is_ring_worker threads_unreadable entries
ring_tasks missing = ok []
ring_tasks (denied message) = raised (threads_unreadable message)

unfoldable pub ring_users : Process → Result RingError (List String)
unfolding remaining_in ring_tasks
ring_users process = elim process.descriptors [
  | missing ↦ ok []
  | denied message ↦ raised (descriptors_unreadable message)
  | found entries ↦ remaining_in is_ring descriptor_unreadable entries >>= λ rings.
      ring_tasks process.tasks >>= λ workers. ok (rings ++ workers)
]

unfoldable pub all_ring_users : (ℤ → Process) → List ℤ → Result RingError (List (ℤ × String))
unfolding ring_users
all_ring_users proc [] = ok []
all_ring_users proc (pid ∷ pids) =
    let later = all_ring_users proc pids in
    ring_users (proc pid) >>= λ here. later >>= λ rest. ok (tag pid here ++ rest)

abbrev pub refuse_remaining : List (ℤ × String) → Result RingError (Unit {0})
refuse_remaining [] = ok tt
refuse_remaining (r ∷ rs) = raised (rings_remain (r ∷ rs))

unfoldable pub assert_no_io_uring : (ℤ → Process) → List ℤ → Result RingError (Unit {0})
unfolding all_ring_users
assert_no_io_uring proc pids = do remaining ← all_ring_users proc pids; refuse_remaining remaining
