-- ===== src/Lifecycle/Examples.antt =====
-- A toy engine with one worker, put to sleep, and its evidence.
use coldsnap.Base.{
  ℕ, zero, suc, ◌+◌, ◌*◌, ◌≤◌, String, Bool, true, false, Option, none, some, List, [], ◌∷◌, ◌≡◌,
  ◌≢◌, ◌↔◌, refl, arith, Result, ok, raised, if◌then◌else◌, ◌==◌, All, Distinct, append, show_ℕ,
  strip, sorted, to_set, string_eq, string_ord, pos, Json, null, int, Fields, Float, non_finite,
  bool, str, arr, obj, nil, cons, end, field, array,
}
use coldsnap.Validation.Stats.{Stat}
use coldsnap.Lifecycle.Machine.{
  rounds_exhausted, duplicate_inventory, response_mismatch, vllm, sleep, Args, Machine,
}
use coldsnap.Lifecycle.Control.{Report, control}
use coldsnap.Lifecycle.Sightings.{Returns}
use coldsnap.Lifecycle.Conduct.{IsControlled, control-IsControlled}
use coldsnap.Lifecycle.Clock.{MachineLaws}
use coldsnap.Lifecycle.Finishing.{control-finishes}
use coldsnap.Lifecycle.Evidence.{Item, expected_workers, evidence}
use coldsnap.Lifecycle.Synchronize.{synchronize_evidence}
use coldsnap.Lifecycle.Inventory.{AreNamed, expected_workers_iff}
use coldsnap.Lifecycle.Attested.{IsComplete, evidence-IsComplete}
use coldsnap.Lifecycle.Rewritten.{IsSynchronized, synchronize_evidence-IsSynchronized}

record World : Type 0 where
  clock : ℕ
  asleep : Bool

abbrev says : String → World → String
says url w =
    if url == "http://127.0.0.1:80/is_sleeping"
    then (if w.asleep then "S" else "A")
    else if url == "http://127.0.0.1:80/v1/chat/completions"
    then "C"
    else ""

abbrev later : String → World → World
later url w = record {
  clock = w.clock;
  asleep = if url == "http://127.0.0.1:80/sleep?level=1&mode=wait" then true else w.asleep;
}

abbrev chat : Json
chat = obj (
    field "choices"
      (arr (cons (obj (field "message" (obj (field "content" (str " yes") end)) end)) nil)) end)

abbrev evidence_of_w : Fields
evidence_of_w = field "worker_id" (str "w") (field "capture_id" (str "c") end)

abbrev read_json : String → Option Json
read_json s =
    if s == "S"
    then some (obj (field "is_sleeping" (bool true) end))
    else if s == "A"
    then some (obj (field "is_sleeping" (bool false) end))
    else if s == "C"
    then some chat
    else if s == "E"
    then some (obj evidence_of_w)
    else if s == "[w]"
    then some (arr (array str ("w" ∷ [])))
    else if s == "[w,w]"
    then some (arr (array str ("w" ∷ "w" ∷ [])))
    else none

abbrev small_file : Stat
small_file = record {
  st_dev = pos 1;
  st_ino = pos 1;
  st_size = pos 40;
  st_mtime_ns = pos 0;
  st_ctime_ns = pos 0;
  st_uid = pos 0;
  st_gid = pos 0;
  st_mode = 33152;
}

abbrev toy : Machine World ℕ
toy = record {
  urlopen = λ method url body timeout w. (ok (says url w), later url w);
  monotonic = λ w. w.clock;
  sleep_for = λ n w. record { clock = w.clock + n; asleep = w.asleep };
  glob = λ folder pattern w. "w.json" ∷ [];
  read_text = λ path w. (ok "E", w);
  lstat = λ path w. (ok small_file, w);
  make_runtime_root = λ w. (ok tt, w);
  open_lock = λ w. (ok 3, w);
  flock = λ lock w. (ok tt, w);
  close = λ lock w. w;
  dumps = λ v. some "J";
  dumps_sorted = λ v. some "J";
  loads = read_json;
  to_str = λ v. "";
  stem = λ path. "w";
  temporary = λ path. ".w.json.1.tmp";
  marker_temporary = ".lifecycle.1.tmp";
  create = λ path w. (ok 4, w);
  write = λ d bytes w. (ok tt, w);
  fsync = λ d w. (ok tt, w);
  replace = λ from to w. (ok tt, w);
  unlink = λ path w. w;
  read_stdin = λ n w. (ok [], w);
  encode = λ text. 74 ∷ 10 ∷ [];
  loads_bytes = λ bytes. none;
  time = λ w. non_finite;
}

toy-laws : MachineLaws toy
toy-laws = record {
  pause = λ n w. omega arith;
  ask = λ method path body timeout w. (omega arith, refl);
  read = λ path w. (omega arith, refl);
  root = λ w. (omega arith, refl);
  open_ = λ w. (omega arith, refl);
  take = λ lock w. (omega arith, refl);
  shut = λ lock w. omega arith;
}

abbrev to_sleep : Args
to_sleep = record {
  engine = vllm;
  action = sleep;
  port = 80;
  model = "m";
  health_path = "/health";
  prompt = "ready?";
  expected = "yes";
  load_format = "auto";
  timeout = 1000;
}

abbrev awake : World
awake = record { clock = 5; asleep = false }

abbrev put_down : World
put_down = record { clock = 5; asleep = true }

abbrev slept : Report
slept = record { action = sleep; is_sleeping = true; accepted = true; seconds = 0 }

toy_sleeps : Returns (control toy to_sleep 11 awake) slept put_down
unfolding control
toy_sleeps = (refl, refl)

abbrev hasty : Args
hasty = record {
  engine = vllm;
  action = sleep;
  port = 80;
  model = "m";
  health_path = "/health";
  prompt = "ready?";
  expected = "no";
  load_format = "auto";
  timeout = 1;
}

wrong_answer_is_refused : (control toy hasty 11 awake).0 ≡ raised response_mismatch
unfolding control
wrong_answer_is_refused = refl

control-IsControlled_example : IsControlled toy to_sleep 11 slept put_down
control-IsControlled_example = control-IsControlled toy to_sleep 11 awake slept put_down toy_sleeps

control-finishes_example : (control toy to_sleep 11 awake).0 ≢ raised rounds_exhausted
control-finishes_example = control-finishes toy toy-laws to_sleep 10 awake (omega arith)

one_worker : expected_workers read_json "[w]" ≡ ok ("w" ∷ [])
unfolding expected_workers
one_worker = refl

same_worker_twice : expected_workers read_json "[w,w]" ≡ raised duplicate_inventory
unfolding expected_workers
same_worker_twice = refl

one_worker_is_named : (expected_workers read_json "[w]" ≡ ok ("w" ∷ [])) ↔ (
    (read_json "[w]" ≡ some (arr (array str ("w" ∷ []))))
    × (Path (List String) ("w" ∷ []) [] → ⊥)
    × AreNamed ("w" ∷ [])
    × Distinct {A = String} ("w" ∷ []))
one_worker_is_named = expected_workers_iff read_json "[w]" ("w" ∷ [])

abbrev entry_of_w : Item
entry_of_w = record {
  worker_id = str "w";
  state = null;
  capture_id = str "c";
  pid = int (pos 0);
  generation = str "";
}

toy_evidence : Returns (evidence toy "c" "[w]" awake) (entry_of_w ∷ []) awake
unfolding evidence coldsnap.Base.insert
toy_evidence = (refl, refl)

evidence-IsComplete_example : IsComplete toy "c" "[w]" awake (entry_of_w ∷ [])
evidence-IsComplete_example =
    evidence-IsComplete toy "c" "[w]" awake (entry_of_w ∷ []) awake toy_evidence

toy_synchronizes : Returns (synchronize_evidence toy "running" "d" "[w]" awake) tt awake
unfolding synchronize_evidence coldsnap.Base.insert
toy_synchronizes = (refl, refl)

synchronize_evidence-IsSynchronized_example : IsSynchronized toy "running" "d" "[w]" awake
synchronize_evidence-IsSynchronized_example =
    synchronize_evidence-IsSynchronized toy "running" "d" "[w]" awake awake toy_synchronizes
