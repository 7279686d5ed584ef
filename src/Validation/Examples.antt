-- ===== src/Validation/Examples.antt =====
-- Validations over a toy system whose files hold the bytes that its world has left, and the theorems at them.
use coldsnap.Base.{
  ℕ, zero, suc, ◌<◌, String, true, false, none, some, [], ◌∷◌, ◌++◌, length, ◌≡◌, ◌≢◌, ◌↔◌, refl,
  arith, Result, ok, raised, if◌then◌else◌, sym, append, pos, finite, list_eq, nat_eq, ◌==◌,
  string_eq,
}
use coldsnap.Hydration.Extents.{refuses_hex}
use coldsnap.Hydration.Digests.{is_lower, from_hex}
use coldsnap.Coordinator.Wire.{Bytes}
use coldsnap.Validation.Stats.{
  ValidationError, system_error, hash_unfinished, digest_mismatch, Stat, content_identity,
  diagnostic_identity, System, without_prefix, removeprefix, normalize_sha256, open_regular_file,
}
use coldsnap.Validation.Hashing.{Hashed, read_loop, hash_descriptor}
use coldsnap.Validation.Records.{
  record_matches, record_of, write_json_atomic, publish_validation_record,
}
use coldsnap.Validation.Payloads.{
  Admission, inspect, inspect_marked, read_marker, conclude, validate_payload_python, rpc,
  validation_transport,
}
use coldsnap.Validation.Contents.{Reads, read_loop-finishes, hash_descriptor-contents}
use coldsnap.Validation.Matching.{normalize_sha256_idempotent, record_matches-record_of}
use coldsnap.Validation.Acceptance.{IsAccepted, validate_payload_python-IsAccepted}

abbrev zeros : String
zeros = "0000000000000000000000000000000000000000000000000000000000000000"

abbrev ones : String
ones = "1111111111111111111111111111111111111111111111111111111111111111"

abbrev payload_name : String
payload_name = "weights"

abbrev payload : Bytes
payload = 5 ∷ 6 ∷ []

-- Stands for the digest: it tells the payload from other contents.
abbrev toy_digest : Bytes → String
toy_digest b = if b == payload then zeros else ones

abbrev status : Stat
status = record {
  st_dev = pos 1;
  st_ino = pos 2;
  st_size = pos 2;
  st_mtime_ns = pos 3;
  st_ctime_ns = pos 4;
  st_uid = pos 0;
  st_gid = pos 0;
  st_mode = 33152;
}

abbrev one_byte : ℕ → Bytes → Result ValidationError Bytes × Bytes
one_byte zero w = (ok [], w)
one_byte (suc n) [] = (ok [], [])
one_byte (suc n) (b ∷ w) = (ok (b ∷ []), w)

-- No record lies beside the payload yet.
abbrev toy : System Bytes ℕ
toy = record {
  open_file = λ path w. (ok 3, w);
  fstat = λ d w. (ok status, w);
  lstat = λ path w. (raised (system_error "no such file"), w);
  read = λ d n w. one_byte n w;
  read_text = λ path w. (raised (system_error "no such file"), w);
  close = λ d w. w;
  make_parent = λ path w. (ok tt, w);
  create = λ path w. (ok 4, w);
  write = λ d text w. (ok tt, w);
  fsync = λ d w. (ok tt, w);
  replace = λ from to w. (ok tt, w);
  open_directory = λ path w. (ok 5, w);
  unlink = λ path w. w;
  temporary = λ path. path;
  name = λ path. path;
  sha256 = toy_digest;
  dump = λ v. "";
  loads = λ s. none;
  float_is = λ x n. false;
  time_ns = λ w. pos 9;
  elapsed = λ w w'. finite (pos 0) (pos 0);
}

abbrev left : Bytes → Bytes
left w = w

toy-Reads : Reads toy 3 left
toy-Reads = record { in_order = in_order; at_end = at_end; keeps = λ w. refl }
  where
    in_order :
        (n : ℕ) (w chunk : Bytes) → (one_byte n w).0 ≡ ok chunk → chunk ++ (one_byte n w).1 ≡ w
    in_order zero w chunk h = let e : [] ≡ chunk = cc in rw (sym e) refl
    in_order (suc n) [] chunk h = let e : [] ≡ chunk = cc in rw (sym e) refl
    in_order (suc n) (b ∷ w) chunk h = let e : b ∷ [] ≡ chunk = cc in rw (sym e) refl

    at_end : (n : ℕ) (w : Bytes) → 0 < n → (one_byte n w).0 ≡ ok [] → w ≡ []
    at_end zero w k h = absurd (omega (arith, k))
    at_end (suc n) [] k h = refl
    at_end (suc n) (b ∷ w) k h = cc

toy_finishes : (n : ℕ) (w : Bytes) → (one_byte n w).0 ≢ raised hash_unfinished
toy_finishes zero w h = cc
toy_finishes (suc n) [] h = cc
toy_finishes (suc n) (b ∷ w) h = cc

abbrev hashed : Hashed
hashed = record {
  digest = append "sha256:" zeros;
  hashed = 2;
  content = content_identity status;
  diagnostics = diagnostic_identity status;
}

hashes : (hash_descriptor toy 5 3 4 payload).0 ≡ ok hashed
unfolding hash_descriptor read_loop append
hashes = refl

abbrev admission : Admission
admission = record {
  reason = "revalidated_existing";
  content_evidence = "full-sha256-this-operation";
  bytes_hashed = pos 2;
  seconds = finite (pos 0) (pos 0);
  marker = "weights.json";
  content = content_identity status;
  diagnostics = diagnostic_identity status;
}

normalizes : normalize_sha256 zeros ≡ ok (append "sha256:" zeros)
unfolding normalize_sha256 removeprefix without_prefix refuses_hex is_lower from_hex append
normalizes = refl

accepts :
    (validate_payload_python toy 5 4 "weights" zeros (pos 2) "weights.json" payload).0
    ≡ ok admission
unfolding validate_payload_python normalize_sha256 removeprefix without_prefix refuses_hex is_lower
    from_hex append open_regular_file inspect read_marker inspect_marked hash_descriptor read_loop
    conclude publish_validation_record record_of write_json_atomic
accepts = refl

refuses_other_digest :
    (validate_payload_python toy 5 4 "weights" ones (pos 2) "weights.json" payload).0
    ≡ raised (digest_mismatch (append "sha256:" ones) (append "sha256:" zeros))
unfolding validate_payload_python normalize_sha256 removeprefix without_prefix refuses_hex is_lower
    from_hex append open_regular_file inspect read_marker inspect_marked hash_descriptor read_loop
    conclude
refuses_other_digest = refl

chooses_rpc : validation_transport (λ s. s) none (some "/run/validate") (some "validate") ≡ ok rpc
unfolding validation_transport
chooses_rpc = refl

hash_descriptor-contents_example :
    (append "sha256:" zeros ≡ append "sha256:" (toy_digest payload)) × (2 ≡ length payload)
hash_descriptor-contents_example =
    hash_descriptor-contents toy 3 left toy-Reads 5 4 payload hashed hashes

toy_read_ends : (read_loop toy 3 3 4 [] payload).0 ≢ raised hash_unfinished
toy_read_ends = read_loop-finishes toy 3 left toy-Reads toy_finishes 3 4 [] payload (omega arith)

normalizes_twice : normalize_sha256 (append "sha256:" zeros) ≡ ok (append "sha256:" zeros)
normalizes_twice = normalize_sha256_idempotent zeros (append "sha256:" zeros) normalizes

record_matches-record_of_example :
    (record_matches
        (λ x n. false)
        "weights"
        zeros
        (pos 2)
        (content_identity status)
        (some (record_of "weights" zeros (pos 2) status "full" (pos 9)))
      ≡ true)
    ↔ ((payload_name ≡ payload_name)
        × (zeros ≡ zeros)
        × (pos 2 ≡ pos 2)
        × (content_identity status ≡ content_identity status))
record_matches-record_of_example =
    record_matches-record_of (λ x n. false) "weights" "weights" zeros zeros "full" (pos 2) (pos 2)
      (pos 9) status (content_identity status)

validate_payload_python-IsAccepted_example :
    IsAccepted toy 5 4 "weights" zeros (pos 2) "weights.json" payload admission
validate_payload_python-IsAccepted_example =
    validate_payload_python-IsAccepted toy 5 4 "weights" zeros (pos 2) "weights.json" payload
      admission accepts
