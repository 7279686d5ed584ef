-- ===== src/Validation/Hashing.antt =====
-- validation.py: `_hash_descriptor` and `file_sha256`. The digest is updated by each chunk, so it is that of
-- the bytes so far.
use coldsnap.Base.{
  ℕ, zero, suc, String, Bool, ◌&&◌, not, [], ◌∷◌, ◌++◌, length, ok, raised, raise_if, eqb, eqb_ℤ,
  append,
}
use coldsnap.Coordinator.Wire.{Bytes}
use coldsnap.Coordinator.Actions.{Action, ◌>>=◌, ◌>>◌, lift}
use coldsnap.Validation.Stats.{
  ValidationError, chunk_not_positive, changed_during_validation, hash_unfinished, ContentIdentity,
  DiagnosticIdentity, content_identity, diagnostic_identity, System, closing, open_regular_file,
  removeprefix,
}

pub record Hashed : Type 0 where
  pub digest : String
  pub hashed : ℕ
  pub content : ContentIdentity
  pub diagnostics : DiagnosticIdentity

abbrev pub same_content : ContentIdentity → ContentIdentity → Bool
same_content a b =
    eqb_ℤ a.device b.device
    && eqb_ℤ a.inode b.inode
    && eqb_ℤ a.size b.size
    && eqb_ℤ a.mtime_ns b.mtime_ns

abbrev pub after_read :
    {W : Type 0}
    → (Bytes → Action W ValidationError Bytes)
    → Bytes
    → Bytes
    → Action W ValidationError Bytes
after_read more got [] = lift (ok got)
after_read more got (b ∷ chunk) = more (got ++ b ∷ chunk)

module _ {W D : Type 0} (sys : System W D) where
  -- The loop, for at most the given number of rounds
  unfoldable pub read_loop : ℕ → D → ℕ → Bytes → Action W ValidationError Bytes
  read_loop zero d chunk_bytes got = lift (raised hash_unfinished)
  read_loop (suc rounds) d chunk_bytes got =
      sys.read d chunk_bytes >>= after_read (read_loop rounds d chunk_bytes) got

  -- A file may grow while it is read, so the rounds are a parameter.
  unfoldable pub hash_descriptor : ℕ → D → ℕ → Action W ValidationError Hashed
  unfolding read_loop
  hash_descriptor rounds d chunk_bytes = do
    lift (raise_if (eqb chunk_bytes 0) chunk_not_positive)
    earlier ← sys.fstat d
    bytes ← read_loop rounds d chunk_bytes []
    later ← sys.fstat d
    lift (
        raise_if (not (same_content (content_identity earlier) (content_identity later)))
          changed_during_validation)
    lift (
        ok (record {
          digest = append "sha256:" (sys.sha256 bytes);
          hashed = length bytes;
          content = content_identity later;
          diagnostics = diagnostic_identity later;
        }))

  unfoldable pub file_sha256 : ℕ → String → ℕ → Action W ValidationError String
  unfolding open_regular_file hash_descriptor removeprefix
  file_sha256 rounds path chunk_bytes = do
    d ← open_regular_file sys path
    result ← λ w. closing sys d (hash_descriptor rounds d chunk_bytes w)
    lift (ok (removeprefix "sha256:" result.digest))
