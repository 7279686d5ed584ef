-- ===== src/Lifecycle/Readings.antt =====
-- What `evidence` and `synchronize_evidence` have read of a file.
use coldsnap.Base.{
  ◌/◌, ◌%◌, String, false, not, ◌≡◌, arith, raise_if, raise_if-ok, some, pos, ◌<ℤ◌, ◌≤ℤ◌, Json,
}
use coldsnap.Coordinator.Actions.{lift}
use coldsnap.Validation.Stats.{Stat}
use coldsnap.Lifecycle.Machine.{invalid_evidence_file, json_error, Machine}
use coldsnap.Lifecycle.Client.{load_json}
use coldsnap.Lifecycle.Sightings.{Returns, resume-Returns}
use coldsnap.Lifecycle.Inventory.{demand-ok}
use coldsnap.Lifecycle.Evidence.{is_evidence_file, read_evidence}

module _ {W D : Type 0} (sys : Machine W D) where
  -- The file was seen to be regular (the type of its mode is that of regular files), not empty and of at most 4
  -- MiB, and then its text was read, which is the text of the value.
  pub record IsEvidence (path : String) (value : Json) : Type 0 where
    pub earlier : W
    pub seen : W
    pub later : W
    pub information : Stat
    pub stat : Returns (sys.lstat path earlier) information seen
    pub regular : information.st_mode / 4096 % 16 ≡ 8
    pub filled : pos 0 <ℤ information.st_size
    pub small : information.st_size ≤ℤ pos 4194304
    pub text : String
    pub content : Returns (sys.read_text path seen) text later
    pub parsed : sys.loads text ≡ some value

  evidence_file :
      (st : Stat)
      → not (is_evidence_file st) ≡ false
      → (st.st_mode / 4096 % 16 ≡ 8) × (pos 0 <ℤ st.st_size) × (st.st_size ≤ℤ pos 4194304)
  evidence_file st h = (ground (arith, h), ground (arith, h), ground (arith, h))

  pub read_evidence-IsEvidence :
      (path : String) (u : W) (value : Json) (v : W)
      → Returns (read_evidence sys path u) value v
      → IsEvidence path value
  unfolding read_evidence load_json
  read_evidence-IsEvidence path u value v h =
      let (st, p, h1) = resume-Returns (sys.lstat path u) _ value v h in
      let (done, q, h2) =
        resume-Returns (lift (raise_if (not (is_evidence_file st)) invalid_evidence_file) _) _ value
          v h1 in
      let (text, r, h3) = resume-Returns (sys.read_text path _) _ value v h2 in
      let (a, b, c) = evidence_file st (raise_if-ok _ invalid_evidence_file q.0) in
      record {
        earlier = u;
        seen = _;
        later = _;
        information = st;
        stat = p;
        regular = a;
        filled = b;
        small = c;
        text = text;
        content = r;
        parsed = demand-ok json_error (sys.loads text) h3.0;
      }
