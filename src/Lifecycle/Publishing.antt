-- ===== src/Lifecycle/Publishing.antt =====
-- What `publish` and `line_of` of `synchronize_evidence` have done when they return.
use coldsnap.Base.{
  String, some, ◌≡◌, refl, Result, ok, ok_injective, string_eq, append, Fields, Float, obj, sym,
  subst,
}
use coldsnap.Coordinator.Wire.{Bytes}
use coldsnap.Lifecycle.Machine.{LifecycleError, type_error, Machine, demand}
use coldsnap.Lifecycle.Sightings.{Returns, resume-Returns}
use coldsnap.Lifecycle.Inventory.{and_then-eq-ok, demand-ok}
use coldsnap.Lifecycle.Synchronize.{closed, write_closed, cleaned, publish, updated, line_of}
use coldsnap.Lifecycle.Updating.{IsUpdated, updated-IsUpdated}

module _ {W D : Type 0} (sys : Machine W D) where
  -- A temporary file was made, written, forced to the disk, closed and moved to the path, and what is left under
  -- its name was removed.
  pub record IsPublished (temporary path : String) (bytes : Bytes) (x y : W) : Type 0 where
    pub descriptor : D
    pub made : W
    pub written : W
    pub forced : W
    pub moved : W
    pub create : Returns (sys.create temporary x) descriptor made
    pub write : Returns (sys.write descriptor bytes made) tt written
    pub fsync : Returns (sys.fsync descriptor written) tt forced
    pub replace : Returns (sys.replace temporary path (sys.close descriptor forced)) tt moved
    pub unlink : sys.unlink temporary moved ≡ y

  -- The text of the fields, and a new line.
  pub record IsLine (fields : Fields) (line : Bytes) : Type 0 where
    pub text : String
    pub printed : sys.dumps_sorted (obj fields) ≡ some text
    pub encoded : line ≡ sys.encode (append text "\n")

  pub line_of-IsLine :
      (state capture : String) (now : Float) (fs : Fields) (line : Bytes)
      → line_of sys state capture now fs ≡ ok line
      → (fields : Fields) × IsUpdated state capture now fs fields × IsLine fields line
  unfolding line_of
  line_of-IsLine state capture now fs line h =
      let fields = updated state capture now fs in
      let (text, p, q) = and_then-eq-ok (demand type_error (sys.dumps_sorted (obj fields))) _ h in
      (
        fields,
        updated-IsUpdated state capture now fs,
        record {
          text = text;
          printed = demand-ok type_error (sys.dumps_sorted (obj fields)) p;
          encoded = sym (ok_injective q);
        },
      )

  cleaned-Returns :
      (temporary : String) (o : Result LifecycleError (Unit {0}) × W) (y : W)
      → Returns (cleaned sys temporary o) tt y
      → (z : W) × Returns o tt z × (sys.unlink temporary z ≡ y)
  cleaned-Returns temporary (result, w) y h = (w, (h.0, refl), h.1)

  closed-Returns :
      (d : D) (o : Result LifecycleError (Unit {0}) × W) (v : W)
      → Returns (closed sys d o) tt v
      → Returns o tt o.1 × (sys.close d o.1 ≡ v)
  closed-Returns d (result, w) v h = ((h.0, refl), h.1)

  pub publish-IsPublished :
      (temporary path : String) (bytes : Bytes) (x y : W)
      → Returns (publish sys temporary path bytes x) tt y
      → IsPublished temporary path bytes x y
  unfolding publish
  publish-IsPublished temporary path bytes x y h =
      let (z, chain, unlink) = cleaned-Returns temporary _ y h in
      let (d, p, h1) = resume-Returns (sys.create temporary x) _ tt z chain in
      let (done, q, h2) = resume-Returns (write_closed sys d bytes _) _ tt z h1 in
      let (both, closing) = closed-Returns d _ _ q in
      let (t, r, s) = resume-Returns (sys.write d bytes _) _ tt _ both in
      record {
        descriptor = d;
        made = _;
        written = _;
        forced = _;
        moved = z;
        create = p;
        write = r;
        fsync = s;
        replace = subst (λ w. Returns (sys.replace temporary path w) tt z) (sym closing) h2;
        unlink = unlink;
      }
