-- ===== src/Lifecycle/Attested.antt =====
-- What `evidence` has read when it returns.
use coldsnap.Base.{
  String, Fields, Option, none, some, bool, int, float, str, arr, obj, pos, member, ◌⊎◌, inl, inr,
  Bool-cases, ==_eq, Bool, true, false, ◌||◌, not, List, [], ◌∷◌, any-false, All, All-map, ◌≡◌,
  refl, arith, ok, raised, raise_if, raise_if-ok, ok_injective, if◌then◌else◌, string_eq,
  string_ord, sorted, Json, null, sym, ap, ◌∙◌, subst,
}
use coldsnap.Coordinator.Actions.{lift}
use coldsnap.Lifecycle.Machine.{identity_mismatch, worker_set_mismatch, Machine, get_field, is_text}
use coldsnap.Lifecycle.Sightings.{Returns, resume-Returns}
use coldsnap.Lifecycle.Inventory.{and_then-eq-ok}
use coldsnap.Validation.Records.{last_of}
use coldsnap.Lifecycle.Readings.{IsEvidence, read_evidence-IsEvidence}
use coldsnap.Lifecycle.Evidence.{
  is_known, Item, get_or, item_of, has_entry, differ, or_default, read_evidence, accepted_item,
  items_of, evidence, expected_workers,
}

-- The entry is the one of the fields, which name an expected worker and the capture.
pub record IsItem (expected : List String) (capture : String) (fs : Fields) (x : Item)
    : Type 0 where
  pub worker : String
  pub named : last_of "worker_id" fs ≡ some (str worker)
  pub of_worker : x.worker_id ≡ str worker
  pub known : member worker expected ≡ true
  pub captured : last_of "capture_id" fs ≡ some (str capture)
  pub of_capture : x.capture_id ≡ str capture
  pub state : x.state ≡ or_default null (last_of "state" fs)
  pub pid : x.pid ≡ or_default (int (pos 0)) (last_of "pid" fs)
  pub generation : x.generation ≡ or_default (str "") (last_of "generation" fs)

accepted :
    (known same : Bool) (x y : Item)
    → (if not known || not same then raised identity_mismatch else ok x) ≡ ok y
    → (known ≡ true) × (same ≡ true) × (x ≡ y)
accepted true true x y h = (refl, refl, ok_injective h)
accepted true false x y h = cc
accepted false same x y h = cc

or_default-str : (o : Option Json) (s : String) → or_default null o ≡ str s → o ≡ some (str s)
or_default-str (some v) s h = ap some h
or_default-str none s h = cc

get_field-or_default :
    (key : String) (fs : Fields) (w : Json)
    → get_field key (obj fs) ≡ ok w
    → or_default null (last_of key fs) ≡ w
unfolding get_field
get_field-or_default key fs w h = ground (arith, h)

is_known-eq :
    (expected : List String) (v : Json)
    → is_known expected v ≡ ok true
    → (s : String) × (v ≡ str s) × (member s expected ≡ true)
is_known-eq expected (str s) h = (s, refl, ok_injective h)
is_known-eq expected null h = cc
is_known-eq expected (bool b) h = cc
is_known-eq expected (int n) h = cc
is_known-eq expected (float x) h = cc
is_known-eq expected (arr vs) h = cc
is_known-eq expected (obj fs) h = cc

is_text-eq : (s : String) (v : Json) → is_text s v ≡ true → v ≡ str s
is_text-eq s (str t) h = ap str (sym (==_eq s t h))
is_text-eq s null h = cc
is_text-eq s (bool b) h = cc
is_text-eq s (int n) h = cc
is_text-eq s (float x) h = cc
is_text-eq s (arr vs) h = cc
is_text-eq s (obj fs) h = cc

-- Some entry names the worker.
abbrev pub IsNamed : String → List Item → Type 0
IsNamed worker [] = ⊥
IsNamed worker (x ∷ xs) = (x.worker_id ≡ str worker) ⊎ IsNamed worker xs

has_entry-IsNamed :
    (worker : String) (xs : List Item) → has_entry worker xs ≡ true → IsNamed worker xs
has_entry-IsNamed worker [] h = cc
has_entry-IsNamed worker (x ∷ xs) h = elim (Bool-cases (is_text worker x.worker_id)) [
  | inl here ↦ inl (is_text-eq worker x.worker_id here)
  | inr later ↦ inr (has_entry-IsNamed worker xs (ground arith))
]

dict_of_field : (key : String) (v w : Json) → get_field key v ≡ ok w → (fs : Fields) × (v ≡ obj fs)
unfolding get_field
dict_of_field key (obj fs) w h = (fs, refl)
dict_of_field key null w h = cc
dict_of_field key (bool b) w h = cc
dict_of_field key (int n) w h = cc
dict_of_field key (float x) w h = cc
dict_of_field key (str s) w h = cc
dict_of_field key (arr vs) w h = cc

item_of-IsItem :
    (expected : List String) (capture : String) (fs : Fields) (s : String)
    → or_default null (last_of "worker_id" fs) ≡ str s
    → member s expected ≡ true
    → or_default null (last_of "capture_id" fs) ≡ str capture
    → IsItem expected capture fs (item_of (obj fs))
unfolding get_or item_of
item_of-IsItem expected capture fs s w known c = record {
  worker = s;
  named = or_default-str (last_of "worker_id" fs) s w;
  of_worker = w;
  known = known;
  captured = or_default-str (last_of "capture_id" fs) capture c;
  of_capture = c;
  state = refl;
  pid = refl;
  generation = refl;
}

module _ {W D : Type 0} (sys : Machine W D) where
  -- The entry tells what the file held, which names an expected worker and the capture.
  abbrev pub IsAttested : List String → String → String → Item → Type 0
  IsAttested expected capture path x =
      (fs : Fields) × IsEvidence sys path (obj fs) × IsItem expected capture fs x

  abbrev pub AreAttested : List String → String → List String → List Item → Type 0
  AreAttested expected capture [] [] = Unit
  AreAttested expected capture [] (x ∷ xs) = ⊥
  AreAttested expected capture (path ∷ paths) [] = ⊥
  AreAttested expected capture (path ∷ paths) (x ∷ xs) =
      IsAttested expected capture path x × AreAttested expected capture paths xs

  accepted_item-parts :
      (expected : List String) (capture : String) (value : Json) (x : Item)
      → accepted_item sys expected capture value ≡ ok x
      → (worker found : Json) × (get_field "worker_id" value ≡ ok worker)
        × (is_known expected worker ≡ ok true)
        × (get_field "capture_id" value ≡ ok found)
        × (is_text capture found ≡ true)
        × (item_of value ≡ x)
  unfolding accepted_item
  accepted_item-parts expected capture value x h =
      let (worker, p, h1) = and_then-eq-ok (get_field "worker_id" value) _ h in
      let (known, q, h2) = and_then-eq-ok (is_known expected worker) _ h1 in
      let (found, r, h3) = and_then-eq-ok (get_field "capture_id" value) _ h2 in
      let (yes_, same, e) = accepted known (is_text capture found) (item_of value) x h3 in
      (worker, found, p, q ∙ ap ok yes_, r, same, e)

  accepted_item-IsItem :
      (expected : List String) (capture : String) (value : Json) (x : Item)
      → accepted_item sys expected capture value ≡ ok x
      → (fs : Fields) × (value ≡ obj fs) × IsItem expected capture fs x
  accepted_item-IsItem expected capture value x h =
      let (worker, found, p, q, r, same, e) = accepted_item-parts expected capture value x h in
      let (fs, is) = dict_of_field "worker_id" value worker p in
      let (s, text, is_member) = is_known-eq expected worker q in
      let w =
        get_field-or_default "worker_id" fs worker
          (subst (λ v. get_field "worker_id" v ≡ ok worker) is p)
        ∙ text in
      let c =
        get_field-or_default "capture_id" fs found
          (subst (λ v. get_field "capture_id" v ≡ ok found) is r)
        ∙ is_text-eq capture found same in
      (
        fs,
        is,
        subst (IsItem expected capture fs) (ap item_of (sym is) ∙ e)
            (item_of-IsItem expected capture fs s w is_member c),
      )

  items_of-AreAttested :
      (expected : List String) (capture : String) (paths : List String) (w : W) (xs : List Item)
      (v : W)
      → Returns (items_of sys expected capture paths w) xs v
      → AreAttested expected capture paths xs
  unfolding items_of
  items_of-AreAttested expected capture [] w xs v h =
      subst (AreAttested expected capture []) (ok_injective h.0) tt
  items_of-AreAttested expected capture (path ∷ paths) w xs v h =
      let (value, p, h1) = resume-Returns (read_evidence sys path w) _ xs v h in
      let (x, q, h2) =
        resume-Returns (lift (accepted_item sys expected capture value) _) _ xs v h1 in
      let (rest, r, h3) = resume-Returns (items_of sys expected capture paths _) _ xs v h2 in
      let (fs, is, item) = accepted_item-IsItem expected capture value x q.0 in
      let attested : IsAttested expected capture path x = (
        fs,
        subst (IsEvidence sys path) is (read_evidence-IsEvidence sys path w value _ p),
        item,
      ) in
      subst (AreAttested expected capture (path ∷ paths)) (ok_injective h3.0)
        (attested, items_of-AreAttested expected capture paths _ rest _ r)

  -- The evidence covers the inventory.
  pub record IsComplete (capture workers : String) (w : W) (items : List Item) : Type 0 where
    pub expected : List String
    pub inventory : expected_workers sys.loads workers ≡ ok expected
    pub attested :
        AreAttested expected capture (sorted (sys.glob "hibernate-states" "*.json" w)) items
    pub complete : All (λ worker. IsNamed worker items) expected

  -- Evidence that is returned has one entry for each file, in the order of their names; each tells what a regular
  -- file, not empty and of at most 4 MiB, holds, which names a worker of the inventory and the capture; and every
  -- worker of the inventory has an entry.
  pub evidence-IsComplete :
      (capture workers : String) (w : W) (items : List Item) (v : W)
      → Returns (evidence sys capture workers w) items v
      → IsComplete capture workers w items
  unfolding evidence
  evidence-IsComplete capture workers w items v h =
      let (expected, p, h1) =
        resume-Returns (lift (expected_workers sys.loads workers) w) _ items v h in
      let (xs, q, h2) = resume-Returns (items_of sys expected capture _ w) _ items v h1 in
      let (done, r, h3) =
        resume-Returns (lift (raise_if (differ xs expected) worker_set_mismatch) _) _ items v h2 in
      subst (IsComplete capture workers w) (ok_injective h3.0) (record {
        expected = expected;
        inventory = p.0;
        attested = items_of-AreAttested expected capture _ w xs _ q;
        complete =
            All-map
              (λ worker (e : not (has_entry worker xs) ≡ false).
                has_entry-IsNamed worker xs (unnegated _ e))
              expected
              ((any-false (λ worker. not (has_entry worker xs)) expected).0
                (later _ _ (raise_if-ok _ worker_set_mismatch r.0)));
      })
    where
      unnegated : (b : Bool) → not b ≡ false → b ≡ true
      unnegated true h = refl
      unnegated false h = cc

      later : (a b : Bool) → (a || b) ≡ false → b ≡ false
      later true b h = cc
      later false b h = h
