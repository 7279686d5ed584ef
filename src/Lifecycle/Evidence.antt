-- ===== src/Lifecycle/Evidence.antt =====
-- coldsnap_lifecycle.py: `_expected_workers` and `evidence`.
use coldsnap.Base.{
  String, Bool, false, ◌&&◌, ◌||◌, not, Option, none, some, List, [], ◌∷◌, length, any, member,
  to_set, Result, ok, raised, raise_if, if◌then◌else◌, eqb, string_eq, string_ord, sorted, is_empty,
  pos, leb_ℤ, ltb_ℤ, Json, Items, null, int, str, arr, obj, nil, cons,
}
use coldsnap.Coordinator.Actions.{Action, ◌>>=◌, ◌>>◌, lift}
use coldsnap.Validation.Stats.{Stat, is_regular}
use coldsnap.Validation.Records.{last_of}
use coldsnap.Lifecycle.Machine.{
  LifecycleError, invalid_inventory, duplicate_inventory, invalid_evidence_file, identity_mismatch,
  worker_set_mismatch, json_error, type_error, Machine, demand, and_then, get_field, is_text,
}
use coldsnap.Lifecycle.Client.{load_json}

-- The texts of a list of texts that are not empty
abbrev pub worker_of : Json → List String → Option (List String)
worker_of (str s) rest = if is_empty s then none else some (s ∷ rest)
worker_of _ rest = none

abbrev pub with_worker : Json → Option (List String) → Option (List String)
with_worker v (some rest) = worker_of v rest
with_worker v _ = none

unfoldable pub workers_of : Items → Option (List String)
workers_of nil = some []
workers_of (cons v vs) = with_worker v (workers_of vs)

abbrev pub inventory : Json → Result LifecycleError (List String)
inventory (arr nil) = raised invalid_inventory
inventory (arr (cons v vs)) = demand invalid_inventory (workers_of (cons v vs))
inventory _ = raised invalid_inventory

-- `_expected_workers`
unfoldable pub expected_workers :
    (String → Option Json) → String → Result LifecycleError (List String)
unfolding workers_of to_set
expected_workers loads value = and_then (demand json_error (loads value)) λ decoded.
    and_then (inventory decoded) λ workers.
      if eqb (length (to_set workers)) (length workers)
      then ok (to_set workers)
      else raised duplicate_inventory

-- `worker in expected`
abbrev pub is_known : List String → Json → Result LifecycleError Bool
is_known expected (str s) = ok (member s expected)
is_known expected (arr vs) = raised type_error
is_known expected (obj fs) = raised type_error
is_known expected _ = ok false

abbrev pub or_default : Json → Option Json → Json
or_default v (some w) = w
or_default v _ = v

-- `value.get(key, default)`, for a dict
unfoldable pub get_or : String → Json → Json → Json
unfolding last_of
get_or key default (obj fs) = or_default default (last_of key fs)
get_or key default _ = default

pub record Item : Type 0 where
  pub worker_id : Json
  pub state : Json
  pub capture_id : Json
  pub pid : Json
  pub generation : Json

unfoldable pub item_of : Json → Item
unfolding get_or
item_of value = record {
  worker_id = get_or "worker_id" null value;
  state = get_or "state" null value;
  capture_id = get_or "capture_id" null value;
  pid = get_or "pid" (int (pos 0)) value;
  generation = get_or "generation" (str "") value;
}

abbrev pub is_evidence_file : Stat → Bool
is_evidence_file st = is_regular st && ltb_ℤ (pos 0) st.st_size && leb_ℤ st.st_size (pos 4194304)

-- The texts among the workers; the others are in no set of texts.
abbrev pub has_entry : String → List Item → Bool
has_entry w [] = false
has_entry w (x ∷ xs) = is_text w x.worker_id || has_entry w xs

abbrev pub is_item_of : List String → Item → Bool
is_item_of expected x = any (λ worker. is_text worker x.worker_id) expected

-- `{item["worker_id"] for item in result} != expected`
abbrev pub differ : List Item → List String → Bool
differ items expected =
    any (λ x. not (is_item_of expected x)) items
    || any (λ worker. not (has_entry worker items)) expected

module _ {W D : Type 0} (sys : Machine W D) where
  -- One file: what it is, and its content
  unfoldable pub read_evidence : String → Action W LifecycleError Json
  unfolding load_json
  read_evidence path = do
    information ← sys.lstat path
    lift (raise_if (not (is_evidence_file information)) invalid_evidence_file)
    load_json sys path

  unfoldable pub accepted_item : List String → String → Json → Result LifecycleError Item
  unfolding get_field item_of
  accepted_item expected capture value = and_then (get_field "worker_id" value) λ worker.
      and_then (is_known expected worker) λ known. and_then (get_field "capture_id" value) λ found.
        if not known || not (is_text capture found)
        then raised identity_mismatch
        else ok (item_of value)

  unfoldable pub items_of : List String → String → List String → Action W LifecycleError (List Item)
  unfolding read_evidence accepted_item
  items_of expected capture [] = lift (ok [])
  items_of expected capture (path ∷ paths) = do
    value ← read_evidence path
    entry ← lift (accepted_item expected capture value)
    rest ← items_of expected capture paths
    lift (ok (entry ∷ rest))

  -- What `evidence` prints
  unfoldable pub evidence : String → String → Action W LifecycleError (List Item)
  unfolding expected_workers items_of sorted
  evidence capture workers = do
    expected ← lift (expected_workers sys.loads workers)
    items ← λ w. items_of expected capture (sorted (sys.glob "hibernate-states" "*.json" w)) w
    lift (raise_if (differ items expected) worker_set_mismatch)
    lift (ok items)
