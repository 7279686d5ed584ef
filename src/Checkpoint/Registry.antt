-- ===== src/Checkpoint/Registry.antt =====
-- checkpoint.py: `ResourceRegistry`. A resource's methods act on a world outside the registry, which is a
-- parameter, as is `assert_no_io_uring` there. A method is one step here: calls do not overlap.
use coldsnap.Base.{
  append, ℕ, suc, String, Bool, true, false, ◌||◌, not, Option, none, some, List, [], ◌∷◌, reverse,
  Result, ok, raised, ◌>>=◌, ◌>>◌, raise_if, if◌then◌else◌, ◌==◌, string_eq, is_empty, show_ℕ, Json,
  Fields, end, field, str,
}

pub data Phase : Type 0 where
  active preparing prepared restoring failed : Phase

-- An exception of a resource, by its message, and those that the registry raises.
pub data RegistryError : Type 0 where
  cannot_register cannot_prepare cannot_restore : Phase → RegistryError
  invalid_contract : RegistryError
  prepare_failed : String → List (String × String) → RegistryError
  restore_failed : String → String → RegistryError

-- What the registry uses of resources `R` in a world `W`.
pub record Resources (R W : Type 0) : Type 0 where
  pub has_contract : R → Bool
  pub prepare : R → W → Result String Fields × W
  pub restore : R → W → Result String Fields × W
  pub assert_no_io_uring : W → Result String (Unit {0}) × W

pub record Registry (R : Type 0) : Type 0 where
  pub resources : List (String × R)
  pub prepared_resources : List (String × R)
  pub phase : Phase
  pub sequence : ℕ
  pub report : Option (List Fields)

-- `{"name": name, **report}`
unfoldable pub drop_key : String → Fields → Fields
drop_key key end = end
drop_key key (field k v rest) =
    if k == key then drop_key key rest else field k v (drop_key key rest)

unfoldable pub name_in : Json → Fields → Json
name_in given end = given
name_in given (field k v rest) = if k == "name" then v else name_in given rest

unfoldable pub named_report : String → Fields → Fields
unfolding drop_key name_in
named_report name report = field "name" (name_in (str name) report) (drop_key "name" report)

abbrev pub is_phase : Phase → Phase → Bool
is_phase active active = true
is_phase preparing preparing = true
is_phase prepared prepared = true
is_phase restoring restoring = true
is_phase failed failed = true
is_phase _ _ = false

-- `f"{kind}-{sequence}"`
unfoldable pub resource_name : String → ℕ → String
unfolding append show_ℕ
resource_name kind n = append kind (String.◌∷◌ "-" (show_ℕ n))

module _ {R : Type 0} where
  unfoldable pub new : Registry R
  new = record {
    resources = [];
    prepared_resources = [];
    phase = active;
    sequence = 0;
    report = none;
  }

  -- Assignment and removal in the dictionary of resources.
  unfoldable pub remove : String → List (String × R) → List (String × R)
  remove name [] = []
  remove name ((n, r) ∷ rest) = if n == name then remove name rest else (n, r) ∷ remove name rest

  unfoldable pub assign : String → R → List (String × R) → List (String × R)
  assign name r [] = (name, r) ∷ []
  assign name r ((n, s) ∷ rest) = if n == name then (n, r) ∷ rest else (n, s) ∷ assign name r rest

  -- A resource that is collected leaves the weak dictionary as `unregister` makes it.
  unfoldable pub unregister : String → Registry R → Registry R
  unfolding remove
  unregister name registry = record registry { resources = remove name registry.resources }

  abbrev pub begun : Phase → Registry R → Registry R
  begun phase registry = record registry { phase = phase }

  abbrev pub committed : List (String × R) → List Fields → Registry R → Registry R
  committed done reports registry = record registry {
    prepared_resources = done;
    phase = prepared;
    report = some reports;
  }

  abbrev pub resumed : Registry R → Registry R
  resumed registry = record registry { prepared_resources = []; phase = active; report = none }

-- How far `prepare` came: the resources prepared, their reports, and the exception.
pub record Progress (R : Type 0) : Type 0 where
  pub done : List (String × R)
  pub reports : List Fields
  pub error : Option String

abbrev pub further : {R : Type 0} → String → R → Fields → Progress R → Progress R
further name r report p = record {
  done = (name, r) ∷ p.done;
  reports = named_report name report ∷ p.reports;
  error = p.error;
}

module _ {R W : Type 0} (resources : Resources R W) where
  unfoldable pub register : R → String → Registry R → Result RegistryError (String × Registry R)
  unfolding resource_name assign
  register resource kind registry = do
    raise_if (not (is_phase registry.phase active)) (cannot_register registry.phase)
    raise_if (is_empty kind || not (resources.has_contract resource)) invalid_contract
    ok (
      resource_name kind (suc registry.sequence),
      record registry {
        sequence = suc registry.sequence;
        resources = assign (resource_name kind (suc registry.sequence)) resource registry.resources;
      },
    )

  abbrev pub checked : Result String (Unit {0}) → Progress R
  checked (ok u) = record { done = []; reports = []; error = none }
  checked (raised e) = record { done = []; reports = []; error = some e }

  -- The loop of `prepare` and the search for rings after it.
  unfoldable pub prepare_loop : List (String × R) → W → Progress R × W
  unfolding named_report
  prepare_loop [] w = let (outcome, w') = resources.assert_no_io_uring w in (checked outcome, w')
  prepare_loop ((name, r) ∷ rest) w =
      let (outcome, w') = resources.prepare r w in
      elim outcome [
        | ok report ↦ (further name r report (prepare_loop rest w').0, (prepare_loop rest w').1)
        | raised e ↦ (record { done = []; reports = []; error = some e }, w')
      ]

  -- The rollback restores each resource, whatever the others raise.
  unfoldable pub rollback : List (String × R) → W → List (String × String) × W
  rollback [] w = ([], w)
  rollback ((name, r) ∷ rest) w =
      let (outcome, w') = resources.restore r w in
      elim outcome [
        | ok report ↦ rollback rest w'
        | raised e ↦ ((name, e) ∷ (rollback rest w').0, (rollback rest w').1)
      ]

  abbrev pub after_rollback : List (String × String) → Phase
  after_rollback [] = active
  after_rollback _ = failed

  -- With an exception the prepared resources are restored, the latest first.
  unfoldable pub settle_prepare :
      Registry R
      → Progress R
      → Option String
      → W
      → (Result RegistryError (List Fields) × Registry R) × W
  unfolding rollback reverse
  settle_prepare registry progress none w =
      ((ok progress.reports, committed progress.done progress.reports registry), w)
  settle_prepare registry progress (some e) w =
      let (failures, w') = rollback (reverse progress.done) w in
      ((raised (prepare_failed e failures), begun (after_rollback failures) registry), w')

  unfoldable pub finish_prepare :
      Registry R → Progress R × W → (Result RegistryError (List Fields) × Registry R) × W
  unfolding settle_prepare
  finish_prepare registry (progress, w) = settle_prepare registry progress progress.error w

  abbrev pub report_of : Option (List Fields) → List Fields
  report_of (some reports) = reports
  report_of _ = []

  unfoldable pub prepare_all :
      Registry R → W → (Result RegistryError (List Fields) × Registry R) × W
  unfolding prepare_loop finish_prepare
  prepare_all registry w =
      if is_phase registry.phase prepared
      then ((ok (report_of registry.report), registry), w)
      else if not (is_phase registry.phase active)
      then ((raised (cannot_prepare registry.phase), registry), w)
      else finish_prepare (begun preparing registry) (prepare_loop registry.resources w)

  unfoldable pub restore_loop : List (String × R) → W → Result RegistryError (List Fields) × W
  unfolding named_report
  restore_loop [] w = (ok [], w)
  restore_loop ((name, r) ∷ rest) w =
      let (outcome, w') = resources.restore r w in
      elim outcome [
        | ok report ↦ (
          (restore_loop rest w').0 >>= λ reports. ok (named_report name report ∷ reports),
          (restore_loop rest w').1,
        )
        | raised e ↦ (raised (restore_failed name e), w')
      ]

  unfoldable pub finish_restore :
      Registry R
      → Result RegistryError (List Fields) × W
      → (Result RegistryError (List Fields) × Registry R) × W
  finish_restore registry (ok reports, w) = ((ok reports, resumed registry), w)
  finish_restore registry (raised e, w) = ((raised e, begun failed registry), w)

  unfoldable pub restore_all :
      Registry R → W → (Result RegistryError (List Fields) × Registry R) × W
  unfolding restore_loop finish_restore
  restore_all registry w =
      if not (is_phase registry.phase prepared)
      then ((raised (cannot_restore registry.phase), registry), w)
      else finish_restore (begun restoring registry) (restore_loop registry.prepared_resources w)
