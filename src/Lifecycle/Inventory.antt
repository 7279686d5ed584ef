-- ===== src/Lifecycle/Inventory.antt =====
-- What `_expected_workers` accepts.
use coldsnap.Base.{
  String, true, false, Option, none, some, List, [], ◌∷◌, length, All, Distinct, Distinct-of_length,
  to_set, to_set_of_Distinct, ◌≡◌, ◌≢◌, ◌↔◌, inl, inr, refl, Result, ok, raised, ok_injective,
  Bool-cases, if◌then◌else◌, eqb, eqb_iff, string_eq, is_empty, Json, Items, null, bool, int, float,
  str, arr, obj, nil, cons, array, sym, ap, ◌∙◌, subst,
}
use coldsnap.Lifecycle.Machine.{
  LifecycleError, invalid_inventory, duplicate_inventory, json_error, demand, and_then,
}
use coldsnap.Lifecycle.Evidence.{worker_of, with_worker, workers_of, inventory, expected_workers}

pub and_then-eq-ok :
    {A B : Type 0} (r : Result LifecycleError A) (next : A → Result LifecycleError B) {y : B}
    → and_then r next ≡ ok y
    → (x : A) × (r ≡ ok x) × (next x ≡ ok y)
and_then-eq-ok (ok x) next h = (x, refl, h)
and_then-eq-ok (raised e) next h = cc

pub demand-ok :
    {A : Type 0} (e : LifecycleError) (o : Option A) {x : A} → demand e o ≡ ok x → o ≡ some x
demand-ok e (some y) h = ap some (ok_injective h)
demand-ok e none h = cc

-- A text for each worker, none of them empty
abbrev pub AreNamed : List String → Type 0
AreNamed = All (λ s. is_empty s ≡ false)

worker_of-eq :
    (v : Json) (rest ws : List String)
    → worker_of v rest ≡ some ws
    → (s : String) × (v ≡ str s) × (is_empty s ≡ false) × (s ∷ rest ≡ ws)
worker_of-eq (str s) rest ws h = elim (Bool-cases (is_empty s)) [
  | inl blank ↦ absurd (no_text blank h)
  | inr fine ↦ (s, refl, fine, text fine h)
]
  where
    no_text : is_empty s ≡ true → worker_of (str s) rest ≡ some ws → ⊥
    no_text blank h = let e : none ≡ some ws = (rw blank at h) in cc

    text : is_empty s ≡ false → worker_of (str s) rest ≡ some ws → s ∷ rest ≡ ws
    text fine h = let e : some (s ∷ rest) ≡ some ws = (rw fine at h) in cc
worker_of-eq (obj fs) rest ws h = cc
worker_of-eq (arr vs) rest ws h = cc
worker_of-eq (bool b) rest ws h = cc
worker_of-eq (int n) rest ws h = cc
worker_of-eq (float x) rest ws h = cc
worker_of-eq null rest ws h = cc

with_worker-eq :
    (v : Json) (o : Option (List String)) (ws : List String)
    → with_worker v o ≡ some ws
    → (rest : List String) × (o ≡ some rest) × (worker_of v rest ≡ some ws)
with_worker-eq v (some rest) ws h = (rest, refl, h)
with_worker-eq v none ws h = cc

workers_of-eq :
    (vs : Items) (ws : List String) → workers_of vs ≡ some ws → (vs ≡ array str ws) × AreNamed ws
unfolding workers_of
workers_of-eq nil ws h =
    let e : [] ≡ ws = cc in subst (λ xs. (nil ≡ array str xs) × AreNamed xs) e (refl, tt)
workers_of-eq (cons v vs) ws h =
    let (rest, p, q) = with_worker-eq v (workers_of vs) ws h in
    let (s, is, named, same) = worker_of-eq v rest ws q in
    let (later, all_named) = workers_of-eq vs rest p in
    subst (λ xs. (cons v vs ≡ array str xs) × AreNamed xs) same
      (ap (λ x. cons x vs) is ∙ ap (cons (str s)) later, (named, all_named))

workers_of-array : (ws : List String) → AreNamed ws → workers_of (array str ws) ≡ some ws
unfolding workers_of
workers_of-array [] n = refl
workers_of-array (w ∷ ws) n = let r = workers_of-array ws n.1 in rw (r, n.0) refl

inventory-eq :
    (d : Json) (ws : List String)
    → inventory d ≡ ok ws
    → (d ≡ arr (array str ws)) × (ws ≢ []) × AreNamed ws
inventory-eq (arr (cons v vs)) ws h =
    let (same, named) =
      workers_of-eq (cons v vs) ws (demand-ok invalid_inventory (workers_of (cons v vs)) h) in
    (ap arr same, (λ e. not_nil (same ∙ ap (λ (xs : List String). array str xs) e)), named)
  where
    not_nil : cons v vs ≡ nil → ⊥
    not_nil e = cc
inventory-eq (arr nil) ws h = cc
inventory-eq (obj fs) ws h = cc
inventory-eq (str s) ws h = cc
inventory-eq (bool b) ws h = cc
inventory-eq (int n) ws h = cc
inventory-eq (float x) ws h = cc
inventory-eq null ws h = cc

inventory-array :
    (ws : List String) → ws ≢ [] → AreNamed ws → inventory (arr (array str ws)) ≡ ok ws
inventory-array [] some_ n = absurd (some_ refl)
inventory-array (w ∷ ws) some_ n = ap (demand invalid_inventory) (workers_of-array (w ∷ ws) n)

-- The inventory is accepted exactly when it is a list of texts, at least one, none empty and none twice; the
-- workers are those.
pub expected_workers_iff :
    (loads : String → Option Json) (value : String) (ws : List String)
    → (expected_workers loads value ≡ ok ws)
      ↔ ((loads value ≡ some (arr (array str ws))) × (ws ≢ []) × AreNamed ws × Distinct ws)
unfolding expected_workers
expected_workers_iff loads value ws = (
  λ h.
      let (d, p, h1) = and_then-eq-ok (demand json_error (loads value)) _ h in
      let (xs, q, h2) = and_then-eq-ok (inventory d) _ h1 in
      let (same, filled, named) = inventory-eq d xs q in
      let (distinct, e) = kept xs h2 in
      subst
        (λ ys. (loads value ≡ some (arr (array str ys))) × (ys ≢ []) × AreNamed ys × Distinct ys) e
        (demand-ok json_error (loads value) p ∙ ap some same, filled, named, distinct),
  λ h. rw h.0 (ap (λ r. and_then r final) (inventory-array ws h.1 h.2) ∙ final_ok ws h.3),
)
  where
    final : List String → Result LifecycleError (List String)
    final workers =
        if eqb (length (to_set workers)) (length workers)
        then ok (to_set workers)
        else raised duplicate_inventory

    kept : (xs : List String) → final xs ≡ ok ws → Distinct xs × (xs ≡ ws)
    kept xs h = elim (Bool-cases (eqb (length (to_set xs)) (length xs))) [
      | inl same ↦
          let d : Distinct xs = Distinct-of_length xs ((eqb_iff _ _).0 same) in
          let e : ok (to_set xs) ≡ ok ws = (rw same at h) in
          (d, sym (to_set_of_Distinct xs d) ∙ ok_injective e)
      | inr fewer ↦ let e : raised duplicate_inventory ≡ ok ws = (rw fewer at h) in cc
    ]

    final_ok : (xs : List String) → Distinct xs → final xs ≡ ok xs
    final_ok xs d = rw (to_set_of_Distinct xs d, (eqb_iff (length xs) (length xs)).1 refl) refl
