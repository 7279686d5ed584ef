-- ===== src/Lifecycle/Updating.antt =====
-- The fields that `synchronize_evidence` sets in evidence, and those it leaves.
use coldsnap.Base.{
  String, true, false, List, [], ◌∷◌, member, some, none, ◌≡◌, inl, inr, refl, arith, Bool-cases,
  ◌==◌, ==_eq, ==_refl, string_eq, Json, Fields, Float, float, str, end, field, sym, ap, ◌∙◌, subst,
}
use coldsnap.Validation.Records.{last_of}
use coldsnap.Lifecycle.Synchronize.{without_key, set_field, updated}

-- The entries that are set
abbrev pub set_keys : List String
set_keys = "state" ∷ "capture_id" ∷ "updated_unix" ∷ "operation" ∷ []

-- The fields are the earlier ones, but for four entries.
pub record IsUpdated (state capture : String) (now : Float) (earlier fields : Fields) : Type 0 where
  pub state_set : last_of "state" fields ≡ some (str state)
  pub capture_set : last_of "capture_id" fields ≡ some (str capture)
  pub time_set : last_of "updated_unix" fields ≡ some (float now)
  pub operation_set : last_of "operation" fields ≡ some (str "restore")
  pub others :
      (key : String) → member key set_keys ≡ false → last_of key fields ≡ last_of key earlier

field-congr :
    (i j : String) (v : Json) (fs gs : Fields)
    → last_of j fs ≡ last_of j gs
    → last_of j (field i v fs) ≡ last_of j (field i v gs)
unfolding last_of
field-congr i j v fs gs e = rw e refl

field-other :
    (i j : String) (v : Json) (fs : Fields)
    → (i == j) ≡ false
    → last_of j (field i v fs) ≡ last_of j fs
unfolding last_of
field-other i j v fs h = ground (arith, h)

field-none :
    (k : String) (v : Json) (fs : Fields) → last_of k fs ≡ none → last_of k (field k v fs) ≡ some v
unfolding last_of
field-none k v fs h = rw (h, ==_refl k) refl

field-some :
    (i j : String) (v w : Json) (fs : Fields)
    → last_of j fs ≡ some w
    → last_of j (field i v fs) ≡ some w
unfolding last_of
field-some i j v w fs h = rw h refl

module _ (k i : String) (v w : Json) (rest : Fields) where
  without_key-same : (k == i) ≡ true → without_key k (field i w rest) ≡ without_key k rest
  without_key-same h = rw h refl

  without_key-other :
      (k == i) ≡ false → without_key k (field i w rest) ≡ field i w (without_key k rest)
  without_key-other h = rw h refl

  set_field-same : (k == i) ≡ true → set_field k v (field i w rest) ≡ field k v (without_key k rest)
  unfolding set_field
  set_field-same h = rw h refl

  set_field-later :
      (k == i) ≡ false → set_field k v (field i w rest) ≡ field i w (set_field k v rest)
  unfolding set_field
  set_field-later h = rw h refl

last_of-without_key :
    (j k : String) (fs : Fields) → (k == j) ≡ false → last_of j (without_key k fs) ≡ last_of j fs
last_of-without_key j k end h = refl
last_of-without_key j k (field i v rest) h = elim (Bool-cases (k == i)) [
  | inl same ↦
      ap (last_of j) (without_key-same k i v v rest same)
      ∙ last_of-without_key j k rest h
      ∙ sym (field-other i j v rest (subst (λ x. (x == j) ≡ false) (==_eq k i same) h))
  | inr other ↦
      ap (last_of j) (without_key-other k i v v rest other)
      ∙ field-congr i j v (without_key k rest) rest (last_of-without_key j k rest h)
]

differs : (k i : String) → (k == i) ≡ false → (i == k) ≡ false
differs k i h = elim (Bool-cases (i == k)) [
  | inl same ↦
      let e : true ≡ false = sym (==_refl k) ∙ subst (λ x. (k == x) ≡ false) (==_eq i k same) h in
      cc
  | inr other ↦ other
]

last_of-without_key_same : (k : String) (fs : Fields) → last_of k (without_key k fs) ≡ none
unfolding last_of
last_of-without_key_same k end = refl
last_of-without_key_same k (field i v rest) = elim (Bool-cases (k == i)) [
  | inl same ↦ ap (last_of k) (without_key-same k i v v rest same) ∙ last_of-without_key_same k rest
  | inr other ↦
      ap (last_of k) (without_key-other k i v v rest other)
      ∙ field-other i k v (without_key k rest) (differs k i other)
      ∙ last_of-without_key_same k rest
]

last_of-set_field : (k : String) (v : Json) (fs : Fields) → last_of k (set_field k v fs) ≡ some v
unfolding set_field
last_of-set_field k v end = field-none k v end (unfold last_of in refl)
last_of-set_field k v (field i w rest) = elim (Bool-cases (k == i)) [
  | inl same ↦
      ap (last_of k) (set_field-same k i v w rest same)
      ∙ field-none k v (without_key k rest) (last_of-without_key_same k rest)
  | inr other ↦
      ap (last_of k) (set_field-later k i v w rest other)
      ∙ field-some i k w v (set_field k v rest) (last_of-set_field k v rest)
]

last_of-set_field_other :
    (j k : String) (v : Json) (fs : Fields)
    → (k == j) ≡ false
    → last_of j (set_field k v fs) ≡ last_of j fs
unfolding set_field
last_of-set_field_other j k v end h = field-other k j v end h
last_of-set_field_other j k v (field i w rest) h = elim (Bool-cases (k == i)) [
  | inl same ↦
      ap (last_of j) (set_field-same k i v w rest same)
      ∙ field-other k j v (without_key k rest) h
      ∙ last_of-without_key j k rest h
      ∙ sym (field-other i j w rest (subst (λ x. (x == j) ≡ false) (==_eq k i same) h))
  | inr other ↦
      ap (last_of j) (set_field-later k i v w rest other)
      ∙ field-congr i j w (set_field k v rest) rest (last_of-set_field_other j k v rest h)
]

pub updated-IsUpdated :
    (state capture : String) (now : Float) (fs : Fields)
    → IsUpdated state capture now fs (updated state capture now fs)
unfolding updated
updated-IsUpdated state capture now fs =
    let f1 = set_field "state" (str state) fs in
    let f2 = set_field "capture_id" (str capture) f1 in
    let f3 = set_field "updated_unix" (float now) f2 in
    let op = str "restore" in
    record {
      state_set =
          last_of-set_field_other "state" "operation" op f3 refl
          ∙ last_of-set_field_other "state" "updated_unix" (float now) f2 refl
          ∙ last_of-set_field_other "state" "capture_id" (str capture) f1 refl
          ∙ last_of-set_field "state" (str state) fs;
      capture_set =
          last_of-set_field_other "capture_id" "operation" op f3 refl
          ∙ last_of-set_field_other "capture_id" "updated_unix" (float now) f2 refl
          ∙ last_of-set_field "capture_id" (str capture) f1;
      time_set =
          last_of-set_field_other "updated_unix" "operation" op f3 refl
          ∙ last_of-set_field "updated_unix" (float now) f2;
      operation_set = last_of-set_field "operation" op f3;
      others = λ key h.
          let (a, b, c, d) = unset key h in
          last_of-set_field_other key "operation" op f3 d
          ∙ last_of-set_field_other key "updated_unix" (float now) f2 c
          ∙ last_of-set_field_other key "capture_id" (str capture) f1 b
          ∙ last_of-set_field_other key "state" (str state) fs a;
    }
  where
    unset :
        (key : String)
        → member key set_keys ≡ false
        → (("state" == key) ≡ false)
          × (("capture_id" == key) ≡ false)
          × (("updated_unix" == key) ≡ false)
          × (("operation" == key) ≡ false)
    unset key h = (
      differs key "state" (ground (arith, h)),
      differs key "capture_id" (ground (arith, h)),
      differs key "updated_unix" (ground (arith, h)),
      differs key "operation" (ground (arith, h)),
    )
