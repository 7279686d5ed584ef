-- ===== src/Checkpoint/Phases.antt =====
-- The phases between calls of the registry, and the calls as steps.
use coldsnap.Base.{
  String, true, not, Option, none, some, List, [], ◌∷◌, ◌≡◌, is_empty, ◌||◌, inl, inr, refl, arith,
  Result, ok, raised, raise_if-eq-ok, Bool-cases, Fields, reverse, ◌∙◌, subst,
}
use coldsnap.Checkpoint.Registry.{
  active, preparing, prepared, restoring, failed, RegistryError, Resources, Registry, Progress,
  is_phase, new, cannot_register, invalid_contract, settle_prepare, unregister, begun, register,
  prepare_loop, rollback, after_rollback, finish_prepare, prepare_all, restore_loop, finish_restore,
  restore_all,
}

-- Between two calls: a registry is active with nothing retained, prepared with a report, or failed.
pub data IsSettled {R : Type 0} (g : Registry R) : Type 0 where
  is_active : g.phase ≡ active → g.prepared_resources ≡ [] → g.report ≡ none → IsSettled g
  is_prepared : (reports : List Fields) → g.phase ≡ prepared → g.report ≡ some reports → IsSettled g
  is_failed : g.phase ≡ failed → IsSettled g

-- A call of one of the methods, by any thread between two others, or the collection of a resource.
pub data Call {R W : Type 0} (s : Resources R W) : Registry R × W → Registry R × W → Type 0 where
  registers :
      (r : R) (kind name : String) (g g' : Registry R) (w : W)
      → register s r kind g ≡ ok (name, g')
      → Call s (g, w) (g', w)
  unregisters : (name : String) (g : Registry R) (w : W) → Call s (g, w) (unregister name g, w)
  prepares :
      (g : Registry R) (w : W) → Call s (g, w) ((prepare_all s g w).0.1, (prepare_all s g w).1)
  restores :
      (g : Registry R) (w : W) → Call s (g, w) ((restore_all s g w).0.1, (restore_all s g w).1)

pub data Reached {R W : Type 0} (s : Resources R W) (start : Registry R × W)
    : Registry R × W → Type 0 where
  here : Reached s start start
  next : {a b : Registry R × W} → Reached s start a → Call s a b → Reached s start b

module _ {R : Type 0} where
  IsSettled-of :
      (g g' : Registry R)
      → g'.phase ≡ g.phase
      → g'.prepared_resources ≡ g.prepared_resources
      → g'.report ≡ g.report
      → IsSettled g
      → IsSettled g'
  IsSettled-of g g' p q r (is_active a b c) = is_active (p ∙ a) (q ∙ b) (r ∙ c)
  IsSettled-of g g' p q r (is_prepared x a b) = is_prepared x (p ∙ a) (r ∙ b)
  IsSettled-of g g' p q r (is_failed a) = is_failed (p ∙ a)

  -- An active registry retains nothing.
  IsSettled-active :
      (g : Registry R)
      → IsSettled g
      → is_phase g.phase active ≡ true
      → (g.prepared_resources ≡ []) × (g.report ≡ none)
  IsSettled-active g (is_active a b c) h = (b, c)
  IsSettled-active g (is_prepared x a b) h = ground arith
  IsSettled-active g (is_failed a) h = ground arith

module _ {R W : Type 0} (s : Resources R W) where
  register-IsSettled :
      (r : R) (kind name : String) (g g' : Registry R)
      → register s r kind g ≡ ok (name, g')
      → IsSettled g
      → IsSettled g'
  unfolding register
  register-IsSettled r kind name g g' h i =
      let (a, h1) = raise_if-eq-ok (not (is_phase g.phase active)) (cannot_register g.phase) _ h in
      let (b, h2) =
        raise_if-eq-ok (is_empty kind || not (s.has_contract r)) invalid_contract _ h1 in
      pair_settled _ (IsSettled-of g _ refl refl refl i) h2
    where
      pair_settled :
          (made : String × Registry R)
          → IsSettled made.1
          → Path (Result RegistryError (String × Registry R)) (ok made) (ok (name, g'))
          → IsSettled g'
      pair_settled made settled e =
          let same : made ≡ (name, g') = cc in
          subst (λ (x : String × Registry R). IsSettled x.1) same settled

  settle_prepare-IsSettled :
      (g : Registry R) (p : Progress R) (e : Option String) (w : W)
      → g.prepared_resources ≡ []
      → g.report ≡ none
      → IsSettled (settle_prepare s g p e w).0.1
  unfolding settle_prepare
  settle_prepare-IsSettled g p none w a b = is_prepared p.reports refl refl
  settle_prepare-IsSettled g p (some e) w a b = go (rollback s (reverse p.done) w).0
    where
      go : (failures : List (String × String)) → IsSettled (begun (after_rollback s failures) g)
      go [] = is_active refl a b
      go (f ∷ fs) = is_failed refl

  prepare_all-IsSettled : (g : Registry R) (w : W) → IsSettled g → IsSettled (prepare_all s g w).0.1
  unfolding prepare_all finish_prepare
  prepare_all-IsSettled g w i = elim (Bool-cases (is_phase g.phase prepared)) [
    | inl already ↦ rw already i
    | inr fresh ↦ elim (Bool-cases (is_phase g.phase active)) [
      | inl idle ↦
          let (a, b) = IsSettled-active g i idle in
          rw (fresh, idle)
            (settle_prepare-IsSettled (begun preparing g) (prepare_loop s g.resources w).0 _ _ a b)
      | inr busy ↦ rw (fresh, busy) i
    ]
  ]

  finish_restore-IsSettled :
      (g : Registry R) (o : Result RegistryError (List Fields)) (w : W)
      → IsSettled (finish_restore s g (o, w)).0.1
  unfolding finish_restore
  finish_restore-IsSettled g (ok reports) w = is_active refl refl refl
  finish_restore-IsSettled g (raised e) w = is_failed refl

  restore_all-IsSettled : (g : Registry R) (w : W) → IsSettled g → IsSettled (restore_all s g w).0.1
  unfolding restore_all
  restore_all-IsSettled g w i = elim (Bool-cases (is_phase g.phase prepared)) [
    | inl there ↦
        rw there
          (finish_restore-IsSettled (begun restoring g) (restore_loop s g.prepared_resources w).0 _)
    | inr other ↦ rw other i
  ]

  Call-IsSettled : {a b : Registry R × W} → Call s a b → IsSettled a.0 → IsSettled b.0
  Call-IsSettled (registers r kind name g g' w h) i = register-IsSettled r kind name g g' h i
  Call-IsSettled (unregisters name g w) i = unfold unregister in IsSettled-of g _ refl refl refl i
  Call-IsSettled (prepares g w) i = prepare_all-IsSettled g w i
  Call-IsSettled (restores g w) i = restore_all-IsSettled g w i

  -- Whatever calls are made, in whatever order and whatever the resources raise, a registry that started new
  -- is between calls either active with nothing retained, prepared with a report, or failed; it is never
  -- left preparing or restoring.
  pub Reached-IsSettled : (w : W) {b : Registry R × W} → Reached s (new, w) b → IsSettled b.0
  Reached-IsSettled w here = unfold new in is_active refl refl refl
  Reached-IsSettled w (next r c) = Call-IsSettled c (Reached-IsSettled w r)
