-- ===== src/Checkpoint/Atomicity.antt =====
-- A checkpoint suspends all registered resources or none, and gives them back.
use coldsnap.Base.{
  String, Bool, true, false, ◌&&◌, ◌||◌, not, Option, none, some, List, [], ◌∷◌, ◌≡◌, refl, arith,
  Result, ok, raised, Fields, reverse, member, Eq, sym, ap, ◌∙◌,
}
use coldsnap.Checkpoint.Registry.{
  active, preparing, prepared, restoring, RegistryError, Resources, Registry, Progress, begun,
  prepare_loop, rollback, after_rollback, settle_prepare, finish_prepare, prepare_all, restore_loop,
  finish_restore, restore_all,
}
use coldsnap.Checkpoint.Rollback.{
  Contract, objects, prepare_loop-held, prepare_loop_all, rollback-held, restore_loop-held,
  member-reverse, done_registered,
}

module _ {R W : Type 0} (s : Resources R W) where
  after_rollback-active :
      (failures : List (String × String)) → after_rollback s failures ≡ active → failures ≡ []
  after_rollback-active [] h = refl
  after_rollback-active (f ∷ fs) h = cc

  settle_prepare-active :
      (g : Registry R) (p : Progress R) (o : Option String) (w : W)
      → (settle_prepare s g p o w).0.1.phase ≡ active
      → ((rollback s (reverse p.done) w).0 ≡ [])
        × ((settle_prepare s g p o w).1 ≡ (rollback s (reverse p.done) w).1)
  unfolding settle_prepare
  settle_prepare-active g p none w h = cc
  settle_prepare-active g p (some m) w h =
      (after_rollback-active (rollback s (reverse p.done) w).0 h, refl)

  settle_prepare-prepared :
      (g : Registry R) (p : Progress R) (o : Option String) (w : W) (reports : List Fields)
      → (settle_prepare s g p o w).0.0 ≡ ok reports
      → (o ≡ none)
        × ((settle_prepare s g p o w).1 ≡ w)
        × ((settle_prepare s g p o w).0.1.phase ≡ prepared)
        × ((settle_prepare s g p o w).0.1.prepared_resources ≡ p.done)
  unfolding settle_prepare
  settle_prepare-prepared g p none w reports h = (refl, refl, refl, refl)
  settle_prepare-prepared g p (some m) w reports h = cc

  prepare_all_started :
      (g : Registry R) (w : W)
      → g.phase ≡ active
      → prepare_all s g w
        ≡ settle_prepare s
            (begun preparing g)
            (prepare_loop s g.resources w).0
            (prepare_loop s g.resources w).0.error
            (prepare_loop s g.resources w).1
  unfolding prepare_all finish_prepare
  prepare_all_started g w h = rw h refl

  restore_all_started :
      (g : Registry R) (w : W)
      → g.phase ≡ prepared
      → restore_all s g w
        ≡ finish_restore s
            (begun restoring g)
            ((restore_loop s g.prepared_resources w).0, (restore_loop s g.prepared_resources w).1)
  unfolding restore_all
  restore_all_started g w h = rw h refl

  finish_restore-ok :
      (g : Registry R) (o : Result RegistryError (List Fields)) (w : W) (reports : List Fields)
      → (finish_restore s g (o, w)).0.0 ≡ ok reports
      → (o ≡ ok reports)
        × ((finish_restore s g (o, w)).1 ≡ w)
        × ((finish_restore s g (o, w)).0.1.phase ≡ active)
  unfolding finish_restore
  finish_restore-ok g (ok r) w reports h = (h, refl, refl)
  finish_restore-ok g (raised m) w reports h = cc

module _ {R W : Type 0} ⦃e : Eq R⦄ (s : Resources R W) (held : W → R → Bool)
    (c : Contract s held) where
  -- When the resources keep their contract and none registered is suspended, a preparation that leaves the
  -- registry active, so that one that failed and was rolled back, has suspended nothing after all.
  pub prepare_all_rolled_back :
      (g : Registry R) (w : W)
      → g.phase ≡ active
      → ((x : R) → member x (objects g.resources) ≡ true → held w x ≡ false)
      → (prepare_all s g w).0.1.phase ≡ active
      → (x : R) → held (prepare_all s g w).1 x ≡ held w x
  prepare_all_rolled_back g w idle free h x =
      let q = prepare_all_started s g w idle in
      let loop = prepare_loop s g.resources w in
      let (clean, last) =
        settle_prepare-active s (begun preparing g) loop.0 loop.0.error loop.1
          (sym (ap (λ y. y.0.1.phase) q) ∙ h) in
      let back = rollback-held s held c (reverse loop.0.done) loop.1 x clean in
      let there = prepare_loop-held s held c g.resources w x in
      ap (λ y. held y.1 x) q
      ∙ ap (λ y. held y x) last
      ∙ back
      ∙ ground
          (arith, there, member-reverse x loop.0.done, free x, done_registered s g.resources w x)

  -- A preparation and a restoration that both return have suspended every registered resource in between, and
  -- no other, and leave each as it was and the registry active.
  pub restore_all-prepare_all :
      (g : Registry R) (w : W) (reports restored : List Fields)
      → g.phase ≡ active
      → ((x : R) → member x (objects g.resources) ≡ true → held w x ≡ false)
      → (prepare_all s g w).0.0 ≡ ok reports
      → (restore_all s (prepare_all s g w).0.1 (prepare_all s g w).1).0.0 ≡ ok restored
      → ((x : R) → held (prepare_all s g w).1 x ≡ (member x (objects g.resources) || held w x))
        × ((x : R)
            → held (restore_all s (prepare_all s g w).0.1 (prepare_all s g w).1).1 x ≡ held w x)
        × ((restore_all s (prepare_all s g w).0.1 (prepare_all s g w).1).0.1.phase ≡ active)
  restore_all-prepare_all g w reports restored idle free h k =
      let q = prepare_all_started s g w idle in
      let loop = prepare_loop s g.resources w in
      let g' = (prepare_all s g w).0.1 in
      let w' = (prepare_all s g w).1 in
      let (no_error, last, phase, kept) =
        settle_prepare-prepared s (begun preparing g) loop.0 loop.0.error loop.1 reports
          (sym (ap (λ y. y.0.0) q) ∙ h) in
      let all_done : loop.0.done ≡ g.resources = prepare_loop_all s held c g.resources w no_error in
      let suspended : (x : R) → held w' x ≡ (member x (objects g.resources) || held w x) = λ x.
        ap (λ y. held y.1 x) q
        ∙ ap (λ y. held y x) last
        ∙ prepare_loop-held s held c g.resources w x
        ∙ ap (λ d. member x (objects d) || held w x) all_done in
      let is_prepared : g'.phase ≡ prepared = ap (λ y. y.0.1.phase) q ∙ phase in
      let retained : g'.prepared_resources ≡ g.resources =
        ap (λ y. y.0.1.prepared_resources) q ∙ kept ∙ all_done in
      restored_all g' w' is_prepared retained suspended k
    where
      restored_all :
          (g' : Registry R) (w' : W)
          → g'.phase ≡ prepared
          → g'.prepared_resources ≡ g.resources
          → ((x : R) → held w' x ≡ (member x (objects g.resources) || held w x))
          → (restore_all s g' w').0.0 ≡ ok restored
          → ((x : R) → held w' x ≡ (member x (objects g.resources) || held w x))
            × ((x : R) → held (restore_all s g' w').1 x ≡ held w x)
            × ((restore_all s g' w').0.1.phase ≡ active)
      restored_all g' w' p retained suspended k =
          let q = restore_all_started s g' w' p in
          let loop = restore_loop s g'.prepared_resources w' in
          let (r, last, phase) =
            finish_restore-ok s (begun restoring g') loop.0 loop.1 restored
              (sym (ap (λ y. y.0.0) q) ∙ k) in
          let freed : (x : R) → held (restore_all s g' w').1 x ≡ held w x = λ x.
            ap (λ y. held y.1 x) q
            ∙ ap (λ y. held y x) last
            ∙ restore_loop-held s held c g'.prepared_resources w' x restored r
            ∙ ap (λ d. not (member x (objects d)) && held w' x) retained
            ∙ ground (arith, suspended x, free x) in
          (suspended, freed, ap (λ y. y.0.1.phase) q ∙ phase)
