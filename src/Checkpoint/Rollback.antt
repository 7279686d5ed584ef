-- ===== src/Checkpoint/Rollback.antt =====
-- What the registry's calls do to the resources: all are suspended, or none is.
use coldsnap.Base.{
  String, Bool, true, false, ◌&&◌, ◌||◌, not, none, some, List, [], ◌∷◌, ◌++◌, ◌≡◌, inl, inr, refl,
  arith, Result, ok, raised, >>=-eq-ok, Result-cases, Fields, reverse, member, Eq, ◌==◌, sym, ap,
  ◌∙◌,
}
use coldsnap.Checkpoint.Registry.{Resources, checked, prepare_loop, rollback, restore_loop}
use coldsnap.Checkpoint.Steps.{
  prepare_loop-ok, prepare_loop-raised, rollback-ok, rollback-raised, restore_loop-ok,
  restore_loop-raised,
}

-- The contract of `CheckpointResource`: `prepare` suspends the resource or leaves everything usable when it
-- raises, and `restore` that returns undoes it. `held w r` says that `r` is suspended in `w`.
pub record Contract {R W : Type 0} ⦃e : Eq R⦄ (s : Resources R W) (held : W → R → Bool)
    : Type 0 where
  pub prepare_ok :
      (r : R) (w : W) (report : Fields)
      → (s.prepare r w).0 ≡ ok report
      → (x : R) → held (s.prepare r w).1 x ≡ (x == r || held w x)
  pub prepare_raised :
      (r : R) (w : W) (message : String)
      → (s.prepare r w).0 ≡ raised message
      → (x : R) → held (s.prepare r w).1 x ≡ held w x
  pub restore_ok :
      (r : R) (w : W) (report : Fields)
      → (s.restore r w).0 ≡ ok report
      → (x : R) → held (s.restore r w).1 x ≡ (not (x == r) && held w x)
  pub rings_only_read : (w : W) (x : R) → held (s.assert_no_io_uring w).1 x ≡ held w x

abbrev pub objects : {R : Type 0} → List (String × R) → List R
objects [] = []
objects ((name, r) ∷ rest) = r ∷ objects rest

module _ {R W : Type 0} ⦃e : Eq R⦄ (s : Resources R W) (held : W → R → Bool)
    (c : Contract s held) where
  checked_nothing :
      (o : Result String (Unit {0})) (x : R) → member x (objects (checked s o).done) ≡ false
  checked_nothing (ok u) x = refl
  checked_nothing (raised e) x = refl

  -- The loop suspends exactly the resources that it reports as prepared.
  pub prepare_loop-held :
      (rs : List (String × R)) (w : W) (x : R)
      → held (prepare_loop s rs w).1 x
        ≡ (member x (objects (prepare_loop s rs w).0.done) || held w x)
  unfolding prepare_loop
  prepare_loop-held [] w x =
      ground (arith, c.rings_only_read w x, checked_nothing (s.assert_no_io_uring w).0 x)
  prepare_loop-held ((name, r) ∷ rest) w x = elim (Result-cases (s.prepare r w).0) [
    | inl (report, p) ↦
        rw (prepare_loop-ok s name r rest w report p)
          (ground (arith, c.prepare_ok r w report p x, prepare_loop-held rest (s.prepare r w).1 x))
    | inr (message, p) ↦
        rw (prepare_loop-raised s name r rest w message p) (c.prepare_raised r w message p x)
  ]

  -- A loop without an exception has come to the end.
  pub prepare_loop_all :
      (rs : List (String × R)) (w : W)
      → (prepare_loop s rs w).0.error ≡ none
      → (prepare_loop s rs w).0.done ≡ rs
  unfolding prepare_loop
  prepare_loop_all [] w h = elim (Result-cases (s.assert_no_io_uring w).0) [
    | inl (u, p) ↦ rw p refl
    | inr (message, p) ↦ rw p refl
  ]
  prepare_loop_all ((name, r) ∷ rest) w h = elim (Result-cases (s.prepare r w).0) [
    | inl (report, p) ↦
        let q = prepare_loop-ok s name r rest w report p in
        let later : (prepare_loop s rest (s.prepare r w).1).0.error ≡ none =
          sym (ap (λ y. y.0.error) q) ∙ h in
        ap (λ y. y.0.done) q ∙ ap (◌∷◌ (name, r)) (prepare_loop_all rest (s.prepare r w).1 later)
    | inr (message, p) ↦
        let q = prepare_loop-raised s name r rest w message p in
        let e : some message ≡ none = sym (ap (λ y. y.0.error) q) ∙ h in cc
  ]

  -- A rollback without a failure frees each of its resources and no other.
  pub rollback-held :
      (rs : List (String × R)) (w : W) (x : R)
      → (rollback s rs w).0 ≡ []
      → held (rollback s rs w).1 x ≡ (not (member x (objects rs)) && held w x)
  unfolding rollback
  rollback-held [] w x h = refl
  rollback-held ((name, r) ∷ rest) w x h = elim (Result-cases (s.restore r w).0) [
    | inl (report, p) ↦
        let q = rollback-ok s name r rest w report p in
        let later = rollback-held rest (s.restore r w).1 x (sym (ap (λ y. y.0) q) ∙ h) in
        rw q (ground (arith, later, c.restore_ok r w report p x))
    | inr (message, p) ↦ absurd (rollback-raised s name r rest w message p h)
  ]

  pub restore_loop-held :
      (rs : List (String × R)) (w : W) (x : R) (reports : List Fields)
      → (restore_loop s rs w).0 ≡ ok reports
      → held (restore_loop s rs w).1 x ≡ (not (member x (objects rs)) && held w x)
  unfolding restore_loop
  restore_loop-held [] w x reports h = refl
  restore_loop-held ((name, r) ∷ rest) w x reports h = elim (Result-cases (s.restore r w).0) [
    | inl (report, p) ↦
        let q = restore_loop-ok s name r rest w report p in
        let chain = sym (ap (λ y. y.0) q) ∙ h in
        let (later_reports, k, made) =
          >>=-eq-ok (restore_loop s rest (s.restore r w).1).0 _ chain in
        let later = restore_loop-held rest (s.restore r w).1 x later_reports k in
        rw q (ground (arith, later, c.restore_ok r w report p x))
    | inr (message, p) ↦
        let q = restore_loop-raised s name r rest w message p in
        let e = sym (ap (λ y. y.0) q) ∙ h in cc
  ]

module _ {R : Type 0} ⦃e : Eq R⦄ where
  objects-++ : (xs ys : List (String × R)) → objects (xs ++ ys) ≡ objects xs ++ objects ys
  objects-++ [] ys = refl
  objects-++ ((n, r) ∷ xs) ys = ap (◌∷◌ r) (objects-++ xs ys)

  member-++ : (x : R) (xs ys : List R) → member x (xs ++ ys) ≡ (member x xs || member x ys)
  member-++ x [] ys = refl
  member-++ x (y ∷ xs) ys = ground (arith, member-++ x xs ys)

  pub member-reverse :
      (x : R) (rs : List (String × R)) → member x (objects (reverse rs)) ≡ member x (objects rs)
  unfolding reverse
  member-reverse x [] = refl
  member-reverse x ((n, r) ∷ rs) =
      let p : member x (objects (reverse rs ++ (n, r) ∷ []))
          ≡ (member x (objects (reverse rs)) || (x == r || false)) =
        ap (member x) (objects-++ (reverse rs) ((n, r) ∷ []))
        ∙ member-++ x (objects (reverse rs)) (r ∷ []) in
      p ∙ ground (arith, member-reverse x rs)

module _ {R W : Type 0} ⦃e : Eq R⦄ (s : Resources R W) where
  -- What the loop has prepared is registered.
  pub done_registered :
      (rs : List (String × R)) (w : W) (x : R)
      → member x (objects (prepare_loop s rs w).0.done) ≡ true
      → member x (objects rs) ≡ true
  unfolding prepare_loop
  done_registered [] w x h = go (s.assert_no_io_uring w).0 h
    where
      go :
          (o : Result String (Unit {0}))
          → member x (objects (checked s o).done) ≡ true
          → false ≡ true
      go (ok u) h = h
      go (raised m) h = h
  done_registered ((n, r) ∷ rest) w x h = elim (Result-cases (s.prepare r w).0) [
    | inl (report, p) ↦
        let k : (x == r || member x (objects (prepare_loop s rest (s.prepare r w).1).0.done))
            ≡ true =
          sym (ap (λ y. member x (objects y.0.done)) (prepare_loop-ok s n r rest w report p)) ∙ h in
        ground (arith, k, done_registered rest (s.prepare r w).1 x)
    | inr (message, p) ↦
        let k : false ≡ true =
          sym (ap (λ y. member x (objects y.0.done)) (prepare_loop-raised s n r rest w message p))
          ∙ h in
        cc
  ]
