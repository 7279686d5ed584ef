-- ===== src/Checkpoint/Steps.antt =====
-- One round of each loop of the registry.
use coldsnap.Base.{String, some, List, [], ◌∷◌, ◌≡◌, ◌≢◌, refl, ok, raised, ◌>>=◌, Fields, sym, ◌∙◌}
use coldsnap.Checkpoint.Registry.{
  Resources, further, prepare_loop, rollback, named_report, restore_failed, restore_loop,
}

module _ {R W : Type 0} (s : Resources R W) (name : String) (r : R) (rest : List (String × R))
    (w : W) where
  pub prepare_loop-ok :
      (report : Fields)
      → (s.prepare r w).0 ≡ ok report
      → prepare_loop s ((name, r) ∷ rest) w ≡ (
        further name r report (prepare_loop s rest (s.prepare r w).1).0,
        (prepare_loop s rest (s.prepare r w).1).1,
      )
  unfolding prepare_loop named_report
  prepare_loop-ok report p = rw (p, prepare_loop) refl

  pub prepare_loop-raised :
      (message : String)
      → (s.prepare r w).0 ≡ raised message
      → prepare_loop s ((name, r) ∷ rest) w
        ≡ (record { done = []; reports = []; error = some message }, (s.prepare r w).1)
  unfolding prepare_loop
  prepare_loop-raised message p = rw (p, prepare_loop) refl

  pub rollback-ok :
      (report : Fields)
      → (s.restore r w).0 ≡ ok report
      → rollback s ((name, r) ∷ rest) w ≡ rollback s rest (s.restore r w).1
  unfolding rollback
  rollback-ok report p = rw (p, rollback) refl

  pub rollback-raised :
      (message : String)
      → (s.restore r w).0 ≡ raised message
      → (rollback s ((name, r) ∷ rest) w).0 ≢ []
  unfolding rollback
  rollback-raised message p h =
      let q : (rollback s ((name, r) ∷ rest) w).0
          ≡ (name, message) ∷ (rollback s rest (s.restore r w).1).0 =
        rw (p, rollback) refl in
      let e : (name, message) ∷ (rollback s rest (s.restore r w).1).0 ≡ [] = sym q ∙ h in cc

  pub restore_loop-ok :
      (report : Fields)
      → (s.restore r w).0 ≡ ok report
      → restore_loop s ((name, r) ∷ rest) w ≡ (
        (restore_loop s rest (s.restore r w).1).0 >>= λ reports.
            ok (named_report name report ∷ reports),
        (restore_loop s rest (s.restore r w).1).1,
      )
  unfolding restore_loop named_report
  restore_loop-ok report p = rw (p, restore_loop) refl

  pub restore_loop-raised :
      (message : String)
      → (s.restore r w).0 ≡ raised message
      → restore_loop s ((name, r) ∷ rest) w
        ≡ (raised (restore_failed name message), (s.restore r w).1)
  unfolding restore_loop
  restore_loop-raised message p = rw (p, restore_loop) refl
