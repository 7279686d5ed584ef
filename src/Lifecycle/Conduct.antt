-- ===== src/Lifecycle/Conduct.antt =====
-- What `control` has done, and seen, when it returns.
use coldsnap.Base.{
  ℕ, ◌+◌, Bool, true, false, Option, ◌≡◌, refl, Result, ok, ok_injective, string_eq, Json, sym, ◌∙◌,
  subst,
}
use coldsnap.Lifecycle.Machine.{LifecycleError, Order, sleep, wake, status, Args, Machine}
use coldsnap.Lifecycle.Client.{sleeping, wait_state, health, infer}
use coldsnap.Lifecycle.Control.{
  Report, release, woken, put_to_sleep, act, run_control, unlocked, locked, control,
}
use coldsnap.Lifecycle.Sightings.{
  Returns, resume-Returns, Converged, Answered, wait_state-Converged, infer-Answered,
}

module _ {W D : Type 0} (sys : Machine W D) (args : Args) (rounds deadline : ℕ) where
  -- What has happened between two worlds, by the order and by whether the engine was found asleep
  abbrev pub Woken : Bool → W → W → Type 0
  Woken true w v = Converged sys args rounds deadline false v
  Woken false w v = w ≡ v

  abbrev pub Did : Order → Bool → W → Bool → W → Type 0
  Did sleep true w accepted v = (accepted ≡ false) × (w ≡ v)
  Did sleep false w accepted v =
      (accepted ≡ true)
      × (x y z : W) × (reply : Option Json) × Returns (health sys args deadline rounds w) tt x
      × Answered sys args rounds deadline x y
      × Returns (release sys args rounds deadline args.engine y) reply z
      × Converged sys args rounds deadline true v
  Did wake before w accepted v =
      (accepted ≡ true)
      × (x y : W) × Woken before w x
      × Returns (health sys args deadline rounds x) tt y
      × Answered sys args rounds deadline y v
  Did status before w accepted v = (accepted ≡ false) × (w ≡ v)

  put_to_sleep-Did :
      (before : Bool) (w : W) (accepted : Bool) (v : W)
      → Returns (put_to_sleep sys args rounds deadline before w) accepted v
      → Did sleep before w accepted v
  unfolding put_to_sleep
  put_to_sleep-Did true w accepted v h = (sym (ok_injective h.0), h.1)
  put_to_sleep-Did false w accepted v h =
      let (u, p, h1) = resume-Returns (health sys args deadline rounds w) _ accepted v h in
      let (answer, q, h2) = resume-Returns (infer sys args deadline _) _ accepted v h1 in
      let (reply, r, h3) =
        resume-Returns (release sys args rounds deadline args.engine _) _ accepted v h2 in
      let (done, s, h4) =
        resume-Returns (wait_state sys args deadline rounds true _) _ accepted v h3 in
      let (yes_, answered) = infer-Answered sys args rounds deadline answer _ _ q in
      (
        sym (ok_injective h4.0) ∙ yes_,
        _,
        _,
        _,
        reply,
        p,
        answered,
        r,
        subst (Converged sys args rounds deadline true) h4.1
            (wait_state-Converged sys args rounds deadline rounds true _ _ s),
      )

  woken-Woken :
      (before : Bool) (w v : W)
      → Returns (woken sys args rounds deadline before w) tt v
      → Woken before w v
  woken-Woken true w v h =
      let (u, p, h1) =
        resume-Returns _ (λ done. wait_state sys args deadline rounds false) tt v h in
      wait_state-Converged sys args rounds deadline rounds false _ v h1
  woken-Woken false w v h = h.1

  act-Did :
      (order : Order) (before : Bool) (w : W) (accepted : Bool) (v : W)
      → Returns (act sys args rounds deadline order before w) accepted v
      → Did order before w accepted v
  unfolding act
  act-Did sleep true w accepted v h = put_to_sleep-Did true w accepted v h
  act-Did sleep false w accepted v h = put_to_sleep-Did false w accepted v h
  act-Did wake before w accepted v h =
      let (u, p, h1) = resume-Returns (woken sys args rounds deadline before w) _ accepted v h in
      let (s, q, h2) = resume-Returns (health sys args deadline rounds _) _ accepted v h1 in
      let (yes_, answered) = infer-Answered sys args rounds deadline accepted _ v h2 in
      (yes_, _, _, woken-Woken before w _ p, q, answered)
  act-Did status before w accepted v h = (sym (ok_injective h.0), h.1)

  pub record IsReported (w : W) (r : Report) (v : W) : Type 0 where
    pub before : Bool
    pub start : W
    pub middle : W
    pub first : Returns (sleeping sys args deadline w) before start
    pub conduct : Did args.action before start r.accepted middle
    pub last : Returns (sleeping sys args deadline middle) r.is_sleeping v
    pub ordered : r.action ≡ args.action

  run_control-IsReported :
      (w : W) (r : Report) (v : W)
      → Returns (run_control sys args rounds deadline w) r v
      → IsReported w r v
  unfolding run_control
  run_control-IsReported w r v h =
      let (before, p, h1) = resume-Returns (sleeping sys args deadline w) _ r v h in
      let (accepted, q, h2) =
        resume-Returns (act sys args rounds deadline args.action before _) _ r v h1 in
      let (after, s, h3) = resume-Returns (sleeping sys args deadline _) _ r v h2 in
      subst (λ x. IsReported w x v) (ok_injective h3.0)
        (record {
          before = before;
          start = _;
          middle = _;
          first = p;
          conduct = act-Did args.action before _ accepted _ q;
          last = (s.0, h3.1);
          ordered = refl;
        })

module _ {W D : Type 0} (sys : Machine W D) (args : Args) (rounds : ℕ) where
  -- The run between the taking of the lock and its release
  pub record IsControlled (r : Report) (v : W) : Type 0 where
    pub lock : D
    pub held : W
    pub left : W
    pub taken : (w : W) × Returns (sys.flock lock w) tt held
    pub reported : IsReported sys args rounds (sys.monotonic held + args.timeout) held r left
    pub released : v ≡ sys.close lock left

  -- A control that returns has taken the lock and closes it at the end; between, it saw the engine's state
  -- first and last, and reports the last one. Ordered to sleep, it leaves an engine that is asleep alone and
  -- accepts nothing, and accepts one that is awake: that was healthy, gave the expected answer, was told to
  -- release its memory and then seen asleep before the deadline. Ordered to wake, it accepts an engine that
  -- was seen awake before the deadline if it was asleep, then was healthy and gave the expected answer.
  -- Asked for the status only, it does nothing else and accepts nothing.
  pub control-IsControlled :
      (w : W) (r : Report) (v : W) → Returns (control sys args rounds w) r v → IsControlled r v
  unfolding control locked
  control-IsControlled w r v h =
      let (u, p, h1) = resume-Returns (sys.make_runtime_root w) _ r v h in
      let (lock, q, h2) = resume-Returns (sys.open_lock _) _ r v h1 in
      let (result, close) = of_unlocked lock (locked sys args rounds lock _) h2 in
      let (t, taken, h3) = resume-Returns (sys.flock lock _) _ r _ (result, refl) in
      record {
        lock = lock;
        held = _;
        left = _;
        taken = (_, taken);
        reported = run_control-IsReported sys args rounds _ _ r _ h3;
        released = sym close;
      }
    where
      of_unlocked :
          (lock : D) (o : Result LifecycleError Report × W)
          → Returns (unlocked sys lock o) r v
          → (o.0 ≡ ok r) × (sys.close lock o.1 ≡ v)
      of_unlocked lock (result, x) h = h
