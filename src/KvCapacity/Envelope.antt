-- ===== src/KvCapacity/Envelope.antt =====
-- The capacity that the guard returns.
use coldsnap.Base.{
  false, Option, none, some, ◌≡◌, inl, inr, refl, arith, Result, ok, >>=-eq-ok, raise_if-eq-ok,
  if◌then◌else◌, ℤ, pos, ◌-ℤ◌, ◌≤ℤ◌, ◌<ℤ◌, ltb_ℤ, leb_ℤ, Bool-cases, sym, subst, ap, ◌∙◌,
}
use coldsnap.KvCapacity.Guard.{
  CapacityError, envelope_exceeded, no_memory_left, Value, whole, fraction, other, Worker,
  capacity_input, positive_report, min_ℤ, configs, record_status, status_of, guard_inputs,
  guard_automatic, by_config, guard_automatic_capacity,
}

-- A capacity inside the memory that was requested, less what is consumed and the transient peak; the worker
-- is told of a limit exactly when the report has been lowered.
pub record IsWithin {M P : Type 0} (worker after : Worker M P) (reported_bytes : Value) (n : ℤ)
    : Type 0 where
  pub reported : ℤ
  pub report : reported_bytes ≡ whole reported
  pub requested : ℤ
  pub requested_input : capacity_input "requested_memory" worker.requested_memory ≡ ok requested
  pub consumed : ℤ
  pub consumed_input : capacity_input "total_consumed" worker.total_consumed ≡ ok consumed
  pub peak : ℤ
  pub peak_input : capacity_input "peak_activation_memory" worker.peak_activation_memory ≡ ok peak
  pub positive : pos 0 <ℤ n
  pub no_increase : n ≤ℤ reported
  pub inside : n ≤ℤ requested -ℤ consumed -ℤ peak
  pub kept :
      n ≡ reported → after.available_kv_cache_memory_bytes ≡ worker.available_kv_cache_memory_bytes
  pub lowered :
      n <ℤ reported → after.available_kv_cache_memory_bytes ≡ some (requested -ℤ consumed -ℤ peak)

positive_report-eq-ok :
    (v : Value) (n : ℤ) → positive_report v ≡ ok n → (v ≡ whole n) × (pos 0 <ℤ n)
unfolding positive_report
positive_report-eq-ok (whole m) n h = elim (Bool-cases (leb_ℤ m (pos 0))) [
  | inl bad ↦ ground arith
  | inr good ↦
      let same : m ≡ n = ground arith in
      (ap whole same, subst (λ x. pos 0 <ℤ x) same (ground arith))
]
positive_report-eq-ok (fraction s m) n h = cc
positive_report-eq-ok other n h = cc

module _ {M P : Type 0} (reserve : ℤ → M → P → ℤ) where
  min_bounds : (a b : ℤ) → (min_ℤ a b ≤ℤ a) × (min_ℤ a b ≤ℤ b)
  min_bounds a b = ground arith

  min_positive : (a b : ℤ) → pos 0 <ℤ a → pos 0 <ℤ b → pos 0 <ℤ min_ℤ a b
  min_positive a b p q = ground arith

  record Chosen (worker after : Worker M P) (reported requested consumed peak n : ℤ) : Type 0 where
    limit : ℤ
    measured : limit ≡ requested -ℤ consumed -ℤ peak
    model : M
    parallel : P
    enough : pos 0 <ℤ reserve limit model parallel
    selected : n ≡ min_ℤ reported (reserve limit model parallel)
    available :
        after.available_kv_cache_memory_bytes
        ≡ (if ltb_ℤ n reported then some limit else worker.available_kv_cache_memory_bytes)

  configs-eq-ok :
      (m : Option M) (p : Option P) (b : M × P)
      → configs reserve m p ≡ ok b
      → (m ≡ some b.0) × (p ≡ some b.1)
  configs-eq-ok (some m) (some p) b h =
      let e : Path (M × P) (m, p) b = cc in (ap (λ x. some x.0) e, ap (λ x. some x.1) e)
  configs-eq-ok none p b h = cc
  configs-eq-ok (some m) none b h = cc

  pair_made :
      {A B : Type 0} (x y : A × B) → Path (Result CapacityError (A × B)) (ok x) (ok y) → x ≡ y
  pair_made x y h = cc

  Chosen-of_pair :
      (worker after : Worker M P) (reported requested consumed peak n limit guarded : ℤ) (model : M)
      (parallel : P)
      → limit ≡ requested -ℤ consumed -ℤ peak
      → guarded ≡ reserve limit model parallel
      → leb_ℤ guarded (pos 0) ≡ false
      → Path
          (ℤ × Worker M P)
          (
            min_ℤ reported guarded,
            record_status reserve worker
                (status_of reserve reported requested consumed peak limit guarded),
          )
          (n, after)
      → Chosen worker after reported requested consumed peak n
  unfolding record_status
  Chosen-of_pair worker after reported requested consumed peak n limit guarded model parallel l g
        positive made =
      let selected : min_ℤ reported guarded ≡ n = ap (λ x. x.0) made in
      let stored : (if ltb_ℤ (min_ℤ reported guarded) reported
            then some limit
            else worker.available_kv_cache_memory_bytes)
          ≡ after.available_kv_cache_memory_bytes =
        ap (λ x. x.1.available_kv_cache_memory_bytes) made in
      record {
        limit = limit;
        measured = l;
        model = model;
        parallel = parallel;
        enough = subst (λ x. pos 0 <ℤ x) g (ground arith);
        selected = sym selected ∙ ap (min_ℤ reported) g;
        available =
            sym stored
            ∙ ap
                (λ x.
                  if ltb_ℤ x reported then some limit else worker.available_kv_cache_memory_bytes)
                selected;
      }

  guard_inputs-eq-ok :
      (worker after : Worker M P) (reported requested consumed peak n : ℤ)
      → guard_inputs reserve worker reported requested consumed peak ≡ ok (n, after)
      → Chosen worker after reported requested consumed peak n
  unfolding guard_inputs
  guard_inputs-eq-ok worker after reported requested consumed peak n h =
      let (a, h1) =
        raise_if-eq-ok (leb_ℤ (requested -ℤ consumed -ℤ peak) (pos 0)) envelope_exceeded _ h in
      let (both, c, h2) =
        >>=-eq-ok (configs reserve worker.model_config worker.parallel_config) _ h1 in
      let (g, h3) =
        raise_if-eq-ok (leb_ℤ (reserve (requested -ℤ consumed -ℤ peak) both.0 both.1) (pos 0))
          no_memory_left _ h2 in
      Chosen-of_pair worker after reported requested consumed peak n _ _ both.0 both.1 refl refl g
        (pair_made _ _ h3)

  Chosen-within :
      (worker after : Worker M P) (reported requested consumed peak n : ℤ)
      → ((limit : ℤ) (m : M) (p : P) → reserve limit m p ≤ℤ limit)
      → pos 0 <ℤ reported
      → Chosen worker after reported requested consumed peak n
      → (pos 0 <ℤ n)
        × (n ≤ℤ reported)
        × (n ≤ℤ requested -ℤ consumed -ℤ peak)
        × (n ≡ reported
            → after.available_kv_cache_memory_bytes ≡ worker.available_kv_cache_memory_bytes)
        × (n <ℤ reported
            → after.available_kv_cache_memory_bytes ≡ some (requested -ℤ consumed -ℤ peak))
  Chosen-within worker after reported requested consumed peak n shrinks positive c =
      let (low, high) = min_bounds reported (reserve c.limit c.model c.parallel) in
      (
        subst (λ x. pos 0 <ℤ x) (sym c.selected)
            (min_positive reported (reserve c.limit c.model c.parallel) positive c.enough),
        subst (λ x. x ≤ℤ reported) (sym c.selected) low,
        subst (λ x. n ≤ℤ x) c.measured
            (subst (λ x. x ≤ℤ c.limit) (sym c.selected)
              (omega (arith, high, shrinks c.limit c.model c.parallel))),
        λ same. c.available ∙ ground arith,
        λ less. c.available ∙ ground (arith, c.measured),
      )

  -- When the reservation for multimodal inputs does not exceed the limit that it is given, the capacity
  -- that the guard returns for an automatically sized cache is positive, no larger than the report, and
  -- within requested minus consumed minus peak memory; the worker's available memory is set to that limit
  -- if the report is lowered, and is left alone if not.
  pub guard_automatic_capacity-IsWithin :
      (worker after : Worker M P) (reported_bytes : Value) (n : ℤ)
      → ((limit : ℤ) (m : M) (p : P) → reserve limit m p ≤ℤ limit)
      → worker.kv_cache_memory_bytes ≡ some false
      → guard_automatic_capacity reserve worker reported_bytes ≡ ok (n, after)
      → IsWithin worker after reported_bytes n
  unfolding guard_automatic_capacity by_config guard_automatic
  guard_automatic_capacity-IsWithin worker after reported_bytes n shrinks automatic h =
      let (reported, p, h1) = >>=-eq-ok (positive_report reported_bytes) _ h in
      let h2 : guard_automatic reserve worker reported ≡ ok (n, after) =
        subst (λ o. by_config reserve worker reported o ≡ ok (n, after)) automatic h1 in
      let (requested, r, h3) =
        >>=-eq-ok (capacity_input "requested_memory" worker.requested_memory) _ h2 in
      let (consumed, c, h4) =
        >>=-eq-ok (capacity_input "total_consumed" worker.total_consumed) _ h3 in
      let (peak, k, h5) =
        >>=-eq-ok (capacity_input "peak_activation_memory" worker.peak_activation_memory) _ h4 in
      let (report, positive) = positive_report-eq-ok reported_bytes reported p in
      let (a, b, d, e, f) =
        Chosen-within worker after reported requested consumed peak n shrinks positive
          (guard_inputs-eq-ok worker after reported requested consumed peak n h5) in
      record {
        reported = reported;
        report = report;
        requested = requested;
        requested_input = r;
        consumed = consumed;
        consumed_input = c;
        peak = peak;
        peak_input = k;
        positive = a;
        no_increase = b;
        inside = d;
        kept = e;
        lowered = f;
      }
