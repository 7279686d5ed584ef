-- ===== src/KvCapacity/Installation.antt =====
-- What the installation of the hook leaves, and what the hooked method returns.
use coldsnap.Base.{
  false, Option, some, ◌≡◌, ok, >>=-eq-ok, ok_injective, if◌then◌else◌, Eq, ◌==◌, ℤ, ◌≤ℤ◌, sym, ap,
  ◌∙◌,
}
use coldsnap.KvCapacity.Guard.{Value, whole, Worker, guard_automatic_capacity}
use coldsnap.KvCapacity.Envelope.{IsWithin, guard_automatic_capacity-IsWithin}
use coldsnap.KvCapacity.Hook.{Method, Module, guarded, worker_class, install_worker_hook}

module _ {C M P : Type 0} ⦃e : Eq C⦄ where
  -- The one worker class has a marked method: its own if that was marked, and else its own with the guard around.
  -- All other classes have theirs, and to install the hook again changes nothing.
  pub record IsHooked (m : Module C M P) (methods after : C → Option (Method M P)) : Type 0 where
    pub class : C
    pub chosen : worker_class m ≡ ok class
    pub original : Method M P
    pub found : methods class ≡ some original
    pub reserve : ℤ → M → P → ℤ
    pub reserved : m.reserve ≡ some reserve
    pub methods_after :
        (d : C)
        → after d ≡ (
            if d == class
            then some (if original.is_marked then original else guarded reserve original)
            else methods d)
    pub again : install_worker_hook m after ≡ ok after

-- What a guarded method returns for an automatically sized cache is the guard's choice of what the original reports,
-- inside the memory that was requested.
pub guarded-IsWithin :
    {M P : Type 0} (reserve : ℤ → M → P → ℤ) (original : Method M P) (worker after : Worker M P)
    (v : Value)
    → ((limit : ℤ) (m : M) (p : P) → reserve limit m p ≤ℤ limit)
    → ((w x : Worker M P) (u : Value)
        → original.run w ≡ ok (u, x)
        → x.kv_cache_memory_bytes ≡ some false)
    → (guarded reserve original).run worker ≡ ok (v, after)
    → (n : ℤ) × (measured : Worker M P) × (reported : Value) × (v ≡ whole n)
      × IsWithin measured after reported n
unfolding guarded
guarded-IsWithin reserve original worker after v shrinks automatic h =
    let (reported, p, h1) = >>=-eq-ok (original.run worker) _ h in
    let (selected, q, h2) =
      >>=-eq-ok (guard_automatic_capacity reserve reported.1 reported.0) _ h1 in
    let e : (whole selected.0, selected.1) ≡ (v, after) = ok_injective h2 in
    (
      selected.0,
      reported.1,
      reported.0,
      sym (ap (λ (x : Value × Worker _ _). x.0) e),
      guard_automatic_capacity-IsWithin reserve reported.1 after reported.0 selected.0 shrinks
          (automatic worker reported.1 reported.0 p)
          (q ∙ ap (λ (x : Value × Worker _ _). ok (selected.0, x.1)) e),
    )
