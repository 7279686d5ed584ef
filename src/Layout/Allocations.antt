-- ===== src/Layout/Allocations.antt =====
-- coldsnap_layout.py: the tensors' allocations and the fingerprint of a list of references. The walk over the
-- model's objects that collects the tensors is a parameter.
use coldsnap.Base.{
  ℕ, zero, suc, ◌+◌, ◌*◌, String, Bool, ◌&&◌, ◌||◌, not, Option, none, some, List, [], ◌∷◌, ◌++◌,
  map, if◌then◌else◌, leb, eqb, ℤ, pos, sub_ℕ, sorted, string_ord, int_ord, list_ord, pair_ord,
}

-- What the code asks of a tensor: its name and kind, its device, and its place in memory.
pub record Tensor : Type 0 where
  pub name : String
  pub kind : String
  pub is_cuda : Bool
  pub numel : ℕ
  pub element_size : ℕ
  pub data_ptr : ℕ
  pub storage_ptr : ℕ
  pub storage_bytes : ℕ
  pub shape : List ℤ
  pub stride : List ℤ
  pub dtype : String

pub record Ref : Type 0 where
  pub name : String
  pub kind : String
  pub shape : List ℤ
  pub stride : List ℤ
  pub dtype : String
  pub nbytes : ℤ
  pub allocation_offset : ℤ

abbrev pub tensor_nbytes : Tensor → ℕ
tensor_nbytes t = t.numel * t.element_size

abbrev pub get_elem? {ℓ} : {A : Type ℓ} → List A → ℕ → Option A
get_elem? [] i = none
get_elem? (x ∷ xs) zero = some x
get_elem? (x ∷ xs) (suc i) = get_elem? xs i

abbrev pub next_index : Option ℕ → Option ℕ
next_index (some i) = some (suc i)
next_index _ = none

unfoldable pub find_allocation : ℕ → ℕ → List (ℕ × ℕ) → Option ℕ
find_allocation ptr nbytes [] = none
find_allocation ptr nbytes ((base, size) ∷ allocations) =
    let rest = find_allocation ptr nbytes allocations in
    if leb base ptr && leb (ptr + nbytes) (base + size) then some 0 else next_index rest

abbrev pub or_index : Option ℕ → Option ℕ → Option ℕ
or_index (some i) other = some i
or_index _ other = other

-- The allocation that holds a tensor, or else its storage
unfoldable pub allocation_of : List (ℕ × ℕ) → Tensor → Option ℕ
unfolding find_allocation
allocation_of current t =
    or_index (find_allocation t.data_ptr (tensor_nbytes t) current)
      (find_allocation t.storage_ptr t.storage_bytes current)

-- `current[index][0]` and `current[index][1]`, for an index in range
abbrev pub base_at : ℕ → List (ℕ × ℕ) → ℕ
base_at i [] = 0
base_at zero ((base, size) ∷ rest) = base
base_at (suc i) (a ∷ rest) = base_at i rest

abbrev pub size_at : ℕ → List (ℕ × ℕ) → ℕ
size_at i [] = 0
size_at zero ((base, size) ∷ rest) = size
size_at (suc i) (a ∷ rest) = size_at i rest

abbrev pub ref_of : ℕ → Tensor → Ref
ref_of base t = record {
  name = t.name;
  kind = t.kind;
  shape = t.shape;
  stride = t.stride;
  dtype = t.dtype;
  nbytes = pos (tensor_nbytes t);
  allocation_offset = sub_ℕ t.data_ptr base;
}

unfoldable pub append_at : ℕ → Ref → List (List Ref) → List (List Ref)
append_at i r [] = []
append_at zero r (refs ∷ rest) = (refs ++ r ∷ []) ∷ rest
append_at (suc i) r (refs ∷ rest) = refs ∷ append_at i r rest

abbrev pub add_ref : List (ℕ × ℕ) → Tensor → Option ℕ → List (List Ref) → List (List Ref)
add_ref current t (some i) refs = append_at i (ref_of (base_at i current) t) refs
add_ref current t _ refs = refs

unfoldable pub collect : List (ℕ × ℕ) → List Tensor → List (List Ref) → List (List Ref)
unfolding allocation_of append_at
collect current [] refs = refs
collect current (t ∷ ts) refs = collect current ts (
    if not t.is_cuda || eqb t.numel 0
    then refs
    else add_ref current t (allocation_of current t) refs)

abbrev pub empty_lists : List (ℕ × ℕ) → List (List Ref)
empty_lists [] = []
empty_lists (a ∷ rest) = [] ∷ empty_lists rest

-- `current_refs`
unfoldable pub current_refs : List (ℕ × ℕ) → List Tensor → List (List Ref)
unfolding collect
current_refs current tensors = collect current tensors (empty_lists current)

abbrev pub Key : Type 0
Key = String × (String × (List ℤ × (List ℤ × (String × (ℤ × ℤ)))))

abbrev pub ref_key : Ref → Key
ref_key r = (r.name, (r.kind, (r.shape, (r.stride, (r.dtype, (r.nbytes, r.allocation_offset))))))

unfoldable pub reference_fingerprint : List Ref → List Key
unfolding sorted
reference_fingerprint refs = sorted (map ref_key refs)
