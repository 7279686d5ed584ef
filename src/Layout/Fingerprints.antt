-- ===== src/Layout/Fingerprints.antt =====
-- What a fingerprint tells of the references.
use coldsnap.Base.{
  List, [], ◌∷◌, map, Perm, ◌≡◌, refl, nat_eq, list_eq, pair_eq, string_eq, int_eq, sorted-perm,
  string_ord, int_ord, list_ord, pair_ord, sym, ap, subst,
}
use mathlib.Core.List.Perm
use coldsnap.Layout.Allocations.{Ref, Key, ref_key, reference_fingerprint}

abbrev from_key : Key → Ref
from_key (name, (kind, (shape, (stride, (dtype, (nbytes, offset)))))) = record {
  name = name;
  kind = kind;
  shape = shape;
  stride = stride;
  dtype = dtype;
  nbytes = nbytes;
  allocation_offset = offset;
}

map-from_key : (refs : List Ref) → map from_key (map ref_key refs) ≡ refs
map-from_key [] = refl
map-from_key (r ∷ refs) = ap (r ∷◌) (map-from_key refs)

-- Equal fingerprints are those of the same references.
pub fingerprint-perm :
    (xs ys : List Ref) → reference_fingerprint xs ≡ reference_fingerprint ys → Perm xs ys
unfolding reference_fingerprint
fingerprint-perm xs ys e =
    let keys : Perm (map ref_key xs) (map ref_key ys) =
      Perm.trans (Perm.symm (sorted-perm (map ref_key xs)))
        (subst (λ ks. Perm ks (map ref_key ys)) (sym e) (sorted-perm (map ref_key ys))) in
    subst (λ zs. Perm zs ys) (map-from_key xs)
      (subst (λ zs. Perm (map from_key (map ref_key xs)) zs) (map-from_key ys)
        (Perm.map from_key keys))
