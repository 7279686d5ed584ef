-- ===== src/Topology/Holding.antt =====
-- What makes a group one of a rank: the tests of `world_group` on one group.
use coldsnap.Base.{
  String, true, ◌≡◌, refl, inl, inr, arith, Bool-cases, ℤ, ap, ◌∙◌, Json, Fields, null, bool, int,
  float, str, arr, obj, Option, none, some, append, is_empty, show_ℤ, string_eq, ◌==◌, ==_eq,
  ==_refl, sym, and-true,
}
use coldsnap.Topology.Graph.{
  member_of, ends_with, names_world, is_object, is_world_group, ranks_of, fields_or_empty,
}
use coldsnap.Topology.Worlds.{is_int, is_present, size_of, matches_rank}

ends_with-eq :
    (suffix s : String) → ends_with suffix s ≡ true → (prefix : String) × (s ≡ append prefix suffix)
unfolding ends_with append
ends_with-eq suffix String.[] h = (String.[], blank suffix h)
  where
    blank : (t : String) → is_empty t ≡ true → String.[] ≡ t
    blank String.[] h = refl
    blank (String.◌∷◌ c t) h = cc
ends_with-eq suffix (String.◌∷◌ c s) h = elim (Bool-cases (String.◌∷◌ c s == suffix)) [
  | inl whole ↦ (String.[], ==_eq (String.◌∷◌ c s) suffix whole)
  | inr part ↦
      let (prefix, e) = ends_with-eq suffix s (ground arith) in
      (String.◌∷◌ c prefix, ap (String.◌∷◌ c) e)
]

ends_with-append : (suffix prefix : String) → ends_with suffix (append prefix suffix) ≡ true
unfolding ends_with append
ends_with-append String.[] String.[] = refl
ends_with-append (String.◌∷◌ c s) String.[] = ground (arith, ==_refl (String.◌∷◌ c s))
ends_with-append suffix (String.◌∷◌ c prefix) = ground (arith, ends_with-append suffix prefix)

-- A Boolean counts as an integer.
abbrev pub IsIntegral : Json → Type 0
IsIntegral (int n) = Unit
IsIntegral (bool b) = Unit
IsIntegral _ = ⊥

-- A group of all processes, with a size, that has a process for the rank
pub record HoldsRank (rank : ℤ) (group : Json) : Type 0 where
  pub entries : Fields
  pub object : group ≡ obj entries
  pub prefix : String
  pub kind : member_of "kind" entries ≡ some (str (append prefix ":world"))
  pub size : Json
  pub sized : member_of "size" entries ≡ some size
  pub integral : IsIntegral size
  pub ranks : Fields
  pub ranked : member_of "ranks" entries ≡ some (obj ranks)
  pub process : Json
  pub held : member_of (show_ℤ rank) ranks ≡ some process

names_world-eq :
    (o : Option Json)
    → names_world o ≡ true
    → (prefix : String) × (o ≡ some (str (append prefix ":world")))
names_world-eq (some (str kind)) h =
    let (prefix, e) = ends_with-eq ":world" kind h in (prefix, ap (λ k. some (str k)) e)
names_world-eq none h = cc
names_world-eq (some (obj fs)) h = cc
names_world-eq (some (arr vs)) h = cc
names_world-eq (some (bool b)) h = cc
names_world-eq (some (int n)) h = cc
names_world-eq (some (float x)) h = cc
names_world-eq (some null) h = cc

is_object-eq : (o : Option Json) → is_object o ≡ true → (fs : Fields) × (o ≡ some (obj fs))
is_object-eq (some (obj fs)) h = (fs, refl)
is_object-eq none h = cc
is_object-eq (some null) h = cc
is_object-eq (some (bool b)) h = cc
is_object-eq (some (int n)) h = cc
is_object-eq (some (float x)) h = cc
is_object-eq (some (str s)) h = cc
is_object-eq (some (arr vs)) h = cc

is_int-eq : (o : Option Json) → is_int o ≡ true → (v : Json) × (o ≡ some v) × IsIntegral v
is_int-eq (some (int n)) h = (int n, refl, tt)
is_int-eq (some (bool b)) h = (bool b, refl, tt)
is_int-eq none h = cc
is_int-eq (some null) h = cc
is_int-eq (some (float x)) h = cc
is_int-eq (some (str s)) h = cc
is_int-eq (some (arr vs)) h = cc
is_int-eq (some (obj fs)) h = cc

IsIntegral-is_int : (v : Json) → IsIntegral v → is_int (some v) ≡ true
IsIntegral-is_int (int n) h = refl
IsIntegral-is_int (bool b) h = refl
IsIntegral-is_int null h = absurd h
IsIntegral-is_int (float x) h = absurd h
IsIntegral-is_int (str s) h = absurd h
IsIntegral-is_int (arr vs) h = absurd h
IsIntegral-is_int (obj fs) h = absurd h

is_present-eq : (o : Option Json) → is_present o ≡ true → (v : Json) × (o ≡ some v)
is_present-eq (some v) h = (v, refl)
is_present-eq none h = cc

pub matches_rank-HoldsRank :
    (rank : ℤ) (group : Json) → matches_rank rank group ≡ true → HoldsRank rank group
unfolding matches_rank is_world_group size_of ranks_of
matches_rank-HoldsRank rank (obj fs) h =
    let (whole, present) =
      and-true _ (is_present (member_of (show_ℤ rank) (ranks_of (obj fs)))) h in
    let (world, integral) = and-true _ (is_int (member_of "size" fs)) whole in
    let (named, ranked) = and-true _ (is_object (member_of "ranks" fs)) world in
    let (prefix, kind) = names_world-eq (member_of "kind" fs) named in
    let (ranks, object) = is_object-eq (member_of "ranks" fs) ranked in
    let (size, sized, whole_size) = is_int-eq (member_of "size" fs) integral in
    let e : member_of (show_ℤ rank) (ranks_of (obj fs)) ≡ member_of (show_ℤ rank) ranks =
      ap (λ o. member_of (show_ℤ rank) (fields_or_empty o)) object in
    let (process, held) = is_present-eq (member_of (show_ℤ rank) (ranks_of (obj fs))) present in
    record {
      entries = fs;
      object = refl;
      prefix = prefix;
      kind = kind;
      size = size;
      sized = sized;
      integral = whole_size;
      ranks = ranks;
      ranked = object;
      process = process;
      held = sym e ∙ held;
    }
matches_rank-HoldsRank rank null h = cc
matches_rank-HoldsRank rank (bool b) h = cc
matches_rank-HoldsRank rank (int n) h = cc
matches_rank-HoldsRank rank (float x) h = cc
matches_rank-HoldsRank rank (str s) h = cc
matches_rank-HoldsRank rank (arr vs) h = cc

pub HoldsRank-matches :
    (rank : ℤ) (group : Json) → HoldsRank rank group → matches_rank rank group ≡ true
unfolding matches_rank is_world_group size_of ranks_of
HoldsRank-matches rank group h = ap (matches_rank rank) h.object ∙ here
  where
    here : matches_rank rank (obj h.entries) ≡ true
    here =
        rw (h.kind, h.sized, h.ranked, h.held)
          (ground (arith, ends_with-append ":world" h.prefix, IsIntegral-is_int h.size h.integral))
