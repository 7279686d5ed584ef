-- ===== src/Hydration/Ordering.antt =====
-- Capture extents in order.
use coldsnap.Base.{
  ℕ, ◌+◌, ◌%◌, ◌≤◌, ◌<◌, Bool, true, false, ◌&&◌, not, List, [], ◌∷◌, ◌++◌, ◌≡◌, ◌↔◌, ◌⊎◌, inl, inr,
  refl, arith, ok, raised, raise_if, ap, ◌∙◌, subst, raise_if-eq-ok, raise_if-ok,
  raise_if-eq-raised, >>=-eq-raised, ltb, All, All-map,
}
use coldsnap.Hydration.Digests.{overlapping_extents, unaligned_offset}
use coldsnap.Hydration.Extents.{CaptureExtent}
use coldsnap.Hydration.Backends.{is_aligned}
use coldsnap.Hydration.Captures.{round_up, end_of, check_order}

-- Where the room of an extent ends: at its last byte, or with padding at the next multiple of 4096.
pub record IsEnd (pad : Bool) (extent : CaptureExtent) (n : ℕ) : Type 0 where
  pub covers : extent.file_offset + extent.length ≤ n
  pub exact : pad ≡ false → n ≡ extent.file_offset + extent.length
  pub padded : pad ≡ true → (n % 4096 ≡ 0) × (n < extent.file_offset + extent.length + 4096)

-- The room of every extent ends where each later one starts or before; padded ones start on a multiple of
-- 4096.
pub IsOrdered : Bool → List CaptureExtent → Type 0
IsOrdered pad [] = Unit
IsOrdered pad (extent ∷ extents) =
    (pad ≡ true → extent.file_offset % 4096 ≡ 0)
    × ((n : ℕ) × IsEnd pad extent n
        × All (λ (later : CaptureExtent). n ≤ later.file_offset) extents)
    × IsOrdered pad extents

-- After extents in order, one starts in the room of the last.
pub record Overlaps (pad : Bool) (extents : List CaptureExtent) : Type 0 where
  pub before : List CaptureExtent
  pub last : CaptureExtent
  pub next : CaptureExtent
  pub after : List CaptureExtent
  pub splits : extents ≡ before ++ last ∷ next ∷ after
  pub ordered : IsOrdered pad (before ++ last ∷ [])
  pub room : ℕ
  pub ends : IsEnd pad last room
  pub inside : next.file_offset < room

end_of-IsEnd : (pad : Bool) (extent : CaptureExtent) → IsEnd pad extent (end_of pad extent)
unfolding end_of round_up
end_of-IsEnd true extent = record {
  covers = omega arith;
  exact = λ h. absurd (ground (arith, h));
  padded = λ h. (omega arith, omega arith);
}
end_of-IsEnd false extent = record {
  covers = omega arith;
  exact = λ h. refl;
  padded = λ h. absurd (ground (arith, h));
}

IsEnd-eq :
    (pad : Bool) (extent : CaptureExtent) (n : ℕ) → IsEnd pad extent n → n ≡ end_of pad extent
unfolding end_of round_up
IsEnd-eq true extent n h = let p = h.padded refl in omega (arith, h.covers, p.0, p.1)
IsEnd-eq false extent n h = h.exact refl

check_order_step :
    (pad : Bool) (p : ℕ) (extent : CaptureExtent)
    → (ltb extent.file_offset p ≡ false) × ((pad && not (is_aligned extent.file_offset)) ≡ false)
      ↔ (p ≤ extent.file_offset) × (pad ≡ true → extent.file_offset % 4096 ≡ 0)
unfolding is_aligned
check_order_step pad p extent = ground arith

check_order_sound :
    (pad : Bool) (p : ℕ) (extents : List CaptureExtent)
    → check_order pad p extents ≡ ok tt
    → All (λ (e : CaptureExtent). p ≤ e.file_offset) extents × IsOrdered pad extents
unfolding check_order IsOrdered
check_order_sound pad p [] h = (tt, tt)
check_order_sound pad p (extent ∷ extents) h =
    let (a, h1) = raise_if-eq-ok (ltb extent.file_offset p) overlapping_extents _ h in
    let (b, h2) =
      raise_if-eq-ok (pad && not (is_aligned extent.file_offset)) unaligned_offset _ h1 in
    let (start, aligned) = (check_order_step pad p extent).0 (a, b) in
    let (later, ordered) = check_order_sound pad (end_of pad extent) extents h2 in
    let widen : (e : CaptureExtent) → end_of pad extent ≤ e.file_offset → p ≤ e.file_offset =
      λ e q. let c = (end_of-IsEnd pad extent).covers in omega (arith, c, q, start) in
    ((start, All-map widen extents later), (aligned, (_, end_of-IsEnd pad extent, later), ordered))

check_order_complete :
    (pad : Bool) (p : ℕ) (extents : List CaptureExtent)
    → All (λ (e : CaptureExtent). p ≤ e.file_offset) extents
    → IsOrdered pad extents
    → check_order pad p extents ≡ ok tt
unfolding check_order IsOrdered
check_order_complete pad p [] a o = refl
check_order_complete pad p (extent ∷ extents) a o =
    let (x, y) = (check_order_step pad p extent).1 (a.0, o.0) in
    let (n, ends, later) = o.1 in
    let e : n ≡ end_of pad extent = IsEnd-eq pad extent n ends in
    let after = subst (λ k. All (λ (f : CaptureExtent). k ≤ f.file_offset) extents) e later in
    rw (x, y) (check_order_complete pad (end_of pad extent) extents after o.2)

All-start : (extents : List CaptureExtent) → All (λ (e : CaptureExtent). 0 ≤ e.file_offset) extents
All-start [] = tt
All-start (e ∷ es) = (omega arith, All-start es)

-- The loop goes on from the end of a prefix that passes.
check_order-append :
    (pad : Bool) (p : ℕ) (before : List CaptureExtent) (last : CaptureExtent)
    (extents : List CaptureExtent)
    → check_order pad p (before ++ last ∷ []) ≡ ok tt
    → check_order pad p (before ++ last ∷ extents) ≡ check_order pad (end_of pad last) extents
unfolding check_order
check_order-append pad p [] last extents h =
    let (a, h1) = raise_if-eq-ok (ltb last.file_offset p) overlapping_extents _ h in
    let (b, h2) = raise_if-eq-ok (pad && not (is_aligned last.file_offset)) unaligned_offset _ h1 in
    rw (a, b) refl
check_order-append pad p (e ∷ before) last extents h =
    let (a, h1) = raise_if-eq-ok (ltb e.file_offset p) overlapping_extents _ h in
    let (b, h2) = raise_if-eq-ok (pad && not (is_aligned e.file_offset)) unaligned_offset _ h1 in
    rw (a, b) (check_order-append pad (end_of pad e) before last extents h2)

-- Where the loop finds an overlap: at the first extent, or after a prefix that passes.
record Stops (pad : Bool) (p : ℕ) (extents : List CaptureExtent) : Type 0 where
  before : List CaptureExtent
  last : CaptureExtent
  next : CaptureExtent
  after : List CaptureExtent
  splits : extents ≡ before ++ last ∷ next ∷ after
  passes : check_order pad p (before ++ last ∷ []) ≡ ok tt
  inside : next.file_offset < end_of pad last

-- The first extent starts before the given end.
abbrev StartsBefore : ℕ → List CaptureExtent → Type 0
StartsBefore p [] = ⊥
StartsBefore p (e ∷ es) = e.file_offset < p

Stops-cons :
    (pad : Bool) (p : ℕ) (e : CaptureExtent) (es : List CaptureExtent)
    → ltb e.file_offset p ≡ false
    → (pad && not (is_aligned e.file_offset)) ≡ false
    → StartsBefore (end_of pad e) es ⊎ Stops pad (end_of pad e) es
    → Stops pad p (e ∷ es)
unfolding check_order
Stops-cons pad p e [] a b (inl h) = absurd h
Stops-cons pad p e (f ∷ es) a b (inl h) = record {
  before = [];
  last = e;
  next = f;
  after = es;
  splits = refl;
  passes = rw (a, b) refl;
  inside = h;
}
Stops-cons pad p e es a b (inr s) = record {
  before = e ∷ s.before;
  last = s.last;
  next = s.next;
  after = s.after;
  splits = ap (e ∷◌) s.splits;
  passes = rw (a, b) s.passes;
  inside = s.inside;
}

check_order-Stops :
    (pad : Bool) (p : ℕ) (extents : List CaptureExtent)
    → check_order pad p extents ≡ raised overlapping_extents
    → StartsBefore p extents ⊎ Stops pad p extents
unfolding check_order
check_order-Stops pad p [] h = cc
check_order-Stops pad p (e ∷ es) h =
    elim (>>=-eq-raised (raise_if (ltb e.file_offset p) overlapping_extents) _ h) [
      | inl early ↦
          let t = (raise_if-eq-raised (ltb e.file_offset p) overlapping_extents early).0 in
          inl (ground (arith, t))
      | inr (u, a, h1) ↦
          elim (>>=-eq-raised (raise_if (pad && not (is_aligned e.file_offset)) unaligned_offset) _
            h1) [
              | inl unaligned ↦
                  let r =
                    (raise_if-eq-raised (pad && not (is_aligned e.file_offset)) unaligned_offset
                      unaligned).1 in
                  cc
              | inr (v, b, h2) ↦ inr (
                  Stops-cons pad p e es (raise_if-ok _ overlapping_extents a)
                    (raise_if-ok _ unaligned_offset b) (check_order-Stops pad (end_of pad e) es h2))
            ]
    ]

check_order-Overlaps :
    (pad : Bool) (extents : List CaptureExtent)
    → check_order pad 0 extents ≡ raised overlapping_extents
    → Overlaps pad extents
check_order-Overlaps pad extents h = elim (check_order-Stops pad 0 extents h) [
  | inl start ↦ absurd (never extents start)
  | inr s ↦ record {
    before = s.before;
    last = s.last;
    next = s.next;
    after = s.after;
    splits = s.splits;
    ordered = (check_order_sound pad 0 (s.before ++ s.last ∷ []) s.passes).1;
    room = end_of pad s.last;
    ends = end_of-IsEnd pad s.last;
    inside = s.inside;
  }
]
  where
    never : (es : List CaptureExtent) → StartsBefore 0 es → ⊥
    never [] h = h
    never (e ∷ es) h = omega (arith, h)

Overlaps-raises :
    (pad : Bool) (extents : List CaptureExtent)
    → Overlaps pad extents
    → check_order pad 0 extents ≡ raised overlapping_extents
Overlaps-raises pad extents o =
    let passes =
      check_order_complete pad 0 (o.before ++ o.last ∷ []) (All-start (o.before ++ o.last ∷ []))
        o.ordered in
    ap (check_order pad 0) o.splits
    ∙ check_order-append pad 0 o.before o.last (o.next ∷ o.after) passes
    ∙ refused (IsEnd-eq pad o.last o.room o.ends)
  where
    refused :
        o.room ≡ end_of pad o.last
        → check_order pad (end_of pad o.last) (o.next ∷ o.after) ≡ raised overlapping_extents
    refused e =
        let t : ltb o.next.file_offset (end_of pad o.last) ≡ true = ground (arith, e, o.inside) in
        unfold check_order in rw t refl

-- The loop over the extents of a capture, which compares each only with the one before it, passes exactly
-- when the room of no extent, up to its last byte or with padding to the next multiple of 4096, reaches into
-- any later one and padded extents are aligned. It raises for an overlap exactly when, after extents in
-- order, one starts in the room of the one before it, its padding included.
pub check_order_iff :
    (pad : Bool) (extents : List CaptureExtent)
    → ((check_order pad 0 extents ≡ ok tt) ↔ IsOrdered pad extents)
      × ((check_order pad 0 extents ≡ raised overlapping_extents) ↔ Overlaps pad extents)
check_order_iff pad extents = (
  (
    λ h. (check_order_sound pad 0 extents h).1,
    λ o. check_order_complete pad 0 extents (All-start extents) o,
  ),
  (check_order-Overlaps pad extents, Overlaps-raises pad extents),
)
