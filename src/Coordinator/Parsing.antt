-- ===== src/Coordinator/Parsing.antt =====
-- The texts that name an endpoint.
use Prim.Native.Char.{Char, code}
use coldsnap.Base.{
  append, String, true, false, ◌||◌, not, List, [], ◌∷◌, ◌≡◌, ◌≢◌, inl, inr, refl, arith, Result,
  ok, raised, Bool-cases, is_space, any_space, is_empty, ◌==◌, string_eq, any, All, sym, ap, ◌∙◌,
  subst, raise_if-eq-ok,
}
use coldsnap.Coordinator.Wire.{Endpoint, CoordinatorError, invalid_endpoint, endpoint_with_space}
use coldsnap.Coordinator.Addresses.{in_front, starts_space, split_words, endpoint_of, parse}

-- A text of at least one character, none of them white space.
abbrev pub IsWord : String → Type 0
IsWord s = (is_empty s ≡ false) × (any_space s ≡ false)

in_front-words :
    (c : Char) (words : List String)
    → is_space (code c) ≡ false
    → All IsWord words
    → All IsWord (in_front c words)
unfolding any_space
in_front-words c [] h k = ((refl, rw h refl), tt)
in_front-words c (word ∷ words) h k = ((refl, rw h (k.0.1)), k.1)

split_words-words : (s : String) → All IsWord (split_words s)
unfolding split_words any_space
split_words-words String.[] = tt
split_words-words (String.◌∷◌ c s) = elim (Bool-cases (is_space (code c))) [
  | inl blank ↦ rw blank (split_words-words s)
  | inr inked ↦ elim (Bool-cases (starts_space s)) [
    | inl last ↦ rw (inked, last) ((refl, rw inked refl), split_words-words s)
    | inr more ↦ rw (inked, more) (in_front-words c (split_words s) inked (split_words-words s))
  ]
]

split_words-last :
    (c : Char) (s : String)
    → is_space (code c) ≡ false
    → starts_space s ≡ true
    → split_words (String.◌∷◌ c s) ≡ String.◌∷◌ c String.[] ∷ split_words s
unfolding split_words
split_words-last c s inked last = rw (inked, last) refl

split_words-more :
    (c : Char) (s : String)
    → is_space (code c) ≡ false
    → starts_space s ≡ false
    → split_words (String.◌∷◌ c s) ≡ in_front c (split_words s)
unfolding split_words
split_words-more c s inked more = rw (inked, more) refl

any_space-cons :
    (c : Char) (s : String)
    → any_space (String.◌∷◌ c s) ≡ false
    → (is_space (code c) ≡ false) × (any_space s ≡ false)
unfolding any_space
any_space-cons c s h = (ground (arith, h), ground (arith, h))

split_words-append :
    (word rest : String)
    → IsWord word
    → split_words (append word (String.◌∷◌ " " rest)) ≡ word ∷ split_words rest
unfolding append
split_words-append String.[] rest h = cc
split_words-append (String.◌∷◌ c String.[]) rest h =
    let (inked, t) = any_space-cons c String.[] h.1 in
    split_words-last c (String.◌∷◌ " " rest) inked (unfold is_space in refl)
    ∙ (unfold split_words in ap (◌∷◌ (String.◌∷◌ c String.[])) refl)
split_words-append (String.◌∷◌ c (String.◌∷◌ d s)) rest h =
    let (inked, later) = any_space-cons c (String.◌∷◌ d s) h.1 in
    let (next, t) = any_space-cons d s later in
    split_words-more c (append (String.◌∷◌ d s) (String.◌∷◌ " " rest)) inked next
    ∙ ap (in_front c) (split_words-append (String.◌∷◌ d s) rest (refl, later))

split_words_one : (word : String) → IsWord word → split_words word ≡ word ∷ []
split_words_one String.[] h = cc
split_words_one (String.◌∷◌ c String.[]) h =
    let (inked, t) = any_space-cons c String.[] h.1 in
    split_words-last c String.[] inked refl ∙ (unfold split_words in refl)
split_words_one (String.◌∷◌ c (String.◌∷◌ d s)) h =
    let (inked, later) = any_space-cons c (String.◌∷◌ d s) h.1 in
    let (next, t) = any_space-cons d s later in
    split_words-more c (String.◌∷◌ d s) inked next
    ∙ ap (in_front c) (split_words_one (String.◌∷◌ d s) (refl, later))

abbrev pub spaced : String → String → String
spaced word rest = append word (String.◌∷◌ " " rest)

-- The text that names an endpoint
pub render : Endpoint → String
render e = spaced "coldsnap-coord-v1" (spaced e.address (spaced e.scope e.token))

not_blank :
    (address scope token : String)
    → IsWord address
    → IsWord scope
    → IsWord token
    → any (λ field. is_empty field || any_space field) (address ∷ scope ∷ token ∷ []) ≡ false
not_blank address scope token a s t = rw (a.0, a.1, s.0, s.1, t.0, t.1) refl

-- An endpoint whose fields are words is parsed from the text that names it.
pub parse-render :
    (e : Endpoint) → IsWord e.address → IsWord e.scope → IsWord e.token → parse (render e) ≡ ok e
unfolding parse render endpoint_of
parse-render e a s t =
    let words : split_words (render e) ≡ "coldsnap-coord-v1" ∷ e.address ∷ e.scope ∷ e.token ∷ [] =
      split_words-append "coldsnap-coord-v1" (spaced e.address (spaced e.scope e.token))
        (refl, unfold any_space in refl)
      ∙ ap (◌∷◌ "coldsnap-coord-v1") (
          split_words-append e.address (spaced e.scope e.token) a
          ∙ ap (◌∷◌ e.address) (
              split_words-append e.scope e.token s
              ∙ ap (◌∷◌ e.scope) (split_words_one e.token t))) in
    rw words (rw (not_blank e.address e.scope e.token a s t) refl)

endpoint_of-words :
    (words : List String) (e : Endpoint)
    → All IsWord words
    → endpoint_of words ≡ ok e
    → IsWord e.address × IsWord e.scope × IsWord e.token
unfolding endpoint_of
endpoint_of-words [] e k h = cc
endpoint_of-words (f ∷ []) e k h = cc
endpoint_of-words (f ∷ a ∷ []) e k h = cc
endpoint_of-words (f ∷ a ∷ s ∷ []) e k h = cc
endpoint_of-words (f ∷ a ∷ s ∷ t ∷ []) e k h =
    let (p, h1) = raise_if-eq-ok (not (f == "coldsnap-coord-v1")) invalid_endpoint _ h in
    let (q, h2) =
      raise_if-eq-ok (any (λ field. is_empty field || any_space field) (a ∷ s ∷ t ∷ []))
        endpoint_with_space _ h1 in
    let same : Path Endpoint (record { address = a; scope = s; token = t }) e = cc in
    subst (λ (x : Endpoint). IsWord x.address × IsWord x.scope × IsWord x.token) same
      (k.1.0, k.1.1.0, k.1.1.1.0)
endpoint_of-words (f ∷ a ∷ s ∷ t ∷ x ∷ xs) e k h = cc

endpoint_of_clean :
    (words : List String) → All IsWord words → endpoint_of words ≢ raised endpoint_with_space
unfolding endpoint_of
endpoint_of_clean [] k h = cc
endpoint_of_clean (f ∷ []) k h = cc
endpoint_of_clean (f ∷ a ∷ []) k h = cc
endpoint_of_clean (f ∷ a ∷ s ∷ []) k h = cc
endpoint_of_clean (f ∷ a ∷ s ∷ t ∷ []) k h = elim (Bool-cases (f == "coldsnap-coord-v1")) [
  | inl named ↦
      let q : endpoint_of (f ∷ a ∷ s ∷ t ∷ []) ≡ ok (record { address = a; scope = s; token = t }) =
        rw named (rw (not_blank a s t k.1.0 k.1.1.0 k.1.1.1.0) refl) in
      let e : Path (Result CoordinatorError Endpoint)
          (ok (record { address = a; scope = s; token = t })) (raised endpoint_with_space) =
        sym q ∙ h in
      cc
  | inr other ↦
      let q : endpoint_of (f ∷ a ∷ s ∷ t ∷ []) ≡ raised invalid_endpoint = rw other refl in
      let e : Path (Result CoordinatorError Endpoint) (raised invalid_endpoint)
          (raised endpoint_with_space) =
        sym q ∙ h in
      cc
]
endpoint_of_clean (f ∷ a ∷ s ∷ t ∷ x ∷ xs) k h = cc

-- An endpoint that is parsed has an address, a scope and a token that are words, and the test for white space
-- in the fields never refuses one.
pub parse-words :
    (value : String)
    → ((e : Endpoint) → parse value ≡ ok e → IsWord e.address × IsWord e.scope × IsWord e.token)
      × (parse value ≢ raised endpoint_with_space)
unfolding parse
parse-words value = (
  λ e h. endpoint_of-words (split_words value) e (split_words-words value) h,
  endpoint_of_clean (split_words value) (split_words-words value),
)
