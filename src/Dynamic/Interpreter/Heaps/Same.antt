-- ===== src/Dynamic/Interpreter/Heaps/Same.antt =====
-- The comparison of heaps compares them as maps from all addresses.
use llreve.Prelude.{
  Bool, true, false, List, [], ◌∷◌, Option, none, some, ◌≡◌, refl, sym, ap, ◌∙◌, ◌↔◌, inl, inr,
  Bool-cases, All, if◌then◌else◌, nat_eq, and-true, ok, err, assertion, ok-injective, >>=-eq-ok,
  ◌⊎◌,
}
use llreve.Marks.Sets.{IsTest, false_ne_true}
use llreve.Dynamic.Integers.{Arithmetic, Integer, unbounded, bounded}
use llreve.Dynamic.Integers.Compare.{eq, same_key}
use llreve.Dynamic.Machine.{Heap, find_cell, heap_value}
use llreve.Dynamic.Interpreter.Heaps.{is_contained_in, heap_equal}

module _ {W Z : Type 0} (lib : Arithmetic W Z) where
  open lib use {words, numbers}

  module _ (same_numbers : IsTest numbers.same) (same_words : IsTest words.equal) where
    same_key-eq : (a b : Integer W Z) → same_key lib a b ≡ true → a ≡ b
    unfolding same_key
    same_key-eq (unbounded a) (unbounded b) h = ap unbounded (same_numbers.sound a b h)
    same_key-eq (bounded a) (bounded b) h = ap bounded (same_words.sound a b (and-true _ _ h).1)
    same_key-eq (unbounded a) (bounded b) h = cc
    same_key-eq (bounded a) (unbounded b) h = cc

    -- `==`, where it returns, is a test for equality.
    eq-true : (a b : Integer W Z) → eq lib a b ≡ ok true → a ≡ b
    unfolding eq
    eq-true (unbounded a) (unbounded b) h = ap unbounded (same_numbers.sound a b (ok-injective h))
    eq-true (bounded a) (bounded b) h =
        ap bounded (same_words.sound a b (of_same_width (nat_eq (words.width a) (words.width b)) h))
      where
        of_same_width :
            (t : Bool)
            → (if t then ok (words.equal a b) else err assertion) ≡ ok true
            → words.equal a b ≡ true
        of_same_width true h = ok-injective h
        of_same_width false h = cc
    eq-true (unbounded a) (bounded b) h = cc
    eq-true (bounded a) (unbounded b) h = cc

    eq_self : (a : Integer W Z) (t : Bool) → eq lib a a ≡ ok t → t ≡ true
    unfolding eq
    eq_self (unbounded a) t h = sym (ok-injective h) ∙ same_numbers.reflexive a
    eq_self (bounded a) t h = of_same_width (nat_eq (words.width a) (words.width a)) h
      where
        of_same_width :
            (s : Bool) → (if s then ok (words.equal a a) else err assertion) ≡ ok t → t ≡ true
        of_same_width true h = sym (ok-injective h) ∙ same_words.reflexive a
        of_same_width false h = cc

    -- Contained cells are what the other heap holds.
    contained-heap_value :
        (cells : List (Integer W Z × Integer W Z)) (big : Heap W Z)
        → is_contained_in lib cells big ≡ ok true
        → (a v : Integer W Z) → find_cell lib cells a ≡ some v
        → heap_value lib big a ≡ v
    unfolding is_contained_in find_cell
    contained-heap_value [] big h a v f = cc
    contained-heap_value ((b, w) ∷ cells) big h a v f =
        let (t, test, rest) = >>=-eq-ok (eq lib w (heap_value lib big b)) _ h in
        elim (Bool-cases t) [
          | inl yes_same ↦ elim (Bool-cases (same_key lib b a)) [
            | inl e ↦
                let same : w ≡ heap_value lib big b =
                  eq-true w (heap_value lib big b) (test ∙ ap ok yes_same) in
                rw (← same_key-eq b a e) (sym same ∙ some_injective (rw e at f))
            | inr e ↦ contained-heap_value cells big (rw yes_same at rest) a v (rw e at f)
          ]
          | inr no_same ↦ absurd (false_ne_true (ok-injective (rw no_same at rest)))
        ]
      where
        some_injective : {x y : Integer W Z} → some x ≡ some y → x ≡ y
        some_injective h = cc

    heap_value-contained :
        (cells : List (Integer W Z × Integer W Z)) (big : Heap W Z) (t : Bool)
        → All (λ (c : Integer W Z × Integer W Z). heap_value lib big c.0 ≡ c.1) cells
        → is_contained_in lib cells big ≡ ok t
        → t ≡ true
    unfolding is_contained_in
    heap_value-contained [] big t all h = sym (ok-injective h)
    heap_value-contained ((b, w) ∷ cells) big t all h =
        let (s, test, rest) = >>=-eq-ok (eq lib w (heap_value lib big b)) _ h in
        let s_true = eq_self w s (ap (eq lib w) (sym all.0) ∙ test) in
        heap_value-contained cells big t all.1 (rw s_true at rest)

-- In a map no key has two entries.
abbrev pub IsMap : {W Z : Type 0} → Arithmetic W Z → List (Integer W Z × Integer W Z) → Type 0
IsMap lib cells = All (λ c. find_cell lib cells c.0 ≡ some c.1) cells

module _ {W Z : Type 0} (lib : Arithmetic W Z) (same_numbers : IsTest lib.numbers.same)
    (same_words : IsTest lib.words.equal) (g h : Heap W Z) where
  abbrev pub HoldsSame : Type 0
  HoldsSame =
      (g.background ≡ h.background) × ((a : Integer W Z) → heap_value lib g a ≡ heap_value lib h a)

  heap_value-find_cell :
      (k : Heap W Z) (a v : Integer W Z)
      → find_cell lib k.assigned_values a ≡ some v
      → heap_value lib k a ≡ v
  unfolding heap_value
  heap_value-find_cell k a v f = rw (heap_value, f) refl

  heap_value-none :
      (k : Heap W Z) (a : Integer W Z)
      → find_cell lib k.assigned_values a ≡ none
      → heap_value lib k a ≡ k.background
  unfolding heap_value
  heap_value-none k a f = rw (heap_value, f) refl

  Option-cases : {A : Type 0} (o : Option A) → (o ≡ none) ⊎ ((a : A) × (o ≡ some a))
  Option-cases none = inl refl
  Option-cases (some a) = inr (a, refl)

  contained-HoldsSame :
      g.background ≡ h.background
      → is_contained_in lib g.assigned_values h ≡ ok true
      → is_contained_in lib h.assigned_values g ≡ ok true
      → HoldsSame
  contained-HoldsSame backgrounds left right = (
    backgrounds,
    (λ a. elim (Option-cases (find_cell lib g.assigned_values a)) [
      | inr (v, f) ↦
          heap_value-find_cell g a v f
          ∙ sym (contained-heap_value lib same_numbers same_words g.assigned_values h left a v f)
      | inl none_here ↦ elim (Option-cases (find_cell lib h.assigned_values a)) [
        | inr (v, f) ↦
            contained-heap_value lib same_numbers same_words h.assigned_values g right a v f
            ∙ sym (heap_value-find_cell h a v f)
        | inl none_there ↦
            heap_value-none g a none_here ∙ (backgrounds ∙ sym (heap_value-none h a none_there))
      ]
    ]),
  )

  cells-held :
      (k : Heap W Z) (cells : List (Integer W Z × Integer W Z))
      → All
          (λ (c : Integer W Z × Integer W Z). find_cell lib k.assigned_values c.0 ≡ some c.1)
          cells
      → (l : Heap W Z) → ((a : Integer W Z) → heap_value lib k a ≡ heap_value lib l a)
      → All (λ (c : Integer W Z × Integer W Z). heap_value lib l c.0 ≡ c.1) cells
  cells-held k [] all l same = tt
  cells-held k (c ∷ cells) all l same =
      (sym (same c.0) ∙ heap_value-find_cell k c.0 c.1 all.0, cells-held k cells all.1 l same)

  -- If the equality tests of the number libraries hold exactly of equal numbers and of equal
  -- words, and both heaps list every address once, then where the comparison of the heaps
  -- returns, it is true exactly if they have the same background and hold the same value at every
  -- address.
  pub heap_equal-heap_value :
      IsMap lib g.assigned_values
      → IsMap lib h.assigned_values
      → (t : Bool) → heap_equal lib g h ≡ ok t
      → (t ≡ true) ↔ (
          (g.background ≡ h.background)
          × ((a : Integer W Z) → heap_value lib g a ≡ heap_value lib h a))
  unfolding heap_equal
  heap_equal-heap_value map_g map_h t e =
      let (s, backgrounds, rest) = >>=-eq-ok (eq lib g.background h.background) _ e in
      (
        (λ t_true. elim (Bool-cases s) [
          | inr s_false ↦ absurd (false_ne_true (ok-injective (rw s_false at rest) ∙ t_true))
          | inl s_true ↦
              let (u, left, more) =
                >>=-eq-ok (is_contained_in lib g.assigned_values h) _ (rw s_true at rest) in
              elim (Bool-cases u) [
                | inr u_false ↦ absurd (false_ne_true (ok-injective (rw u_false at more) ∙ t_true))
                | inl u_true ↦
                    contained-HoldsSame
                      (eq-true lib same_numbers same_words g.background h.background
                        (backgrounds ∙ ap ok s_true))
                      (left ∙ ap ok u_true) ((rw u_true at more) ∙ ap ok t_true)
              ]
        ]),
        (λ same.
            let s_true =
              eq_self lib same_numbers same_words g.background s
                (ap (eq lib g.background) same.0 ∙ backgrounds) in
            let (u, left, more) =
              >>=-eq-ok (is_contained_in lib g.assigned_values h) _ (rw s_true at rest) in
            let u_true =
              heap_value-contained lib same_numbers same_words g.assigned_values h u
                (cells-held g g.assigned_values map_g h same.1) left in
            heap_value-contained lib same_numbers same_words h.assigned_values g t
              (cells-held h h.assigned_values map_h g (λ a. sym (same.1 a))) (rw u_true at more)),
      )
