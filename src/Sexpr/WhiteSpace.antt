-- ===== src/Sexpr/WhiteSpace.antt =====
-- Indentation and line breaks are all that the pretty form of an S-expression adds.
use Prim.Native.Char.{Char, code}
use Prim.Native.String.{String, ◌++◌}
use text.Mathlib.TextLemmas.{nil-append, cons-append}
use llreve.Prelude.{
  ℕ, zero, suc, ◌+◌, Bool, true, false, ◌≡◌, refl, ap, ◌∙◌, sym, if◌then◌else◌, nat_eq, ◌||◌,
  Bool-cases, inl, inr,
}
use llreve.Sexpr.{
  Sexpr, value, apply, list, comment, Sexprs, end, item, spaces, layout, on_one_line, serialize,
  serialize_items, serialize_list,
}

is_white : Char → Bool
is_white c = nat_eq (code c) 32 || nat_eq (code c) 10

-- A text without its spaces and line breaks.
pub visible : String → String
unfolding is_white
visible String.[] = ""
visible (String.◌∷◌ c s) = let rest = visible s in if is_white c then rest else String.◌∷◌ c rest

pub visible-append : (s t : String) → visible (s ++ t) ≡ visible s ++ visible t
unfolding visible
visible-append String.[] t = rw (nil-append t, nil-append (visible t))
visible-append (String.◌∷◌ c s) t = rw (cons-append c s t) (elim (Bool-cases (is_white c)) [
  | inl w ↦ rw w (visible-append s t)
  | inr w ↦
      rw w (ap (String.◌∷◌ c) (visible-append s t) ∙ sym (cons-append c (visible s) (visible t)))
])

visible-spaces : (n : ℕ) → visible (spaces n) ≡ ""
unfolding spaces visible
visible-spaces zero = refl
visible-spaces (suc n) =
    visible-append " " (spaces n) ∙ (nil-append (visible (spaces n)) ∙ visible-spaces n)

visible-break : (n : ℕ) → visible ("\n" ++ spaces n) ≡ ""
unfolding visible
visible-break n =
    visible-append "\n" (spaces n) ∙ (nil-append (visible (spaces n)) ∙ visible-spaces n)

-- A separator is white space only.
visible-separator :
    (fun : String) (args : Sexprs) (indent : ℕ) (pretty : Bool)
    → visible (layout fun args indent pretty).separator ≡ ""
unfolding layout visible
visible-separator fun args indent true = elim (Bool-cases (on_one_line fun args)) [
  | inl h ↦ rw h
  | inr h ↦ rw h (visible-break (indent + 3))
]
visible-separator fun args indent false = refl

-- Two appended texts, each the same without white space.
visible-append_eq :
    (s s' t t' : String)
    → visible s ≡ visible s'
    → visible t ≡ visible t'
    → visible (s ++ t) ≡ visible (s' ++ t')
visible-append_eq s s' t t' p q = rw (visible-append s t, visible-append s' t', p, q)

mutual
  unfolding serialize

  same_visible :
      (e : Sexpr) (i j : ℕ) (p q : Bool) → visible (serialize e i p) ≡ visible (serialize e j q)
  same_visible (value val) i j p q = refl
  same_visible (apply fun args) i j p q =
      let l = layout fun args i p in
      let m = layout fun args j q in
      visible-append_eq "(" "(" _ _ refl (
        visible-append_eq fun fun _ _ refl (
          visible-append_eq (serialize_items l.separator args l.indent p)
            (serialize_items m.separator args m.indent q) ")" ")"
            (same_visible_items args l.separator m.separator l.indent m.indent p q
              (visible-separator fun args i p ∙ sym (visible-separator fun args j q)))
            refl))
  same_visible (list elements) i j p q = visible-append_eq "(" "(" _ _ refl (
      visible-append_eq (serialize_list elements i p) (serialize_list elements j q) ")" ")"
        (same_visible_list elements i j p q) refl)
  same_visible (comment val) i j p q = refl

  same_visible_items :
      (es : Sexprs) (s t : String) (i j : ℕ) (p q : Bool)
      → visible s ≡ visible t
      → visible (serialize_items s es i p) ≡ visible (serialize_items t es j q)
  same_visible_items end s t i j p q h = refl
  same_visible_items (item e es) s t i j p q h = visible-append_eq s t _ _ h (
      visible-append_eq (serialize e i p) (serialize e j q) _ _ (same_visible e i j p q)
        (same_visible_items es s t i j p q h))

  same_visible_list :
      (es : Sexprs) (i j : ℕ) (p q : Bool)
      → visible (serialize_list es i p) ≡ visible (serialize_list es j q)
  same_visible_list end i j p q = refl
  same_visible_list (item e es) i j p q =
      visible-append_eq (serialize e (i + 1) p) (serialize e (j + 1) q) _ _
        (same_visible e (i + 1) (j + 1) p q)
        (same_visible_items es _ _ (i + 1) (j + 1) p q
          (visible-break (i + 1) ∙ sym (visible-break (j + 1))))

-- Whatever the indentation and the style, an S-expression is written with the same characters, in
-- the same order, but for spaces and line breaks.
pub visible-serialize :
    (e : Sexpr) (i j : ℕ) (p q : Bool) → visible (serialize e i p) ≡ visible (serialize e j q)
visible-serialize e i j p q = same_visible e i j p q
