-- ===== src/Marks/Sets.antt =====
-- `std::map`s from keys to `std::set`s, as association lists of lists without duplicates.
use llreve.Prelude.{
  or-false, Bool, true, false, List, [], ◌∷◌, ◌≡◌, refl, sym, ap, ◌∙◌, ◌||◌, ◌&&◌, if◌then◌else◌,
  Bool-cases, inl, inr, arith,
}

-- A test for equality.
pub record IsTest {A : Type 0} (same : A → A → Bool) : Type 0 where
  pub sound : (x y : A) → same x y ≡ true → x ≡ y
  pub reflexive : (x : A) → same x x ≡ true

module _ {V : Type 0} (same : V → V → Bool) where
  unfoldable pub has : List V → V → Bool
  has [] v = false
  has (w ∷ ws) v = same w v || has ws v

  -- `insert` of a set
  unfoldable pub put : List V → V → List V
  unfolding has
  put vs v = if has vs v then vs else v ∷ vs

  -- `erase` of a set
  unfoldable pub take_out : List V → V → List V
  take_out [] v = []
  take_out (w ∷ ws) v = let rest = take_out ws v in if same w v then rest else w ∷ rest

  has-put : IsTest same → (vs : List V) (v w : V) → has (put vs v) w ≡ (has vs w || same v w)
  unfolding has put
  has-put t vs v w = elim (Bool-cases (has vs v)) [
    | inl h ↦ elim (Bool-cases (same v w)) [
      | inl e ↦ rw (h, e) (or_true (has vs w) (ap (has vs) (sym (t.sound v w e)) ∙ h))
      | inr e ↦ rw (h, e) (or_none (has vs w))
    ]
    | inr h ↦ rw h (or_swap (same v w) (has vs w))
  ]
    where
      or_true : (a : Bool) → a ≡ true → a ≡ (a || true)
      or_true a h = ground arith

      or_none : (a : Bool) → a ≡ (a || false)
      or_none a = ground arith

      or_swap : (a b : Bool) → (a || b) ≡ (b || a)
      or_swap a b = ground arith

  pub has-take_out : (vs : List V) (v w : V) → has (take_out vs v) w ≡ true → has vs w ≡ true
  unfolding has take_out
  has-take_out [] v w h = h
  has-take_out (u ∷ vs) v w h = elim (Bool-cases (same u v)) [
    | inl e ↦ or_right (same u w) (has vs w) (has-take_out vs v w (rw e at h))
    | inr e ↦
        or_keep (same u w) (has (take_out vs v) w) (has vs w) (has-take_out vs v w) (rw e at h)
  ]
    where
      or_right : (a b : Bool) → b ≡ true → (a || b) ≡ true
      or_right a b h = ground arith

      or_keep : (a b c : Bool) → (b ≡ true → c ≡ true) → (a || b) ≡ true → (a || c) ≡ true
      or_keep true b c f h = refl
      or_keep false b c f h = f h

or_comm : (a b : Bool) → (a || b) ≡ (b || a)
or_comm a b = ground arith

pub false_ne_true : false ≡ true → ⊥
false_ne_true h = cc

pub apart :
    {K : Type 0} {same : K → K → Bool}
    → IsTest same
    → (j k l : K) → same j k ≡ false
    → same j l ≡ true
    → same k l ≡ false
apart {same = same} t j k l e f = elim (Bool-cases (same k l)) [
  | inl g ↦ absurd (false_ne_true (sym e ∙ (ap (same j) (t.sound k l g) ∙ f)))
  | inr g ↦ g
]

module _ {K V : Type 0} (same_key : K → K → Bool) (same : V → V → Bool) where
  unfoldable pub values : List (K × List V) → K → List V
  values [] k = []
  values ((l, vs) ∷ map) k = if same_key l k then vs else values map k

  -- `map[k].insert(v)`
  unfoldable pub enter : K → V → List (K × List V) → List (K × List V)
  unfolding put
  enter k v [] = (k, v ∷ []) ∷ []
  enter k v ((l, vs) ∷ map) =
      let rest = enter k v map in if same_key l k then (l, put same vs v) ∷ map else (l, vs) ∷ rest

  -- After an entry the map has what it had, and the value entered at its key.
  pub has-enter :
      IsTest same_key
      → IsTest same
      → (k : K) (v : V) (map : List (K × List V)) (l : K) (w : V)
      → has same (values (enter k v map) l) w
        ≡ (has same (values map l) w || (same_key k l && same v w))
  unfolding enter values has
  has-enter t u k v [] l w = elim (Bool-cases (same_key k l)) [
    | inl e ↦ rw e (alone (same v w))
    | inr e ↦ rw e
  ]
    where
      alone : (a : Bool) → (a || false) ≡ a
      alone a = ground arith
  has-enter t u k v ((j, vs) ∷ map) l w = elim (Bool-cases (same_key j k)) [
    | inl e ↦ elim (Bool-cases (same_key j l)) [
      | inl f ↦ rw (e, f, ← t.sound j k e, f) (has-put same u vs v w)
      | inr f ↦ rw (e, f, ← t.sound j k e, f) (none_more (has same (values map l) w))
    ]
    | inr e ↦ elim (Bool-cases (same_key j l)) [
      | inl f ↦
          let g : same_key k l ≡ false = apart t j k l e f in
          rw (e, f, g) (none_more (has same vs w))
      | inr f ↦ rw (e, f) (has-enter t u k v map l w)
    ]
  ]
    where
      none_more : (a : Bool) → a ≡ (a || false)
      none_more a = ground arith

module _ {K V : Type 0} (same_key : K → K → Bool) (same : V → V → Bool) where
  unfoldable pub has_key : List (K × List V) → K → Bool
  has_key [] k = false
  has_key ((l, vs) ∷ map) k = same_key l k || has_key map k

  -- `map.insert({k, {v}})`, which does nothing if the key is there
  unfoldable pub insert_new : K → V → List (K × List V) → List (K × List V)
  insert_new k v [] = (k, v ∷ []) ∷ []
  insert_new k v ((l, vs) ∷ map) =
      let rest = insert_new k v map in if same_key l k then (l, vs) ∷ map else (l, vs) ∷ rest

  pub insert_new-enter :
      (k : K) (v : V) (map : List (K × List V))
      → has_key map k ≡ false
      → insert_new k v map ≡ enter same_key same k v map
  unfolding insert_new has_key enter
  insert_new-enter k v [] h = refl
  insert_new-enter k v ((l, vs) ∷ map) h =
      let w = or-false (same_key l k) (has_key map k) h in rw (w.0, insert_new-enter k v map w.1)

  pub has_key-enter :
      IsTest same_key
      → (k : K) (v : V) (map : List (K × List V)) (l : K)
      → has_key (enter same_key same k v map) l ≡ (has_key map l || same_key k l)
  unfolding has_key enter
  has_key-enter t k v [] l = or_comm (same_key k l) false
  has_key-enter t k v ((j, vs) ∷ map) l = elim (Bool-cases (same_key j k)) [
    | inl e ↦ rw (e, t.sound j k e) (or_repeat (same_key k l) (has_key map l))
    | inr e ↦
        rw (e, has_key-enter t k v map l) (or_shift (same_key j l) (has_key map l) (same_key k l))
  ]
    where
      or_repeat : (a b : Bool) → (a || b) ≡ ((a || b) || a)
      or_repeat a b = ground arith

      or_shift : (a b c : Bool) → (a || (b || c)) ≡ ((a || b) || c)
      or_shift a b c = ground arith
