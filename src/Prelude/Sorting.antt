-- ===== src/Prelude/Sorting.antt =====
-- sort.Slice, slices.Sort and slices.Compact over a strict linear order, and sorted lists as sets.
use mathlib.Core.Path.{◌≡◌, refl}
use mathlib.Core.Bool.{Bool, true, false, ◌||◌}
use mathlib.Core.List.{List, [], ◌∷◌}
use mathlib.Core.Logic.{inl, inr}
use native.Mathlib.Omega.{arith}
use darwin_net.Prelude.Tests.{if◌then◌else◌, Bool-cases}
use darwin_net.Prelude.Equality.{Eq, ◌==◌, elem, nat_eq, list_eq}
use darwin_net.Prelude.Texts.{Text, text_less}

pub record Order {ℓ} (A : Type ℓ) : Type ℓ where
  pub less : A → A → Bool
  pub irreflexive : (a : A) → less a a ≡ false
  pub transitive : (a b c : A) → less a b ≡ true → less b c ≡ true → less a c ≡ true
  pub connected : (a b : A) → less a b ≡ false → less b a ≡ false → a ≡ b

module _ {ℓ} {A : Type ℓ} (o : Order A) where
  unfoldable pub insert_by : A → List A → List A
  insert_by x [] = x ∷ []
  insert_by x (y ∷ ys) = let rest = insert_by x ys in if o.less y x then y ∷ rest else x ∷ y ∷ ys

  unfoldable pub sort_by : List A → List A
  unfolding insert_by
  sort_by [] = []
  sort_by (x ∷ xs) = insert_by x (sort_by xs)

-- of equal neighbours one is kept
unfoldable pub compact_run {ℓ} : {A : Type ℓ} ⦃e : Eq A⦄ → List A → List A
compact_run [] = []
compact_run (x ∷ []) = x ∷ []
compact_run (x ∷ y ∷ xs) = let rest = compact_run (y ∷ xs) in if x == y then rest else x ∷ rest

module _ {ℓ} {A : Type ℓ} ⦃e : Eq A⦄ (o : Order A) where
  elem-insert_by : (a x : A) (xs : List A) → elem a (insert_by o x xs) ≡ ((x == a) || elem a xs)
  unfolding insert_by
  elem-insert_by a x [] = refl
  elem-insert_by a x (y ∷ ys) = ground (arith, elem-insert_by a x ys)

  pub elem-sort_by : (a : A) (xs : List A) → elem a (sort_by o xs) ≡ elem a xs
  unfolding sort_by
  elem-sort_by a [] = refl
  elem-sort_by a (x ∷ xs) = ground (arith, elem-insert_by a x (sort_by o xs), elem-sort_by a xs)

  pub elem-compact_run : (a : A) (xs : List A) → elem a (compact_run xs) ≡ elem a xs
  unfolding compact_run
  elem-compact_run a [] = refl
  elem-compact_run a (x ∷ []) = refl
  elem-compact_run a (x ∷ y ∷ xs) = ground (arith, elem-compact_run a (y ∷ xs), e.beq_iff x y)

  -- x precedes, or does not follow, every element
  abbrev Below : A → List A → Type 0
  Below x [] = Unit
  Below x (y ∷ ys) = (o.less x y ≡ true) × Below x ys

  abbrev AtMost : A → List A → Type 0
  AtMost x [] = Unit
  AtMost x (y ∷ ys) = (o.less y x ≡ false) × AtMost x ys

  abbrev Ascending : List A → Type 0
  Ascending [] = Unit
  Ascending (x ∷ xs) = AtMost x xs × Ascending xs

  abbrev pub Increasing : List A → Type 0
  Increasing [] = Unit
  Increasing (x ∷ xs) = Below x xs × Increasing xs

  AtMost-le : (x y : A) (zs : List A) → o.less y x ≡ false → AtMost y zs → AtMost x zs
  AtMost-le x y [] h a = tt
  AtMost-le x y (z ∷ zs) h a =
      ground (arith, AtMost-le x y zs h a.1, a.0, h, o.transitive z x y, o.connected x y)

  AtMost-insert_by :
      (y x : A) (xs : List A) → o.less x y ≡ false → AtMost y xs → AtMost y (insert_by o x xs)
  unfolding insert_by
  AtMost-insert_by y x [] h a = ground (arith, h)
  AtMost-insert_by y x (z ∷ zs) h a = ground (arith, h, a, AtMost-insert_by y x zs h a.1)

  Ascending-insert_by : (x : A) (xs : List A) → Ascending xs → Ascending (insert_by o x xs)
  unfolding insert_by
  Ascending-insert_by x [] a = ground arith
  Ascending-insert_by x (y ∷ ys) a = elim (Bool-cases (o.less y x)) [
    | inl before ↦ rw before (
      AtMost-insert_by y x ys (ground (arith, before, o.transitive y x y, o.irreflexive y)) a.0,
      Ascending-insert_by x ys a.1,
    )
    | inr after ↦ rw after ((after, AtMost-le x y ys after a.0), a)
  ]

  Ascending-sort_by : (xs : List A) → Ascending (sort_by o xs)
  unfolding sort_by
  Ascending-sort_by [] = tt
  Ascending-sort_by (x ∷ xs) = Ascending-insert_by x (sort_by o xs) (Ascending-sort_by xs)

  Below-compact_run :
      (x y : A) (ys : List A)
      → o.less x y ≡ true
      → Ascending (y ∷ ys)
      → Below x (compact_run (y ∷ ys))
  unfolding compact_run
  Below-compact_run x y [] h a = (h, tt)
  Below-compact_run x y (z ∷ ys) h a =
      let xz : o.less x z ≡ true = ground (arith, h, a.0, o.transitive x y z, o.connected y z) in
      ground (arith, h, Below-compact_run x z ys xz a.1)

  Increasing-compact_run : (xs : List A) → Ascending xs → Increasing (compact_run xs)
  unfolding compact_run
  Increasing-compact_run [] a = tt
  Increasing-compact_run (x ∷ []) a = (tt, tt)
  Increasing-compact_run (x ∷ y ∷ xs) a = elim (Bool-cases (x == y)) [
    | inl same ↦ rw same (Increasing-compact_run (y ∷ xs) a.1)
    | inr differ ↦ rw differ (
      Below-compact_run x y xs (ground (arith, a.0, differ, o.connected x y, e.beq_iff x y)) a.1,
      Increasing-compact_run (y ∷ xs) a.1,
    )
  ]

  Below-elem : (x a : A) (xs : List A) → Below x xs → elem a xs ≡ true → o.less x a ≡ true
  Below-elem x a [] b h = absurd (ground (arith, h))
  Below-elem x a (y ∷ ys) b h = ground (arith, b, h, e.beq_iff y a, Below-elem x a ys b.1)

  -- a strictly ascending list is known by its elements
  pub Increasing-unique :
      (xs ys : List A) → Increasing xs → Increasing ys → ((a : A) → elem a xs ≡ elem a ys) → xs ≡ ys
  Increasing-unique [] [] ix iy same = refl
  Increasing-unique [] (y ∷ ys) ix iy same = absurd (ground (arith, same y, e.beq_iff y y))
  Increasing-unique (x ∷ xs) [] ix iy same = absurd (ground (arith, same x, e.beq_iff x x))
  Increasing-unique (x ∷ xs) (y ∷ ys) ix iy same =
      ground (arith, same_head, Increasing-unique xs ys ix.1 iy.1 same_tail)
    where
      same_head : x ≡ y
      same_head = ground (
        arith,
        same x,
        same y,
        e.beq_iff x y,
        e.beq_iff y x,
        e.beq_iff x x,
        e.beq_iff y y,
        Below-elem x y xs ix.0,
        Below-elem y x ys iy.0,
        o.transitive x y x,
        o.irreflexive x,
      )

      same_tail : (a : A) → elem a xs ≡ elem a ys
      same_tail a = ground (
        arith,
        same_head,
        same a,
        e.beq_iff x a,
        e.beq_iff y a,
        Below-elem x a xs ix.0,
        Below-elem y a ys iy.0,
        o.irreflexive x,
        o.irreflexive y,
      )

-- sorted, without repetitions
abbrev pub sorted_set {ℓ} : {A : Type ℓ} ⦃e : Eq A⦄ → Order A → List A → List A
sorted_set o xs = compact_run (sort_by o xs)

module _ {ℓ} {A : Type ℓ} ⦃e : Eq A⦄ (o : Order A) where
  pub elem-sorted_set : (a : A) (xs : List A) → elem a (sorted_set o xs) ≡ elem a xs
  elem-sorted_set a xs = ground (arith, elem-compact_run o a (sort_by o xs), elem-sort_by o a xs)

  pub Increasing-sorted_set : (xs : List A) → Increasing o (sorted_set o xs)
  Increasing-sorted_set xs = Increasing-compact_run o (sort_by o xs) (Ascending-sort_by o xs)

  -- two lists sort to the same one when they have the same elements
  pub sorted_set_unique :
      (xs ys : List A) → ((a : A) → elem a xs ≡ elem a ys) → sorted_set o xs ≡ sorted_set o ys
  sorted_set_unique xs ys same =
      Increasing-unique o (sorted_set o xs) (sorted_set o ys) (Increasing-sorted_set xs)
        (Increasing-sorted_set ys)
        (λ a. ground (arith, same a, elem-sorted_set a xs, elem-sorted_set a ys))

pub text_less_irreflexive : (a : Text) → text_less a a ≡ false
text_less_irreflexive [] = refl
text_less_irreflexive (c ∷ cs) = ground (arith, text_less_irreflexive cs)

pub text_less_transitive :
    (a b c : Text) → text_less a b ≡ true → text_less b c ≡ true → text_less a c ≡ true
text_less_transitive [] [] c h g = absurd (ground (arith, h))
text_less_transitive [] (y ∷ ys) [] h g = absurd (ground (arith, g))
text_less_transitive [] (y ∷ ys) (z ∷ zs) h g = refl
text_less_transitive (x ∷ xs) [] c h g = absurd (ground (arith, h))
text_less_transitive (x ∷ xs) (y ∷ ys) [] h g = absurd (ground (arith, g))
text_less_transitive (x ∷ xs) (y ∷ ys) (z ∷ zs) h g =
    ground (arith, h, g, text_less_transitive xs ys zs)

pub text_less_connected : (a b : Text) → text_less a b ≡ false → text_less b a ≡ false → a ≡ b
text_less_connected [] [] h g = refl
text_less_connected [] (y ∷ ys) h g = absurd (ground (arith, h))
text_less_connected (x ∷ xs) [] h g = absurd (ground (arith, g))
text_less_connected (x ∷ xs) (y ∷ ys) h g = ground (arith, h, g, text_less_connected xs ys)

-- Go's order on strings, of ASCII text
abbrev pub text_order : Order Text
text_order = record {
  less = text_less;
  irreflexive = text_less_irreflexive;
  transitive = text_less_transitive;
  connected = text_less_connected;
}
