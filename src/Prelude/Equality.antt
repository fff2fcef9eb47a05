-- ===== src/Prelude/Equality.antt =====
-- Boolean equality as an interface, and lists as finite sets of its values.
use Prim.Native.Nat.{ℕ, ◌+◌, ◌≤◌}
use Prim.Native.String.{String}
use mathlib.Core.Path.{◌≡◌, refl}
use mathlib.Core.Bool.{Bool, true, false, ◌||◌, ◌&&◌}
use mathlib.Core.List.{List, [], ◌∷◌, ◌++◌}
use mathlib.Core.Logic.{◌↔◌}
use native.Mathlib.Omega.{arith}
use text.Mathlib.Text.{◌==◌ as str_beq}
use text.Mathlib.TextEquality.{eq_iff}
use darwin_net.Prelude.Tests.{nat_beq, nat_beq_iff, if◌then◌else◌}
use darwin_net.Prelude.Lists.{length, filter_by, All}

pub record Eq {ℓ} (V : Type ℓ) : Type ℓ where
  pub beq : V → V → Bool
  -- the test decides equality
  pub beq_iff : (x y : V) → (beq x y ≡ true) ↔ (x ≡ y)

instance abbrev pub string_eq : Eq String
string_eq = record { beq_iff = eq_iff; beq = str_beq }

instance abbrev pub nat_eq : Eq ℕ
nat_eq = record { beq_iff = nat_beq_iff; beq = nat_beq }

-- the test of the instance in scope
abbrev pub ◌==◌ {ℓ} : {V : Type ℓ} ⦃test : Eq V⦄ → V → V → Bool
◌==◌ ⦃test⦄ a b = test.beq a b

infix 50 ◌==◌
module _ {ℓ} {A : Type ℓ} ⦃e : Eq A⦄ where
  pub ==_iff : (a b : A) → ((a == b) ≡ true) ↔ (a ≡ b)
  ==_iff a b = e.beq_iff a b

  pub ==_refl : (a : A) → (a == a) ≡ true
  ==_refl a = (e.beq_iff a a).1 refl

  abbrev pub elem : A → List A → Bool
  elem a [] = false
  elem a (x ∷ xs) = (x == a) || elem a xs

  -- no value stands twice
  abbrev pub Distinct : List A → Type 0
  Distinct [] = Unit
  Distinct (x ∷ xs) = (elem x xs ≡ false) × Distinct xs

  abbrev pub remove : A → List A → List A
  remove a [] = []
  remove a (x ∷ xs) = let rest = remove a xs in if x == a then rest else x ∷ rest

module _ {ℓ} {A : Type ℓ} ⦃e : Eq A⦄ where
  pub elem-remove :
      (a b : A) (xs : List A) → elem b (remove a xs) ≡ (if a == b then false else elem b xs)
  elem-remove a b [] = ground arith
  elem-remove a b (x ∷ xs) =
      ground (arith, elem-remove a b xs, e.beq_iff a b, e.beq_iff x a, e.beq_iff x b)

  pub elem-append : (a : A) (xs ys : List A) → elem a (xs ++ ys) ≡ (elem a xs || elem a ys)
  elem-append a [] ys = refl
  elem-append a (x ∷ xs) ys = ground (arith, elem-append a xs ys)

  pub Distinct-remove : (a : A) (xs : List A) → Distinct xs → Distinct (remove a xs)
  Distinct-remove a [] d = tt
  Distinct-remove a (x ∷ xs) d = ground (arith, Distinct-remove a xs d.1, elem-remove a x xs)

  pub remove_absent : (a : A) (xs : List A) → elem a xs ≡ false → remove a xs ≡ xs
  remove_absent a [] h = refl
  remove_absent a (x ∷ xs) h = ground (arith, remove_absent a xs)

  pub length-remove :
      (a : A) (xs : List A)
      → Distinct xs
      → length xs ≡ length (remove a xs) + (if elem a xs then 1 else 0)
  length-remove a [] d = ground arith
  length-remove a (x ∷ xs) d =
      ground (arith, length-remove a xs d.1, e.beq_iff x a, remove_absent a xs)

  -- every element of the first list stands in the second
  abbrev pub Subset : List A → List A → Type ℓ
  Subset xs ys = (a : A) → elem a xs ≡ true → elem a ys ≡ true

  -- A list with no repetition is no longer than a list that holds all its elements.
  pub length_le_of_Subset :
      (xs ys : List A) → Distinct xs → Distinct ys → Subset xs ys → length xs ≤ length ys
  length_le_of_Subset [] ys dx dy s = omega arith
  length_le_of_Subset (x ∷ xs) ys dx dy s = ground (
    arith,
    length_le_of_Subset xs (remove x ys) dx.1 (Distinct-remove x ys dy) rest,
    length-remove x ys dy,
    s x,
    ==_refl x,
  )
    where
      rest : Subset xs (remove x ys)
      rest a h = ground (arith, elem-remove x a ys, s a, e.beq_iff x a)

  pub elem-filter_by :
      (p : A → Bool) (a : A) (xs : List A) → elem a (filter_by p xs) ≡ (elem a xs && p a)
  elem-filter_by p a [] = refl
  elem-filter_by p a (x ∷ xs) = ground (arith, elem-filter_by p a xs, e.beq_iff x a)

  pub Distinct-filter_by : (p : A → Bool) (xs : List A) → Distinct xs → Distinct (filter_by p xs)
  Distinct-filter_by p [] d = tt
  Distinct-filter_by p (x ∷ xs) d =
      ground (arith, Distinct-filter_by p xs d.1, elem-filter_by p x xs)

  pub All-remove {κ} : (P : A → Type κ) (a : A) (xs : List A) → All P xs → All P (remove a xs)
  All-remove P a [] h = tt
  All-remove P a (x ∷ xs) h = ground (arith, All-remove P a xs h.1)

abbrev pub list_beq {ℓ} : {A : Type ℓ} ⦃e : Eq A⦄ → List A → List A → Bool
list_beq [] [] = true
list_beq [] (y ∷ ys) = false
list_beq (x ∷ xs) [] = false
list_beq (x ∷ xs) (y ∷ ys) = (x == y) && list_beq xs ys

pub list_beq_iff {ℓ} :
    {A : Type ℓ} ⦃e : Eq A⦄ (xs ys : List A) → (list_beq xs ys ≡ true) ↔ (xs ≡ ys)
list_beq_iff [] [] = ground arith
list_beq_iff [] (y ∷ ys) = ground arith
list_beq_iff (x ∷ xs) [] = ground arith
list_beq_iff ⦃e⦄ (x ∷ xs) (y ∷ ys) = ground (arith, list_beq_iff xs ys, e.beq_iff x y)

instance abbrev pub list_eq {ℓ} : {A : Type ℓ} ⦃e : Eq A⦄ → Eq (List A)
list_eq = record { beq = list_beq; beq_iff = list_beq_iff }
