-- ===== src/Prelude/Maps.antt =====
-- A Go map as an association list. Go visits a map in any order; the list has one of them.
use darwin_net.Prelude.Tests.{if◌then◌else◌}
use darwin_net.Prelude.Lists.{length}
use darwin_net.Prelude.Equality.{Eq, ◌==◌, elem, Distinct}
use Prim.Native.Nat.{◌+◌}
use mathlib.Core.Path.{◌≡◌, refl}
use mathlib.Core.Bool.{true, false}
use mathlib.Core.List.{List, [], ◌∷◌}
use mathlib.Core.Option.{Option, none, some}
use native.Mathlib.Omega.{arith}

module _ {ℓ κ} {K : Type ℓ} {V : Type κ} ⦃e : Eq K⦄ where
  -- v, ok := m[k]
  abbrev pub lookup : K → List (K × V) → Option V
  lookup k [] = none
  lookup k ((j, v) ∷ m) = let rest = lookup k m in if j == k then some v else rest

  -- m[k] = v
  abbrev pub insert : K → V → List (K × V) → List (K × V)
  insert k v [] = (k, v) ∷ []
  insert k v ((j, w) ∷ m) = let rest = insert k v m in if j == k then (j, v) ∷ m else (j, w) ∷ rest

  -- delete(m, k)
  abbrev pub delete : K → List (K × V) → List (K × V)
  delete k [] = []
  delete k ((j, w) ∷ m) = let rest = delete k m in if j == k then rest else (j, w) ∷ rest

module _ {ℓ κ} {K : Type ℓ} {V : Type κ} where
  abbrev pub keys : List (K × V) → List K
  keys [] = []
  keys ((j, w) ∷ m) = j ∷ keys m

module _ {ℓ κ} {K : Type ℓ} {V : Type κ} ⦃e : Eq K⦄ where
  pub lookup-insert :
      (k j : K) (v : V) (m : List (K × V))
      → lookup j (insert k v m) ≡ (if k == j then some v else lookup j m)
  lookup-insert k j v [] = refl
  lookup-insert k j v ((i, w) ∷ m) =
      ground (arith, e.beq_iff k j, e.beq_iff i k, e.beq_iff i j, lookup-insert k j v m)

  pub lookup-delete :
      (k j : K) (m : List (K × V)) → lookup j (delete k m) ≡ (if k == j then none else lookup j m)
  lookup-delete k j [] = ground arith
  lookup-delete k j ((i, w) ∷ m) =
      ground (arith, e.beq_iff k j, e.beq_iff i k, e.beq_iff i j, lookup-delete k j m)

  pub elem-keys-insert :
      (k j : K) (v : V) (m : List (K × V))
      → elem j (keys (insert k v m)) ≡ (if k == j then true else elem j (keys m))
  elem-keys-insert k j v [] = ground arith
  elem-keys-insert k j v ((i, w) ∷ m) =
      ground (arith, e.beq_iff k j, e.beq_iff i k, e.beq_iff i j, elem-keys-insert k j v m)

  pub elem-keys-delete :
      (k j : K) (m : List (K × V))
      → elem j (keys (delete k m)) ≡ (if k == j then false else elem j (keys m))
  elem-keys-delete k j [] = ground arith
  elem-keys-delete k j ((i, w) ∷ m) =
      ground (arith, e.beq_iff k j, e.beq_iff i k, e.beq_iff i j, elem-keys-delete k j m)

  pub Distinct-insert :
      (k : K) (v : V) (m : List (K × V)) → Distinct (keys m) → Distinct (keys (insert k v m))
  Distinct-insert k v [] d = (refl, tt)
  Distinct-insert k v ((i, w) ∷ m) d =
      ground
        (arith, Distinct-insert k v m d.1, elem-keys-insert k i v m, e.beq_iff i k, e.beq_iff k i)

  pub Distinct-delete :
      (k : K) (m : List (K × V)) → Distinct (keys m) → Distinct (keys (delete k m))
  Distinct-delete k [] d = tt
  Distinct-delete k ((i, w) ∷ m) d = ground (arith, Distinct-delete k m d.1, elem-keys-delete k i m)

  -- a key is present exactly when its lookup succeeds
  pub elem-keys-lookup :
      (k : K) (m : List (K × V))
      → elem k (keys m) ≡ elim (lookup k m) [ none ↦ false | some _ ↦ true ]
  elem-keys-lookup k [] = refl
  elem-keys-lookup k ((i, w) ∷ m) = ground (arith, elem-keys-lookup k m)

  pub delete_absent : (k : K) (m : List (K × V)) → elem k (keys m) ≡ false → delete k m ≡ m
  delete_absent k [] h = refl
  delete_absent k ((i, w) ∷ m) h = ground (arith, delete_absent k m)

  pub length-delete :
      (k : K) (m : List (K × V))
      → Distinct (keys m)
      → length m ≡ length (delete k m) + (if elem k (keys m) then 1 else 0)
  length-delete k [] d = ground arith
  length-delete k ((i, w) ∷ m) d =
      ground (arith, length-delete k m d.1, e.beq_iff i k, delete_absent k m)

  pub length-insert :
      (k : K) (v : V) (m : List (K × V))
      → length (insert k v m) ≡ length m + (if elem k (keys m) then 0 else 1)
  length-insert k v [] = ground arith
  length-insert k v ((i, w) ∷ m) = ground (arith, length-insert k v m)
