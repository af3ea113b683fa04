-- ===== src/Base/Lists.antt =====
-- Lists measured and searched by native numbers and Boolean tests, under the library's names.
use Prim.Native.Nat.{◌≤◌, ℕ, suc, ◌+◌}
use mathlib.Core.Path.{◌≡◌, refl}
use mathlib.Core.Bool.{Bool, true, false}
use mathlib.Core.List.{List, [], ◌∷◌, ◌++◌}
use native.Mathlib.Omega.{arith}
use sqls.Base.Tests.{if◌then◌else◌}

module _ {ℓ} {A : Type ℓ} where
  abbrev pub length : List A → ℕ
  length [] = 0
  length (x ∷ xs) = suc (length xs)

  abbrev pub is_empty : List A → Bool
  is_empty [] = true
  is_empty (x ∷ xs) = false

  pub length-append : (xs ys : List A) → length (xs ++ ys) ≡ length xs + length ys
  length-append [] ys = omega arith
  length-append (x ∷ xs) ys = omega (arith, length-append xs ys)

-- A predicate on every member, by recursion.
abbrev pub All {ℓ κ} : {A : Type ℓ} → (A → Type κ) → List A → Type κ
All P [] = Unit
All P (x ∷ xs) = P x × All P xs

module _ {ℓ κ} {A : Type ℓ} (P : A → Type κ) where
  pub All-append : (front back : List A) → All P front → All P back → All P (front ++ back)
  All-append [] back _ there = there
  All-append (a ∷ front) back here there = (here.0, All-append front back here.1 there)

  pub All-mono {μ} :
      (Q : A → Type μ) (members : List A) → ((a : A) → P a → Q a) → All P members → All Q members
  All-mono Q [] weaken _ = tt
  All-mono Q (a ∷ members) weaken here = (weaken a here.0, All-mono Q members weaken here.1)

-- The longest run of members from the start that pass a test, and what is behind it.
module _ {ℓ} {A : Type ℓ} where
  abbrev pub take_while : (A → Bool) → List A → List A
  take_while p [] = []
  take_while p (x ∷ xs) = if p x then x ∷ take_while p xs else []

  abbrev pub drop_while : (A → Bool) → List A → List A
  drop_while p [] = []
  drop_while p (x ∷ xs) = if p x then drop_while p xs else x ∷ xs

  pub take_while-append-drop_while :
      (p : A → Bool) (xs : List A) → take_while p xs ++ drop_while p xs ≡ xs
  take_while-append-drop_while p [] = refl
  take_while-append-drop_while p (x ∷ xs) = ground (arith, take_while-append-drop_while p xs)

pub length-drop_while {ℓ} :
    {A : Type ℓ} (p : A → Bool) (xs : List A) → length (drop_while p xs) ≤ length xs
length-drop_while p [] = omega arith
length-drop_while p (x ∷ xs) = ground (arith, length-drop_while p xs)
