-- ===== src/Base/Texts.antt =====
-- Texts as lists of bytes or of code points, and the parts of Go's `strings` that the code uses.
use Prim.Native.Nat.{◌≤◌, ℕ, ◌-◌}
use Prim.Native.Char.{code}
use Prim.Native.String.{String}
use mathlib.Core.Path.{◌≡◌, refl}
use mathlib.Core.Bool.{Bool, true, false, ◌&&◌, ◌||◌}
use mathlib.Core.List.{◌++◌, List, [], ◌∷◌, map}
use native.Mathlib.Omega.{arith}
use sqls.Base.Lists.{length}
use sqls.Base.Tests.{◌==◌, if◌then◌else◌, within}

-- The code points of a literal: its bytes, if it is ASCII.
abbrev pub codes : String → List ℕ
codes String.[] = []
codes (String.◌∷◌ c s) = code c ∷ codes s

-- Equality of strings.
abbrev pub eqb : List ℕ → List ℕ → Bool
eqb [] [] = true
eqb (x ∷ xs) (y ∷ ys) = x == y && eqb xs ys
eqb _ _ = false

pub eqb_sound : (xs ys : List ℕ) → eqb xs ys ≡ true → xs ≡ ys
eqb_sound [] [] h = refl
eqb_sound [] (y ∷ ys) h = cc
eqb_sound (x ∷ xs) [] h = cc
eqb_sound (x ∷ xs) (y ∷ ys) h = ground (arith, eqb_sound xs ys)

pub eqb_refl : (xs : List ℕ) → eqb xs xs ≡ true
eqb_refl [] = refl
eqb_refl (x ∷ xs) = ground (arith, eqb_refl xs)

-- Membership of a string in a list of strings, as in the key set of a `map[string]bool`.
abbrev pub contains : List (List ℕ) → List ℕ → Bool
contains [] k = false
contains (x ∷ xs) k = eqb x k || contains xs k

-- `text[i] == c` for the first byte, false past the end.
abbrev pub head_is : ℕ → List ℕ → Bool
head_is c [] = false
head_is c (x ∷ xs) = x == c

-- `strings.HasPrefix`
abbrev pub has_prefix : List ℕ → List ℕ → Bool
has_prefix [] ys = true
has_prefix (x ∷ xs) [] = false
has_prefix (x ∷ xs) (y ∷ ys) = x == y && has_prefix xs ys

-- `strings.ToUpper` on one ASCII byte.
abbrev pub upper : ℕ → ℕ
upper c = if within b'a' b'z' c then c - 32 else c

abbrev pub to_upper : List ℕ → List ℕ
to_upper = map upper

-- The cutset " \t\r\n" of the code's `Trim` and `TrimLeft`.
abbrev pub is_blank : ℕ → Bool
is_blank c = c == b' ' || c == b'\t' || c == b'\r' || c == b'\n'

-- `strings.TrimLeft(s, " \t\r\n")`
abbrev pub trim_left : List ℕ → List ℕ
trim_left [] = []
trim_left (c ∷ cs) = if is_blank c then trim_left cs else c ∷ cs

-- `strings.TrimRight(s, " \t\r\n")`
abbrev pub trim_right : List ℕ → List ℕ
trim_right [] = []
trim_right (c ∷ cs) = elim (trim_right cs) [
  | [] ↦ if is_blank c then [] else c ∷ []
  | x ∷ xs ↦ c ∷ x ∷ xs
]

-- `strings.Trim(s, " \t\r\n")`
abbrev pub trim : List ℕ → List ℕ
trim s = trim_right (trim_left s)

-- `s[1:]`, which the code takes only of a text that is not empty.
abbrev pub skip : List ℕ → List ℕ
skip [] = []
skip (c ∷ cs) = cs

pub eqb_comm : (xs ys : List ℕ) → eqb xs ys ≡ eqb ys xs
eqb_comm [] [] = refl
eqb_comm [] (y ∷ ys) = refl
eqb_comm (x ∷ xs) [] = refl
eqb_comm (x ∷ xs) (y ∷ ys) = ground (arith, eqb_comm xs ys)

pub contains-append :
    (xs ys : List (List ℕ)) (k : List ℕ) → contains (xs ++ ys) k ≡ (contains xs k || contains ys k)
contains-append [] ys k = refl
contains-append (x ∷ xs) ys k = ground (arith, contains-append xs ys k)

-- No string occurs twice.
abbrev pub Distinct : List (List ℕ) → Type 0
Distinct [] = Unit
Distinct (x ∷ xs) = (contains xs x ≡ false) × Distinct xs

pub Distinct-append :
    (xs : List (List ℕ)) (k : List ℕ)
    → Distinct xs
    → contains xs k ≡ false
    → Distinct (xs ++ k ∷ [])
Distinct-append [] k h e = (refl, tt)
Distinct-append (x ∷ xs) k h e = (
  ground (arith, contains-append xs (k ∷ []) x, eqb_comm k x),
  Distinct-append xs k h.1 (ground arith),
)

pub length-skip : (s : List ℕ) → length (skip s) ≤ length s
length-skip [] = omega arith
length-skip (c ∷ cs) = omega arith
