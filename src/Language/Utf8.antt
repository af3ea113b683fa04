-- ===== src/Language/Utf8.antt =====
-- unicode/utf8, as language/positions.go uses it: a text is the list of its bytes.
use sqls.Base.{
  Bool, Bool-cases, List, Option, [], arith, if◌then◌else◌, inl, inr, ltb, none, not, some, suc,
  true, within, zero, ℕ, ◌&&◌, ◌*◌, ◌+◌, ◌-◌, ◌==◌, ◌∷◌, ◌≡◌,
}

-- `text[offset:]`
abbrev pub from : ℕ → List ℕ → List ℕ
from zero cs = cs
from (suc n) [] = []
from (suc n) (c ∷ cs) = from n cs

-- `utf8.RuneStart`
abbrev pub rune_start : ℕ → Bool
rune_start b = not (within 128 191 b)

abbrev pub is_continuation : ℕ → Bool
is_continuation b = within 128 191 b

abbrev pub two_bytes : ℕ → List ℕ → Option (ℕ × ℕ)
two_bytes c [] = none
two_bytes c (d ∷ ds) = if is_continuation d then some ((c - 192) * 64 + (d - 128), 2) else none

-- The second byte's range depends on the first: there are no surrogates and no long forms.
abbrev pub three_bytes : ℕ → List ℕ → Option (ℕ × ℕ)
three_bytes c [] = none
three_bytes c (d ∷ []) = none
three_bytes c (d ∷ e ∷ es) =
    if is_continuation d
      && is_continuation e
      && not (c == 224 && ltb d 160)
      && not (c == 237 && ltb 159 d)
    then some ((c - 224) * 4096 + (d - 128) * 64 + (e - 128), 3)
    else none

abbrev pub four_bytes : ℕ → List ℕ → Option (ℕ × ℕ)
four_bytes c [] = none
four_bytes c (d ∷ []) = none
four_bytes c (d ∷ e ∷ []) = none
four_bytes c (d ∷ e ∷ f ∷ fs) =
    if is_continuation d
      && is_continuation e
      && is_continuation f
      && not (c == 240 && ltb d 144)
      && not (c == 244 && ltb 143 d)
    then some ((c - 240) * 262144 + (d - 128) * 4096 + (e - 128) * 64 + (f - 128), 4)
    else none

-- `utf8.DecodeRuneInString`: the rune and its size, or none for `RuneError` of size 0 or 1.
unfoldable pub decode_rune : List ℕ → Option (ℕ × ℕ)
decode_rune [] = none
decode_rune (c ∷ cs) =
    if ltb c 128
    then some (c, 1)
    else if within 194 223 c
    then two_bytes c cs
    else if within 224 239 c
    then three_bytes c cs
    else if within 240 244 c
    then four_bytes c cs
    else none

-- The next bytes are no starts of runes.
abbrev pub Continues : ℕ → List ℕ → Type 0
Continues zero cs = Unit
Continues (suc k) [] = ⊥
Continues (suc k) (c ∷ cs) = (is_continuation c ≡ true) × Continues k cs

pub two_bytes-Continues :
    (c : ℕ) (cs : List ℕ) (r n : ℕ) → two_bytes c cs ≡ some (r, n) → (n ≡ 2) × Continues 1 cs
two_bytes-Continues c [] r n h = cc
two_bytes-Continues c (d ∷ ds) r n h = elim (Bool-cases (is_continuation d)) [
  | inl t ↦ (ground (arith, h, t), (t, tt))
  | inr f ↦ absurd (ground (arith, h, f))
]

pub three_bytes-Continues :
    (c : ℕ) (cs : List ℕ) (r n : ℕ) → three_bytes c cs ≡ some (r, n) → (n ≡ 3) × Continues 2 cs
three_bytes-Continues c [] r n h = cc
three_bytes-Continues c (d ∷ []) r n h = cc
three_bytes-Continues c (d ∷ e ∷ es) r n h =
    (ground (arith, h), (ground (arith, h), (ground (arith, h), tt)))

pub four_bytes-Continues :
    (c : ℕ) (cs : List ℕ) (r n : ℕ) → four_bytes c cs ≡ some (r, n) → (n ≡ 4) × Continues 3 cs
four_bytes-Continues c [] r n h = cc
four_bytes-Continues c (d ∷ []) r n h = cc
four_bytes-Continues c (d ∷ e ∷ []) r n h = cc
four_bytes-Continues c (d ∷ e ∷ f ∷ fs) r n h =
    (ground (arith, h), (ground (arith, h), (ground (arith, h), (ground (arith, h), tt))))
