-- ===== src/Language/Runes.antt =====
-- unicode/utf8: a rune ends before the next start of a rune.
use sqls.Base.{
  Bool, Bool-cases, List, [], ap, arith, false, inl, inr, leb, ltb, refl, some, subst, suc, sym,
  true, within, zero, ℕ, ◌+◌, ◌-◌, ◌<◌, ◌∙◌, ◌∷◌, ◌≡◌, ◌≤◌,
}
use sqls.Language.Utf8.{
  from, rune_start, decode_rune, Continues, two_bytes-Continues, three_bytes-Continues,
  four_bytes-Continues,
}

-- A text that is empty or whose first byte starts a rune.
abbrev pub starts : List ℕ → Bool
starts [] = true
starts (c ∷ cs) = rune_start c

from-nil : (n : ℕ) → from n [] ≡ []
from-nil zero = refl
from-nil (suc n) = refl

pub from-add : (a b : ℕ) (cs : List ℕ) → from (a + b) cs ≡ from b (from a cs)
from-add zero b cs = ap (λ n. from n cs) {x = zero + b} {y = b} (omega arith)
from-add (suc a) b [] =
    ap (λ n. from n []) {x = suc a + b} {y = suc (a + b)} (omega arith) ∙ sym (from-nil b)
from-add (suc a) b (c ∷ cs) =
    ap (λ n. from n (c ∷ cs)) {x = suc a + b} {y = suc (a + b)} (omega arith) ∙ from-add a b cs

Continues-from : (k j : ℕ) (cs : List ℕ) → Continues k cs → j < k → starts (from j cs) ≡ false
Continues-from zero j cs h l = absurd (omega arith)
Continues-from (suc k) j [] h l = absurd h
Continues-from (suc k) zero (c ∷ cs) h l = ground (arith, h.0)
Continues-from (suc k) (suc j) (c ∷ cs) h l = Continues-from k j cs h.1 (omega arith)

-- The size of a rune, and its bytes behind the first.
decode_rune-Continues :
    (c : ℕ) (cs : List ℕ) (r n : ℕ)
    → decode_rune (c ∷ cs) ≡ some (r, n)
    → (rune_start c ≡ true) × ((k : ℕ) × (n ≡ suc k) × Continues k cs)
unfolding decode_rune
decode_rune-Continues c cs r n h = elim (Bool-cases (ltb c 128)) [
  | inl a ↦ (ground (arith, a), (0, ground (arith, h, a), tt))
  | inr a ↦ elim (Bool-cases (within 194 223 c)) [
    | inl b ↦
        let t = two_bytes-Continues c cs r n (ground (arith, h, a, b)) in
        (ground (arith, b), (1, t.0, t.1))
    | inr b ↦ elim (Bool-cases (within 224 239 c)) [
      | inl d ↦
          let t = three_bytes-Continues c cs r n (ground (arith, h, a, b, d)) in
          (ground (arith, d), (2, t.0, t.1))
      | inr d ↦ elim (Bool-cases (within 240 244 c)) [
        | inl e ↦
            let t = four_bytes-Continues c cs r n (ground (arith, h, a, b, d, e)) in
            (ground (arith, e), (3, t.0, t.1))
        | inr e ↦ absurd (ground (arith, h, a, b, d, e))
      ]
    ]
  ]
]

pub decode_rune-starts :
    (cs : List ℕ) (r n : ℕ) → decode_rune cs ≡ some (r, n) → (starts cs ≡ true) × (0 < n)
unfolding decode_rune
decode_rune-starts [] r n h = cc
decode_rune-starts (c ∷ cs) r n h =
    let (s, (k, e, t)) = decode_rune-Continues c cs r n h in (s, omega arith)

-- A rune of the text does not reach beyond the next boundary.
pub decode_rune-bound :
    (text : List ℕ) (a b r n : ℕ)
    → decode_rune (from a text) ≡ some (r, n)
    → a < b
    → starts (from b text) ≡ true
    → a + n ≤ b
unfolding decode_rune
decode_rune-bound text a b r n h l s = go (from a text) refl
  where
    go : (cs : List ℕ) → from a text ≡ cs → a + n ≤ b
    go [] e = cc (subst (λ x. decode_rune x ≡ some (r, n)) e h)
    go (c ∷ cs) e =
        let (u, (k, p, t)) =
          decode_rune-Continues c cs r n (subst (λ x. decode_rune x ≡ some (r, n)) e h) in
        elim (Bool-cases (leb (a + n) b)) [
          | inl y ↦ ground (arith, y)
          | inr y ↦ absurd (
              let j : ℕ = b - suc a in
              let inner : from b text ≡ from j cs =
                ap (λ m. from m text) {x = b} {y = a + suc j} (ground (arith, l))
                ∙ from-add a (suc j) text
                ∙ ap (from (suc j)) e in
              cc (
                subst (λ x. starts x ≡ true) inner s,
                Continues-from k j cs t (ground (arith, y, p, l)),
              ))
        ]
