-- ===== src/Metadata/Registry/Holding.antt =====
-- metadata/registry.go: the live tracks that hold a reference to the budget.
use sqls.Base.{
  ==_iff, Bool, Bool-cases, List, [], ap, arith, false, inl, inr, refl, subst, sym, true, ℕ, ◌==◌,
  ◌∷◌, ◌≡◌,
}
use sqls.Metadata.Registry.{has, forget}
use sqls.Metadata.Registry.Accounts.{holding, Different}

pub holding-live :
    (out : List ℕ) (ts : List ℕ) (t : ℕ) → has t (holding out ts) ≡ true → has t ts ≡ true
holding-live out [] t h = h
holding-live out (u ∷ ts) t h = elim (Bool-cases (has u out)) [
  | inl gone ↦ ground (arith, holding-live out ts t (rw gone at h))
  | inr stays ↦ elim (Bool-cases (t == u)) [
    | inl same ↦ rw same refl
    | inr other ↦ ground (arith, other, holding-live out ts t, rw stays at h)
  ]
]

-- A live track that has not given its reference back holds it.
pub live-holding :
    (out : List ℕ) (ts : List ℕ) (t : ℕ)
    → has t ts ≡ true
    → has t out ≡ false
    → has t (holding out ts) ≡ true
live-holding out [] t h n = h
live-holding out (u ∷ ts) t h n = elim (Bool-cases (t == u)) [
  | inl same ↦ rw (subst (λ x. has x out ≡ false) ((==_iff t u).0 same) n) (ground (arith, same))
  | inr other ↦ elim (Bool-cases (has u out)) [
    | inl gone ↦ rw gone (live-holding out ts t (ground (arith, h, other)) n)
    | inr stays ↦
        rw stays (ground (arith, other, live-holding out ts t (ground (arith, h, other)) n))
  ]
]

pub Different-holding : (out ts : List ℕ) → Different ts → Different (holding out ts)
Different-holding out [] d = tt
Different-holding out (t ∷ ts) d = elim (Bool-cases (has t out)) [
  | inl gone ↦ rw gone (Different-holding out ts d.1)
  | inr stays ↦
      rw stays
        (absent (has t (holding out ts)) (holding-live out ts t) d.0, Different-holding out ts d.1)
]
  where
    absent : (b : Bool) {c : Bool} → (b ≡ true → c ≡ true) → c ≡ false → b ≡ false
    absent true f e = cc (f refl, e)
    absent false f e = refl

pub holding-new :
    (t : ℕ) (out ts : List ℕ) → has t out ≡ false → holding out (t ∷ ts) ≡ t ∷ holding out ts
holding-new t out ts n = rw n refl

-- One more track gives its reference back.
pub holding-cons : (t : ℕ) (out ts : List ℕ) → holding (t ∷ out) ts ≡ forget t (holding out ts)
holding-cons t out [] = refl
holding-cons t out (u ∷ ts) = elim (Bool-cases (has u out)) [
  | inl gone ↦ elim (Bool-cases (u == t)) [
    | inl same ↦ rw (same, gone) (holding-cons t out ts)
    | inr other ↦ rw (other, gone) (holding-cons t out ts)
  ]
  | inr stays ↦ elim (Bool-cases (u == t)) [
    | inl same ↦ rw (same, stays) (rw same (holding-cons t out ts))
    | inr other ↦ rw (other, stays) (rw other (ap (λ us. u ∷ us) (holding-cons t out ts)))
  ]
]

has-forget_other : (u t : ℕ) (ts : List ℕ) → (u == t) ≡ false → has u (forget t ts) ≡ has u ts
has-forget_other u t [] o = refl
has-forget_other u t (v ∷ ts) o = ground (arith, o, has-forget_other u t ts o)

-- A track that has given its reference back leaves the live tracks.
pub holding-forget :
    (t : ℕ) (out ts : List ℕ)
    → has t out ≡ true
    → holding (forget t out) (forget t ts) ≡ holding out ts
holding-forget t out [] h = refl
holding-forget t out (u ∷ ts) h = elim (Bool-cases (u == t)) [
  | inl same ↦
      rw (same, subst (λ x. has x out ≡ true) (sym ((==_iff u t).0 same)) h)
        (holding-forget t out ts h)
  | inr other ↦
      rw (other, has-forget_other u t out other)
        (elim (Bool-cases (has u out)) [
          | inl gone ↦ rw gone (holding-forget t out ts h)
          | inr stays ↦ rw stays (ap (λ us. u ∷ us) (holding-forget t out ts h))
        ])
]
