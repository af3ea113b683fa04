-- ===== src/Metadata/Registry/Accounts.antt =====
-- metadata/registry.go, metadata/budget.go: the references to `StoreBudget`s and the live tracks.
use sqls.Base.{
  ==_iff, Bool, Bool-cases, List, [], ap, arith, false, if_intro, if◌then◌else◌, inl, inr, refl,
  subst, sym, true, ℕ, ◌+◌, ◌-◌, ◌<◌, ◌==◌, ◌∙◌, ◌∷◌, ◌≡◌,
}
use sqls.Metadata.Budget.{Key, same_key}
use sqls.Metadata.Sharing.{IsSound, refs_of}
use sqls.Metadata.Registry.{Registry, RegistryEntry, Track, has, forget, set_at}
use sqls.Metadata.Registry.Steps.{key_of}

-- The live tracks of a key.
abbrev pub live_count : Key → (ℕ → Key) → List ℕ → ℕ
live_count k key [] = 0
live_count k key (t ∷ ts) =
    if same_key (key t) k then live_count k key ts + 1 else live_count k key ts

abbrev pub Different : List ℕ → Type 0
Different [] = Unit
Different (t ∷ ts) = (has t ts ≡ false) × Different ts

-- The tracks that hold a reference to the budget: those whose finalizer has not given it back.
abbrev pub holding : List ℕ → List ℕ → List ℕ
holding returned [] = []
holding returned (t ∷ ts) = if has t returned then holding returned ts else t ∷ holding returned ts

pub record Accounts (r : Registry) : Type 0 where
  pub sound : IsSound r.budget
  pub balanced :
      (k : Key) → refs_of k r.budget ≡ live_count k (key_of r) (holding r.returned r.live_tracks)
  pub once : Different r.live_tracks
  pub pending : (t : ℕ) → has t r.finalizing ≡ true → has t r.live_tracks ≡ true
  pub ended : (t : ℕ) → has t r.returned ≡ true → has t r.finalizing ≡ true

pub live_count-ext :
    (k : Key) (f g : ℕ → Key) (ts : List ℕ)
    → ((t : ℕ) → has t ts ≡ true → f t ≡ g t)
    → live_count k f ts ≡ live_count k g ts
live_count-ext k f g [] e = refl
live_count-ext k f g (t ∷ ts) e =
    rw (e t (has_head t ts), live_count-ext k f g ts (λ u h. e u (has_tail u t ts h))) refl
  where
    has_head : (t : ℕ) (ts : List ℕ) → has t (t ∷ ts) ≡ true
    has_head t ts = ground arith

    has_tail : (u t : ℕ) (ts : List ℕ) → has u ts ≡ true → has u (t ∷ ts) ≡ true
    has_tail u t ts h = ground (arith, h)

forget-absent : (t : ℕ) (ts : List ℕ) → has t ts ≡ false → forget t ts ≡ ts
forget-absent t [] h = refl
forget-absent t (u ∷ ts) h = elim (Bool-cases (u == t)) [
  | inl same ↦ absurd (ground (arith, h, same))
  | inr other ↦ rw other (ap (λ us. u ∷ us) (forget-absent t ts (ground (arith, h, other))))
]

-- A live track counts for its key.
live_count-counted :
    (k : Key) (f : ℕ → Key) (t : ℕ) (ts : List ℕ)
    → has t ts ≡ true
    → same_key (f t) k ≡ true
    → 0 < live_count k f ts
live_count-counted k f t [] h g = cc
live_count-counted k f t (u ∷ ts) h g = elim (Bool-cases (t == u)) [
  | inl same ↦ rw (subst (λ x. same_key (f x) k ≡ true) ((==_iff t u).0 same) g) (omega arith)
  | inr other ↦
      if_intro (λ n. 0 < n) (same_key (f u) k) _ _ (omega arith)
        (live_count-counted k f t ts (ground (arith, h, other)) g)
]

pub live_count-forget :
    (k : Key) (f : ℕ → Key) (t : ℕ) (ts : List ℕ)
    → Different ts
    → has t ts ≡ true
    → live_count k f (forget t ts)
      ≡ (if same_key (f t) k then live_count k f ts - 1 else live_count k f ts)
live_count-forget k f t [] d h = cc
live_count-forget k f t (u ∷ ts) d h = elim (Bool-cases (u == t)) [
  | inl same ↦
      let q : u ≡ t = (==_iff u t).0 same in
      rw same (
        rw (forget-absent t ts (subst (λ x. has x ts ≡ false) q d.0)) (
          subst
            (λ x.
              live_count k f ts
              ≡ (if same_key (f x) k then live_count k f (u ∷ ts) - 1 else live_count k f (u ∷ ts)))
            q (first (same_key (f u) k) (live_count k f ts))))
  | inr other ↦ rw other (
      second (same_key (f u) k) (same_key (f t) k) (live_count k f ts)
        (live_count k f (forget t ts)) (live_count-forget k f t ts d.1 (found h other))
        (live_count-counted k f t ts (found h other)))
]
  where
    first :
        (b : Bool) (n : ℕ)
        → n ≡ (if b then (if b then n + 1 else n) - 1 else (if b then n + 1 else n))
    first true n = omega arith
    first false n = refl

    found : has t (u ∷ ts) ≡ true → (u == t) ≡ false → has t ts ≡ true
    found g o = ground (arith, g, o)

    second :
        (a b : Bool) (n m : ℕ)
        → m ≡ (if b then n - 1 else n)
        → (b ≡ true → 0 < n)
        → (if a then m + 1 else m)
          ≡ (if b then (if a then n + 1 else n) - 1 else (if a then n + 1 else n))
    second true true n m e g = omega (arith, e, g refl)
    second true false n m e g = omega (arith, e)
    second false true n m e g = e
    second false false n m e g = e

has-forget-false : (t u : ℕ) (ts : List ℕ) → has u ts ≡ false → has u (forget t ts) ≡ false
has-forget-false t u [] h = refl
has-forget-false t u (v ∷ ts) h = ground (arith, h, has-forget-false t u ts)

pub Different-forget : (t : ℕ) (ts : List ℕ) → Different ts → Different (forget t ts)
Different-forget t [] d = tt
Different-forget t (u ∷ ts) d = elim (Bool-cases (u == t)) [
  | inl same ↦ rw same (Different-forget t ts d.1)
  | inr other ↦ rw other (has-forget-false t u ts d.0, Different-forget t ts d.1)
]

-- The fields that decide on a track's key.
pub set_at-key :
    (p q : ℕ) (e : RegistryEntry) (f : ℕ → RegistryEntry)
    → e.key ≡ (f p).key
    → (set_at p e f q).key ≡ (f q).key
set_at-key p q e f h = elim (Bool-cases (q == p)) [
  | inl same ↦ rw same (h ∙ ap (λ x. (f x).key) (sym ((==_iff q p).0 same)))
  | inr other ↦ rw other refl
]

pub set_at-entry :
    (p q : ℕ) (k : Track) (f : ℕ → Track)
    → k.entry ≡ (f p).entry
    → (set_at p k f q).entry ≡ (f q).entry
set_at-entry p q k f h = elim (Bool-cases (q == p)) [
  | inl same ↦ rw same (h ∙ ap (λ x. (f x).entry) (sym ((==_iff q p).0 same)))
  | inr other ↦ rw other refl
]
