-- ===== src/Metadata/Registry/Maps.antt =====
-- metadata/registry.go: the maps of a registry.
use sqls.Base.{List, [], arith, eqb_refl, eqb_sound, false, none, refl, true, ℕ, ◌==◌, ◌∷◌, ◌≡◌}
use sqls.Metadata.Budget.{Key, same_key}
use sqls.Metadata.Stores.{same_key_sound}
use sqls.Metadata.Registry.{
  Scope, same_scope, find_entry, delete_entry, find_track, delete_track, has, forget,
}

pub same_scope_sound : (a b : Scope) → same_scope a b ≡ true → a ≡ b
same_scope_sound a b e = cc (
  eqb_sound a.principal b.principal (ground arith),
  eqb_sound a.role b.role (ground arith),
  eqb_sound a.text_policy b.text_policy (ground arith),
)

pub same_scope_refl : (a : Scope) → same_scope a a ≡ true
same_scope_refl a = rw (eqb_refl a.principal, eqb_refl a.role, eqb_refl a.text_policy) refl

same_key-apart : (e j k : Key) → same_key e j ≡ true → same_key j k ≡ false → same_key e k ≡ false
same_key-apart e j k p q = rw (same_key_sound e j p) q

same_scope-apart :
    (e j k : Scope) → same_scope e j ≡ true → same_scope j k ≡ false → same_scope e k ≡ false
same_scope-apart e j k p q = rw (same_scope_sound e j p) q

pub find_entry-delete_other :
    (j k : Key) (es : List (Key × ℕ))
    → same_key j k ≡ false
    → find_entry k (delete_entry j es) ≡ find_entry k es
find_entry-delete_other j k [] d = refl
find_entry-delete_other j k ((i, e) ∷ es) d =
    ground (arith, find_entry-delete_other j k es d, same_key-apart i j k)

pub find_entry-delete_same :
    (k : Key) (es : List (Key × ℕ)) → find_entry k (delete_entry k es) ≡ none
find_entry-delete_same k [] = refl
find_entry-delete_same k ((i, e) ∷ es) = ground (arith, find_entry-delete_same k es)

pub find_track-delete_other :
    (j k : Scope) (es : List (Scope × ℕ))
    → same_scope j k ≡ false
    → find_track k (delete_track j es) ≡ find_track k es
find_track-delete_other j k [] d = refl
find_track-delete_other j k ((i, e) ∷ es) d =
    ground (arith, find_track-delete_other j k es d, same_scope-apart i j k)

pub find_track-delete_same :
    (k : Scope) (es : List (Scope × ℕ)) → find_track k (delete_track k es) ≡ none
find_track-delete_same k [] = refl
find_track-delete_same k ((i, e) ∷ es) = ground (arith, find_track-delete_same k es)

pub has-forget :
    (t u : ℕ) (us : List ℕ) → (t == u) ≡ false → has t us ≡ true → has t (forget u us) ≡ true
has-forget t u [] d h = h
has-forget t u (v ∷ us) d h = ground (arith, has-forget t u us d)

pub forget-has : (t u : ℕ) (us : List ℕ) → has t (forget u us) ≡ true → has t us ≡ true
forget-has t u [] h = h
forget-has t u (v ∷ us) h = ground (arith, forget-has t u us)

pub has-forget_same : (t : ℕ) (us : List ℕ) → has t (forget t us) ≡ false
has-forget_same t [] = refl
has-forget_same t (v ∷ us) = ground (arith, has-forget_same t us)
