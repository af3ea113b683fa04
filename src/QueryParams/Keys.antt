-- ===== src/QueryParams/Keys.antt =====
-- internal/queryparams/scan.go: what `Compile` promises of `Parameters` and of the keys of the
-- statements.
use sqls.Base.{
  All, All-append, All-mono, Bool, Bool-cases, Distinct, Distinct-append, List, [], ap, arith,
  contains, contains-append, eqb_refl, false, if◌then◌else◌, inl, inr, not, refl, subst, sym,
  to_upper, trim, true, ℕ, ◌&&◌, ◌++◌, ◌∙◌, ◌∷◌, ◌≡◌,
}
use sqls.QueryParams.Scan.{
  bind-ok, Batch, Fragment, Parameter, Result, Scan, ScanState, Statement, emit, err,
  finish_fragment, new_parameter, note_parameter, ok, placeholder, scan_text, unsupported_statement,
}
use sqls.QueryParams.Scan.Rules.{Ensures, scan_text-keeps}
use sqls.QueryParams.Trivia.{supported_statement_start}
use sqls.QueryParams.Compile.{collect, compile, has_marker, is_trivia, statement_of}

abbrev pub param_keys : List Parameter → List (List ℕ)
param_keys [] = []
param_keys (p ∷ ps) = p.key ∷ param_keys ps

param_keys-append :
    (ps : List Parameter) (p : Parameter) → param_keys (ps ++ p ∷ []) ≡ param_keys ps ++ p.key ∷ []
param_keys-append [] p = refl
param_keys-append (q ∷ ps) p = ap (◌∷◌ q.key) (param_keys-append ps p)

-- Every key of a list is in the set.
abbrev pub Covered : List (List ℕ) → List (List ℕ) → Type 0
Covered set = All (λ k. contains set k ≡ true)

abbrev pub CanonicalKey : Parameter → Type 0
CanonicalKey p = p.key ≡ to_upper p.name

record IsSound (s : Scan) : Type 0 where
  open_keys : Covered (param_keys s.parameters) s.keys
  closed_keys : All (λ (f : Fragment). Covered (param_keys s.parameters) f.keys) s.fragments
  same : (k : List ℕ) → contains s.seen k ≡ contains (param_keys s.parameters) k
  distinct : Distinct (param_keys s.parameters)
  canonical : All CanonicalKey s.parameters

Covered-grow :
    (set : List (List ℕ)) (j : List ℕ) (ks : List (List ℕ))
    → Covered set ks
    → Covered (set ++ j ∷ []) ks
Covered-grow set j ks = All-mono _ _ ks (λ k h. ground (arith, contains-append set (j ∷ []) k))

emit-IsSound :
    (s : Scan) (bytes : List ℕ) (next : ScanState) → IsSound s → IsSound (emit s bytes next)
unfolding emit
emit-IsSound s bytes next h = record {
  open_keys = h.open_keys;
  closed_keys = h.closed_keys;
  same = h.same;
  distinct = h.distinct;
  canonical = h.canonical;
}

finish_fragment-IsSound : (s : Scan) → IsSound s → IsSound (finish_fragment s)
unfolding finish_fragment
finish_fragment-IsSound s h = record {
  open_keys = tt;
  closed_keys = All-append _ s.fragments _ h.closed_keys (h.open_keys, tt);
  same = h.same;
  distinct = h.distinct;
  canonical = h.canonical;
}

-- A name that is seen already.
module _ (s : Scan) (name : List ℕ) (h : IsSound s) where
  placeholder-IsSound_old : contains s.seen (to_upper name) ≡ true → IsSound (placeholder s name)
  unfolding placeholder note_parameter
  placeholder-IsSound_old e = rw e (record {
    open_keys = All-append _ s.keys _ h.open_keys (sym (h.same (to_upper name)) ∙ e, tt);
    closed_keys = h.closed_keys;
    same = h.same;
    distinct = h.distinct;
    canonical = h.canonical;
  })

  grown :
      param_keys (s.parameters ++ new_parameter name ∷ [])
      ≡ param_keys s.parameters ++ to_upper name ∷ []
  grown = param_keys-append s.parameters (new_parameter name)

  -- A name that is not: it becomes a parameter.
  placeholder-IsSound_new : contains s.seen (to_upper name) ≡ false → IsSound (placeholder s name)
  unfolding placeholder note_parameter
  placeholder-IsSound_new e = rw e (record {
    open_keys = rw grown (
        All-append _ s.keys _ (Covered-grow _ (to_upper name) s.keys h.open_keys) (
          ground (
            arith,
            contains-append (param_keys s.parameters) (to_upper name ∷ []) (to_upper name),
            eqb_refl (to_upper name),
          ),
          tt,
        ));
    closed_keys =
        rw grown
          (All-mono _ _ s.fragments (λ f. Covered-grow _ (to_upper name) f.keys) h.closed_keys);
    same = λ k. rw grown (
        ground (arith, contains-append (param_keys s.parameters) (to_upper name ∷ []) k, h.same k));
    distinct = rw grown (
        Distinct-append (param_keys s.parameters) (to_upper name) h.distinct
          (sym (h.same (to_upper name)) ∙ e));
    canonical = All-append _ s.parameters _ h.canonical (refl, tt);
  })

placeholder-IsSound : (s : Scan) (name : List ℕ) → IsSound s → IsSound (placeholder s name)
placeholder-IsSound s name h = elim (Bool-cases (contains s.seen (to_upper name))) [
  | inl e ↦ placeholder-IsSound_old s name h e
  | inr e ↦ placeholder-IsSound_new s name h e
]

scan_text-IsSound : (text : List ℕ) → Ensures IsSound (scan_text text)
scan_text-IsSound text =
    scan_text-keeps IsSound emit-IsSound
      (λ s n h. record {
        open_keys = h.open_keys;
        closed_keys = h.closed_keys;
        same = h.same;
        distinct = h.distinct;
        canonical = h.canonical;
      })
      finish_fragment-IsSound placeholder-IsSound text
      (record { open_keys = tt; closed_keys = tt; same = λ k. refl; distinct = tt; canonical = tt })

-- What holds of every fragment, and so of its statement, holds of the statements collected.
pub collect-All :
    (P : Fragment → Type 0) (Q : Statement → Type 0) (marked : Bool) (fs : List Fragment)
    (out : List Statement)
    → ((f : Fragment) → P f → Q (statement_of f))
    → All P fs
    → All Q out
    → Ensures (All Q) (collect marked fs out)
unfolding collect
collect-All P Q marked [] out g h k = k
collect-All P Q marked (f ∷ fs) out g h k =
    split (is_trivia f) (marked && not (supported_statement_start (trim f.sql))) _ _
      (collect-All P Q marked fs out g h.1 k)
      (collect-All P Q marked fs (out ++ statement_of f ∷ []) g h.1
        (All-append _ out _ k (g f h.0, tt)))
  where
    split :
        (a b : Bool) (same more : Result (List Statement))
        → Ensures (All Q) same
        → Ensures (All Q) more
        → Ensures (All Q) (if a then same else if b then err unsupported_statement else more)
    split true b same more x y = x
    split false true same more x y = tt
    split false false same more x y = y

-- What a batch promises of its keys.
pub record HasSoundKeys (b : Batch) : Type 0 where
  pub distinct : Distinct (param_keys b.parameters)
  pub canonical : All CanonicalKey b.parameters
  pub covered : All (λ (t : Statement). Covered (param_keys b.parameters) t.keys) b.statements

-- For every text that compiles, no two parameters have the same key, each key is its parameter's
-- name in upper case, and each key of each statement is the key of a parameter.
pub compile-HasSoundKeys : (text : List ℕ) {b : Batch} → compile text ≡ ok b → HasSoundKeys b
unfolding compile
compile-HasSoundKeys text e =
    let (s, q, p) = bind-ok _ (scan_text text) e in
    let (ts, v, u) = bind-ok _ (collect (has_marker s.fragments) s.fragments []) q in
    let h : IsSound s = rw p at (scan_text-IsSound text) in
    let cov : All (λ (t : Statement). Covered (param_keys s.parameters) t.keys) ts = rw u at (
      collect-All (λ f. Covered (param_keys s.parameters) f.keys)
        (λ t. Covered (param_keys s.parameters) t.keys) (has_marker s.fragments) s.fragments []
        (λ f k. k) h.closed_keys tt) in
    done v (record { distinct = h.distinct; canonical = h.canonical; covered = cov })
  where
    done : {a b : Batch} → ◌≡◌ {A = Result Batch} (ok a) (ok b) → HasSoundKeys a → HasSoundKeys b
    done {a} {b} v h = subst HasSoundKeys (cc) h
