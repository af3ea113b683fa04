-- ===== src/QueryParams/Binding.antt =====
-- internal/queryparams/value.go: when `Bind` succeeds.
use sqls.Base.{
  All, All-mono, Distinct, List, [], ap, arith, contains, eqb_comm, false, refl, sym, true, ℕ, ◌||◌,
  ◌↔◌, ◌∷◌, ◌≡◌,
}
use sqls.QueryParams.Scan.{Parameter, Batch}
use sqls.QueryParams.Keys.{param_keys}
use sqls.QueryParams.Value.{◌>>=◌, Value, done, Argument, GoLib, convert, done-bind, done-injective}
use sqls.QueryParams.Bind.{
  check_required, check_values, key_of, keys_of, arguments, bind, convert_all,
}

module _ (lib : GoLib) where
  abbrev Unseen : List (List ℕ) → List Value → Type 0
  Unseen seen = All (λ (v : Value). contains seen (key_of lib v) ≡ false)

  abbrev pub Used : List (List ℕ) → List Value → Type 0
  Used required = All (λ (v : Value). contains required (key_of lib v) ≡ true)

  -- What the first loop checks, for the values behind those that are seen.
  record IsFresh (required seen : List (List ℕ)) (vs : List Value) : Type 0 where
    used : Used required vs
    unseen : Unseen seen vs
    distinct : Distinct (keys_of lib vs)

  Unseen-cons :
      (k : List ℕ) (seen : List (List ℕ)) (vs : List Value)
      → Unseen (k ∷ seen) vs
      → Unseen seen vs × (contains (keys_of lib vs) k ≡ false)
  Unseen-cons k seen [] h = (tt, refl)
  Unseen-cons k seen (v ∷ vs) h =
      let r = Unseen-cons k seen vs h.1 in
      ((ground arith, r.0), ground (arith, eqb_comm k (key_of lib v), h.0, r.1))

  Unseen-cons_intro :
      (k : List ℕ) (seen : List (List ℕ)) (vs : List Value)
      → Unseen seen vs
      → contains (keys_of lib vs) k ≡ false
      → Unseen (k ∷ seen) vs
  Unseen-cons_intro k seen [] h e = tt
  Unseen-cons_intro k seen (v ∷ vs) h e = (
    ground (arith, eqb_comm k (key_of lib v), h.0),
    Unseen-cons_intro k seen vs h.1 (ground arith),
  )

  -- A round of the loop that goes on.
  check_values-step :
      (required seen : List (List ℕ)) (v : Value) (vs : List Value) {all : List (List ℕ)}
      → check_values lib required seen (v ∷ vs) ≡ done all
      → (contains required (key_of lib v) ≡ true)
        × (contains seen (key_of lib v) ≡ false)
        × (check_values lib required (key_of lib v ∷ seen) vs ≡ done all)
  unfolding check_values
  check_values-step required seen v vs e = ground arith

  check_values-IsFresh :
      (required seen : List (List ℕ)) (vs : List Value) {all : List (List ℕ)}
      → check_values lib required seen vs ≡ done all
      → IsFresh required seen vs
        × ((k : List ℕ) → contains all k ≡ (contains (keys_of lib vs) k || contains seen k))
  unfolding check_values
  check_values-IsFresh required seen [] e = (
    record { used = tt; unseen = tt; distinct = tt },
    λ k. ap (λ s. contains s k) (sym (done-injective e)),
  )
  check_values-IsFresh required seen (v ∷ vs) e =
      let (u, n, rest) = check_values-step required seen v vs e in
      let (f, same) = check_values-IsFresh required (key_of lib v ∷ seen) vs rest in
      let s = Unseen-cons (key_of lib v) seen vs f.unseen in
      (
        record { used = (u, f.used); unseen = (n, s.0); distinct = (s.1, f.distinct) },
        λ k. ground (arith, same k),
      )

  IsFresh-check_values :
      (required seen : List (List ℕ)) (vs : List Value)
      → IsFresh required seen vs
      → (all : List (List ℕ)) × (check_values lib required seen vs ≡ done all)
  unfolding check_values
  IsFresh-check_values required seen [] h = (seen, refl)
  IsFresh-check_values required seen (v ∷ vs) h =
      let u = Unseen-cons_intro (key_of lib v) seen vs h.unseen.1 h.distinct.0 in
      let (all, e) =
        IsFresh-check_values required (key_of lib v ∷ seen) vs
          (record { used = h.used.1; unseen = u; distinct = h.distinct.1 }) in
      (all, rw (h.used.0, h.unseen.0) e)

  required-step :
      (seen : List (List ℕ)) (p : Parameter) (ps : List Parameter)
      → check_required seen (p ∷ ps) ≡ done tt
      → (contains seen p.key ≡ true) × (check_required seen ps ≡ done tt)
  unfolding check_required
  required-step seen p ps e = ground arith

  check_required_iff :
      (seen : List (List ℕ)) (ps : List Parameter)
      → (check_required seen ps ≡ done tt) ↔ All (λ (p : Parameter). contains seen p.key ≡ true) ps
  unfolding check_required
  check_required_iff seen [] = (λ _. tt, λ _. refl)
  check_required_iff seen (p ∷ ps) =
      let r = check_required_iff seen ps in
      (λ e. let q = required-step seen p ps e in (q.0, r.0 q.1), λ h. rw h.0 (r.1 h.1))

  abbrev pub Converts : Value → Type 0
  Converts v = (a : Argument lib) × (convert lib v ≡ done a)

  pub convert_all-step :
      (v : Value) (vs : List Value) {m : List (List ℕ × Argument lib)}
      → convert_all lib (v ∷ vs) ≡ done m
      → (a : Argument lib) × (n : List (List ℕ × Argument lib)) × (convert lib v ≡ done a)
        × (convert_all lib vs ≡ done n)
        × (m ≡ (key_of lib v, a) ∷ n)
  unfolding convert_all
  convert_all-step v vs e =
      let (a, p, rest) = done-bind _ (convert lib v) e in
      let (n, q, r) = done-bind _ (convert_all lib vs) rest in (a, n, p, q, sym (done-injective r))

  convert_all-Converts :
      (vs : List Value) {m : List (List ℕ × Argument lib)}
      → convert_all lib vs ≡ done m
      → All Converts vs
  convert_all-Converts [] e = tt
  convert_all-Converts (v ∷ vs) e =
      let (a, n, p, q, r) = convert_all-step v vs e in ((a, p), convert_all-Converts vs q)

  Converts-convert_all :
      (vs : List Value)
      → All Converts vs
      → (m : List (List ℕ × Argument lib)) × (convert_all lib vs ≡ done m)
  unfolding convert_all
  Converts-convert_all [] h = ([], refl)
  Converts-convert_all (v ∷ vs) h =
      let (n, e) = Converts-convert_all vs h.1 in ((key_of lib v, h.0.0) ∷ n, rw (h.0.1, e, ◌>>=◌))

  -- What `Bind` asks of the values.
  pub record IsComplete (batch : Batch) (values : List Value) : Type 0 where
    pub used : Used (param_keys batch.parameters) values
    pub distinct : Distinct (keys_of lib values)
    pub covered :
        All (λ (p : Parameter). contains (keys_of lib values) p.key ≡ true) batch.parameters
    pub converts : All Converts values

  -- The steps of a `Bind` that succeeds.
  pub bind-steps :
      (batch : Batch) (values : List Value) {args : List (List (Argument lib))}
      → bind lib batch values ≡ done args
      → (all : List (List ℕ)) × (m : List (List ℕ × Argument lib)) × (check_values lib
            (param_keys batch.parameters)
            []
            values
          ≡ done all)
        × (check_required all batch.parameters ≡ done tt)
        × (convert_all lib values ≡ done m)
        × (args ≡ arguments lib m batch.statements)
  unfolding bind
  bind-steps batch values e =
      let (all, p, e1) = done-bind _ (check_values lib (param_keys batch.parameters) [] values) e in
      let (u, q, e2) = done-bind _ (check_required all batch.parameters) e1 in
      let (m, r, e3) = done-bind _ (convert_all lib values) e2 in
      (all, m, p, q, r, sym (done-injective e3))

  pub bind-IsComplete :
      (batch : Batch) (values : List Value) {args : List (List (Argument lib))}
      → bind lib batch values ≡ done args
      → IsComplete batch values
  bind-IsComplete batch values e =
      let (all, m, p, q, r, s) = bind-steps batch values e in
      let (f, same) = check_values-IsFresh (param_keys batch.parameters) [] values p in
      record {
        used = f.used;
        distinct = f.distinct;
        covered =
            All-mono _ _ batch.parameters (λ x h. ground (arith, same x.key))
              ((check_required_iff all batch.parameters).0 q);
        converts = convert_all-Converts values r;
      }

  IsComplete-bind :
      (batch : Batch) (values : List Value)
      → IsComplete batch values
      → (args : List (List (Argument lib))) × (bind lib batch values ≡ done args)
  unfolding bind
  IsComplete-bind batch values h =
      let (all, p) =
        IsFresh-check_values (param_keys batch.parameters) [] values
          (record { used = h.used; unseen = all-unseen values; distinct = h.distinct }) in
      let (f, same) = check_values-IsFresh (param_keys batch.parameters) [] values p in
      let q =
        (check_required_iff all batch.parameters).1
          (All-mono _ _ batch.parameters (λ x k. ground (arith, same x.key)) h.covered) in
      let (m, r) = Converts-convert_all values h.converts in
      (arguments lib m batch.statements, rw (p, q, r, ◌>>=◌))
    where
      all-unseen : (vs : List Value) → Unseen [] vs
      all-unseen [] = tt
      all-unseen (v ∷ vs) = (refl, all-unseen vs)

  -- `Bind` succeeds exactly when every value is of a parameter of the batch, no two values have one
  -- key, every parameter has a value, and every value converts.
  pub bind-iff_IsComplete :
      (batch : Batch) (values : List Value)
      → ((args : List (List (Argument lib))) × (bind lib batch values ≡ done args))
        ↔ IsComplete batch values
  bind-iff_IsComplete batch values =
      (λ r. bind-IsComplete batch values r.1, IsComplete-bind batch values)
