-- ===== src/QueryParams/Answers.antt =====
-- internal/queryparams/value.go: what the arguments are that `Bind` gives.
use sqls.Base.{
  All, All-mono, Bool-cases, List, [], arith, contains, eqb, eqb_sound, inl, inr, map, refl, subst,
  true, ℕ, ◌∷◌, ◌≡◌, ◌⊎◌,
}
use sqls.QueryParams.Scan.{ok, Parameter, Batch, Statement}
use sqls.QueryParams.Compile.{compile}
use sqls.QueryParams.Keys.{param_keys, compile-HasSoundKeys}
use sqls.QueryParams.Value.{Value, done, Argument, GoLib, convert}
use sqls.QueryParams.Bind.{key_of, keys_of, arguments, bind, convert_all, argument}
use sqls.QueryParams.Binding.{bind-steps, bind-IsComplete, convert_all-step}

module _ (lib : GoLib) where
  abbrev pub Among : Value → List Value → Type 0
  Among v [] = ⊥
  Among v (w ∷ ws) = (v ≡ w) ⊎ Among v ws

  -- An argument for each key, and it is the conversion of a value of that key.
  abbrev pub Answers : List Value → List (List ℕ) → List (Argument lib) → Type 0
  Answers values [] [] = Unit
  Answers values (k ∷ ks) (a ∷ rest) =
      ((v : Value) × Among v values × (key_of lib v ≡ k) × (convert lib v ≡ done a))
      × Answers values ks rest
  Answers values _ _ = ⊥

  abbrev pub AllAnswers : List Value → List Statement → List (List (Argument lib)) → Type 0
  AllAnswers values [] [] = Unit
  AllAnswers values (s ∷ ss) (r ∷ rs) = Answers values s.keys r × AllAnswers values ss rs
  AllAnswers values _ _ = ⊥

  convert_all-argument :
      (vs : List Value) (k : List ℕ) {m : List (List ℕ × Argument lib)}
      → convert_all lib vs ≡ done m
      → contains (keys_of lib vs) k ≡ true
      → (v : Value) × Among v vs × (key_of lib v ≡ k) × (convert lib v ≡ done (argument lib m k))
  convert_all-argument [] k e h = cc
  convert_all-argument (v ∷ vs) k e h =
      let (a, n, p, q, r) = convert_all-step lib v vs e in
      elim (Bool-cases (eqb (key_of lib v) k)) [
        | inl same ↦ (v, inl refl, eqb_sound (key_of lib v) k same, rw (r, same) p)
        | inr other ↦
            let (w, among, key, c) = convert_all-argument vs k q (ground arith) in
            (w, inr among, key, rw (r, other) c)
      ]

  arguments-Answers :
      (vs : List Value) {m : List (List ℕ × Argument lib)} (ks : List (List ℕ))
      → convert_all lib vs ≡ done m
      → All (λ k. contains (keys_of lib vs) k ≡ true) ks
      → Answers vs ks (map (argument lib m) ks)
  arguments-Answers vs [] e h = tt
  arguments-Answers vs (k ∷ ks) e h =
      (convert_all-argument vs k e h.0, arguments-Answers vs ks e h.1)

  arguments-AllAnswers :
      (vs : List Value) {m : List (List ℕ × Argument lib)} (ss : List Statement)
      → convert_all lib vs ≡ done m
      → All (λ (s : Statement). All (λ k. contains (keys_of lib vs) k ≡ true) s.keys) ss
      → AllAnswers vs ss (arguments lib m ss)
  arguments-AllAnswers vs [] e h = tt
  arguments-AllAnswers vs (s ∷ ss) e h =
      (arguments-Answers vs s.keys e h.0, arguments-AllAnswers vs ss e h.1)

  Covered-keys_of :
      (vs : List Value) (ps : List Parameter) (k : List ℕ)
      → All (λ (p : Parameter). contains (keys_of lib vs) p.key ≡ true) ps
      → contains (param_keys ps) k ≡ true
      → contains (keys_of lib vs) k ≡ true
  Covered-keys_of vs [] k h e = cc
  Covered-keys_of vs (p ∷ ps) k h e = elim (Bool-cases (eqb p.key k)) [
    | inl same ↦ subst (λ j. contains (keys_of lib vs) j ≡ true) (eqb_sound p.key k same) h.0
    | inr other ↦ Covered-keys_of vs ps k h.1 (ground arith)
  ]

  -- For the batch of a text, `Bind` gives each statement one argument for each of its keys, in order,
  -- and each argument is the conversion of a submitted value of that key: none is nil by omission.
  pub bind-AllAnswers :
      (text : List ℕ) (batch : Batch) (values : List Value) {args : List (List (Argument lib))}
      → compile text ≡ ok batch
      → bind lib batch values ≡ done args
      → AllAnswers values batch.statements args
  bind-AllAnswers text batch values c e =
      let (all, m, p, q, r, s) = bind-steps lib batch values e in
      let h = bind-IsComplete lib batch values e in
      rw s (
        arguments-AllAnswers values batch.statements r (
          All-mono _ _ batch.statements
            (λ t. All-mono _ _ t.keys (λ k. Covered-keys_of values batch.parameters k h.covered))
            (compile-HasSoundKeys text c).covered))
