-- ===== src/QueryParams/Markers/Bound.antt =====
-- internal/queryparams: what `Compile` and `Bind` give a driver together.
use sqls.Base.{All, List, [], arith, length, refl, sym, ℕ, ◌∙◌, ◌∷◌, ◌≡◌}
use sqls.QueryParams.Scan.{Batch, Statement, ok}
use sqls.QueryParams.Compile.{compile}
use sqls.QueryParams.Value.{Value, Argument, GoLib, done}
use sqls.QueryParams.Bind.{bind}
use sqls.QueryParams.Answers.{Answers, AllAnswers, bind-AllAnswers}
use sqls.QueryParams.Markers.{markers, code}
use sqls.QueryParams.Markers.Statements.{compile-markers}

module _ (lib : GoLib) where
  -- One list of arguments for each statement, with an argument for each marker of its SQL.
  abbrev pub FillsMarkers : List Statement → List (List (Argument lib)) → Type 0
  FillsMarkers [] [] = Unit
  FillsMarkers (t ∷ ts) (row ∷ rows) = (length row ≡ markers code t.sql) × FillsMarkers ts rows
  FillsMarkers _ _ = ⊥

  Answers-length :
      (values : List Value) (ks : List (List ℕ)) (row : List (Argument lib))
      → Answers lib values ks row
      → length row ≡ length ks
  Answers-length values [] [] a = refl
  Answers-length values (k ∷ ks) (x ∷ row) a = omega (arith, Answers-length values ks row a.1)
  Answers-length values [] (x ∷ row) a = absurd a
  Answers-length values (k ∷ ks) [] a = absurd a

  AllAnswers-FillsMarkers :
      (values : List Value) (ts : List Statement) (rows : List (List (Argument lib)))
      → AllAnswers lib values ts rows
      → All (λ (t : Statement). markers code t.sql ≡ length t.keys) ts
      → FillsMarkers ts rows
  AllAnswers-FillsMarkers values [] [] a m = tt
  AllAnswers-FillsMarkers values (t ∷ ts) (row ∷ rows) a m = (
    Answers-length values t.keys row a.0 ∙ sym m.0,
    AllAnswers-FillsMarkers values ts rows a.1 m.1,
  )
  AllAnswers-FillsMarkers values [] (row ∷ rows) a m = absurd a
  AllAnswers-FillsMarkers values (t ∷ ts) [] a m = absurd a

  -- Where `Compile` takes a text and `Bind` its values, a driver gets one list of arguments for each
  -- statement, with exactly as many arguments as it finds `?` in the code of the statement's SQL.
  pub bind-FillsMarkers :
      (text : List ℕ) (batch : Batch) (values : List Value) {args : List (List (Argument lib))}
      → compile text ≡ ok batch
      → bind lib batch values ≡ done args
      → FillsMarkers batch.statements args
  bind-FillsMarkers text batch values {args} c e =
      AllAnswers-FillsMarkers values batch.statements args
        (bind-AllAnswers lib text batch values c e) (compile-markers text c)
