-- ===== src/Tests/Binding.antt =====
-- internal/queryparams/value.go: runs of `Bind` with values of three types, and its results there.
use sqls.Base.{
  List, String, [], codes, drop_while, length, none, refl, some, to_upper, ℕ, ◌==◌, ◌↔◌, ◌∷◌, ◌≡◌,
}
use sqls.QueryParams.Scan.{Batch, err, ok}
use sqls.QueryParams.Compile.{compile}
use sqls.QueryParams.Value.{
  GoLib, Value, Argument, bound_twice, convert, done, int_argument, invalid_value, negative,
  refused, text_argument,
}
use sqls.QueryParams.Bind.{bind}
use sqls.QueryParams.Binding.{IsComplete, bind-iff_IsComplete}
use sqls.QueryParams.Markers.Statements.{compile-markers, HasMarkers}
use sqls.QueryParams.Markers.Bound.{bind-FillsMarkers, FillsMarkers}
use sqls.QueryParams.Answers.{AllAnswers, bind-AllAnswers}

-- A stand-in for Go's library: a blank at the start is dropped, a float is the number of its bytes,
-- and only ASCII letters have an upper case.
abbrev lib : GoLib
lib = record {
  Float = ℕ;
  Time = List ℕ;
  trim_space = drop_while (λ c. c == 32);
  to_upper = to_upper;
  parse_float = λ s. some (length s);
  parse_date = λ s. some s;
  parse_timestamp = λ s. none;
}

abbrev text : List ℕ
text = codes "select :a from t where x=:A;insert into y values (:b)"

abbrev batch : Batch
batch = elim (compile text) [ ok b ↦ b | err e ↦ record { parameters = []; statements = [] } ]

compile-text : compile text ≡ ok batch
unfolding compile
compile-text = refl

abbrev value : String → String → String → Value
value n t v = record { name = codes n; type = codes t; value = codes v }

abbrev values : List Value
values = value "B" "integer" " -42" ∷ value "a" "text" " x" ∷ []

abbrev bound_arguments : List (List (Argument lib))
bound_arguments =
    (text_argument (codes " x") ∷ text_argument (codes " x") ∷ [])
    ∷ (int_argument (negative 42) ∷ [])
    ∷ []

bind-values : bind lib batch values ≡ done bound_arguments
unfolding bind compile convert
bind-values = refl

bind-twice : bind lib batch (value "A" "null" "" ∷ values) ≡ refused (bound_twice (codes "a"))
unfolding bind compile
bind-twice = refl

convert-too_large :
    convert lib (value "n" "integer" "9223372036854775808") ≡ refused (invalid_value (codes "n"))
unfolding convert
convert-too_large = refl

convert-smallest :
    convert lib (value "n" "integer" "-9223372036854775808")
    ≡ done (int_argument (negative 9223372036854775808))
unfolding convert
convert-smallest = refl

bind-iff_IsComplete_example :
    ((args : List (List (Argument lib))) × (bind lib batch values ≡ done args))
    ↔ IsComplete lib batch values
bind-iff_IsComplete_example = bind-iff_IsComplete lib batch values

bind-AllAnswers_example : AllAnswers lib values batch.statements bound_arguments
bind-AllAnswers_example = bind-AllAnswers lib text batch values compile-text bind-values

compile-markers_example : HasMarkers batch
compile-markers_example = compile-markers text compile-text

bind-FillsMarkers_example : FillsMarkers lib batch.statements bound_arguments
bind-FillsMarkers_example = bind-FillsMarkers lib text batch values compile-text bind-values
