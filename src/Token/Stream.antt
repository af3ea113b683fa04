-- ===== src/Token/Stream.antt =====
-- token/lexer.go: `NextToken` and `Tokenize`.
use sqls.Base.{
  Bool, List, Option, [], arith, false, if◌then◌else◌, length, none, some, suc, true, zero, ℕ, ◌++◌,
  ◌==◌, ◌∷◌, ◌≤◌,
}
use sqls.Dialect.Rules.{Dialect}
use sqls.Token.Kind.{Kind, illegal, multiline_comment}
use sqls.Token.Pos.{Pos}
use sqls.Token.Word.{Value, text}
use sqls.Token.Step.{Tokenizer, Outcome, eof, illegal_sequence, token, unclosed_comment}
use sqls.Token.Lexer.{next}

pub record Token : Type 0 where
  pub kind : Kind
  pub value : Value
  pub from : Pos
  pub to : Pos
  pub unterminated : Bool

-- `(*Tokenizer).Pos`
abbrev pub pos_of : Tokenizer → Pos
pos_of t = record { line = t.line; col = t.col }

pub data LexError : Type 0 where
  unclosed_multiline_comment illegal_text : LexError
  -- the model's own: the loop of `Tokenize` was cut short
  out_of_fuel : LexError

-- The results of `NextToken`: a token, `io.EOF`, or a token with an error.
pub data NextToken : Type 0 where
  got : Token → NextToken
  end_of_file : NextToken
  failed : LexError → Token → NextToken

abbrev pub token_of : Outcome → Pos → Pos → NextToken
token_of (token k v) from to =
    got (record { kind = k; value = v; from = from; to = to; unterminated = false })
token_of eof from to = end_of_file
token_of (unclosed_comment str) from to = failed unclosed_multiline_comment (record {
  kind = multiline_comment;
  value = text str;
  from = from;
  to = to;
  unterminated = true;
})
token_of illegal_sequence from to =
    failed illegal_text
      (record { kind = illegal; value = text []; from = from; to = to; unterminated = false })

-- The results of `Tokenize`.
pub record Tokens : Type 0 where
  pub tokens : List Token
  pub error : Option LexError

-- The scanner of text/scanner ignores a byte order mark, U+FEFF, at the start of its source.
abbrev pub skip_bom : List ℕ → List ℕ
skip_bom [] = []
skip_bom (r ∷ rest) = if r == 65279 then rest else r ∷ rest

-- `NewTokenizer`
abbrev pub new_tokenizer : List ℕ → Tokenizer
new_tokenizer src = record { input = skip_bom src; line = 0; col = 0 }

pub length-skip_bom : (src : List ℕ) → length (skip_bom src) ≤ length src
length-skip_bom [] = omega arith
length-skip_bom (r ∷ rest) = ground arith

-- What a round of the loop of `Tokenize` does with the results of `NextToken`; `more` are the later
-- rounds.
unfoldable pub collect : NextToken → List Token → (List Token → Tokens) → Tokens
collect (got k) tokenset more = more (tokenset ++ k ∷ [])
collect end_of_file tokenset more = record { tokens = tokenset; error = none }
collect (failed e k) tokenset more =
    if k.unterminated
    then record { tokens = tokenset ++ k ∷ []; error = some e }
    else record { tokens = []; error = some e }

module _ (to_upper : List ℕ → List ℕ) (d : Dialect) where
  unfoldable pub next_token : Tokenizer → NextToken × Tokenizer
  unfolding next
  next_token t = let (o, t') = next to_upper d t in (token_of o (pos_of t) (pos_of t'), t')

  -- The loop of `Tokenize`, on the tokens that it has collected.
  unfoldable pub tokenize_loop : ℕ → List Token → Tokenizer → Tokens
  tokenize_loop zero tokenset t = record { tokens = tokenset; error = some out_of_fuel }
  tokenize_loop (suc fuel) tokenset t =
      let (n, t') = next_token t in collect n tokenset (λ ts. tokenize_loop fuel ts t')

  -- `Tokenize` on a new tokenizer.
  unfoldable pub tokenize : List ℕ → Tokens
  unfolding tokenize_loop next_token collect
  tokenize src = tokenize_loop (suc (length src)) [] (new_tokenizer src)
