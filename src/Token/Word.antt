-- ===== src/Token/Word.antt =====
-- token/lexer.go: `SQLWord`, its methods, `MakeKeyword`, and the values of tokens. A rune is its code
-- point, and the quote style 0 stands for no quotes. `strings.ToUpper` is the argument `to_upper`,
-- since a delimited word may hold any Unicode text.
use sqls.Base.{List, [], if◌then◌else◌, none, some, ℕ, ◌++◌, ◌==◌, ◌||◌, ◌∷◌}
use sqls.Dialect.Keyword.{KeywordKind, unmatched, match_keyword}
use sqls.Dialect.Rules.{Dialect}

pub record SqlWord : Type 0 where
  pub value : List ℕ
  pub quote_style : ℕ
  pub keyword : List ℕ
  pub kind : KeywordKind

pub data Value : Type 0 where
  text : List ℕ → Value
  word : SqlWord → Value

abbrev pub matching_end_quote : ℕ → ℕ
matching_end_quote q =
    if q == b'"' then b'"' else if q == b'[' then b']' else if q == b'`' then b'`' else 0

-- `(*SQLWord).String`
unfoldable pub word_string : SqlWord → List ℕ
word_string s =
    if s.quote_style == b'"' || s.quote_style == b'[' || s.quote_style == b'`'
    then s.quote_style ∷ s.value ++ matching_end_quote s.quote_style ∷ []
    else if s.quote_style == 0
    then s.value
    else []

module _ (to_upper : List ℕ → List ℕ) where
  -- `MakeKeyword`
  unfoldable pub make_word : List ℕ → ℕ → SqlWord
  make_word w quote = record {
    value = w;
    quote_style = quote;
    keyword = to_upper w;
    kind = if quote == 0 then match_keyword (to_upper w) else unmatched;
  }

  -- `(*Tokenizer).makeKeyword`
  unfoldable pub make_keyword : Dialect → List ℕ → ℕ → SqlWord
  make_keyword d w quote =
      if quote == 0
      then (elim d.match_keyword [
        | none ↦ make_word w quote
        | some f ↦ record (make_word w quote) { kind = f (to_upper w) }
      ])
      else make_word w quote
