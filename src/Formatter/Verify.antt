-- ===== src/Formatter/Verify.antt =====
-- internal/formatter/verify.go: `verifyFormatted`. `strings.EqualFold` compares the simple case foldings
-- of its arguments: the argument `fold` is that folding. An error that wraps `ErrUnsafeFormat` is a
-- `Refusal`, and `nil` is none.
use sqls.Base.{
  Bool, List, Option, [], codes, contains, eqb, false, if◌then◌else◌, length, none, not, some, true,
  ℕ, ◌&&◌, ◌+◌, ◌==◌, ◌||◌, ◌∷◌,
}
use sqls.Dialect.Keyword.{KeywordKind, unmatched}
use sqls.Dialect.Rules.{Dialect}
use sqls.Token.Kind.{
  sql_keyword, Kind, ampersand, backslash, caret, char, comment, div, eq, gt, gt_eq, illegal, lt,
  lt_eq, minus, mod_sign, mult, multiline_comment, national_string_literal, neq, number, plus,
  single_quoted_string, whitespace,
}
use sqls.Formatter.Kinds.{same_kind}
use sqls.Token.Word.{SqlWord, Value, text, word}
use sqls.Token.Stream.{LexError, Token, tokenize}

pub data Refusal : Type 0 where
  unreadable : LexError → Refusal
  tokens_became : ℕ → ℕ → Refusal
  token_changed tokens_joined tokens_split : ℕ → Refusal

-- `significantToken`
pub record SignificantToken : Type 0 where
  pub tok : Token
  pub spaced : Bool

abbrev pub is_whitespace : Kind → Bool
is_whitespace whitespace = true
is_whitespace k = false

-- The loop of `significantTokens`.
abbrev pub significant : Bool → List Token → List SignificantToken
significant spaced [] = []
significant spaced (t ∷ ts) =
    if is_whitespace t.kind
    then significant true ts
    else record { tok = t; spaced = spaced } ∷ significant false ts

abbrev pub word_like : Kind → Bool
word_like sql_keyword = true
word_like number = true
word_like char = true
word_like single_quoted_string = true
word_like national_string_literal = true
word_like comment = true
word_like multiline_comment = true
word_like k = false

-- `tok.Value != s` for a string `s`
abbrev pub differs : Value → List ℕ → Bool
differs (text v) s = not (eqb v s)
differs (word w) s = true

-- The switch of `operatorLike`; the test is that the value is not "?".
abbrev pub is_operator : Kind → Bool → Bool
is_operator char other = other
is_operator illegal other = true
is_operator eq other = true
is_operator neq other = true
is_operator lt other = true
is_operator gt other = true
is_operator lt_eq other = true
is_operator gt_eq other = true
is_operator plus other = true
is_operator minus other = true
is_operator mult other = true
is_operator div other = true
is_operator caret other = true
is_operator mod_sign other = true
is_operator ampersand other = true
is_operator backslash other = true
is_operator k other = false

abbrev pub operator_like : Token → Bool
operator_like t = is_operator t.kind (differs t.value (codes "?"))

abbrev pub value_string : Value → List ℕ
value_string (text v) = v
value_string (word w) = []

abbrev pub opaque_char : Token → Bool
opaque_char t =
    if not (same_kind t.kind char)
    then false
    else not (eqb (value_string t.value) (codes "|"))
      && not (eqb (value_string t.value) (codes "?"))

-- `identifierKeywords`
abbrev pub identifier_keywords : List (List ℕ)
identifier_keywords = codes "IF" ∷ []

abbrev pub is_unmatched : KeywordKind → Bool
is_unmatched unmatched = true
is_unmatched k = false

-- Words that were separated stay separated, operators that were not stay so.
abbrev pub joined : SignificantToken → SignificantToken → SignificantToken → Bool
joined last want given =
    want.spaced && not given.spaced && word_like last.tok.kind && word_like want.tok.kind

abbrev pub split : SignificantToken → SignificantToken → SignificantToken → Bool
split last want given =
    not want.spaced
    && given.spaced
    && (operator_like last.tok && operator_like want.tok
        || opaque_char last.tok
        || opaque_char want.tok)

-- The tests of a round that look at the token before, where there is one.
abbrev pub compare_gap :
    ℕ → Option SignificantToken → SignificantToken → SignificantToken → Option Refusal
compare_gap i none want given = none
compare_gap i (some last) want given =
    if joined last want given
    then some (tokens_joined i)
    else if split last want given
    then some (tokens_split i)
    else none

-- `significantTokens` on the results of `Tokenize`.
abbrev pub significant_of : Option LexError → List Token → Option LexError × List SignificantToken
significant_of (some e) toks = (some e, [])
significant_of none toks = (none, significant false toks)

-- The error of `significantTokens`, and its result.
abbrev pub significant_tokens :
    (List ℕ → List ℕ) → Dialect → List ℕ → Option LexError × List SignificantToken
significant_tokens to_upper d src =
    let toks = tokenize to_upper d src in significant_of toks.error toks.tokens

module _ (to_upper fold : List ℕ → List ℕ) where
  -- `strings.EqualFold`
  abbrev pub equal_fold : List ℕ → List ℕ → Bool
  equal_fold a b = eqb (fold a) (fold b)

  abbrev pub same_word : SqlWord → SqlWord → Bool
  same_word w g =
      if not (w.quote_style == g.quote_style)
      then false
      else if w.quote_style == 0
          && (not (is_unmatched w.kind) || contains identifier_keywords (to_upper w.value))
      then equal_fold w.value g.value
      else eqb w.value g.value

  abbrev pub same_value : Value → Value → Bool
  same_value (word w) (word g) = same_word w g
  same_value (word w) (text g) = false
  same_value (text w) (word g) = false
  same_value (text w) (text g) = eqb w g

  abbrev pub same_token : Token → Token → Bool
  same_token want given =
      if not (same_kind want.kind given.kind) then false else same_value want.value given.value

  -- The loop over the tokens, from the `i`th on; `last` is the one before.
  unfoldable pub compare :
      ℕ → Option SignificantToken → List SignificantToken → List SignificantToken → Option Refusal
  compare i last (w ∷ ws) (g ∷ gs) =
      if not (same_token w.tok g.tok)
      then some (token_changed i)
      else elim (compare_gap i last w g) [ some r ↦ some r | none ↦ compare (i + 1) (some w) ws gs ]
  compare i last _ _ = none

  unfoldable pub compare_all : List SignificantToken → List SignificantToken → Option Refusal
  unfolding compare
  compare_all want given =
      if not (length given == length want)
      then some (tokens_became (length want) (length given))
      else compare 0 none want given

  -- `verifyFormatted`, on the results of the two calls of `significantTokens`.
  abbrev pub verify_read :
      Option LexError × List SignificantToken
      → Option LexError × List SignificantToken
      → Option Refusal
  verify_read (some e, want) other = some (unreadable e)
  verify_read (none, want) (some e, given) = some (unreadable e)
  verify_read (none, want) (none, given) = compare_all want given

  unfoldable pub verify_formatted : Dialect → List ℕ → List ℕ → Option Refusal
  unfolding compare_all
  verify_formatted d original formatted =
      verify_read (significant_tokens to_upper d original) (significant_tokens to_upper d formatted)
