-- ===== src/Token/RoundTrip.antt =====
-- token/lexer.go: the texts of the tokens that `Tokenize` returns, one behind the other, are the
-- source text.
use sqls.Base.{
  List, [], ap, append-nil, append_assoc, arith, false, if◌then◌else◌, inl, inr, length, refl, some,
  suc, sym, zero, ℕ, ◌++◌, ◌<◌, ◌∙◌, ◌∷◌, ◌≡◌, ◌≢◌,
}
use sqls.Dialect.Rules.{Dialect}
use sqls.Token.Word.{text, word, word_string}
use sqls.Token.Step.{Tokenizer, Outcome, eof, illegal_sequence, token, unclosed_comment}
use sqls.Token.Lexer.{next, next_from}
use sqls.Token.Stream.{
  length-skip_bom, skip_bom, Token, Tokens, collect, illegal_text, new_tokenizer, next_token,
  pos_of, token_of, tokenize, tokenize_loop,
}
use sqls.Token.Verbatim.{has_cr, has_cr-append}
use sqls.Token.Lossless.{Splits, IsVerbatim, spelling, spelling_of}
use sqls.Token.Progress.{next-Moves}
use sqls.Token.Order.{Goes, next-Goes}
use sqls.Token.Reprint.{next_rune-Splits}

-- The source text of a token; an unterminated comment has no end mark.
abbrev pub token_text : Token → List ℕ
token_text k =
    if k.unterminated
    then (elim k.value [ text s ↦ b'/' ∷ b'*' ∷ s | word w ↦ word_string w ])
    else spelling k.kind k.value

abbrev pub print : List Token → List ℕ
print [] = []
print (k ∷ ks) = token_text k ++ print ks

print-append : (ks : List Token) (k : Token) → print (ks ++ k ∷ []) ≡ print ks ++ token_text k
print-append [] k = append-nil (token_text k)
print-append (j ∷ ks) k =
    ap (◌++◌ (token_text j)) (print-append ks k)
    ∙ sym (append_assoc (token_text j) (print ks) (token_text k))

-- One more token, whose text is split off the input.
print-step :
    (ks : List Token) (k : Token) (left input : List ℕ)
    → token_text k ++ left ≡ input
    → print (ks ++ k ∷ []) ++ left ≡ print ks ++ input
print-step ks k left input h =
    ap (λ x. x ++ left) (print-append ks k)
    ∙ append_assoc (print ks) (token_text k) left
    ∙ ap (◌++◌ (print ks)) h

-- The result prints `src`, unless it has the error of an illegal sequence.
abbrev Prints : List ℕ → Tokens → Type 0
Prints src r = r.error ≢ some illegal_text → print r.tokens ≡ src

collect-Prints :
    (o : Outcome) (t u : Tokenizer) (ks : List Token) (more : List Token → Tokens)
    → Goes t o u
    → Splits t.input (o, u)
    → (o ≡ eof → t.input ≡ [])
    → (length u.input < length t.input → (js : List Token) → Prints (print js ++ u.input) (more js))
    → Prints (print ks ++ t.input) (collect (token_of o (pos_of t) (pos_of u)) ks more)
unfolding collect
collect-Prints (token k v) t u ks more (inl e) h _ later = absurd (cc)
collect-Prints (token k v) t u ks more (inr g) h _ later =
    λ ne. later g.0 _ ne ∙ print-step ks _ u.input t.input h
collect-Prints eof t u ks more g h stop later =
    λ _. sym (ap (◌++◌ (print ks)) (stop refl) ∙ append-nil (print ks))
collect-Prints illegal_sequence t u ks more g h _ later = λ ne. absurd (ne refl)
collect-Prints (unclosed_comment s) t u ks more (inl e) h _ later = absurd (cc)
collect-Prints (unclosed_comment s) t u ks more (inr g) h _ later =
    λ _. sym (append-nil _) ∙ print-step ks _ [] t.input (rw g.1.1 at h)

has_cr-skip_bom : (src : List ℕ) → has_cr src ≡ false → has_cr (skip_bom src) ≡ false
has_cr-skip_bom [] h = refl
has_cr-skip_bom (r ∷ rest) h = ground (arith, h)

module _ (up : List ℕ → List ℕ) (d : Dialect) (v : IsVerbatim d) where
  next-Splits : (t : Tokenizer) → has_cr t.input ≡ false → Splits t.input (next up d t)
  unfolding next
  next-Splits t h = go t.input refl h
    where
      go : (s : List ℕ) → t.input ≡ s → has_cr s ≡ false → Splits s (next_from up d t s)
      go [] e k = e
      go (r ∷ rest) e k = next_rune-Splits up d v t r rest k

  next-eof : (t : Tokenizer) → (next up d t).0 ≡ eof → t.input ≡ []
  next-eof t e = go t.input refl
    where
      go : (s : List ℕ) → t.input ≡ s → s ≡ []
      go [] _ = refl
      go (r ∷ rest) q = absurd (rw e at (next-Moves up d t (λ n. cc)).1)

  tokenize_loop-Prints :
      (fuel : ℕ) (ks : List Token) (t : Tokenizer)
      → length t.input < fuel
      → has_cr t.input ≡ false
      → Prints (print ks ++ t.input) (tokenize_loop up d fuel ks t)
  unfolding tokenize_loop next_token
  tokenize_loop-Prints zero ks t l h = absurd (omega arith)
  tokenize_loop-Prints (suc fuel) ks t l h =
      let n = next up d t in
      let s = next-Splits t h in
      collect-Prints n.0 t n.1 ks (λ js. tokenize_loop up d fuel js n.1) (next-Goes up d t) s
        (next-eof t)
        (λ g js.
          tokenize_loop-Prints fuel js n.1 (omega arith)
            (has_cr-append (spelling_of n.0) n.1.input (rw s h)))

  -- A dialect that preserves escapes and scans whole identifiers loses nothing: for a text with no
  -- carriage return the printed tokens are the text without a byte order mark at its start, also
  -- where its last comment is not closed. The one exception is a text with an illegal sequence, for
  -- which `Tokenize` returns no tokens.
  pub print-tokenize :
      (src : List ℕ)
      → has_cr src ≡ false
      → (tokenize up d src).error ≢ some illegal_text
      → print (tokenize up d src).tokens ≡ skip_bom src
  unfolding tokenize
  print-tokenize src h =
      tokenize_loop-Prints (suc (length src)) [] (new_tokenizer src)
        (omega (arith, length-skip_bom src)) (has_cr-skip_bom src h)
