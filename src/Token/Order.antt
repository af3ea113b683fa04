-- ===== src/Token/Order.antt =====
-- token/lexer.go: `Tokenize` stops, and the tokens that it returns follow one another.
use sqls.Base.{
  List, [], arith, inl, inr, length, refl, some, suc, sym, zero, ℕ, ◌++◌, ◌<◌, ◌∷◌, ◌≡◌, ◌≢◌, ◌⊎◌,
}
use sqls.Dialect.Rules.{Dialect}
use sqls.Token.Pos.{Pos, compare_pos, less}
use sqls.Token.Step.{Tokenizer, Outcome, eof, illegal_sequence, token, unclosed_comment}
use sqls.Token.Lexer.{next}
use sqls.Token.Stream.{
  Token, next_token, out_of_fuel, pos_of, tokenize_loop, Tokens, collect, token_of, tokenize,
  new_tokenizer, length-skip_bom,
}
use sqls.Token.Progress.{next-Moves}
use sqls.Token.Advance.{Lt, Moves}

-- Each token begins where the one before it ends, the first at `p`, and ends behind its own start.
abbrev pub ChainsTo : Pos → List Token → Pos → Type 0
ChainsTo p [] q = p ≡ q
ChainsTo p (k ∷ ks) q = (k.from ≡ p) × (compare_pos k.from k.to ≡ less) × ChainsTo k.to ks q

ChainsTo-append :
    (p : Pos) (ks : List Token) (k : Token)
    → ChainsTo p ks k.from
    → compare_pos k.from k.to ≡ less
    → ChainsTo p (ks ++ k ∷ []) k.to
ChainsTo-append p [] k h l = (sym h, l, refl)
ChainsTo-append p (j ∷ ks) k h l = (h.0, h.1, ChainsTo-append j.to ks k h.2 l)

Lt-less : (t u : Tokenizer) → Lt t u → compare_pos (pos_of t) (pos_of u) ≡ less
unfolding compare_pos
Lt-less t u h = ground arith

abbrev Chained : Pos → List Token → Type 0
Chained p ks = (q : Pos) × ChainsTo p ks q

-- What `next` gives: EOF at the end of the input, else progress.
abbrev pub Goes : Tokenizer → Outcome → Tokenizer → Type 0
Goes t o u = (o ≡ eof) ⊎ ((length u.input < length t.input) × Moves t o u)

collect-Chained :
    (p : Pos) (o : Outcome) (t u : Tokenizer) (ks : List Token) (more : List Token → Tokens)
    → Goes t o u
    → ChainsTo p ks (pos_of t)
    → ((js : List Token) → ChainsTo p js (pos_of u) → Chained p (more js).tokens)
    → Chained p (collect (token_of o (pos_of t) (pos_of u)) ks more).tokens
unfolding collect
collect-Chained p (token k v) t u ks more (inl e) h later = absurd (cc)
collect-Chained p (token k v) t u ks more (inr g) h later =
    later _ (ChainsTo-append p ks _ h (Lt-less t u g.1))
collect-Chained p eof t u ks more g h later = (pos_of t, h)
collect-Chained p illegal_sequence t u ks more g h later = (p, refl)
collect-Chained p (unclosed_comment s) t u ks more (inl e) h later = absurd (cc)
collect-Chained p (unclosed_comment s) t u ks more (inr g) h later =
    (pos_of u, ChainsTo-append p ks _ h (Lt-less t u g.1.0))

collect-fuel :
    (o : Outcome) (t u : Tokenizer) (ks : List Token) (more : List Token → Tokens)
    → Goes t o u
    → (length u.input < length t.input → (js : List Token) → (more js).error ≢ some out_of_fuel)
    → (collect (token_of o (pos_of t) (pos_of u)) ks more).error ≢ some out_of_fuel
unfolding collect
collect-fuel (token k v) t u ks more (inl e) later = absurd (cc)
collect-fuel (token k v) t u ks more (inr g) later = later g.0 _
collect-fuel eof t u ks more g later = λ e. cc
collect-fuel illegal_sequence t u ks more g later = λ e. cc
collect-fuel (unclosed_comment s) t u ks more g later = λ e. cc

module _ (up : List ℕ → List ℕ) (d : Dialect) where
  pub next-Goes : (t : Tokenizer) → Goes t (next up d t).0 (next up d t).1
  unfolding next
  next-Goes t = go t.input refl
    where
      go : (s : List ℕ) → t.input ≡ s → Goes t (next up d t).0 (next up d t).1
      go [] e = inl (rw e)
      go (r ∷ rest) e = inr (next-Moves up d t (λ n. cc))

  tokenize_loop-Chained :
      (fuel : ℕ) (p : Pos) (ks : List Token) (t : Tokenizer)
      → ChainsTo p ks (pos_of t)
      → Chained p (tokenize_loop up d fuel ks t).tokens
  unfolding tokenize_loop next_token
  tokenize_loop-Chained zero p ks t h = (pos_of t, h)
  tokenize_loop-Chained (suc fuel) p ks t h =
      let n = next up d t in
      collect-Chained p n.0 t n.1 ks (λ js. tokenize_loop up d fuel js n.1) (next-Goes t) h
        (λ js k. tokenize_loop-Chained fuel p js n.1 k)

  -- The loop with enough fuel does not run out of it.
  tokenize_loop-fuel :
      (fuel : ℕ) (ks : List Token) (t : Tokenizer)
      → length t.input < fuel
      → (tokenize_loop up d fuel ks t).error ≢ some out_of_fuel
  unfolding tokenize_loop next_token
  tokenize_loop-fuel zero ks t h = absurd (omega arith)
  tokenize_loop-fuel (suc fuel) ks t h =
      let n = next up d t in
      collect-fuel n.0 t n.1 ks (λ js. tokenize_loop up d fuel js n.1) (next-Goes t)
        (λ g js. tokenize_loop-fuel fuel js n.1 (omega arith))

  -- `Tokenize` stops on every text of every dialect.
  pub tokenize-ne-out_of_fuel : (src : List ℕ) → (tokenize up d src).error ≢ some out_of_fuel
  unfolding tokenize
  tokenize-ne-out_of_fuel src =
      tokenize_loop-fuel (suc (length src)) [] (new_tokenizer src)
        (omega (arith, length-skip_bom src))

  -- The tokens that `Tokenize` returns, with an error or without, follow one another from line 0 and
  -- column 0: each begins where the one before it ends, and `ComparePos` puts its start before its end.
  pub tokenize-ChainsTo :
      (src : List ℕ)
      → (q : Pos) × ChainsTo (record { line = 0; col = 0 }) (tokenize up d src).tokens q
  unfolding tokenize
  tokenize-ChainsTo src = tokenize_loop-Chained (suc (length src)) _ [] (new_tokenizer src) refl
