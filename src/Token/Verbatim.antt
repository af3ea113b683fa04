-- ===== src/Token/Verbatim.antt =====
-- token/lexer.go: the loops over quoted text keep every rune, under a dialect that preserves escapes
-- and scans whole identifiers. The formatter prints tokens again, and relies on it.
use sqls.Base.{
  Bool, List, [], ap, append_assoc, arith, false, if_cases, length, refl, skip, sym, true, ℕ, ◌&&◌,
  ◌++◌, ◌==◌, ◌||◌, ◌∙◌, ◌∷◌, ◌≡◌,
}
use sqls.Token.Quoted.{
  Cursor, advance_quoted_rune, comment_cursor, comment_loop, delimited_loop, dollar_loop,
  escape_loop, quoted_loop, runes_prefix, shed, star_if, Moved, add, comment_part, halt,
}
use sqls.Token.Step.{number_run}

-- The closing delimiter, if it was met, and what is behind it.
abbrev pub closing : Bool → List ℕ → List ℕ → List ℕ
closing true delimiter left = delimiter ++ left
closing false delimiter left = left

pub quoted_loop-verbatim :
    (quote : ℕ) (s : List ℕ)
    → (quoted_loop quote true s).str
        ++ closing (quoted_loop quote true s).closed (quote ∷ []) (quoted_loop quote true s).left
      ≡ s
unfolding quoted_loop
quoted_loop-verbatim quote [] = refl
quoted_loop-verbatim quote (n ∷ []) = ground arith
quoted_loop-verbatim quote (n ∷ m ∷ rest) =
    ground (arith, quoted_loop-verbatim quote rest, quoted_loop-verbatim quote (m ∷ rest))

pub delimited_loop-verbatim :
    (end : ℕ) (s : List ℕ)
    → (delimited_loop end true s).str
        ++ closing (delimited_loop end true s).closed (end ∷ []) (delimited_loop end true s).left
      ≡ s
unfolding delimited_loop
delimited_loop-verbatim end [] = refl
delimited_loop-verbatim end (n ∷ []) = ground arith
delimited_loop-verbatim end (n ∷ m ∷ rest) =
    ground (arith, delimited_loop-verbatim end rest, delimited_loop-verbatim end (m ∷ rest))

abbrev pub has_cr : List ℕ → Bool
has_cr [] = false
has_cr (c ∷ cs) = c == b'\r' || has_cr cs

pub has_cr-skip : (s : List ℕ) → has_cr s ≡ false → has_cr (skip s) ≡ false
has_cr-skip [] h = refl
has_cr-skip (c ∷ s) h = ground arith

pub has_cr-append : (xs ys : List ℕ) → has_cr (xs ++ ys) ≡ false → has_cr ys ≡ false
has_cr-append [] ys h = h
has_cr-append (x ∷ xs) ys h = has_cr-append xs ys (ground arith)

-- The runes that a loop was given are its text, the delimiter if it was met, and what is left.
abbrev pub Whole : List ℕ → List ℕ → Moved → Type 0
Whole delimiter s r = r.str ++ closing r.closed delimiter r.left ≡ s

Whole-add :
    (delimiter runes s : List ℕ) (r : Moved) {s' : List ℕ}
    → runes ++ s ≡ s'
    → Whole delimiter s r
    → Whole delimiter s' (add runes r)
Whole-add delimiter runes s r e h =
    append_assoc runes r.str (closing r.closed delimiter r.left) ∙ ap (◌++◌ runes) h ∙ e

comment_part-append :
    (may : Bool) (n : ℕ) (s : List ℕ)
    → comment_part may n ++ (star_if (n == b'*') ++ s) ≡ star_if may ++ n ∷ s
comment_part-append may n s = ground arith

comment-close :
    (may : Bool) (n : ℕ) (s : List ℕ)
    → (may && n == b'/') ≡ true
    → b'*' ∷ b'/' ∷ s ≡ star_if may ++ n ∷ s
comment-close may n s h = ground arith

abbrev pub closer : List ℕ
closer = b'*' ∷ b'/' ∷ []

abbrev pub CommentWhole : Bool → List ℕ → Moved → Type 0
CommentWhole may s = Whole closer (star_if may ++ s)

pub comment_loop-verbatim :
    (may : Bool) (t : Cursor) (s : List ℕ)
    → has_cr s ≡ false
    → CommentWhole may s (comment_loop may t s)
unfolding comment_loop
comment_loop-verbatim may t [] h = append_assoc (star_if may) [] []
comment_loop-verbatim may t (n ∷ []) h =
    if_cases (CommentWhole may (n ∷ [])) (may && n == b'/') _ _ (comment-close may n []) (λ e.
      Whole-add closer (comment_part may n) (star_if (n == b'*') ++ [])
        (comment_loop (n == b'*') (comment_cursor n t) []) (comment_part-append may n [])
        (comment_loop-verbatim (n == b'*') (comment_cursor n t) [] refl))
comment_loop-verbatim may t (n ∷ m ∷ rest) h =
    if_cases (CommentWhole may (n ∷ m ∷ rest)) (may && n == b'/') _ _
      (comment-close may n (m ∷ rest))
      (λ e.
        if_cases (CommentWhole may (n ∷ m ∷ rest)) (n == b'\r' && m == b'\n') _ _
          (λ k. absurd (ground arith))
          (λ k.
            Whole-add closer (comment_part may n) (star_if (n == b'*') ++ m ∷ rest)
              (comment_loop (n == b'*') (comment_cursor n t) (m ∷ rest))
              (comment_part-append may n (m ∷ rest))
              (comment_loop-verbatim (n == b'*') (comment_cursor n t) (m ∷ rest) (ground arith))))

pub escape_loop-verbatim : (t : Cursor) (s : List ℕ) → Whole (b'\'' ∷ []) s (escape_loop t s)
unfolding escape_loop
escape_loop-verbatim t [] = refl
escape_loop-verbatim t (n ∷ []) = ground arith
escape_loop-verbatim t (n ∷ m ∷ rest) = ground (
  arith,
  escape_loop-verbatim (advance_quoted_rune m (advance_quoted_rune n t)) rest,
  escape_loop-verbatim (advance_quoted_rune b'\'' (advance_quoted_rune n t)) rest,
  escape_loop-verbatim (advance_quoted_rune n t) (m ∷ rest),
)

shed-append :
    (delimiter pending : List ℕ)
    → (shed delimiter pending).0 ++ (shed delimiter pending).1 ≡ pending
unfolding shed
shed-append delimiter [] = refl
shed-append delimiter (p ∷ pending) = ground (arith, shed-append delimiter pending)

shed-prefix :
    (delimiter pending : List ℕ) → runes_prefix (shed delimiter pending).1 delimiter ≡ true
unfolding shed
shed-prefix delimiter [] = refl
shed-prefix delimiter (p ∷ pending) = ground (arith, shed-prefix delimiter pending)

runes_prefix_whole :
    (s delimiter : List ℕ)
    → runes_prefix s delimiter ≡ true
    → length s ≡ length delimiter
    → s ≡ delimiter
runes_prefix_whole [] [] h e = refl
runes_prefix_whole [] (q ∷ ds) h e = absurd (omega arith)
runes_prefix_whole (p ∷ s) [] h e = absurd (omega arith)
runes_prefix_whole (p ∷ s) (q ∷ ds) h e = ground (arith, runes_prefix_whole s ds)

shed-whole :
    (delimiter pending : List ℕ)
    → length (shed delimiter pending).1 ≡ length delimiter
    → (shed delimiter pending).1 ≡ delimiter
shed-whole delimiter pending = runes_prefix_whole _ delimiter (shed-prefix delimiter pending)

-- A rune that enters `pending`.
shed-snoc :
    (delimiter pending : List ℕ) (r : ℕ) (rest : List ℕ)
    → (shed delimiter (pending ++ r ∷ [])).0 ++ ((shed delimiter (pending ++ r ∷ [])).1 ++ rest)
      ≡ pending ++ r ∷ rest
shed-snoc delimiter pending r rest =
    sym (append_assoc (shed delimiter (pending ++ r ∷ [])).0 _ rest)
    ∙ ap (λ x. x ++ rest) (shed-append delimiter (pending ++ r ∷ []))
    ∙ append_assoc pending (r ∷ []) rest

pub dollar_loop-verbatim :
    (delimiter pending : List ℕ) (t : Cursor) (s : List ℕ)
    → Whole delimiter (pending ++ s) (dollar_loop delimiter pending t s)
unfolding dollar_loop
dollar_loop-verbatim delimiter pending t [] = append_assoc pending [] []
dollar_loop-verbatim delimiter pending t (r ∷ rest) =
    let k = shed delimiter (pending ++ r ∷ []) in
    let e = shed-snoc delimiter pending r rest in
    if_cases (Whole delimiter (pending ++ r ∷ rest)) (length k.1 == length delimiter) _ _
      (λ h.
        Whole-add delimiter k.0 (k.1 ++ rest) (halt true (advance_quoted_rune r t) rest) e
          (ap (λ x. x ++ rest) (sym (shed-whole delimiter (pending ++ r ∷ []) (ground arith)))))
      (λ h.
        Whole-add delimiter k.0 (k.1 ++ rest)
          (dollar_loop delimiter k.1 (advance_quoted_rune r t) rest) e
          (dollar_loop-verbatim delimiter k.1 (advance_quoted_rune r t) rest))

pub number_run-verbatim :
    (has_e : Bool) (s : List ℕ) → (number_run has_e s).0 ++ (number_run has_e s).1 ≡ s
unfolding number_run
number_run-verbatim has_e [] = refl
number_run-verbatim has_e (n ∷ []) = ground arith
number_run-verbatim has_e (n ∷ s ∷ rest) = ground (
  arith,
  number_run-verbatim has_e (s ∷ rest),
  number_run-verbatim true (s ∷ rest),
  number_run-verbatim true rest,
)
