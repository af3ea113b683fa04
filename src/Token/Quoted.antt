-- ===== src/Token/Quoted.antt =====
-- token/lexer.go: the loops that scan quoted text, delimited identifiers and comments. Each takes the
-- runes that the scanner has still to give, and returns what is left of them.
use sqls.Base.{
  Bool, List, [], false, if◌then◌else◌, length, not, true, ℕ, ◌&&◌, ◌++◌, ◌+◌, ◌==◌, ◌∷◌,
}

-- The variables of the loop of `tokenizeQuotedString`, at its end.
pub record Scanned : Type 0 where
  pub str : List ℕ
  pub cols : ℕ
  pub closed : Bool
  pub left : List ℕ

-- What a round adds to the text and to the columns, before the later rounds.
abbrev pub read : List ℕ → ℕ → Scanned → Scanned
read runes n r = record r { str = runes ++ r.str; cols = n + r.cols }

abbrev pub stop : Bool → ℕ → List ℕ → Scanned
stop closed cols left = record { str = []; cols = cols; closed = closed; left = left }

-- `tokenizeQuotedString`: the loop, behind the opening quote.
unfoldable pub quoted_loop : ℕ → Bool → List ℕ → Scanned
quoted_loop quote preserve [] = stop false 0 []
quoted_loop quote preserve (n ∷ []) =
    if n == quote then stop true 1 [] else read (n ∷ []) 1 (stop false 0 [])
quoted_loop quote preserve (n ∷ m ∷ rest) =
    let doubled = quoted_loop quote preserve rest in
    let single = quoted_loop quote preserve (m ∷ rest) in
    if n == quote
    then (if m == quote
        then read (if preserve then quote ∷ quote ∷ [] else quote ∷ []) 2 doubled
        else stop true 1 (m ∷ rest))
    else read (n ∷ []) 1 single

-- The string that `tokenizeQuotedString` returns.
abbrev pub quoted_text : ℕ → Scanned → List ℕ
quoted_text quote r = if r.closed then quote ∷ r.str ++ quote ∷ [] else quote ∷ r.str

-- `tokenizeDelimitedIdentifier`: the loop, behind the opening quote.
unfoldable pub delimited_loop : ℕ → Bool → List ℕ → Scanned
delimited_loop end whole [] = stop false 0 []
delimited_loop end whole (n ∷ []) =
    if whole && n == b'\n'
    then stop false 0 (n ∷ [])
    else if n == end
    then stop true 0 []
    else read (n ∷ []) 1 (stop false 0 [])
delimited_loop end whole (n ∷ m ∷ rest) =
    let doubled = delimited_loop end whole rest in
    let single = delimited_loop end whole (m ∷ rest) in
    if whole && n == b'\n'
    then stop false 0 (n ∷ m ∷ rest)
    else if n == end
    then (if whole && m == end then read (end ∷ end ∷ []) 2 doubled else stop true 0 (m ∷ rest))
    else if not whole && m == b' '
    then read (n ∷ []) 1 (stop false 0 (m ∷ rest))
    else read (n ∷ []) 1 single

-- `Line`, `Col` and `lastWasCR`.
pub record Cursor : Type 0 where
  pub line : ℕ
  pub col : ℕ
  pub last_was_cr : Bool

unfoldable pub advance_quoted_rune : ℕ → Cursor → Cursor
advance_quoted_rune r t =
    if r == b'\r'
    then record { line = t.line + 1; col = 0; last_was_cr = true }
    else if r == b'\n'
    then record {
      line = if t.last_was_cr then t.line else t.line + 1;
      col = 0;
      last_was_cr = false;
    }
    else record { line = t.line; col = t.col + 1; last_was_cr = false }

-- The result of a loop that moves the tokenizer's position.
pub record Moved : Type 0 where
  pub str : List ℕ
  pub closed : Bool
  pub cursor : Cursor
  pub left : List ℕ

abbrev pub add : List ℕ → Moved → Moved
add runes r = record r { str = runes ++ r.str }

abbrev pub halt : Bool → Cursor → List ℕ → Moved
halt closed t left = record { str = []; closed = closed; cursor = t; left = left }

-- `tokenizeEscapeQuotedString`: the loop, behind the opening quote.
unfoldable pub escape_loop : Cursor → List ℕ → Moved
escape_loop t [] = halt false t []
escape_loop t (n ∷ []) =
    let t' = advance_quoted_rune n t in
    if n == b'\'' then halt true t' [] else add (n ∷ []) (halt false t' [])
escape_loop t (n ∷ m ∷ rest) =
    let t' = advance_quoted_rune n t in
    let both = escape_loop (advance_quoted_rune m t') rest in
    let quotes = escape_loop (advance_quoted_rune b'\'' t') rest in
    let one = escape_loop t' (m ∷ rest) in
    if n == b'\\'
    then add (n ∷ m ∷ []) both
    else if n == b'\''
    then (if m == b'\'' then add (b'\'' ∷ b'\'' ∷ []) quotes else halt true t' (m ∷ rest))
    else add (n ∷ []) one

-- `tokenizeMultilineComment`: the loop, behind the opening; `may` is `mayBeClosingComment`.
abbrev pub star_if : Bool → List ℕ
star_if may = if may then b'*' ∷ [] else []

-- What a round appends to `str` if it does not close the comment.
abbrev pub comment_part : Bool → ℕ → List ℕ
comment_part may n = star_if may ++ (if n == b'*' then [] else n ∷ [])

abbrev pub comment_line : Cursor → Cursor
comment_line t = record t { line = t.line + 1; col = 0 }

abbrev pub comment_cursor : ℕ → Cursor → Cursor
comment_cursor n t =
    if n == b'\r'
    then comment_line t
    else if n == b'\n'
    then comment_line t
    else record t { col = t.col + 1 }

unfoldable pub comment_loop : Bool → Cursor → List ℕ → Moved
comment_loop may t [] = add (star_if may) (halt false t [])
comment_loop may t (n ∷ []) =
    let later = comment_loop (n == b'*') (comment_cursor n t) [] in
    if may && n == b'/' then halt true (comment_cursor n t) [] else add (comment_part may n) later
comment_loop may t (n ∷ m ∷ rest) =
    let crlf = comment_loop false (comment_cursor n t) rest in
    let later = comment_loop (n == b'*') (comment_cursor n t) (m ∷ rest) in
    if may && n == b'/'
    then halt true (comment_cursor n t) (m ∷ rest)
    else if n == b'\r' && m == b'\n'
    then add (comment_part may n) crlf
    else add (comment_part may n) later

-- `runesPrefix(value, prefix)`
abbrev pub runes_prefix : List ℕ → List ℕ → Bool
runes_prefix [] prefix = true
runes_prefix (v ∷ value) [] = false
runes_prefix (v ∷ value) (p ∷ prefix) = v == p && runes_prefix value prefix

-- The inner loop of `tokenizeDollarQuotedString`: the runes that leave `pending`, and what stays.
unfoldable pub shed : List ℕ → List ℕ → List ℕ × List ℕ
shed delimiter [] = ([], [])
shed delimiter (p ∷ pending) =
    let (out, keep) = shed delimiter pending in
    if runes_prefix (p ∷ pending) delimiter then ([], p ∷ pending) else (p ∷ out, keep)

-- The outer loop, with `pending`; the closing delimiter is not part of `str`.
unfoldable pub dollar_loop : List ℕ → List ℕ → Cursor → List ℕ → Moved
dollar_loop delimiter pending t [] = add pending (halt false t [])
dollar_loop delimiter pending t (r ∷ rest) =
    let (out, keep) = shed delimiter (pending ++ r ∷ []) in
    let later = dollar_loop delimiter keep (advance_quoted_rune r t) rest in
    if length keep == length delimiter
    then add out (halt true (advance_quoted_rune r t) rest)
    else add out later
