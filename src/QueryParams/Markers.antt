-- ===== src/QueryParams/Markers.antt =====
-- internal/queryparams/scan.go: the positional markers of a compiled text, as a driver counts them.
pub mod Emits
pub mod Count
pub mod Statements
pub mod Bound
use sqls.Base.{
  Bool, List, [], arith, false, if◌then◌else◌, refl, true, ℕ, ◌&&◌, ◌++◌, ◌+◌, ◌==◌, ◌∷◌, ◌≡◌,
}

-- How a driver reads SQL byte by byte: `dash` and `slash` are code behind a `-` or a `/`, `star` is a
-- comment behind a `*`. A doubled quote closes a literal and opens it again.
pub data Reader : Type 0 where
  code dash slash single double line block star : Reader

abbrev pub opens : ℕ → Reader
opens c =
    if c == b'\''
    then single
    else if c == b'"'
    then double
    else if c == b'-'
    then dash
    else if c == b'/'
    then slash
    else code

abbrev pub feed : Reader → ℕ → Reader
feed code c = opens c
feed dash c = if c == b'-' then line else opens c
feed slash c = if c == b'*' then block else opens c
feed single c = if c == b'\'' then code else single
feed double c = if c == b'"' then code else double
feed line c = if c == b'\n' then code else line
feed block c = if c == b'*' then star else block
feed star c = if c == b'/' then code else if c == b'*' then star else block

abbrev pub is_code : Reader → Bool
is_code code = true
is_code dash = true
is_code slash = true
is_code single = false
is_code double = false
is_code line = false
is_code block = false
is_code star = false

abbrev pub mark : Reader → ℕ → ℕ
mark r c = if is_code r && c == b'?' then 1 else 0

-- The `?` of the code, for a driver in the state `r`.
abbrev pub markers : Reader → List ℕ → ℕ
markers r [] = 0
markers r (c ∷ cs) = mark r c + markers (feed r c) cs

abbrev pub reader : Reader → List ℕ → Reader
reader r [] = r
reader r (c ∷ cs) = reader (feed r c) cs

pub markers-append :
    (r : Reader) (xs ys : List ℕ) → markers r (xs ++ ys) ≡ markers r xs + markers (reader r xs) ys
markers-append r [] ys = omega arith
markers-append r (c ∷ xs) ys = omega (arith, markers-append (feed r c) xs ys)

pub reader-append : (r : Reader) (xs ys : List ℕ) → reader r (xs ++ ys) ≡ reader (reader r xs) ys
reader-append r [] ys = refl
reader-append r (c ∷ xs) ys = reader-append (feed r c) xs ys
