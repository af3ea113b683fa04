-- ===== src/QueryParams/Markers/Emits.antt =====
-- internal/queryparams/scan.go: each writing of `Compile` keeps a driver's reading of what is written
-- in step with the state of the scanner.
use sqls.Base.{
  All, All-append, Bool, List, [], arith, false, head_is, length, not, refl, true, ℕ, ◌&&◌, ◌==◌,
  ◌||◌, ◌∷◌, ◌≡◌,
}
use sqls.QueryParams.Scan.{
  ScanState, ordinary, Scan, Fragment, emit, finish_fragment, block_comment, double_quoted,
  line_comment, single_quoted,
}
use sqls.QueryParams.Markers.{
  Reader, reader, markers, block, code, dash, double, line, markers-append, reader-append, single,
  slash, star,
}

-- The driver's state for the scanner's, before the bytes that are left.
abbrev pub fits : ScanState → Reader → List ℕ → Bool
fits ordinary code left = true
fits ordinary dash left = not (head_is b'-' left)
fits ordinary slash left = not (head_is b'*' left)
fits single_quoted single left = true
fits double_quoted double left = true
fits line_comment line left = true
fits block_comment block left = true
fits block_comment star left = not (head_is b'/' left)
fits _ _ left = false

pub record Reads (st : ScanState) (s : Scan) (left : List ℕ) : Type 0 where
  pub fit : fits st (reader code s.out) left ≡ true
  pub count : markers code s.out ≡ length s.keys
  pub closed : All (λ (f : Fragment). markers code f.sql ≡ length f.keys) s.fragments

-- Bytes without a marker, behind which the driver's state fits.
abbrev pub Quiet : Reader → List ℕ → ScanState → List ℕ → Type 0
Quiet r bytes next left = (markers r bytes ≡ 0) × (fits next (reader r bytes) left ≡ true)

pub emit-Reads :
    (st : ScanState) (s : Scan) (bytes : List ℕ) (next : ScanState) (before left : List ℕ)
    → Reads st s before
    → Quiet (reader code s.out) bytes next left
    → Reads next (emit s bytes next) left
unfolding emit
emit-Reads st s bytes next before left h (m, f) = record {
  fit = rw (reader-append code s.out bytes) f;
  count = rw (markers-append code s.out bytes) (omega (arith, h.count, m));
  closed = h.closed;
}

pub finish_fragment-Reads :
    (s : Scan) (before left : List ℕ) (st : ScanState)
    → Reads st s before
    → Reads ordinary (finish_fragment s) left
unfolding finish_fragment
finish_fragment-Reads s before left st h = record {
  fit = refl;
  count = refl;
  closed = All-append _ s.fragments _ h.closed (h.count, tt);
}

-- The bytes that each case of the loop writes.
pub Quiet-quote :
    (r : Reader) (c : ℕ) (rest left : List ℕ)
    → fits ordinary r rest ≡ true
    → (c == b'\'') ≡ true
    → Quiet r (c ∷ []) single_quoted left
Quiet-quote code c rest left h e = ground arith
Quiet-quote dash c rest left h e = ground arith
Quiet-quote slash c rest left h e = ground arith
Quiet-quote _ c rest left h e = cc

pub Quiet-identifier :
    (r : Reader) (c : ℕ) (rest left : List ℕ)
    → fits ordinary r rest ≡ true
    → (c == b'"') ≡ true
    → Quiet r (c ∷ []) double_quoted left
Quiet-identifier code c rest left h e = ground arith
Quiet-identifier dash c rest left h e = ground arith
Quiet-identifier slash c rest left h e = ground arith
Quiet-identifier _ c rest left h e = cc

pub Quiet-dashes :
    (r : Reader) (c : ℕ) (rest left : List ℕ)
    → fits ordinary r (c ∷ rest) ≡ true
    → (c == b'-') ≡ true
    → Quiet r (b'-' ∷ b'-' ∷ []) line_comment left
Quiet-dashes code c rest left h e = ground arith
Quiet-dashes dash c rest left h e = ground arith
Quiet-dashes slash c rest left h e = ground arith
Quiet-dashes _ c rest left h e = cc

pub Quiet-comment :
    (r : Reader) (c : ℕ) (rest left : List ℕ)
    → fits ordinary r (c ∷ rest) ≡ true
    → Quiet r (b'/' ∷ b'*' ∷ []) block_comment left
Quiet-comment code c rest left h = ground arith
Quiet-comment dash c rest left h = ground arith
Quiet-comment slash c rest left h = ground arith
Quiet-comment _ c rest left h = cc

pub Quiet-colon :
    (r : Reader) (d : ℕ) (rest left : List ℕ)
    → fits ordinary r rest ≡ true
    → (d == b':' || d == b'=') ≡ true
    → Quiet r (b':' ∷ d ∷ []) ordinary left
Quiet-colon code d rest left h e = ground arith
Quiet-colon dash d rest left h e = ground arith
Quiet-colon slash d rest left h e = ground arith
Quiet-colon _ d rest left h e = cc

pub Quiet-other :
    (r : Reader) (c : ℕ) (rest : List ℕ)
    → fits ordinary r (c ∷ rest) ≡ true
    → (c == b'\'') ≡ false
    → (c == b'"') ≡ false
    → (c == b'-' && head_is b'-' rest) ≡ false
    → (c == b'/' && head_is b'*' rest) ≡ false
    → (c == b'?') ≡ false
    → Quiet r (c ∷ []) ordinary rest
Quiet-other code c rest h q d l b m = ground arith
Quiet-other dash c rest h q d l b m = ground arith
Quiet-other slash c rest h q d l b m = ground arith
Quiet-other _ c rest h q d l b m = cc
