-- ===== src/QueryParams/Markers/Count.antt =====
-- internal/queryparams/scan.go: the loop of `Compile` writes one marker for each key.
use sqls.Base.{
  All, Bool-cases, List, [], arith, contains, false, head_is, if◌then◌else◌, inl, inr, length,
  length-append, refl, skip, subst, suc, sym, to_upper, true, zero, ℕ, ◌&&◌, ◌++◌, ◌+◌, ◌==◌, ◌∙◌,
  ◌∷◌, ◌≡◌,
}
use sqls.QueryParams.Scan.{
  ScanState, ordinary, Scan, emit, placeholder, finish_fragment, step_ordinary, note_parameter,
  name_run, after_name, block_comment, double_quoted, line_comment, single_quoted, Fragment,
  check_closed, initial, ok, scan, scan_text, step, step_block, step_line, step_quoted, ◌>>=◌,
}
use sqls.QueryParams.Scan.Rules.{Ensures, Ensures-bind}
use sqls.QueryParams.Markers.{
  reader, code, Reader, block, dash, double, line, markers, markers-append, reader-append, single,
  slash, star,
}
use sqls.QueryParams.Markers.Emits.{
  Reads, Quiet, emit-Reads, Quiet-quote, Quiet-colon, Quiet-comment, Quiet-dashes, Quiet-identifier,
  Quiet-other, finish_fragment-Reads, fits,
}

-- A round of the loop in code, on each branch.
module _ (P : Scan → List ℕ → Type 0) (s : Scan) (c : ℕ) (rest : List ℕ)
    (quotes : (c == b'\'') ≡ true → P (emit s (c ∷ []) single_quoted) rest)
    (identifies : (c == b'"') ≡ true → P (emit s (c ∷ []) double_quoted) rest)
    (dashes : (c == b'-') ≡ true → P (emit s (b'-' ∷ b'-' ∷ []) line_comment) (skip rest))
    (comments : P (emit s (b'/' ∷ b'*' ∷ []) block_comment) (skip rest))
    (finishes : P (finish_fragment (record s { offset = s.offset + 1 })) rest)
    (casts : P (emit s (b':' ∷ b':' ∷ []) ordinary) (skip rest))
    (assigns : P (emit s (b':' ∷ b'=' ∷ []) ordinary) (skip rest))
    (places : P (placeholder s (name_run rest)) (after_name rest))
    (goes_on : (c == b'\'') ≡ false
      → (c == b'"') ≡ false
      → (c == b'-' && head_is b'-' rest) ≡ false
      → (c == b'/' && head_is b'*' rest) ≡ false
      → (c == b'?') ≡ false
      → P (emit s (c ∷ []) ordinary) rest) where
  step_ordinary-cases : Ensures (λ q. P q.0 q.1) (step_ordinary s c rest)
  unfolding step_ordinary
  step_ordinary-cases = ground arith

-- What a round leaves.
abbrev Landed : Scan → List ℕ → Type 0
Landed s left = Reads s.state s left

Reads-Landed :
    (st : ScanState) (s : Scan) (left : List ℕ) → s.state ≡ st → Reads st s left → Landed s left
Reads-Landed st s left p h = subst (λ x. Reads x s left) (sym p) h

emit-Landed :
    (st : ScanState) (s : Scan) (bytes : List ℕ) (next : ScanState) (before left : List ℕ)
    → Reads st s before
    → Quiet (reader code s.out) bytes next left
    → Landed (emit s bytes next) left
unfolding emit
emit-Landed st s bytes next before left h q = emit-Reads st s bytes next before left h q

-- The marker itself.
marked :
    (r : Reader) (left : List ℕ)
    → fits ordinary r left ≡ true
    → (markers r (b'?' ∷ []) ≡ 1) × (reader r (b'?' ∷ []) ≡ code)
marked code left h = (refl, refl)
marked dash left h = (refl, refl)
marked slash left h = (refl, refl)
marked _ left h = cc

placed :
    (s : Scan) (key : List ℕ) (before : List ℕ)
    → Reads ordinary s before
    → (markers code (s.out ++ b'?' ∷ []) ≡ length (s.keys ++ key ∷ []))
      × (reader code (s.out ++ b'?' ∷ []) ≡ code)
placed s key before h =
    let (one, back) = marked (reader code s.out) before h.fit in
    (
      omega (
        arith,
        markers-append code s.out (b'?' ∷ []),
        one,
        h.count,
        length-append s.keys (key ∷ []),
      ),
      reader-append code s.out (b'?' ∷ []) ∙ back,
    )

placeholder-Reads :
    (s : Scan) (name before left : List ℕ)
    → Reads ordinary s before
    → Reads ordinary (placeholder s name) left
unfolding placeholder note_parameter
placeholder-Reads s name before left h =
    let (count, back) = placed s (to_upper name) before h in
    elim (Bool-cases (contains s.seen (to_upper name))) [
      | inl old ↦ rw old (record { fit = rw back refl; count = count; closed = h.closed })
      | inr fresh ↦ rw fresh (record { fit = rw back refl; count = count; closed = h.closed })
    ]

placeholder-state : (s : Scan) (name : List ℕ) → (placeholder s name).state ≡ s.state
unfolding placeholder note_parameter
placeholder-state s name = ground arith

finish-Landed :
    (s : Scan) (before left : List ℕ)
    → s.state ≡ ordinary
    → Reads ordinary s before
    → Landed (finish_fragment (record s { offset = s.offset + 1 })) left
unfolding finish_fragment
finish-Landed s before left p h =
    let moved = record s { offset = s.offset + 1 } in
    Reads-Landed ordinary (finish_fragment moved) left p (
      finish_fragment-Reads moved before left ordinary
        (record { fit = h.fit; count = h.count; closed = h.closed }))

step_ordinary-Landed :
    (s : Scan) (c : ℕ) (rest : List ℕ)
    → s.state ≡ ordinary
    → Reads ordinary s (c ∷ rest)
    → Ensures (λ q. Landed q.0 q.1) (step_ordinary s c rest)
step_ordinary-Landed s c rest p h =
    step_ordinary-cases Landed s c rest
      (λ e. emit-Landed ordinary s _ _ _ _ h (Quiet-quote _ c (c ∷ rest) rest h.fit e))
      (λ e. emit-Landed ordinary s _ _ _ _ h (Quiet-identifier _ c (c ∷ rest) rest h.fit e))
      (λ e. emit-Landed ordinary s _ _ _ _ h (Quiet-dashes _ c rest (skip rest) h.fit e))
      (emit-Landed ordinary s _ _ _ _ h (Quiet-comment _ c rest (skip rest) h.fit))
      (finish-Landed s (c ∷ rest) rest p h)
      (emit-Landed ordinary s _ _ _ _ h (Quiet-colon _ b':' (c ∷ rest) (skip rest) h.fit refl))
      (emit-Landed ordinary s _ _ _ _ h (Quiet-colon _ b'=' (c ∷ rest) (skip rest) h.fit refl))
      (Reads-Landed ordinary (placeholder s (name_run rest)) (after_name rest)
        (placeholder-state s (name_run rest) ∙ p)
        (placeholder-Reads s (name_run rest) (c ∷ rest) (after_name rest) h))
      (λ q d l b m. emit-Landed ordinary s _ _ _ _ h (Quiet-other _ c rest h.fit q d l b m))

-- A round in a literal, in a delimited identifier and in a comment.
Quiet-in_quotes :
    (r : Reader) (c : ℕ) (before left : List ℕ)
    → fits single_quoted r before ≡ true
    → ((c == b'\'') ≡ true
        → Quiet r (c ∷ []) ordinary left × Quiet r (c ∷ b'\'' ∷ []) single_quoted (skip left))
      × ((c == b'\'') ≡ false → Quiet r (c ∷ []) single_quoted left)
Quiet-in_quotes single c before left h = (λ e. ground arith, λ e. ground arith)
Quiet-in_quotes _ c before left h = cc

Quiet-in_identifier :
    (r : Reader) (c : ℕ) (before left : List ℕ)
    → fits double_quoted r before ≡ true
    → ((c == b'"') ≡ true
        → Quiet r (c ∷ []) ordinary left × Quiet r (c ∷ b'"' ∷ []) double_quoted (skip left))
      × ((c == b'"') ≡ false → Quiet r (c ∷ []) double_quoted left)
Quiet-in_identifier double c before left h = (λ e. ground arith, λ e. ground arith)
Quiet-in_identifier _ c before left h = cc

Quiet-in_line :
    (r : Reader) (c : ℕ) (before left : List ℕ)
    → fits line_comment r before ≡ true
    → Quiet r (c ∷ []) (if c == b'\n' then ordinary else line_comment) left
Quiet-in_line line c before left h = ground arith
Quiet-in_line _ c before left h = cc

Quiet-in_block :
    (r : Reader) (c : ℕ) (rest left : List ℕ)
    → fits block_comment r (c ∷ rest) ≡ true
    → Quiet r (b'*' ∷ b'/' ∷ []) ordinary left
      × ((c == b'*' && head_is b'/' rest) ≡ false → Quiet r (c ∷ []) block_comment rest)
Quiet-in_block block c rest left h = (ground arith, λ e. ground arith)
Quiet-in_block star c rest left h = (ground arith, λ e. ground arith)
Quiet-in_block _ c rest left h = cc

-- A round in quotes, and one in a comment, on each branch.
module _ (P : Scan → List ℕ → Type 0) (s : Scan) (c : ℕ) (rest : List ℕ) where
  step_quoted-cases :
      (quote : ℕ) (stay : ScanState)
      → ((c == quote) ≡ true → P (emit s (c ∷ quote ∷ []) stay) (skip rest))
      → ((c == quote) ≡ true → P (emit s (c ∷ []) ordinary) rest)
      → ((c == quote) ≡ false → P (emit s (c ∷ []) stay) rest)
      → P (step_quoted quote stay s c rest).0 (step_quoted quote stay s c rest).1
  unfolding step_quoted
  step_quoted-cases quote stay doubled closes stays = ground arith

  step_block-cases :
      P (emit s (b'*' ∷ b'/' ∷ []) ordinary) (skip rest)
      → ((c == b'*' && head_is b'/' rest) ≡ false → P (emit s (c ∷ []) block_comment) rest)
      → P (step_block s c rest).0 (step_block s c rest).1
  unfolding step_block
  step_block-cases closes stays = ground arith

step-Landed :
    (st : ScanState) (s : Scan) (c : ℕ) (rest : List ℕ)
    → s.state ≡ st
    → Reads st s (c ∷ rest)
    → Ensures (λ q. Landed q.0 q.1) (step st s c rest)
unfolding step step_line
step-Landed ordinary s c rest p h = step_ordinary-Landed s c rest p h
step-Landed single_quoted s c rest p h =
    let q = Quiet-in_quotes _ c (c ∷ rest) rest h.fit in
    step_quoted-cases Landed s c rest b'\'' single_quoted
      (λ e. emit-Landed single_quoted s _ _ _ _ h (q.0 e).1)
      (λ e. emit-Landed single_quoted s _ _ _ _ h (q.0 e).0)
      (λ e. emit-Landed single_quoted s _ _ _ _ h (q.1 e))
step-Landed double_quoted s c rest p h =
    let q = Quiet-in_identifier _ c (c ∷ rest) rest h.fit in
    step_quoted-cases Landed s c rest b'"' double_quoted
      (λ e. emit-Landed double_quoted s _ _ _ _ h (q.0 e).1)
      (λ e. emit-Landed double_quoted s _ _ _ _ h (q.0 e).0)
      (λ e. emit-Landed double_quoted s _ _ _ _ h (q.1 e))
step-Landed line_comment s c rest p h =
    emit-Landed line_comment s _ _ _ _ h (Quiet-in_line _ c (c ∷ rest) rest h.fit)
step-Landed block_comment s c rest p h =
    let q = Quiet-in_block _ c rest (skip rest) h.fit in
    step_block-cases Landed s c rest (emit-Landed block_comment s _ _ _ _ h q.0)
      (λ e. emit-Landed block_comment s _ _ _ _ h (q.1 e))

scan-Landed :
    (fuel : ℕ) (s : Scan) (text : List ℕ)
    → Landed s text
    → Ensures (λ t. Landed t []) (scan fuel s text)
unfolding scan
scan-Landed zero s [] h = h
scan-Landed (suc fuel) s [] h = h
scan-Landed zero s (c ∷ rest) h = tt
scan-Landed (suc fuel) s (c ∷ rest) h =
    Ensures-bind (λ r. Landed r.0 r.1) (λ t. Landed t []) (step s.state s c rest)
      (λ r. scan fuel r.0 r.1) (step-Landed s.state s c rest refl h)
      (λ r k. scan-Landed fuel r.0 r.1 k)

-- Every fragment has a marker for each key.
abbrev pub Marked : Scan → Type 0
Marked s = All (λ (f : Fragment). markers code f.sql ≡ length f.keys) s.fragments

pub scan_text-Marked : (text : List ℕ) → Ensures Marked (scan_text text)
unfolding scan_text
scan_text-Marked text =
    Ensures-bind (λ t. Landed t []) Marked (scan (length text) initial text) _
      (scan-Landed (length text) initial text (record { fit = refl; count = refl; closed = tt }))
      (λ s k. closes s.state s k)
  where
    closes :
        (st : ScanState) (s : Scan)
        → Reads s.state s []
        → Ensures Marked (check_closed st s >>= λ t. ok (finish_fragment t))
    closes ordinary s k = (finish_fragment-Reads s [] [] s.state k).closed
    closes line_comment s k = (finish_fragment-Reads s [] [] s.state k).closed
    closes single_quoted s k = tt
    closes double_quoted s k = tt
    closes block_comment s k = tt
