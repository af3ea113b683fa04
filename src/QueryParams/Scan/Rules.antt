-- ===== src/QueryParams/Scan/Rules.antt =====
-- internal/queryparams/scan.go: rules for the loop of `Compile`: an invariant of its variables, and
-- the fuel.
use sqls.Base.{
  List, [], arith, if◌then◌else◌, length, length-skip, suc, zero, ℕ, ◌+◌, ◌==◌, ◌∷◌, ◌≢◌, ◌≤◌,
}
use sqls.QueryParams.Scan.{
  ScanState, ordinary, single_quoted, double_quoted, line_comment, block_comment, Result, ok, err,
  ◌>>=◌, Scan, name_run, emit, finish_fragment, placeholder, step_ordinary, step_quoted, step_line,
  step_block, step, scan, after_name, check_closed, initial, out_of_fuel, scan_text,
}

abbrev pub Ensures {ℓ} : {A : Type 0} → (A → Type ℓ) → Result A → Type ℓ
Ensures P (ok a) = P a
Ensures P (err e) = Unit

pub Ensures-bind {ℓ κ} :
    {A B : Type 0} (P : A → Type ℓ) (Q : B → Type κ) (m : Result A) (f : A → Result B)
    → Ensures P m
    → ((a : A) → P a → Ensures Q (f a))
    → Ensures Q (m >>= f)
Ensures-bind P Q (ok a) f h k = k a h
Ensures-bind P Q (err e) f h k = tt

-- What every writing of the loop's variables keeps, the loop keeps.
module _ (P : Scan → Type 0)
    (emits : (s : Scan) (bytes : List ℕ) (next : ScanState) → P s → P (emit s bytes next))
    (moves : (s : Scan) (n : ℕ) → P s → P (record s { offset = n }))
    (finishes : (s : Scan) → P s → P (finish_fragment s))
    (places : (s : Scan) (name : List ℕ) → P s → P (placeholder s name)) where
  step_ordinary-keeps :
      (s : Scan) (c : ℕ) (rest : List ℕ) → P s → Ensures (λ r. P r.0) (step_ordinary s c rest)
  unfolding step_ordinary
  step_ordinary-keeps s c rest h = ground (
    arith,
    emits s (c ∷ []) single_quoted,
    emits s (c ∷ []) double_quoted,
    emits s (b'-' ∷ b'-' ∷ []) line_comment,
    emits s (b'/' ∷ b'*' ∷ []) block_comment,
    emits s (b':' ∷ b':' ∷ []) ordinary,
    emits s (b':' ∷ b'=' ∷ []) ordinary,
    emits s (c ∷ []) ordinary,
    places s (name_run rest),
    finishes (record s { offset = s.offset + 1 }) (moves s (s.offset + 1) h),
  )

  step-keeps :
      (st : ScanState) (s : Scan) (c : ℕ) (rest : List ℕ)
      → P s
      → Ensures (λ r. P r.0) (step st s c rest)
  unfolding step step_quoted step_line step_block
  step-keeps ordinary s c rest h = step_ordinary-keeps s c rest h
  step-keeps single_quoted s c rest h = ground (
    arith,
    emits s (c ∷ b'\'' ∷ []) single_quoted,
    emits s (c ∷ []) ordinary,
    emits s (c ∷ []) single_quoted,
  )
  step-keeps double_quoted s c rest h = ground (
    arith,
    emits s (c ∷ b'"' ∷ []) double_quoted,
    emits s (c ∷ []) ordinary,
    emits s (c ∷ []) double_quoted,
  )
  step-keeps line_comment s c rest h =
      emits s (c ∷ []) (if c == b'\n' then ordinary else line_comment) h
  step-keeps block_comment s c rest h =
      ground (arith, emits s (b'*' ∷ b'/' ∷ []) ordinary, emits s (c ∷ []) block_comment)

  scan-keeps : (fuel : ℕ) (s : Scan) (text : List ℕ) → P s → Ensures P (scan fuel s text)
  unfolding scan
  scan-keeps zero s [] h = h
  scan-keeps (suc fuel) s [] h = h
  scan-keeps zero s (c ∷ rest) h = tt
  scan-keeps (suc fuel) s (c ∷ rest) h =
      Ensures-bind (λ r. P r.0) P (step s.state s c rest) (λ r. scan fuel r.0 r.1)
        (step-keeps s.state s c rest h) (λ r k. scan-keeps fuel r.0 r.1 k)

  pub scan_text-keeps : (text : List ℕ) → P initial → Ensures P (scan_text text)
  unfolding scan_text
  scan_text-keeps text h =
      Ensures-bind P P (scan (length text) initial text) _ (scan-keeps (length text) initial text h)
        (λ s k. closed s.state s k)
    where
      closed :
          (st : ScanState) (s : Scan)
          → P s
          → Ensures P (check_closed st s >>= λ t. ok (finish_fragment t))
      closed ordinary s k = finishes s k
      closed line_comment s k = finishes s k
      closed single_quoted s k = tt
      closed double_quoted s k = tt
      closed block_comment s k = tt

-- Each round takes a byte at least, so the length of the text is fuel enough.
length-after_name : (s : List ℕ) → length (after_name s) ≤ length s
length-after_name [] = omega arith
length-after_name (c ∷ cs) = ground (arith, length-after_name cs)

abbrev Shrinks : List ℕ → Result (Scan × List ℕ) → Type 0
Shrinks rest (ok r) = length r.1 ≤ length rest
Shrinks rest (err e) = e ≢ out_of_fuel

step-Shrinks : (st : ScanState) (s : Scan) (c : ℕ) (rest : List ℕ) → Shrinks rest (step st s c rest)
unfolding step step_ordinary step_quoted step_line step_block
step-Shrinks ordinary s c rest = ground (arith, length-skip rest, length-after_name rest)
step-Shrinks line_comment s c rest = omega arith
step-Shrinks _ s c rest = ground (arith, length-skip rest)

scan-ne-out_of_fuel :
    (fuel : ℕ) (s : Scan) (text : List ℕ) → length text ≤ fuel → scan fuel s text ≢ err out_of_fuel
unfolding scan
scan-ne-out_of_fuel zero s [] h = λ e. cc
scan-ne-out_of_fuel (suc fuel) s [] h = λ e. cc
scan-ne-out_of_fuel zero s (c ∷ rest) h = absurd (omega arith)
scan-ne-out_of_fuel (suc fuel) s (c ∷ rest) h =
    go (step s.state s c rest) (step-Shrinks s.state s c rest)
      (λ t left k. scan-ne-out_of_fuel fuel t left k)
  where
    go :
        (r : Result (Scan × List ℕ))
        → Shrinks rest r
        → ((t : Scan) (left : List ℕ) → length left ≤ fuel → scan fuel t left ≢ err out_of_fuel)
        → (r >>= λ q. scan fuel q.0 q.1) ≢ err out_of_fuel
    go (ok (t, left)) k ih = ih t left (omega arith)
    go (err e) k ih = λ p. ground arith

pub scan_text-ne-out_of_fuel : (text : List ℕ) → scan_text text ≢ err out_of_fuel
unfolding scan_text check_closed
scan_text-ne-out_of_fuel text p =
    ground (arith, scan-ne-out_of_fuel (length text) initial text (omega arith))
