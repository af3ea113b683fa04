-- ===== src/QueryParams/Scan.antt =====
-- internal/queryparams/scan.go: the data types of a batch and the byte loop of `Compile`. A text is
-- the list of its bytes; the part of it from the loop's index on is the list that is left, and
-- `offset` is the index itself, which an error message carries.
pub mod Rules
use sqls.Base.{
  Bool, List, [], contains, false, head_is, if◌then◌else◌, inl, inr, length, refl, skip, suc,
  to_upper, within, zero, ℕ, ◌&&◌, ◌++◌, ◌+◌, ◌==◌, ◌||◌, ◌∷◌, ◌≡◌, ◌⊎◌,
}

pub record Parameter : Type 0 where
  pub name : List ℕ
  pub key : List ℕ
  pub inferred_type : List ℕ
  pub database_type : List ℕ

pub record Statement : Type 0 where
  pub sql : List ℕ
  pub keys : List (List ℕ)

pub record Batch : Type 0 where
  pub parameters : List Parameter
  pub statements : List Statement

pub record Fragment : Type 0 where
  pub sql : List ℕ
  pub keys : List (List ℕ)

pub data ScanState : Type 0 where
  ordinary single_quoted double_quoted line_comment block_comment : ScanState

-- The errors of `Compile`. `out_of_fuel` is the model's own: the loop was cut short.
pub data Error : Type 0 where
  positional_marker : ℕ → Error
  unterminated_string unterminated_identifier unterminated_comment : Error
  unsupported_statement out_of_fuel : Error

pub data Result (A : Type 0) : Type 0 where
  ok : A → Result A
  err : Error → Result A

-- `if err != nil { return err }` between two steps.
infixl 5 ◌>>=◌
abbrev pub ◌>>=◌ : {A B : Type 0} → Result A → (A → Result B) → Result B
err why >>= later = err why
ok value >>= later = later value

pub bind-ok :
    {A B : Type 0} (later : A → Result B) {b : B} (first : Result A)
    → (first >>= later) ≡ ok b
    → (value : A) × (later value ≡ ok b) × (first ≡ ok value)
bind-ok later (err why) p = cc
bind-ok later (ok value) p = (value, p, refl)

pub bind-err :
    {A B : Type 0} (later : A → Result B) {why : Error} (first : Result A)
    → (first >>= later) ≡ err why
    → ((value : A) × (later value ≡ err why) × (first ≡ ok value)) ⊎ (first ≡ err why)
bind-err later (err why) p = inr (cc)
bind-err later (ok value) p = inl (value, p, refl)

-- The variables of the loop: `state`, `i`, `out`, `keys`, `fragments`, `seen`, `batch.Parameters`.
pub record Scan : Type 0 where
  pub state : ScanState
  pub offset : ℕ
  pub out : List ℕ
  pub keys : List (List ℕ)
  pub fragments : List Fragment
  pub seen : List (List ℕ)
  pub parameters : List Parameter

abbrev pub initial : Scan
initial = record {
  state = ordinary;
  offset = 0;
  out = [];
  keys = [];
  fragments = [];
  seen = [];
  parameters = [];
}

abbrev pub is_name_start_byte : ℕ → Bool
is_name_start_byte b = within b'A' b'Z' b || within b'a' b'z' b || b == b'_'

abbrev pub is_name_part_byte : ℕ → Bool
is_name_part_byte b = is_name_start_byte b || within b'0' b'9' b || b == b'$'

-- `text[i+1:j]` and `text[j:]` for the loop `for j < n && isNamePartByte(text[j])`.
abbrev pub name_run : List ℕ → List ℕ
name_run [] = []
name_run (c ∷ cs) = if is_name_part_byte c then c ∷ name_run cs else []

abbrev pub after_name : List ℕ → List ℕ
after_name [] = []
after_name (c ∷ cs) = if is_name_part_byte c then after_name cs else c ∷ cs

abbrev pub starts_name : List ℕ → Bool
starts_name [] = false
starts_name (c ∷ cs) = is_name_start_byte c

-- `out.Write…(bytes); i += len(bytes); state = next`
unfoldable pub emit : Scan → List ℕ → ScanState → Scan
emit s bytes next = record s {
  out = s.out ++ bytes;
  offset = s.offset + length bytes;
  state = next;
}

unfoldable pub finish_fragment : Scan → Scan
finish_fragment s = record s {
  fragments = s.fragments ++ (record { sql = s.out; keys = s.keys }) ∷ [];
  out = [];
  keys = [];
}

abbrev pub new_parameter : List ℕ → Parameter
new_parameter name = record {
  name = name;
  key = to_upper name;
  inferred_type = [];
  database_type = [];
}

-- `if !seen[key] { seen[key] = true; batch.Parameters = append(…) }`
unfoldable pub note_parameter : Scan → List ℕ → Scan
note_parameter s name = if contains s.seen (to_upper name) then s else record s {
  seen = to_upper name ∷ s.seen;
  parameters = s.parameters ++ new_parameter name ∷ [];
}

-- The case of a genuine `:name`; `name` is `text[i+1:j]`.
unfoldable pub placeholder : Scan → List ℕ → Scan
placeholder s name =
    note_parameter
      (record s {
        out = s.out ++ b'?' ∷ [];
        keys = s.keys ++ to_upper name ∷ [];
        offset = s.offset + suc (length name);
      })
      name

-- `case stateOrdinary` at the byte `c` with `rest` behind it.
unfoldable pub step_ordinary : Scan → ℕ → List ℕ → Result (Scan × List ℕ)
step_ordinary s c rest =
    if c == b'\''
    then ok (emit s (c ∷ []) single_quoted, rest)
    else if c == b'"'
    then ok (emit s (c ∷ []) double_quoted, rest)
    else if c == b'-' && head_is b'-' rest
    then ok (emit s (b'-' ∷ b'-' ∷ []) line_comment, skip rest)
    else if c == b'/' && head_is b'*' rest
    then ok (emit s (b'/' ∷ b'*' ∷ []) block_comment, skip rest)
    else if c == b';'
    then ok (finish_fragment (record s { offset = s.offset + 1 }), rest)
    else if c == b'?'
    then err (positional_marker s.offset)
    else if c == b':' && head_is b':' rest
    then ok (emit s (b':' ∷ b':' ∷ []) ordinary, skip rest)
    else if c == b':' && head_is b'=' rest
    then ok (emit s (b':' ∷ b'=' ∷ []) ordinary, skip rest)
    else if c == b':' && starts_name rest
    then ok (placeholder s (name_run rest), after_name rest)
    else ok (emit s (c ∷ []) ordinary, rest)

-- `case stateSingleQuoted` and `case stateDoubleQuoted`, with `stay` for the state itself.
unfoldable pub step_quoted : ℕ → ScanState → Scan → ℕ → List ℕ → Scan × List ℕ
step_quoted quote stay s c rest =
    if c == quote
    then (if head_is quote rest
        then (emit s (c ∷ quote ∷ []) stay, skip rest)
        else (emit s (c ∷ []) ordinary, rest))
    else (emit s (c ∷ []) stay, rest)

unfoldable pub step_line : Scan → ℕ → Scan
step_line s c = emit s (c ∷ []) (if c == b'\n' then ordinary else line_comment)

unfoldable pub step_block : Scan → ℕ → List ℕ → Scan × List ℕ
step_block s c rest =
    if c == b'*' && head_is b'/' rest
    then (emit s (b'*' ∷ b'/' ∷ []) ordinary, skip rest)
    else (emit s (c ∷ []) block_comment, rest)

-- One round of the loop, on the state and the bytes from the index on.
unfoldable pub step : ScanState → Scan → ℕ → List ℕ → Result (Scan × List ℕ)
step ordinary s c rest = step_ordinary s c rest
step single_quoted s c rest = ok (step_quoted b'\'' single_quoted s c rest)
step double_quoted s c rest = ok (step_quoted b'"' double_quoted s c rest)
step line_comment s c rest = ok (step_line s c, rest)
step block_comment s c rest = ok (step_block s c rest)

-- `for i < n { … }`
unfoldable pub scan : ℕ → Scan → List ℕ → Result Scan
scan fuel s [] = ok s
scan zero s (c ∷ rest) = err out_of_fuel
scan (suc fuel) s (c ∷ rest) = do (t, left) ← step s.state s c rest; scan fuel t left

-- The `switch state` behind the loop.
unfoldable pub check_closed : ScanState → Scan → Result Scan
check_closed single_quoted s = err unterminated_string
check_closed double_quoted s = err unterminated_identifier
check_closed block_comment s = err unterminated_comment
check_closed ordinary s = ok s
check_closed line_comment s = ok s

-- The first half of `Compile`: every fragment of the text and the parameters.
unfoldable pub scan_text : List ℕ → Result Scan
unfolding scan check_closed finish_fragment step step_ordinary step_quoted step_line step_block emit
    placeholder note_parameter
scan_text text = do
  s ← scan (length text) initial text
  t ← check_closed s.state s
  ok (finish_fragment t)
