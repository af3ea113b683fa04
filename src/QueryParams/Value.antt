-- ===== src/QueryParams/Value.antt =====
-- internal/queryparams/value.go: `Value` and `Convert`. The values that a driver takes are the
-- constructors of `Argument`. What the code calls of Go's library on floats, times, Unicode spaces and
-- Unicode letters is the record `GoLib`.
use sqls.Base.{
  Bool, List, Option, [], codes, drop_while, eqb, false, head_is, if◌then◌else◌, is_empty, leb,
  length, ltb, none, not, refl, some, take_while, true, within, ℕ, ◌&&◌, ◌*◌, ◌+◌, ◌-◌, ◌==◌, ◌^◌,
  ◌||◌, ◌∷◌, ◌≡◌,
}

pub record GoLib : Type 1 where
  pub Float : Type 0
  pub Time : Type 0
  -- `strings.TrimSpace`
  pub trim_space : List ℕ → List ℕ
  -- `strings.ToUpper`
  pub to_upper : List ℕ → List ℕ
  -- `strconv.ParseFloat(s, 64)`, where it gives no error and a finite number
  pub parse_float : List ℕ → Option Float
  -- `time.ParseInLocation` with the layouts of a date and of a timestamp
  pub parse_date : List ℕ → Option Time
  pub parse_timestamp : List ℕ → Option Time

pub record Value : Type 0 where
  pub name : List ℕ
  pub type : List ℕ
  pub value : List ℕ

-- `int64` as a sign and a magnitude; zero has no sign.
pub data Int64 : Type 0 where
  non_negative : ℕ → Int64
  negative : ℕ → Int64

-- The errors of `Convert` and `Bind`, with the name that the message gives.
pub data BindError : Type 0 where
  unsupported_type invalid_value not_used bound_twice no_value : List ℕ → BindError

pub data Bound (A : Type 0) : Type 0 where
  done : A → Bound A
  refused : BindError → Bound A

-- `if err != nil { return nil, err }`
infixl 5 ◌>>=◌
abbrev pub ◌>>=◌ : {A B : Type 0} → Bound A → (A → Bound B) → Bound B
refused e >>= later = refused e
done a >>= later = later a

pub done-injective : {A : Type 0} {a b : A} → done a ≡ done b → a ≡ b
done-injective e = cc

-- A chain that succeeds, taken apart.
pub done-bind :
    {A B : Type 0} (later : A → Bound B) {b : B} (first : Bound A)
    → (first >>= later) ≡ done b
    → (a : A) × (first ≡ done a) × (later a ≡ done b)
done-bind later (refused e) p = cc
done-bind later (done a) p = (a, refl, p)

abbrev is_digit : ℕ → Bool
is_digit c = within b'0' b'9' c

abbrev is_sign : ℕ → Bool
is_sign c = c == b'+' || c == b'-'

-- `[+-]?` at the start of a pattern.
abbrev pub after_sign : List ℕ → List ℕ
after_sign [] = []
after_sign (c ∷ cs) = if is_sign c then cs else c ∷ cs

-- `[0-9]+$`
abbrev all_digits : List ℕ → Bool
all_digits [] = true
all_digits (c ∷ cs) = is_digit c && all_digits cs

abbrev some_digits : List ℕ → Bool
some_digits cs = not (is_empty cs) && all_digits cs

-- `integerPattern`
unfoldable pub matches_integer : List ℕ → Bool
matches_integer s = some_digits (after_sign s)

-- `([eE][+-]?\d+)?$`
abbrev matches_exponent : List ℕ → Bool
matches_exponent [] = true
matches_exponent (c ∷ cs) = (c == b'e' || c == b'E') && some_digits (after_sign cs)

-- `(\.\d+)?` and the exponent; a full stop must have digits behind it.
abbrev matches_fraction : List ℕ → Bool
matches_fraction [] = true
matches_fraction (c ∷ cs) =
    if c == b'.'
    then not (is_empty (take_while is_digit cs)) && matches_exponent (drop_while is_digit cs)
    else matches_exponent (c ∷ cs)

-- `numberPattern`
unfoldable pub matches_number : List ℕ → Bool
matches_number s =
    let body = after_sign s in
    if is_empty (take_while is_digit body)
    then head_is b'.' body && matches_fraction body
    else matches_fraction (drop_while is_digit body)

-- A pattern with a digit for each `0`, and itself for any other byte; then what is left.
abbrev after_shape : List ℕ → List ℕ → Option (List ℕ)
after_shape [] s = some s
after_shape (p ∷ ps) [] = none
after_shape (p ∷ ps) (c ∷ cs) =
    if (if p == b'0' then is_digit c else c == p) then after_shape ps cs else none

-- `(\.\d{1,9})?$`
abbrev matches_fractional_second : List ℕ → Bool
matches_fractional_second [] = true
matches_fractional_second (c ∷ cs) = c == b'.' && some_digits cs && leb (length cs) 9

-- `timestampPattern`
unfoldable pub matches_timestamp : List ℕ → Bool
matches_timestamp s = elim (after_shape (codes "0000-00-00 00:00:00") s) [
  | none ↦ false
  | some rest ↦ matches_fractional_second rest
]

-- `strconv.ParseInt(s, 10, 64)` on digits behind an optional sign.
abbrev decimal : ℕ → List ℕ → ℕ
decimal acc [] = acc
decimal acc (c ∷ cs) = decimal (10 * acc + (c - b'0')) cs

unfoldable pub parse_int : List ℕ → Option Int64
parse_int s =
    let n = decimal 0 (after_sign s) in
    if head_is b'-' s
    then (if n == 0
        then some (non_negative 0)
        else if leb n (2 ^ 63)
        then some (negative n)
        else none)
    else if ltb n (2 ^ 63)
    then some (non_negative n)
    else none

module _ (lib : GoLib) where
  open lib use {Float, Time, trim_space, parse_float, parse_date, parse_timestamp}

  pub data Argument : Type 0 where
    text_argument : List ℕ → Argument
    int_argument : Int64 → Argument
    float_argument : Float → Argument
    time_argument : Time → Argument
    bool_argument : Bool → Argument
    null_argument : Argument

  -- A parsed value, or the error `invalidValueErr`.
  abbrev or_invalid : {A : Type 0} → Value → (A → Argument) → Option A → Bound Argument
  or_invalid v wrap none = refused (invalid_value v.name)
  or_invalid v wrap (some a) = done (wrap a)

  abbrev checked : {A : Type 0} → Bool → Option A → Option A
  checked test o = if test then o else none

  convert_boolean : Value → Bound Argument
  convert_boolean v =
      if eqb (trim_space v.value) (codes "true")
      then done (bool_argument true)
      else if eqb (trim_space v.value) (codes "false")
      then done (bool_argument false)
      else refused (invalid_value v.name)

  unfoldable pub convert : Value → Bound Argument
  unfolding convert_boolean matches_integer matches_number matches_timestamp parse_int
  convert v =
      let trimmed = trim_space v.value in
      if eqb v.type (codes "text")
      then done (text_argument v.value)
      else if eqb v.type (codes "integer")
      then or_invalid v int_argument (checked (matches_integer trimmed) (parse_int trimmed))
      else if eqb v.type (codes "number")
      then or_invalid v float_argument (checked (matches_number trimmed) (parse_float trimmed))
      else if eqb v.type (codes "date")
      then or_invalid v time_argument (parse_date trimmed)
      else if eqb v.type (codes "timestamp")
      then or_invalid v time_argument
          (checked (matches_timestamp trimmed) (parse_timestamp trimmed))
      else if eqb v.type (codes "boolean")
      then convert_boolean v
      else if eqb v.type (codes "null")
      then (if is_empty v.value then done null_argument else refused (invalid_value v.name))
      else refused (unsupported_type v.name)
