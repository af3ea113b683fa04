-- ===== src/Token/Kind.antt =====
-- token/kind.go
use sqls.Base.{ℕ}

pub data Kind : Type 0 where
  sql_keyword number char single_quoted_string national_string_literal comma whitespace : Kind
  comment multiline_comment eq neq lt gt lt_eq gt_eq plus minus mult div caret mod_sign : Kind
  l_paren r_paren period colon double_colon semicolon backslash l_bracket r_bracket : Kind
  ampersand l_brace r_brace illegal : Kind

-- The number that `iota` gives a kind.
abbrev pub kind_number : Kind → ℕ
kind_number sql_keyword = 0
kind_number number = 1
kind_number char = 2
kind_number single_quoted_string = 3
kind_number national_string_literal = 4
kind_number comma = 5
kind_number whitespace = 6
kind_number comment = 7
kind_number multiline_comment = 8
kind_number eq = 9
kind_number neq = 10
kind_number lt = 11
kind_number gt = 12
kind_number lt_eq = 13
kind_number gt_eq = 14
kind_number plus = 15
kind_number minus = 16
kind_number mult = 17
kind_number div = 18
kind_number caret = 19
kind_number mod_sign = 20
kind_number l_paren = 21
kind_number r_paren = 22
kind_number period = 23
kind_number colon = 24
kind_number double_colon = 25
kind_number semicolon = 26
kind_number backslash = 27
kind_number l_bracket = 28
kind_number r_bracket = 29
kind_number ampersand = 30
kind_number l_brace = 31
kind_number r_brace = 32
kind_number illegal = 33
