-- ===== src/Formatter/Kinds.antt =====
-- token/kind.go: two kinds are the same where their numbers are.
use sqls.Base.{
  ==_iff, Bool, List, [], ap, arith, refl, suc, sym, true, zero, ℕ, ◌==◌, ◌∙◌, ◌∷◌, ◌≡◌,
}
use sqls.Token.Kind.{
  Kind, kind_number, sql_keyword, number, char, single_quoted_string, national_string_literal,
  comma, whitespace, comment, multiline_comment, eq, neq, lt, gt, lt_eq, gt_eq, plus, minus, mult,
  div, caret, mod_sign, l_paren, r_paren, period, colon, double_colon, semicolon, backslash,
  l_bracket, r_bracket, ampersand, l_brace, r_brace, illegal,
}

abbrev pub same_kind : Kind → Kind → Bool
same_kind a b = kind_number a == kind_number b

at : List Kind → ℕ → Kind
at [] n = illegal
at (k ∷ ks) zero = k
at (k ∷ ks) (suc n) = at ks n

abbrev all_kinds : List Kind
all_kinds =
    sql_keyword ∷ number ∷ char ∷ single_quoted_string ∷ national_string_literal ∷ comma
    ∷ whitespace ∷ comment ∷ multiline_comment ∷ eq ∷ neq ∷ lt ∷ gt ∷ lt_eq ∷ gt_eq ∷ plus ∷ minus
    ∷ mult ∷ div ∷ caret ∷ mod_sign ∷ l_paren ∷ r_paren ∷ period ∷ colon ∷ double_colon ∷ semicolon
    ∷ backslash ∷ l_bracket ∷ r_bracket ∷ ampersand ∷ l_brace ∷ r_brace ∷ illegal ∷ []

at-kind_number : (k : Kind) → at all_kinds (kind_number k) ≡ k
unfolding at
at-kind_number sql_keyword = refl
at-kind_number number = refl
at-kind_number char = refl
at-kind_number single_quoted_string = refl
at-kind_number national_string_literal = refl
at-kind_number comma = refl
at-kind_number whitespace = refl
at-kind_number comment = refl
at-kind_number multiline_comment = refl
at-kind_number eq = refl
at-kind_number neq = refl
at-kind_number lt = refl
at-kind_number gt = refl
at-kind_number lt_eq = refl
at-kind_number gt_eq = refl
at-kind_number plus = refl
at-kind_number minus = refl
at-kind_number mult = refl
at-kind_number div = refl
at-kind_number caret = refl
at-kind_number mod_sign = refl
at-kind_number l_paren = refl
at-kind_number r_paren = refl
at-kind_number period = refl
at-kind_number colon = refl
at-kind_number double_colon = refl
at-kind_number semicolon = refl
at-kind_number backslash = refl
at-kind_number l_bracket = refl
at-kind_number r_bracket = refl
at-kind_number ampersand = refl
at-kind_number l_brace = refl
at-kind_number r_brace = refl
at-kind_number illegal = refl

pub same_kind_sound : (a b : Kind) → same_kind a b ≡ true → a ≡ b
same_kind_sound a b h =
    sym (at-kind_number a) ∙ ap (at all_kinds) ((==_iff _ _).0 h) ∙ at-kind_number b

pub same_kind_refl : (k : Kind) → same_kind k k ≡ true
same_kind_refl k = ground arith
