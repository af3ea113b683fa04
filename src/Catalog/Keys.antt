-- ===== src/Catalog/Keys.antt =====
-- catalog/identity.go: keys of identities, read back.
use sqls.Base.{
  All, All-append, List, [], ap, append_assoc, arith, if_cases, length, ltb, refl, suc, sym, zero,
  ℕ, ◌%◌, ◌*◌, ◌++◌, ◌+◌, ◌-◌, ◌/◌, ◌<◌, ◌∙◌, ◌∷◌, ◌≡◌, ◌≢◌, ◌≤◌,
}
use sqls.Catalog.Identity.{
  ObjectId, digits_of, decimal_text, component, components, write_all, object_key,
}

-- A reading of decimal numbers that knows nothing of how they are made.
number_from : ℕ → List ℕ → ℕ
number_from n [] = n
number_from n (d ∷ ds) = number_from (n * 10 + (d - b'0')) ds

number_from-append :
    (n : ℕ) (ds : List ℕ) (d : ℕ)
    → number_from n (ds ++ d ∷ []) ≡ number_from n ds * 10 + (d - b'0')
unfolding number_from
number_from-append n [] d = refl
number_from-append n (x ∷ ds) d = number_from-append (n * 10 + (x - b'0')) ds d

number_from-digits_of : (fuel n : ℕ) → n < fuel → number_from 0 (digits_of fuel n) ≡ n
unfolding number_from
number_from-digits_of zero n h = omega arith
number_from-digits_of (suc fuel) n h =
    if_cases (λ ds. number_from 0 ds ≡ n) (ltb n 10) _ _ (λ small. omega arith)
      (λ large.
        number_from-append 0 (digits_of fuel (n / 10)) (b'0' + n % 10)
        ∙ omega (arith, number_from-digits_of fuel (n / 10) (ground arith)))

IsDigit : ℕ → Type 0
IsDigit d = (b'0' ≤ d) × (d ≤ b'9')

digits_of-IsDigit : (fuel n : ℕ) → All IsDigit (digits_of fuel n)
unfolding IsDigit
digits_of-IsDigit zero n = tt
digits_of-IsDigit (suc fuel) n =
    if_cases (All IsDigit) (ltb n 10) _ _ (λ small. (ground arith, tt))
      (λ large.
        All-append IsDigit (digits_of fuel (n / 10)) _ (digits_of-IsDigit fuel (n / 10))
          (omega arith, tt))

-- Behind digits, the first byte that is none shows where they end.
split_at_colon :
    (ds es : List ℕ) {x y : List ℕ}
    → All IsDigit ds
    → All IsDigit es
    → ds ++ b':' ∷ x ≡ es ++ b':' ∷ y
    → (ds ≡ es) × (x ≡ y)
unfolding IsDigit
split_at_colon [] [] hd he e = (refl, cc)
split_at_colon [] (_ ∷ _) hd he e = ground arith
split_at_colon (_ ∷ _) [] hd he e = ground arith
split_at_colon (d ∷ ds) (c ∷ es) {x} {y} hd he e =
    let parts : (ds ≡ es) × (x ≡ y) = split_at_colon ds es hd.1 he.1 cc in (cc, parts.1)

append-injective :
    (a b : List ℕ) {x y : List ℕ} → length a ≡ length b → a ++ x ≡ b ++ y → (a ≡ b) × (x ≡ y)
append-injective [] [] h e = (refl, e)
append-injective [] (_ ∷ _) h e = ground arith
append-injective (_ ∷ _) [] h e = ground arith
append-injective (c ∷ a) (d ∷ b) {x} {y} h e =
    let parts : (a ≡ b) × (x ≡ y) = append-injective a b (omega arith) cc in (cc, parts.1)

-- A component is read back from the front of any text.
component-injective :
    (a b : List ℕ) {x y : List ℕ} → component a ++ x ≡ component b ++ y → (a ≡ b) × (x ≡ y)
unfolding component decimal_text
component-injective a b {x} {y} e =
    let flat =
      sym (append_assoc (decimal_text (length a)) (b':' ∷ a) x)
      ∙ e
      ∙ append_assoc (decimal_text (length b)) (b':' ∷ b) y in
    let (same, rest) =
      split_at_colon (decimal_text (length a)) (decimal_text (length b))
        (digits_of-IsDigit (suc (length a)) (length a))
        (digits_of-IsDigit (suc (length b)) (length b)) flat in
    let lengths =
      sym (number_from-digits_of (suc (length a)) (length a) (omega arith))
      ∙ ap (number_from 0) same
      ∙ number_from-digits_of (suc (length b)) (length b) (omega arith) in
    append-injective a b lengths rest

ends-ne-[] : (front back x : List ℕ) (c : ℕ) → (front ++ c ∷ back) ++ x ≢ []
ends-ne-[] [] back x c e = cc
ends-ne-[] (_ ∷ _) back x c e = cc

component-ne-[] : (a x : List ℕ) → component a ++ x ≢ []
unfolding component
component-ne-[] a x = ends-ne-[] (decimal_text (length a)) a x b':'

write_all-injective : (cs bs : List (List ℕ)) → write_all cs ≡ write_all bs → cs ≡ bs
write_all-injective [] [] e = refl
write_all-injective [] (b ∷ bs) e = elim (component-ne-[] b (write_all bs) (sym e)) [ ]
write_all-injective (a ∷ cs) [] e = elim (component-ne-[] a (write_all cs) e) [ ]
write_all-injective (a ∷ cs) (b ∷ bs) e =
    let (same, rest) = component-injective a b e in let tails = write_all-injective cs bs rest in cc

components-injective : (i j : ObjectId) → components i ≡ components j → i ≡ j
components-injective i j e = ground arith

-- Two object identities with the same key are the same identity: no choice of catalog, schema,
-- owner, kind, name and parent, of whatever bytes, is given the key of another.
pub object_key-injective : (i j : ObjectId) → object_key i ≡ object_key j → i ≡ j
unfolding object_key
object_key-injective i j e = components-injective i j (write_all-injective _ _ e)
