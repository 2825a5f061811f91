-- ===== src/Journal/Index.antt =====
-- Array indices as texts: `String(i)` and `Number(seg)` as src/journal.ts uses them. `Number` is
-- modelled on the texts of decimal digits and on the empty text, which it reads as 0; any other
-- text (a sign, white space, a fraction, an exponent, a radix prefix) counts as no integer here.
use Prim.Native.Char.{Char, code}
use Prim.Native.String.{String, [], ◌∷◌}
use libcheloniajs.Base.{
  ℕ, zero, suc, ◌+◌, ◌*◌, ◌-◌, ◌/◌, ◌%◌, ◌<◌, ◌≡◌, refl, ◌∙◌, ap, ◌&&◌, ◌==◌, ltb, leb, Option,
  none, some, if◌then◌else◌, arith, inl, inr, Bool-cases, false, str_eq, eq_iff,
}

digit : ℕ → Char
digit d =
    if d == 0
    then "0"
    else if d == 1
    then "1"
    else if d == 2
    then "2"
    else if d == 3
    then "3"
    else if d == 4
    then "4"
    else if d == 5
    then "5"
    else if d == 6
    then "6"
    else if d == 7
    then "7"
    else if d == 8
    then "8"
    else "9"

-- The digits of a number before a text, with more fuel than the number.
digits_before : ℕ → ℕ → String → String
digits_before zero n s = s
digits_before (suc fuel) n s =
    let more = digits_before fuel (n / 10) (digit (n % 10) ∷ s) in
    if ltb n 10 then digit n ∷ s else more

unfoldable pub index_text : ℕ → String
unfolding digits_before digit
index_text n = digits_before (suc n) n []

read_digits : ℕ → String → Option ℕ
read_digits acc [] = some acc
read_digits acc (c ∷ s) =
    if leb b'0' (code c) && leb (code c) b'9'
    then read_digits (acc * 10 + (code c - b'0')) s
    else none

unfoldable pub number_of : String → Option ℕ
unfolding read_digits
number_of s = read_digits 0 s

code-digit : (d : ℕ) → d < 10 → code (digit d) ≡ 48 + d
unfolding digit
code-digit zero h = refl
code-digit (suc zero) h = refl
code-digit (suc (suc zero)) h = refl
code-digit (suc (suc (suc zero))) h = refl
code-digit (suc (suc (suc (suc zero)))) h = refl
code-digit (suc (suc (suc (suc (suc zero))))) h = refl
code-digit (suc (suc (suc (suc (suc (suc zero)))))) h = refl
code-digit (suc (suc (suc (suc (suc (suc (suc zero))))))) h = refl
code-digit (suc (suc (suc (suc (suc (suc (suc (suc zero)))))))) h = refl
code-digit (suc (suc (suc (suc (suc (suc (suc (suc (suc zero))))))))) h = refl
code-digit (suc (suc (suc (suc (suc (suc (suc (suc (suc (suc d)))))))))) h = absurd (omega arith)

read_digits-digit :
    (acc d : ℕ) (s : String) → d < 10 → read_digits acc (digit d ∷ s) ≡ read_digits (acc * 10 + d) s
unfolding read_digits
read_digits-digit acc d s h = rw (code-digit d h) (ground arith)

read_digits-digits_before :
    (fuel n : ℕ) (s : String) → n < fuel → read_digits 0 (digits_before fuel n s) ≡ read_digits n s
unfolding digits_before
read_digits-digits_before zero n s h = elim h [ ]
read_digits-digits_before (suc fuel) n s h = elim (Bool-cases (ltb n 10)) [
  | inl small ↦
      rw small (read_digits-digit 0 n s (ground arith) ∙ ap (λ k. read_digits k s) (omega arith))
  | inr large ↦ rw large (
      read_digits-digits_before fuel (n / 10) (digit (n % 10) ∷ s) (ground arith)
      ∙ read_digits-digit (n / 10) (n % 10) s (omega arith)
      ∙ ap (λ k. read_digits k s) (omega arith))
]

-- Reading the text of an index gives the index.
pub number_of-index_text : (n : ℕ) → number_of (index_text n) ≡ some n
unfolding number_of index_text read_digits
number_of-index_text n = read_digits-digits_before (suc n) n [] (omega arith)

index_text_lem : index_text 1024 ≡ "1024"
unfolding index_text
index_text_lem = refl

-- The text of an index is not the token `-`.
pub index_text-ne-dash : (i : ℕ) → str_eq (index_text i) "-" ≡ false
unfolding number_of read_digits
index_text-ne-dash i = elim (Bool-cases (str_eq (index_text i) "-")) [
  | inl e ↦ cc (number_of-index_text i, ap number_of ((eq_iff (index_text i) "-").0 e))
  | inr e ↦ e
]
