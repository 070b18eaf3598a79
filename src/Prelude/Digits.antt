-- ===== src/Prelude/Digits.antt =====
-- Decimal texts: a text is a list of code points, and a digit is 48 and more.
use Prim.Native.Nat.{ℕ, zero, suc, ◌+◌, ◌-◌, ◌*◌, ◌/◌, ◌%◌, ◌^◌, ◌≤◌, ◌<◌}
use native.Mathlib.Nat.{pow-suc}
use mathlib.Core.Path.{◌≡◌, refl, ap, ap₂}
use mathlib.Core.Bool.{Bool, true, false, ◌&&◌}
use mathlib.Core.Logic.{inl, inr}
use mathlib.Core.List.{List, [], ◌∷◌, ◌++◌}
use native.Mathlib.Omega.{arith}
use k_aikei.Prelude.Tests.{ltb, leb, ◌==◌, Bool-cases}
use k_aikei.Prelude.Lists.{length, length-append}

abbrev pub Text : Type 0
Text = List ℕ

abbrev pub is_digit : ℕ → Bool
is_digit c = leb 48 c && leb c 57

abbrev pub all_digits : Text → Bool
all_digits [] = true
all_digits (c ∷ cs) = is_digit c && all_digits cs

-- `str.isdigit`, of an ASCII text
abbrev pub is_number : Text → Bool
is_number [] = false
is_number (c ∷ cs) = all_digits (c ∷ cs)

abbrev pub text_eq : Text → Text → Bool
text_eq [] [] = true
text_eq (a ∷ as') (b ∷ bs) = a == b && text_eq as' bs
text_eq _ _ = false

-- `str(n)`. A number has no more digits than its value and one, so the fuel is enough.
unfoldable pub digits_on : ℕ → ℕ → Text
digits_on zero n = []
digits_on (suc fuel) n = elim (ltb n 10) [
  | true ↦ (48 + n) ∷ []
  | false ↦ digits_on fuel (n / 10) ++ (48 + n % 10) ∷ []
]

unfoldable pub digits_of : ℕ → Text
digits_of n = digits_on (n + 1) n

-- `int(text)` of digits
abbrev pub value_on : ℕ → Text → ℕ
value_on acc [] = acc
value_on acc (c ∷ cs) = value_on (acc * 10 + (c - 48)) cs

abbrev pub value_of : Text → ℕ
value_of cs = value_on 0 cs

abbrev pub repeated : ℕ → ℕ → Text
repeated zero c = []
repeated (suc n) c = c ∷ repeated n c

-- `rjust(width, "0")`, and `zfill(width)` of digits
unfoldable pub zero_padded : ℕ → Text → Text
zero_padded width cs = repeated (width - length cs) 48 ++ cs

pub length-repeated : (n c : ℕ) → length (repeated n c) ≡ n
length-repeated zero c = refl
length-repeated (suc n) c = ap suc (length-repeated n c)

pub length-zero_padded :
    (width : ℕ) (cs : Text) → length cs ≤ width → length (zero_padded width cs) ≡ width
unfolding zero_padded
length-zero_padded width cs fits = omega (
  arith,
  length-append (repeated (width - length cs) 48) cs,
  length-repeated (width - length cs) 48,
)

value_on-append :
    (acc d : ℕ) (cs : Text) → value_on acc (cs ++ (48 + d) ∷ []) ≡ value_on acc cs * 10 + d
value_on-append acc d [] = omega arith
value_on-append acc d (c ∷ cs) = value_on-append (acc * 10 + (c - 48)) d cs

value_on-zeros : (n : ℕ) (cs : Text) → value_on 0 (repeated n 48 ++ cs) ≡ value_on 0 cs
value_on-zeros zero cs = refl
value_on-zeros (suc n) cs = value_on-zeros n cs

pub value_of-zero_padded : (width : ℕ) (cs : Text) → value_of (zero_padded width cs) ≡ value_of cs
unfolding zero_padded
value_of-zero_padded width cs = value_on-zeros (width - length cs) cs

digits_small : (fuel n : ℕ) → ltb n 10 ≡ true → digits_on (suc fuel) n ≡ (48 + n) ∷ []
unfolding digits_on
digits_small fuel n h =
    ap
      (λ b. elim b [ true ↦ (48 + n) ∷ [] | false ↦ digits_on fuel (n / 10) ++ (48 + n % 10) ∷ [] ])
      h

digits_large :
    (fuel n : ℕ)
    → ltb n 10 ≡ false
    → digits_on (suc fuel) n ≡ digits_on fuel (n / 10) ++ (48 + n % 10) ∷ []
unfolding digits_on
digits_large fuel n h =
    ap
      (λ b. elim b [ true ↦ (48 + n) ∷ [] | false ↦ digits_on fuel (n / 10) ++ (48 + n % 10) ∷ [] ])
      h

value_of-digits_on : (fuel n : ℕ) → n < fuel → value_of (digits_on fuel n) ≡ n
value_of-digits_on zero n h = omega arith
value_of-digits_on (suc fuel) n h = elim (Bool-cases (ltb n 10)) [
  | inl small ↦ rw (digits_small fuel n small) (omega arith)
  | inr large ↦
      rw
        (
          digits_large fuel n large,
          value_on-append 0 (n % 10) (digits_on fuel (n / 10)),
          value_of-digits_on fuel (n / 10) (ground (arith, large)),
        )
        (omega arith)
]

-- The digits of a number are read back as the number.
pub value_of-digits_of : (n : ℕ) → value_of (digits_of n) ≡ n
unfolding digits_of
value_of-digits_of n = value_of-digits_on (n + 1) n (omega arith)

all_digits-append :
    (cs ds : Text) → all_digits cs ≡ true → all_digits ds ≡ true → all_digits (cs ++ ds) ≡ true
all_digits-append [] ds h k = k
all_digits-append (c ∷ cs) ds h k = ground (arith, h, all_digits-append cs ds)

one_digit : (d : ℕ) → d < 10 → all_digits ((48 + d) ∷ []) ≡ true
one_digit d h = ground arith

no_digits : (n : ℕ) → all_digits (digits_on zero n) ≡ true
unfolding digits_on
no_digits n = refl

digits_on-all_digits : (fuel n : ℕ) → all_digits (digits_on fuel n) ≡ true
digits_on-all_digits zero n = no_digits n
digits_on-all_digits (suc fuel) n = elim (Bool-cases (ltb n 10)) [
  | inl small ↦ rw (digits_small fuel n small) (one_digit n (ground (arith, small)))
  | inr large ↦ rw (digits_large fuel n large) (
      all_digits-append (digits_on fuel (n / 10)) ((48 + n % 10) ∷ [])
        (digits_on-all_digits fuel (n / 10)) (one_digit (n % 10) (omega arith)))
]

pub digits_of-all_digits : (n : ℕ) → all_digits (digits_of n) ≡ true
unfolding digits_of
digits_of-all_digits n = digits_on-all_digits (n + 1) n

length-digits_on : (fuel n w : ℕ) → n < 10 ^ suc w → n < fuel → length (digits_on fuel n) ≤ suc w
length-digits_on zero n w h enough = omega arith
length-digits_on (suc fuel) n zero h enough =
    let small : ltb n 10 ≡ true = ground (arith, h) in rw (digits_small fuel n small) (omega arith)
length-digits_on (suc fuel) n (suc w) h enough = elim (Bool-cases (ltb n 10)) [
  | inl small ↦ rw (digits_small fuel n small) (omega arith)
  | inr large ↦
      let shorter : n / 10 < 10 ^ suc w = omega (arith, h, pow-suc 10 (suc w)) in
      let below : n / 10 < fuel = ground (arith, large, enough) in
      rw (digits_large fuel n large, length-append (digits_on fuel (n / 10)) ((48 + n % 10) ∷ []))
        (omega (arith, length-digits_on fuel (n / 10) w shorter below))
]

-- A number below a power of ten has no more digits than the power says.
pub length-digits_of : (n w : ℕ) → n < 10 ^ suc w → length (digits_of n) ≤ suc w
unfolding digits_of
length-digits_of n w h = length-digits_on (n + 1) n w h (omega arith)

pub text_eq_lem : (a b : Text) → text_eq a b ≡ true → a ≡ b
text_eq_lem [] [] h = refl
text_eq_lem [] (b ∷ bs) h = cc
text_eq_lem (a ∷ as') [] h = cc
text_eq_lem (a ∷ as') (b ∷ bs) h = elim (Bool-cases (a == b)) [
  | inl e ↦ ap₂ (λ x xs. x ∷ xs) (ground (arith, e)) (text_eq_lem as' bs (rw e at h))
  | inr e ↦ cc (rw e at h)
]

pub text_eq_refl : (a : Text) → text_eq a a ≡ true
text_eq_refl [] = refl
text_eq_refl (a ∷ as') = ground (arith, text_eq_refl as')
