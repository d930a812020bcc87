-- ===== src/Common/Decimal.antt =====
-- `strconv.FormatInt(n, 10)`: the decimal text of an integer, and that it determines the integer.
use mathlib.Core.Bool.{false≢true}
use adserver.Common.Word.{IsInt64}
use adserver.Common.Text.{has_byte, Str, has_byte-append}
use adserver.Common.Int.{ℤ, pos, negsuc}
use native.Mathlib.Nat.{pow-suc}
use adserver.Common.{
  ℕ, refl, false, inl, inr, zero, suc, [], ◌∷◌, ◌≡◌, ◌+◌, ◌-◌, ◌^◌, ◌++◌, ◌<◌, if◌then◌else◌,
  Bool-cases, ◌/◌, ◌*◌, ltb, arith, ◌%◌, ◌∙◌, sym, ap,
}

-- The digits of a number of at most `fuel` digits.
unfoldable pub digits : ℕ → ℕ → Str
digits zero n = []
digits (suc fuel) n =
    let rest = digits fuel (n / 10) in
    if ltb n 10 then (48 + n) ∷ [] else rest ++ (48 + n % 10) ∷ []

-- Twenty digits hold every 64-bit number.
unfoldable pub format_int : ℤ → Str
unfolding digits
format_int (pos n) = digits 20 n
format_int (negsuc n) = b'-' ∷ digits 20 (suc n)

-- Reads digits on from a number.
read_from : ℕ → Str → ℕ
read_from acc [] = acc
read_from acc (d ∷ ds) = read_from (acc * 10 + (d - 48)) ds

read_from-append :
    (acc : ℕ) (xs ys : Str) → read_from acc (xs ++ ys) ≡ read_from (read_from acc xs) ys
unfolding read_from
read_from-append acc [] ys = refl
read_from-append acc (x ∷ xs) ys = read_from-append (acc * 10 + (x - 48)) xs ys

tenth : (fuel n : ℕ) → n < 10 ^ suc fuel → n / 10 < 10 ^ fuel
tenth fuel n h = omega (arith, pow-suc 10 fuel)

read_from-digits : (fuel n : ℕ) → n < 10 ^ fuel → read_from 0 (digits fuel n) ≡ n
unfolding read_from digits
read_from-digits zero n h = omega (arith, h)
read_from-digits (suc fuel) n h = elim (Bool-cases (ltb n 10)) [
  | inl e ↦ rw e (omega arith)
  | inr e ↦
      rw (e, read_from-append 0 (digits fuel (n / 10)) ((48 + n % 10) ∷ []))
        (last_digit (read_from 0 (digits fuel (n / 10)))
          (read_from-digits fuel (n / 10) (tenth fuel n h)))
]
  where
    last_digit : (m : ℕ) → m ≡ n / 10 → m * 10 + (48 + n % 10 - 48) ≡ n
    last_digit m e = omega arith

-- No digit is below the digit zero, so none is a separator or a minus sign.
digits-above : (fuel n c : ℕ) → c < 48 → has_byte c (digits fuel n) ≡ false
unfolding digits has_byte
digits-above zero n c h = refl
digits-above (suc fuel) n c h = elim (Bool-cases (ltb n 10)) [
  | inl e ↦ rw e (ground arith)
  | inr e ↦
      rw
        (
          e,
          has_byte-append c (digits fuel (n / 10)) ((48 + n % 10) ∷ []),
          digits-above fuel (n / 10) c h,
        )
        (ground arith)
]

digits-injective : (n m : ℕ) → n < 10 ^ 20 → m < 10 ^ 20 → digits 20 n ≡ digits 20 m → n ≡ m
digits-injective n m h k e =
    sym (read_from-digits 20 n h) ∙ ap (read_from 0) e ∙ read_from-digits 20 m k

suc_inj : (n m : ℕ) → suc n ≡ suc m → n ≡ m
suc_inj n m e = omega arith

cons_inj : {x y : ℕ} {xs ys : Str} → ◌≡◌ {A = Str} (x ∷ xs) (y ∷ ys) → xs ≡ ys
cons_inj e = cc

no_sign : (n : ℕ) (rest : Str) → digits 20 n ≡ b'-' ∷ rest → ⊥
unfolding has_byte
no_sign n rest e = false≢true (sym (digits-above 20 n b'-' (omega arith)) ∙ ap (has_byte b'-') e)

-- The text determines the integer, and holds no byte below the minus sign.
pub format_int-injective : (a b : ℤ) → IsInt64 a → IsInt64 b → format_int a ≡ format_int b → a ≡ b
unfolding format_int
format_int-injective (pos n) (pos m) h k e =
    ap pos (digits-injective n m (omega arith) (omega arith) e)
format_int-injective (pos n) (negsuc m) h k e = absurd (no_sign n (digits 20 (suc m)) e)
format_int-injective (negsuc n) (pos m) h k e = absurd (no_sign m (digits 20 (suc n)) (sym e))
format_int-injective (negsuc n) (negsuc m) h k e =
    ap negsuc
      (suc_inj n m (digits-injective (suc n) (suc m) (omega arith) (omega arith) (cons_inj e)))

pub format_int-above : (a : ℤ) (c : ℕ) → c < 45 → has_byte c (format_int a) ≡ false
unfolding format_int has_byte
format_int-above (pos n) c h = digits-above 20 n c (omega arith)
format_int-above (negsuc n) c h = ground (arith, digits-above 20 (suc n) c (omega arith))
