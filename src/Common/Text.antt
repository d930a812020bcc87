-- ===== src/Common/Text.antt =====
-- Go strings as lists of bytes: equality, the byte order of `<`, and what the program asks of
-- package strings.
use Prim.Native.Nat.{ℕ}
use Prim.Native.Char.{code}
use Prim.Native.String.{String}
use mathlib.Core.Path.{◌≡◌, refl}
use mathlib.Core.Bool.{Bool, true, false, ◌&&◌, ◌||◌}
use mathlib.Core.List.{List, [], ◌∷◌, ◌++◌}
use native.Mathlib.Omega.{arith}
use adserver.Common.Tests.{ltb, ◌==◌, if◌then◌else◌}

abbrev pub Str : Type 0
Str = List ℕ

-- The bytes of an ASCII literal.
abbrev pub bytes : String → Str
bytes String.[] = []
bytes (String.◌∷◌ c s) = code c ∷ bytes s

unfoldable pub str_eq : Str → Str → Bool
str_eq [] [] = true
str_eq [] (y ∷ ys) = false
str_eq (x ∷ xs) [] = false
str_eq (x ∷ xs) (y ∷ ys) = x == y && str_eq xs ys

unfoldable pub str_lt : Str → Str → Bool
str_lt [] [] = false
str_lt [] (y ∷ ys) = true
str_lt (x ∷ xs) [] = false
str_lt (x ∷ xs) (y ∷ ys) = if x == y then str_lt xs ys else ltb x y

unfoldable pub is_empty : Str → Bool
is_empty [] = true
is_empty (x ∷ xs) = false

-- Does the byte occur?
unfoldable pub has_byte : ℕ → Str → Bool
has_byte c [] = false
has_byte c (x ∷ xs) = x == c || has_byte c xs

-- `slices.Contains` over strings.
unfoldable pub contains : List Str → Str → Bool
unfolding str_eq
contains [] v = false
contains (x ∷ xs) v = str_eq x v || contains xs v

pub str_eq→eq : (a b : Str) → str_eq a b ≡ true → a ≡ b
unfolding str_eq
str_eq→eq [] [] h = refl
str_eq→eq [] (y ∷ ys) h = cc
str_eq→eq (x ∷ xs) [] h = cc
str_eq→eq (x ∷ xs) (y ∷ ys) h = ground (arith, str_eq→eq xs ys)

pub str_eq_refl : (a : Str) → str_eq a a ≡ true
unfolding str_eq
str_eq_refl [] = refl
str_eq_refl (x ∷ xs) = ground (arith, str_eq_refl xs)

pub str_lt_irrefl : (a : Str) → str_lt a a ≡ false
unfolding str_lt
str_lt_irrefl [] = refl
str_lt_irrefl (x ∷ xs) = ground (arith, str_lt_irrefl xs)

pub str_lt_trans : (a b c : Str) → str_lt a b ≡ true → str_lt b c ≡ true → str_lt a c ≡ true
unfolding str_lt
str_lt_trans [] [] [] h k = h
str_lt_trans [] (y ∷ ys) [] h k = k
str_lt_trans [] b (z ∷ zs) h k = refl
str_lt_trans (x ∷ xs) [] c h k = cc
str_lt_trans (x ∷ xs) (y ∷ ys) [] h k = cc
str_lt_trans (x ∷ xs) (y ∷ ys) (z ∷ zs) h k = ground (arith, str_lt_trans xs ys zs)

-- Two strings that the order does not separate are one.
pub str_lt_connex : (a b : Str) → str_lt a b ≡ false → str_lt b a ≡ false → a ≡ b
unfolding str_lt
str_lt_connex [] [] h k = refl
str_lt_connex [] (y ∷ ys) h k = cc
str_lt_connex (x ∷ xs) [] h k = cc
str_lt_connex (x ∷ xs) (y ∷ ys) h k = ground (arith, str_lt_connex xs ys)

pub has_byte-append :
    (c : ℕ) (xs ys : Str) → has_byte c (xs ++ ys) ≡ (has_byte c xs || has_byte c ys)
unfolding has_byte
has_byte-append c [] ys = refl
has_byte-append c (x ∷ xs) ys = ground (arith, has_byte-append c xs ys)

-- Texts in front of a separator that they do not hold are determined, and so is what follows.
pub separator_cancel :
    (c : ℕ) (a b x y : Str)
    → has_byte c a ≡ false
    → has_byte c b ≡ false
    → a ++ (c ∷ x) ≡ b ++ (c ∷ y)
    → (a ≡ b) × (x ≡ y)
unfolding has_byte
separator_cancel c [] [] x y h k e = ground arith
separator_cancel c [] (q ∷ b) x y h k e = ground arith
separator_cancel c (p ∷ a) [] x y h k e = ground arith
separator_cancel c (p ∷ a) (q ∷ b) x y h k e = ground (arith, separator_cancel c a b x y)

-- A separator that the ends do not hold splits them off, whatever stands before.
pub last_cancel :
    (c : ℕ) (a b x y : Str)
    → has_byte c x ≡ false
    → has_byte c y ≡ false
    → a ++ (c ∷ x) ≡ b ++ (c ∷ y)
    → x ≡ y
unfolding has_byte
last_cancel c [] [] x y h k e = ground arith
last_cancel c [] (q ∷ b) x y h k e = ground (arith, has_byte-append c b (c ∷ y))
last_cancel c (p ∷ a) [] x y h k e = ground (arith, has_byte-append c a (c ∷ x))
last_cancel c (p ∷ a) (q ∷ b) x y h k e = last_cancel c a b x y h k (ground arith)
