-- ===== src/Common/Sorting.antt =====
-- Package sort's `Slice` as an interface with its documented contract: a rearrangement, in order whenever
-- the comparison is a strict weak order.
use mathlib.Core.List.{List, Pairwise, Perm}
use mathlib.Core.Bool.{Bool, true, false}
use mathlib.Core.Path.{◌≡◌}

-- What `sort.Slice` asks of its comparison.
pub record IsStrictWeak {A : Type 0} (less : A → A → Bool) : Type 0 where
  pub irrefl : (a : A) → less a a ≡ false
  pub trans : (a b c : A) → less a b ≡ true → less b c ≡ true → less a c ≡ true
  pub not_trans : (a b c : A) → less a b ≡ false → less b c ≡ false → less a c ≡ false

pub record SliceSort (A : Type 0) : Type 0 where
  pub sort : (A → A → Bool) → List A → List A
  pub sort-perm : (less : A → A → Bool) (l : List A) → Perm (sort less l) l
  pub sort-Pairwise :
      (less : A → A → Bool)
      → IsStrictWeak less
      → (l : List A) → Pairwise (λ a b. less b a ≡ false) (sort less l)
