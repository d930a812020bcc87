-- ===== src/Examples/Sorting.antt =====
-- An insertion sort, which meets the contract of `sort.Slice`.
use mathlib.Core.Logic.Or
use mathlib.Core.Bool.{false≢true, Bool-set}
use mathlib.Core.List.{Pairwise, Perm, not-mem-nil, Mem, mem-cons}
use adserver.Common.Sorting.{SliceSort, IsStrictWeak}
use adserver.Common.{
  true, false, inl, inr, [], ◌∷◌, ◌≡◌, ◌∙◌, if◌then◌else◌, Bool, List, Bool-cases, sym, ap,
}
use mathlib.Core.List.Perm

module _ {A : Type 0} where
  abbrev insert : (A → A → Bool) → A → List A → List A
  insert less x [] = x ∷ []
  insert less x (y ∷ ys) = if less y x then y ∷ insert less x ys else x ∷ y ∷ ys

  abbrev insertion : (A → A → Bool) → List A → List A
  insertion less [] = []
  insertion less (x ∷ xs) = insert less x (insertion less xs)

  insert-perm : (less : A → A → Bool) (x : A) (ys : List A) → Perm (insert less x ys) (x ∷ ys)
  insert-perm less x [] = Perm.refl (x ∷ [])
  insert-perm less x (y ∷ ys) = elim (Bool-cases (less y x)) [
    | inl e ↦ rw e (Perm.trans (Perm.cons y (insert-perm less x ys)) (Perm.swap x y ys))
    | inr e ↦ rw e (Perm.refl (x ∷ y ∷ ys))
  ]

  pub insertion-perm : (less : A → A → Bool) (l : List A) → Perm (insertion less l) l
  insertion-perm less [] = Perm.refl []
  insertion-perm less (x ∷ xs) =
      Perm.trans (insert-perm less x (insertion less xs)) (Perm.cons x (insertion-perm less xs))

  module _ (less : A → A → Bool) (weak : IsStrictWeak less) where
    asymm : (a b : A) → less a b ≡ true → less b a ≡ false
    asymm a b h = elim (Bool-cases (less b a)) [
      | inl e ↦ absurd (false≢true (sym (weak.irrefl a) ∙ weak.trans a b a h e))
      | inr e ↦ e
    ]

    -- What holds of the head and of the members of the tail holds of the members of the list.
    before :
        (a x : A) (ys : List A)
        → less x a ≡ false
        → ((z : A) → Mem z ys → less z a ≡ false)
        → (z : A) → Mem z (x ∷ ys)
        → less z a ≡ false
    before a x ys h k z m =
        Or.elim (Bool-set (less z a) false) (mem-cons.0 m) (λ e. ap (λ w. less w a) e ∙ h) (k z)

    insert-Pairwise :
        (x : A) (ys : List A)
        → Pairwise (λ a b. less b a ≡ false) ys
        → Pairwise (λ a b. less b a ≡ false) (insert less x ys)
    insert-Pairwise x [] p = Pairwise.cons (λ z m. absurd (not-mem-nil m)) Pairwise.nil
    insert-Pairwise x (y ∷ ys) (Pairwise.cons h p) = elim (Bool-cases (less y x)) [
      | inl e ↦ rw e (
          Pairwise.cons
            (λ z m. before y x ys (asymm y x e) h z ((Perm.mem_iff (insert-perm less x ys)).0 m))
            (insert-Pairwise x ys p))
      | inr e ↦ rw e (
          Pairwise.cons (before x y ys e (λ z m. weak.not_trans z y x (h z m) e))
            (Pairwise.cons h p))
    ]

    pub insertion-Pairwise : (l : List A) → Pairwise (λ a b. less b a ≡ false) (insertion less l)
    insertion-Pairwise [] = Pairwise.nil
    insertion-Pairwise (x ∷ xs) = insert-Pairwise x (insertion less xs) (insertion-Pairwise xs)

abbrev pub insertion_sort : {A : Type 0} → SliceSort A
insertion_sort = record {
  sort = insertion;
  sort-perm = insertion-perm;
  sort-Pairwise = λ less weak l. insertion-Pairwise less weak l;
}
