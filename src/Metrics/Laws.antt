-- ===== src/Metrics/Laws.antt =====
-- The printed histogram counts the latencies up to each bound.
use mathlib.Core.Path.{subst}
use adserver.Common.Word.{inc64}
use adserver.Metrics.{
  cumulate, write_histogram, observe_histogram, observe_from, no_buckets, latency_upper_us,
}
use adserver.Common.Int.{ℤ, leb_ℤ, ◌≤ℤ◌}
use native.Mathlib.Nat.{mod-eq_of_lt}
use adserver.Common.{
  ℕ, refl, true, inl, inr, suc, [], ◌∷◌, ◌≡◌, ◌+◌, ◌-◌, ◌^◌, ◌≤◌, ◌<◌, if◌then◌else◌, List, length,
  All, arith, map, All-mono, Bool-cases, ap, sym, ◌%◌, false, ◌∙◌,
}

unfoldable pub count_le : ℤ → List ℤ → ℕ
count_le u [] = 0
count_le u (x ∷ xs) = if leb_ℤ x u then suc (count_le u xs) else count_le u xs

-- The observations, the last one at the head of the list.
unfoldable pub observe_all : List ℤ → List ℕ
observe_all [] = no_buckets
observe_all (x ∷ xs) = observe_histogram (observe_all xs) x

-- The buckets and what came before them add up to `f` at each bound.
abbrev AddsUp : ℕ → List ℤ → List ℕ → (ℤ → ℕ) → Type 0
AddsUp s [] bs f = Unit
AddsUp s (u ∷ us) [] f = ⊥
AddsUp s (u ∷ us) (b ∷ bs) f = (s + b ≡ f u) × AddsUp (f u) us bs f

abbrev Ascending : List ℤ → Type 0
Ascending [] = Unit
Ascending (u ∷ us) = All (λ v. u ≤ℤ v) us × Ascending us

AddsUp-bump :
    (s : ℕ) (us : List ℤ) (bs : List ℕ) (f g : ℤ → ℕ)
    → All (λ u. g u ≡ f u + 1) us
    → AddsUp s us bs f
    → AddsUp (s + 1) us bs g
AddsUp-bump s [] bs f g h a = tt
AddsUp-bump s (u ∷ us) [] f g h a = a
AddsUp-bump s (u ∷ us) (b ∷ bs) f g h a =
    (omega (arith, h.0, a.0), rw h.0 (AddsUp-bump (f u) us bs f g h.1 a.1))

-- One latency more.
abbrev count_with : ℤ → (ℤ → ℕ) → ℤ → ℕ
count_with x f u = if leb_ℤ x u then suc (f u) else f u

observe_from-AddsUp :
    (s : ℕ) (us : List ℤ) (bs : List ℕ) (x : ℤ) (f : ℤ → ℕ)
    → Ascending us
    → All (λ u. f u + 1 < 2 ^ 64) us
    → AddsUp s us bs f
    → AddsUp s us (observe_from us bs x) (count_with x f)
unfolding observe_from inc64
observe_from-AddsUp s [] bs x f up small a = tt
observe_from-AddsUp s (u ∷ us) [] x f up small a = a
observe_from-AddsUp s (u ∷ us) (b ∷ bs) x f up small a = elim (Bool-cases (leb_ℤ x u)) [
  | inl e ↦
      let here = above u (omega arith) e in
      let wrap : (b + 1) % 2 ^ 64 ≡ b + 1 = mod-eq_of_lt (omega (arith, a.0, small.0)) in
      rw e (
        omega (arith, here, a.0, wrap),
        subst (λ t. AddsUp t us bs (count_with x f)) (sym here)
            (AddsUp-bump (f u) us bs f (count_with x f)
              (All-mono _ _ (λ v le. above v le e) us up.0) a.1),
      )
  | inr e ↦
      let here = below u e in
      rw e (
        a.0 ∙ sym here,
        subst (λ t. AddsUp t us (observe_from us bs x) (count_with x f)) (sym here)
            (observe_from-AddsUp (f u) us bs x f up.1 small.1 a.1),
      )
]
  where
    above : (v : ℤ) → u ≤ℤ v → leb_ℤ x u ≡ true → count_with x f v ≡ f v + 1
    above v le e = ground arith

    below : (v : ℤ) → leb_ℤ x v ≡ false → count_with x f v ≡ f v
    below v e = rw e refl

cumulate-AddsUp :
    (s : ℕ) (us : List ℤ) (bs : List ℕ) (f : ℤ → ℕ)
    → All (λ u. f u < 2 ^ 64) us
    → AddsUp s us bs f
    → cumulate s us bs ≡ map (λ u. (u, f u)) us
unfolding cumulate
cumulate-AddsUp s [] bs f small a = refl
cumulate-AddsUp s (u ∷ us) [] f small a = absurd a
cumulate-AddsUp s (u ∷ us) (b ∷ bs) f small a =
    rw (a.0, mod-eq_of_lt small.0) (ap (◌∷◌ (u, f u)) (cumulate-AddsUp (f u) us bs f small.1 a.1))

count_le-length : (u : ℤ) (xs : List ℤ) → count_le u xs ≤ length xs
unfolding count_le
count_le-length u [] = omega arith
count_le-length u (x ∷ xs) = ground (arith, count_le-length u xs)

small_counts : (xs : List ℤ) (n : ℕ) (us : List ℤ) → length xs < n → All (λ u. count_le u xs < n) us
small_counts xs n [] h = tt
small_counts xs n (u ∷ us) h = (omega (arith, count_le-length u xs), small_counts xs n us h)

observe_all-AddsUp :
    (xs : List ℤ)
    → length xs < 2 ^ 64
    → AddsUp 0 latency_upper_us (observe_all xs) (λ u. count_le u xs)
unfolding observe_all observe_histogram count_le
observe_all-AddsUp [] h = omega arith
observe_all-AddsUp (x ∷ xs) h =
    observe_from-AddsUp 0 latency_upper_us (observe_all xs) x (λ u. count_le u xs) (omega arith)
      (All-mono (λ u. count_le u xs < 2 ^ 64 - 1) (λ u. count_le u xs + 1 < 2 ^ 64)
        (λ u k. omega arith) latency_upper_us
        (small_counts xs (2 ^ 64 - 1) latency_upper_us (omega arith)))
      (observe_all-AddsUp xs (omega arith))

-- Fewer than 2^64 observations are printed, at each bound, as the number of latencies up to it.
pub write_histogram-observe_all :
    (xs : List ℤ) (total : ℕ)
    → length xs < 2 ^ 64
    → (write_histogram (observe_all xs) total).buckets
      ≡ map (λ u. (u, count_le u xs)) latency_upper_us
unfolding write_histogram
write_histogram-observe_all xs total h =
    cumulate-AddsUp 0 latency_upper_us (observe_all xs) (λ u. count_le u xs)
      (small_counts xs (2 ^ 64) latency_upper_us h) (observe_all-AddsUp xs h)
