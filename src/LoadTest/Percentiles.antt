-- ===== src/LoadTest/Percentiles.antt =====
-- cmd/loadtest/main.go: the report of a load.
use adserver.Common.Int.{ltb_ℤ, ℤ, leb_ℤ}
use adserver.Common.Sorting.{IsStrictWeak, SliceSort}
use adserver.Common.{
  refl, true, false, some, zero, suc, [], ◌∷◌, ◌≡◌, ◌≤◌, ◌<◌, List, ℕ, arith, length, ◌^◌, All, ◌%◌,
  ◌-◌, All-of_mem, All-mem, sym, ap,
}
use mathlib.Core.Path.{subst}
use mathlib.Core.Bool.{Bool-set}
use mathlib.Core.List.Perm
use mathlib.Core.List.{Perm, Pairwise, Mem, mem-cons_self, mem-cons_of_mem, not-mem-nil}
use adserver.LoadTest.Counts.{LoadRun, LoadRun-IsCounted, owed-are_finished}
use adserver.LoadTest.{
  reports, panics, no_requests, Indices, nth, Load, Report, report_of, Outcome, percentile, report,
  report_samples,
}

-- `int(float64(n) * percentile)` does not pass n, and a higher percentile gives no lower index.
pub record AreIndices (ix : Indices) : Type 0 where
  pub below95 : (n : ℕ) → ix.at50 n ≤ ix.at95 n
  pub below99 : (n : ℕ) → ix.at95 n ≤ ix.at99 n
  pub within : (n : ℕ) → ix.at99 n ≤ n

ltb_ℤ-IsStrictWeak : IsStrictWeak ltb_ℤ
ltb_ℤ-IsStrictWeak = record {
  irrefl = λ a. ground arith;
  trans = λ a b c h k. ground arith;
  not_trans = λ a b c h k. ground arith;
}

-- The list is in order.
abbrev Ascends : List ℤ → Type 0
Ascends l = Pairwise (λ a b. ltb_ℤ b a ≡ false) l

nth-within : (i : ℕ) (l : List ℤ) → i < length l → (x : ℤ) × (nth i l ≡ some x)
unfolding nth
nth-within i [] h = absurd (omega arith)
nth-within zero (x ∷ xs) h = (x, refl)
nth-within (suc i) (x ∷ xs) h = nth-within i xs (omega arith)

some-inj : {x y : ℤ} → some x ≡ some y → x ≡ y
some-inj h = ground arith

nth-Mem : (i : ℕ) (l : List ℤ) (x : ℤ) → nth i l ≡ some x → Mem x l
unfolding nth
nth-Mem i [] x h = absurd (ground arith)
nth-Mem zero (y ∷ ys) x h = subst (λ z. Mem z (y ∷ ys)) (some-inj h) mem-cons_self
nth-Mem (suc i) (y ∷ ys) x h = mem-cons_of_mem y (nth-Mem i ys x h)

nth-Ascends :
    (i j : ℕ) (l : List ℤ) (x y : ℤ)
    → Ascends l
    → i ≤ j
    → nth i l ≡ some x
    → nth j l ≡ some y
    → leb_ℤ x y ≡ true
unfolding nth
nth-Ascends i j [] x y p q h k = absurd (ground arith)
nth-Ascends zero zero (z ∷ zs) x y p q h k = ground arith
nth-Ascends zero (suc j) (z ∷ zs) x y (Pairwise.cons f p) q h k =
    let m = f y (nth-Mem j zs y k) in ground arith
nth-Ascends (suc i) zero (z ∷ zs) x y p q h k = absurd (omega arith)
nth-Ascends (suc i) (suc j) (z ∷ zs) x y (Pairwise.cons f p) q h k =
    nth-Ascends i j zs x y p (omega arith) h k

last-Ascends :
    (x : ℤ) (xs : List ℤ) (y : ℤ)
    → Ascends (x ∷ xs)
    → nth (length xs) (x ∷ xs) ≡ some y
    → All (λ z. leb_ℤ z y ≡ true) (x ∷ xs)
unfolding nth
last-Ascends x [] y p h = (ground arith, tt)
last-Ascends x (z ∷ zs) y (Pairwise.cons f p) h =
    let m = f y (nth-Mem (length zs) (z ∷ zs) y h) in (ground arith, last-Ascends z zs y p h)

-- A report of the load.
pub record IsReport (l : Load) (r : Report) : Type 0 where
  pub all_requests : r.requests ≡ length l.samples % 2 ^ 64
  pub all_failures : r.failures ≡ l.failures
  pub median_below : leb_ℤ r.p50 r.p95 ≡ true
  pub p95_below : leb_ℤ r.p95 r.p99 ≡ true
  pub p99_below : leb_ℤ r.p99 r.max ≡ true
  pub is_max : All (λ z. leb_ℤ z r.max ≡ true) l.samples

-- Without a sample there is no report, and there is no panic.
abbrev pub Reported : Load → Outcome → Type 0
Reported l no_requests = l.samples ≡ []
Reported l panics = ⊥
Reported l (reports r) = IsReport l r

-- The percentiles of a list in order that is not empty.
module _ (l : Load) (ix : Indices) (h : AreIndices ix)
    (q : l.completed ≡ length l.samples % 2 ^ 64) where
  report_of-Reported :
      (sorted : List ℤ) (a b c d : ℤ)
      → nth (ix.at50 (length sorted - 1)) sorted ≡ some a
      → nth (ix.at95 (length sorted - 1)) sorted ≡ some b
      → nth (ix.at99 (length sorted - 1)) sorted ≡ some c
      → nth (length sorted - 1) sorted ≡ some d
      → Ascends sorted
      → All (λ z. leb_ℤ z d ≡ true) l.samples
      → Reported l (
          report_of l
            (percentile sorted ix.at50)
            (percentile sorted ix.at95)
            (percentile sorted ix.at99)
            (nth (length sorted - 1) sorted))
  unfolding report_of percentile
  report_of-Reported sorted a b c d ha hb hc hd p m =
      let n = length sorted - 1 in
      rw (ha, hb, hc, hd)
        (record {
          all_requests = q;
          all_failures = refl;
          median_below = nth-Ascends _ _ sorted a b p (h.below95 n) ha hb;
          p95_below = nth-Ascends _ _ sorted b c p (h.below99 n) hb hc;
          p99_below = nth-Ascends _ _ sorted c d p (h.within n) hc hd;
          is_max = m;
        })

  sorted-Reported :
      (sorted : List ℤ) (x : ℤ)
      → Ascends sorted
      → Perm sorted l.samples
      → Mem x sorted
      → Reported l (
          report_of l
            (percentile sorted ix.at50)
            (percentile sorted ix.at95)
            (percentile sorted ix.at99)
            (nth (length sorted - 1) sorted))
  sorted-Reported [] x p k m = absurd (not-mem-nil m)
  sorted-Reported (y ∷ ys) x p k m =
      let at = λ (i : ℕ) (b : i ≤ length ys). nth-within i (y ∷ ys) (omega (arith, b)) in
      let n = length (y ∷ ys) - 1 in
      let a = at (ix.at50 n) (omega (arith, h.below95 n, h.below99 n, h.within n)) in
      let b = at (ix.at95 n) (omega (arith, h.below99 n, h.within n)) in
      let c = at (ix.at99 n) (omega (arith, h.within n)) in
      let d = at n (omega arith) in
      report_of-Reported (y ∷ ys) a.0 b.0 c.0 d.0 a.1 b.1 c.1 d.1 p (
        All-of_mem (λ z. leb_ℤ z d.0 ≡ true) l.samples
          (λ z o.
            All-mem (λ w. leb_ℤ w d.0 ≡ true) (λ w. Bool-set _ _) (y ∷ ys)
              (last-Ascends y ys d.0 p (subst (λ i. nth i (y ∷ ys) ≡ some d.0) (omega arith) d.1))
              ((Perm.mem_iff k).1 o)))

  report_samples-Reported :
      (s : SliceSort ℤ) (xs : List ℤ) → l.samples ≡ xs → Reported l (report_samples s ix l xs)
  unfolding report_samples
  report_samples-Reported s [] e = e
  report_samples-Reported s (x ∷ xs) e =
      let sorted = s.sort ltb_ℤ (x ∷ xs) in
      sorted-Reported sorted x (s.sort-Pairwise ltb_ℤ ltb_ℤ-IsStrictWeak (x ∷ xs))
        (subst (λ ys. Perm sorted ys) (sym e) (s.sort-perm ltb_ℤ (x ∷ xs)))
        ((Perm.mem_iff (s.sort-perm ltb_ℤ (x ∷ xs))).1 mem-cons_self)

-- When the collector of a load has ended, and the indices of the percentiles are in order and do not pass
-- the last one: the report is left out only where there is no sample, and reads no index out of range. The
-- requests that it prints are the number of samples, at 64 bits, its percentiles ascend, and its maximum is
-- at least every sample.
pub report-Reported :
    {n : ℕ} (l : Load) (s : SliceSort ℤ) (ix : Indices)
    → LoadRun n l
    → l.is_collected ≡ true
    → AreIndices ix
    → Reported l (report s ix l)
unfolding report
report-Reported l s ix r e h =
    let v = LoadRun-IsCounted l r in
    let k = v.collected_empty e in
    let o = owed-are_finished l.clients (v.closed_behind k.0) in
    report_samples-Reported l ix h (omega (arith, v.counted, ap length k.1, o)) s l.samples refl
