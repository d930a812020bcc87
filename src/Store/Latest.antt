-- ===== src/Store/Latest.antt =====
-- The register keeps the highest revision: which write of an id survives a sequence of writes.
use adserver.Common.Assoc.{load}
use mathlib.Core.Path.{subst}
use adserver.Store.{empty_hashes}
use mathlib.Core.List.{Mem, mem-cons_of_mem, mem-cons_self}
use adserver.Store.Register.{
  Register, put, put_all, Write, write_id, write_revision, write_value, view, apply_all,
  apply_all-view, register_at,
}
use adserver.Common.Text.{Str, str_eq}
use adserver.Common.{
  ℕ, refl, true, inl, inr, some, none, [], ◌∷◌, ◌≡◌, ◌⊎◌, ◌≤◌, Option, List, Bool-cases, All, ltb,
  arith, false, ◌∙◌, ◌^◌, sym,
}

abbrev pub AtLeast : Register → ℕ → Type 0
AtLeast none c = Unit
AtLeast (some (b, v)) c = b ≤ c

-- The register `(c, v)` is at least every write of the id, and is one of them or `r`.
abbrev pub IsLatest : Str → Register → List Write → ℕ → Option Str → Type 0
IsLatest j r ws c v =
    AtLeast r c
    × All (λ w. str_eq (write_id w) j ≡ true → write_revision w ≤ c) ws
    × ((r ≡ some (c, v))
        ⊎ ((w : Write) × Mem w ws
            × (str_eq (write_id w) j ≡ true)
            × (write_revision w ≡ c)
            × (write_value w ≡ v)))

-- One write: the register grows, covers the write, and is the old one or the write.
put_cases :
    (r : Register) (n : ℕ) (x : Option Str)
    → ((put r n x ≡ r) × ((c : ℕ) → AtLeast r c → n ≤ c))
      ⊎ ((put r n x ≡ some (n, x)) × ((c : ℕ) → n ≤ c → AtLeast r c))
unfolding put
put_cases none n x = inr (refl, λ c h. tt)
put_cases (some (b, v)) n x = elim (Bool-cases (ltb b n)) [
  | inl e ↦ rw e (inr (refl, λ c h. ground arith))
  | inr e ↦ rw e (inl (refl, λ c h. ground arith))
]

entry_parts :
    (a c : ℕ) (x v : Option Str)
    → ◌≡◌ {A = Register} (some (a, x)) (some (c, v))
    → (a ≡ c) × (x ≡ v)
entry_parts a c x v e = ground arith

module _ (j : Str) (w : Write) (ws : List Write) (c : ℕ) (v : Option Str) where
  skip :
      (r : Register)
      → str_eq (write_id w) j ≡ false
      → IsLatest j r ws c v
      → IsLatest j r (w ∷ ws) c v
  skip r other (low, all, from) = (
    low,
    (λ same. cc, all),
    elim from [ inl e ↦ inl e | inr (x, m, k, l, n) ↦ inr (x, mem-cons_of_mem w m, k, l, n) ],
  )

  take_in :
      (r r' : Register)
      → str_eq (write_id w) j ≡ true
      → ((r' ≡ r) × ((c : ℕ) → AtLeast r c → write_revision w ≤ c))
        ⊎ ((r' ≡ some (write_revision w, write_value w))
            × ((c : ℕ) → write_revision w ≤ c → AtLeast r c))
      → IsLatest j r' ws c v
      → IsLatest j r (w ∷ ws) c v
  take_in r r' same (inl (e, low)) (h, all, from) =
      let at_least = subst (λ t. AtLeast t c) e h in
      (
        at_least,
        (λ _. low c at_least, all),
        elim from [
          | inl f ↦ inl (sym e ∙ f)
          | inr (x, m, k, l, n) ↦ inr (x, mem-cons_of_mem w m, k, l, n)
        ],
      )
  take_in r r' same (inr (e, up)) (h, all, from) =
      let at_least = subst (λ t. AtLeast t c) e h in
      (
        up c at_least,
        (λ _. at_least, all),
        elim from [
          | inl f ↦
              let parts = entry_parts (write_revision w) c (write_value w) v (sym e ∙ f) in
              inr (w, mem-cons_self, same, parts.0, parts.1)
          | inr (x, m, k, l, n) ↦ inr (x, mem-cons_of_mem w m, k, l, n)
        ],
      )

pub put_all-IsLatest :
    (j : Str) (r : Register) (ws : List Write) (c : ℕ) (v : Option Str)
    → put_all j r ws ≡ some (c, v)
    → IsLatest j r ws c v
unfolding put_all
put_all-IsLatest j r [] c v e = rw e (omega arith, tt, inl refl)
put_all-IsLatest j r (w ∷ ws) c v e = elim (Bool-cases (str_eq (write_id w) j)) [
  | inr other ↦ skip j w ws c v r other (put_all-IsLatest j r ws c v (rw other at e))
  | inl same ↦
      take_in j w ws c v r (put r (write_revision w) (write_value w)) same
        (put_cases r (write_revision w) (write_value w))
        (put_all-IsLatest j (put r (write_revision w) (write_value w)) ws c v (rw same at e))
]

-- From empty hashes and with revisions of up to 53 bits: the revision that stands for an id after any
-- sequence of upserts and deletes is that of one of the id's writes and at least that of every other,
-- and the active payload is that write's payload, absent if it was a delete.
pub apply_all-latest :
    (ws : List Write) (j : Str) (c : ℕ)
    → All (λ w. write_revision w ≤ 2 ^ 53) ws
    → load j (apply_all empty_hashes ws).versions ≡ some c
    → All (λ w. str_eq (write_id w) j ≡ true → write_revision w ≤ c) ws
      × ((w : Write) × Mem w ws
          × (str_eq (write_id w) j ≡ true)
          × (write_revision w ≡ c)
          × (write_value w ≡ load j (apply_all empty_hashes ws).active))
unfolding view load
apply_all-latest ws j c exact e = conclude (
    put_all-IsLatest j none ws c (load j (apply_all empty_hashes ws).active) (
      sym (
        apply_all-view empty_hashes ws j
          (record { hash = record { active_keys = tt; version_keys = tt }; exact = tt }) exact)
      ∙ rw (e, register_at)))
  where
    conclude :
        IsLatest j none ws c (load j (apply_all empty_hashes ws).active)
        → All (λ w. str_eq (write_id w) j ≡ true → write_revision w ≤ c) ws
          × ((w : Write) × Mem w ws
              × (str_eq (write_id w) j ≡ true)
              × (write_revision w ≡ c)
              × (write_value w ≡ load j (apply_all empty_hashes ws).active))
    conclude (_, all, inl f) = cc
    conclude (_, all, inr found) = (all, found)
