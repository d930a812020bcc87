-- ===== src/Common/Assoc.antt =====
-- A map with string keys (Go's `sync.Map`, a Redis hash) as an association list, and a set of
-- strings as a list. A key stands at most once where only these operations write.
use Prim.Native.Nat.{suc}
use mathlib.Core.Path.{◌≡◌, refl}
use mathlib.Core.Bool.{Bool, true, false, ◌||◌}
use mathlib.Core.List.{List, [], ◌∷◌}
use mathlib.Core.Option.{Option, none, some}
use native.Mathlib.Omega.{arith}
use adserver.Common.Tests.{if◌then◌else◌}
use adserver.Common.Lists.{length}
use adserver.Common.Text.{Str, str_eq, str_eq→eq, str_eq_refl}

module _ {ℓ} {V : Type ℓ} where
  unfoldable pub load : Str → List (Str × V) → Option V
  load k [] = none
  load k ((j, v) ∷ m) = if str_eq j k then some v else load k m

  unfoldable pub store : Str → V → List (Str × V) → List (Str × V)
  store k v [] = (k, v) ∷ []
  store k v ((j, w) ∷ m) = if str_eq j k then (j, v) ∷ m else (j, w) ∷ store k v m

  unfoldable pub delete : Str → List (Str × V) → List (Str × V)
  delete k [] = []
  delete k ((j, w) ∷ m) = if str_eq j k then m else (j, w) ∷ delete k m

  unfoldable pub has_key : Str → List (Str × V) → Bool
  has_key k [] = false
  has_key k ((j, w) ∷ m) = str_eq j k || has_key k m

  -- No key stands twice.
  abbrev pub DistinctKeys : List (Str × V) → Type 0
  DistinctKeys [] = Unit
  DistinctKeys ((j, w) ∷ m) = (has_key j m ≡ false) × DistinctKeys m

  pub load-store :
      (k j : Str) (v : V) (m : List (Str × V))
      → load j (store k v m) ≡ (if str_eq k j then some v else load j m)
  unfolding load store
  load-store k j v [] = refl
  load-store k j v ((i, w) ∷ m) =
      ground (arith, str_eq→eq i k, str_eq_refl k, str_eq→eq i j, str_eq→eq k j, load-store k j v m)

  pub load-none_of_has_key : (k : Str) (m : List (Str × V)) → has_key k m ≡ false → load k m ≡ none
  unfolding load has_key
  load-none_of_has_key k [] h = refl
  load-none_of_has_key k ((j, w) ∷ m) h = ground (arith, load-none_of_has_key k m)

  pub has_key-load-none : (k : Str) (m : List (Str × V)) → load k m ≡ none → has_key k m ≡ false
  unfolding load has_key
  has_key-load-none k [] h = refl
  has_key-load-none k ((j, w) ∷ m) h = ground (arith, has_key-load-none k m)

  pub has_key-store :
      (k j : Str) (v : V) (m : List (Str × V))
      → has_key j (store k v m) ≡ (str_eq k j || has_key j m)
  unfolding has_key store
  has_key-store k j v [] = refl
  has_key-store k j v ((i, w) ∷ m) =
      ground
        (arith, str_eq→eq i k, str_eq_refl k, str_eq→eq i j, str_eq→eq k j, has_key-store k j v m)

  pub store-DistinctKeys :
      (k : Str) (v : V) (m : List (Str × V)) → DistinctKeys m → DistinctKeys (store k v m)
  unfolding store has_key
  store-DistinctKeys k v [] d = (refl, tt)
  store-DistinctKeys k v ((j, w) ∷ m) d = ground (
    arith,
    has_key-store k j v m,
    store-DistinctKeys k v m d.1,
    str_eq→eq j k,
    str_eq→eq k j,
    str_eq_refl j,
  )

  pub has_key-delete_ne :
      (k j : Str) (m : List (Str × V)) → has_key j m ≡ false → has_key j (delete k m) ≡ false
  unfolding has_key delete
  has_key-delete_ne k j [] h = refl
  has_key-delete_ne k j ((i, w) ∷ m) h = ground (arith, has_key-delete_ne k j m)

  pub delete-DistinctKeys :
      (k : Str) (m : List (Str × V)) → DistinctKeys m → DistinctKeys (delete k m)
  unfolding delete has_key
  delete-DistinctKeys k [] d = tt
  delete-DistinctKeys k ((j, w) ∷ m) d =
      ground (arith, has_key-delete_ne k j m, delete-DistinctKeys k m d.1)

  pub has_key-delete :
      (k j : Str) (m : List (Str × V))
      → DistinctKeys m
      → has_key j (delete k m) ≡ (if str_eq k j then false else has_key j m)
  unfolding has_key delete
  has_key-delete k j [] d = ground arith
  has_key-delete k j ((i, w) ∷ m) d = ground (
    arith,
    has_key-delete k j m d.1,
    str_eq→eq i k,
    str_eq→eq i j,
    str_eq→eq k j,
    str_eq_refl k,
    str_eq_refl i,
  )

  pub load-delete :
      (k j : Str) (m : List (Str × V))
      → DistinctKeys m
      → load j (delete k m) ≡ (if str_eq k j then none else load j m)
  unfolding load delete
  load-delete k j [] d = ground arith
  load-delete k j ((i, w) ∷ m) d = ground (
    arith,
    str_eq→eq i k,
    str_eq_refl k,
    str_eq→eq i j,
    str_eq→eq k j,
    load-delete k j m d.1,
    load-none_of_has_key i m,
    str_eq_refl i,
  )

  -- Sizes: a store of a new key adds one entry, a store of an old key none; a delete takes one off.
  pub length-store :
      (k : Str) (v : V) (m : List (Str × V))
      → length (store k v m) ≡ (if has_key k m then length m else suc (length m))
  unfolding store has_key
  length-store k v [] = refl
  length-store k v ((j, w) ∷ m) = ground (arith, length-store k v m)

  pub length-delete :
      (k : Str) (m : List (Str × V)) → has_key k m ≡ true → suc (length (delete k m)) ≡ length m
  unfolding delete has_key
  length-delete k [] h = cc
  length-delete k ((j, w) ∷ m) h = ground (arith, length-delete k m)
