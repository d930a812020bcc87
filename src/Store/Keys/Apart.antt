-- ===== src/Store/Keys/Apart.antt =====
-- internal/ads/store.go: the keys of one prefix do not meet.
use adserver.Common.Text.{Str, bytes}
use adserver.Store.Keys.{active_key, version_key, placements_key, events_key}
use adserver.Common.{refl, [], ◌∷◌, ◌≡◌, ◌∙◌, ◌++◌, ap, sym, arith}
use mathlib.Core.List.{append_cancel_left, append_cancel_right}

-- The four kinds of keys, and the placement of those that have one.
pub data RedisKey : Type 0 where
  active version : Str → RedisKey
  placements events : RedisKey

abbrev pub text_of : Str → RedisKey → Str
text_of prefix (active placement) = active_key prefix placement
text_of prefix (version placement) = version_key prefix placement
text_of prefix placements = placements_key prefix
text_of prefix events = events_key prefix

-- What stands behind the prefix and its colon.
abbrev tail_of : RedisKey → Str
tail_of (active placement) = bytes "active:{" ++ (placement ++ bytes "}")
tail_of (version placement) = bytes "active-version:{" ++ (placement ++ bytes "}")
tail_of placements = bytes "placements"
tail_of events = bytes "bid-events"

text_of_lem : (prefix : Str) (k : RedisKey) → text_of prefix k ≡ prefix ++ (b':' ∷ tail_of k)
unfolding active_key version_key placements_key events_key
text_of_lem prefix (active p) = refl
text_of_lem prefix (version p) = refl
text_of_lem prefix placements = refl
text_of_lem prefix events = refl

tail_of-injective : (j k : RedisKey) → tail_of j ≡ tail_of k → j ≡ k
tail_of-injective (active p) (active q) e =
    ap active (append_cancel_right p q (bytes "}") (append_cancel_left (bytes "active:{") _ _ e))
tail_of-injective (active p) (version q) e = absurd (ground arith)
tail_of-injective (active p) placements e = absurd (ground arith)
tail_of-injective (active p) events e = absurd (ground arith)
tail_of-injective (version p) (active q) e = absurd (ground arith)
tail_of-injective (version p) (version q) e =
    ap version
      (append_cancel_right p q (bytes "}") (append_cancel_left (bytes "active-version:{") _ _ e))
tail_of-injective (version p) placements e = absurd (ground arith)
tail_of-injective (version p) events e = absurd (ground arith)
tail_of-injective placements (active q) e = absurd (ground arith)
tail_of-injective placements (version q) e = absurd (ground arith)
tail_of-injective placements placements e = refl
tail_of-injective placements events e = absurd (ground arith)
tail_of-injective events (active q) e = absurd (ground arith)
tail_of-injective events (version q) e = absurd (ground arith)
tail_of-injective events placements e = absurd (ground arith)
tail_of-injective events events e = refl

-- Keys under one prefix have the same text only if they are of one kind and, where they have one, for
-- one placement.
pub text_of-injective :
    (prefix : Str) (j k : RedisKey) → text_of prefix j ≡ text_of prefix k → j ≡ k
text_of-injective prefix j k e = tail_of-injective j k (
    ap (λ s. elim s [ [] ↦ [] | x ∷ xs ↦ xs ])
      (append_cancel_left prefix _ _ (sym (text_of_lem prefix j) ∙ e ∙ text_of_lem prefix k)))
