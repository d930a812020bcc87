-- ===== src/Store/Keys/Slots.antt =====
-- internal/ads/store.go: the two hashes of a placement stand in one slot of a Redis cluster, which the
-- scripts on both ask for.
use mathlib.Core.List.{append_assoc}
use adserver.Types.Bid.{validate, has_brace, validate_with, Bid}
use adserver.Store.Keys.{active_key, key, version_key, in_braces}
use adserver.Common.Text.{Str, has_byte, is_empty, bytes, has_byte-append}
use adserver.Common.{refl, false, none, [], ◌∷◌, ◌≡◌, ◌++◌, ℕ, arith, ◌∙◌, ap, sym}

-- What Redis documents of the slots: a key whose first brace opens a tag that is not empty has the slot
-- of the tag, which ends at the next closing brace.
abbrev pub IsTagged : (Str → ℕ) → Type 0
IsTagged slot =
    (before tag after : Str)
    → has_byte b'{' before ≡ false
    → has_byte b'}' tag ≡ false
    → is_empty tag ≡ false
    → slot (before ++ (b'{' ∷ (tag ++ (b'}' ∷ after)))) ≡ slot tag

module _ (slot : Str → ℕ) (tagged : IsTagged slot) (prefix : Str)
    (open_prefix : has_byte b'{' prefix ≡ false) where
  slot-tag :
      (kind placement : Str)
      → has_byte b'{' kind ≡ false
      → has_brace placement ≡ false
      → is_empty placement ≡ false
      → slot (key prefix (kind ∷ in_braces placement ∷ [])) ≡ slot placement
  unfolding key has_byte
  slot-tag kind placement k b e =
      let rest : Str = in_braces placement in
      let before : Str = prefix ++ (b':' ∷ (kind ++ (b':' ∷ []))) in
      let split : before ++ rest ≡ prefix ++ (b':' ∷ (kind ++ (b':' ∷ rest))) =
        simp (append_assoc) in
      let closed : has_byte b'{' before ≡ false = ground (
        arith,
        has_byte-append b'{' prefix (b':' ∷ (kind ++ (b':' ∷ []))),
        has_byte-append b'{' kind (b':' ∷ []),
      ) in
      ap slot (sym split) ∙ tagged before placement [] closed (ground arith) e

  -- A bid that passes the validation has its payload and its revision in one slot, that of its
  -- placement, if the configured prefix opens no brace and the slots are those of the tags in braces.
  pub version_key-slot :
      (bid : Bid)
      → validate bid ≡ none
      → (slot (active_key prefix bid.placement_id) ≡ slot bid.placement_id)
        × (slot (version_key prefix bid.placement_id) ≡ slot bid.placement_id)
  unfolding active_key version_key validate validate_with has_byte
  version_key-slot bid v = (
    slot-tag (bytes "active") bid.placement_id refl (ground arith) (ground arith),
    slot-tag (bytes "active-version") bid.placement_id refl (ground arith) (ground arith),
  )
