-- ===== src/Server/Access.antt =====
-- internal/ads/server.go, `authorized`: who may change bids.
use adserver.Server.{Server}
use adserver.Common.Text.{is_empty, Str, bytes, str_eq→eq, str_eq_refl}
use adserver.Server.Bids.{drop_prefix, authorized, trim_prefix}
use adserver.Common.{
  refl, true, some, none, [], ◌∷◌, ◌≡◌, ◌⊎◌, ◌++◌, ◌↔◌, arith, false, inl, inr, ◌∙◌, ◌&&◌,
  Bool-cases, Bool, Option-cases, ap,
}

drop_prefix-eq-some : (p s r : Str) → drop_prefix p s ≡ some r → s ≡ p ++ r
unfolding drop_prefix
drop_prefix-eq-some [] s r h = cc
drop_prefix-eq-some (c ∷ cs) [] r h = cc
drop_prefix-eq-some (c ∷ cs) (x ∷ xs) r h = ground (arith, drop_prefix-eq-some cs xs r)

is_empty→eq : (s : Str) → is_empty s ≡ true → s ≡ []
unfolding is_empty
is_empty→eq [] h = refl
is_empty→eq (x ∷ xs) h = cc

and_right : (a b : Bool) → (a && b) ≡ true → b ≡ true
and_right true b h = h
and_right false b h = cc

-- A request is let through exactly if no token is set, or its header is the token behind "Bearer ", or
-- the header does not start with "Bearer " and is the token itself.
pub authorized_iff :
    (s : Server) (header : Str)
    → (authorized s header ≡ true) ↔ (
        (s.admin_token ≡ [])
        ⊎ (header ≡ bytes "Bearer " ++ s.admin_token)
        ⊎ ((drop_prefix (bytes "Bearer ") header ≡ none) × (header ≡ s.admin_token)))
unfolding authorized trim_prefix is_empty
authorized_iff s header = (
  λ h. elim (Bool-cases (is_empty s.admin_token)) [
    | inl e ↦ inl (is_empty→eq s.admin_token e)
    | inr e ↦ elim (Option-cases (drop_prefix (bytes "Bearer ") header)) [
      | inl d ↦
          let k = rw (e, d) at h in inr (inr (d, str_eq→eq header s.admin_token (and_right _ _ k)))
      | inr (rest, d) ↦
          let k = rw (e, d) at h in
          inr (
            inl (
              drop_prefix-eq-some (bytes "Bearer ") header rest d
              ∙ ap (λ t. bytes "Bearer " ++ t) (str_eq→eq rest s.admin_token (and_right _ _ k))))
    ]
  ],
  λ h. elim h [
    | inl e ↦ rw e refl
    | inr k ↦ elim (Bool-cases (is_empty s.admin_token)) [
      | inl e ↦ rw e refl
      | inr e ↦ elim k [
        | inl f ↦ rw (f, e) (ground (arith, str_eq_refl s.admin_token))
        | inr (d, f) ↦ rw (e, d) (rw f (ground (arith, str_eq_refl s.admin_token)))
      ]
    ]
  ],
)
