-- ===== src/Config/Bounds.antt =====
-- Whatever the environment holds, the numbers of the configuration are in the range of their tests.
use adserver.Common.Text.{Str, is_empty}
use adserver.Common.Int.{ℤ}
use adserver.Config.{
  number_or, config_from_env, number_var, Texts, engine_from_env, positive, not_negative,
}
use adserver.Common.{refl, true, inl, inr, some, none, ◌≡◌, Bool, Option, Bool-cases}

number_or-test :
    (test : ℤ → Bool) (o : Option ℤ) (default : ℤ)
    → test default ≡ true
    → test (number_or test o default) ≡ true
unfolding number_or
number_or-test test none default h = h
number_or-test test (some n) default h = elim (Bool-cases (test n)) [
  | inl t ↦ rw t t
  | inr t ↦ rw t h
]

number_var-test :
    (t : Texts) (parse : Str → Option ℤ) (test : ℤ → Bool) (name : Str) (default : ℤ)
    → test default ≡ true
    → test (number_var t parse test name default) ≡ true
unfolding number_var
number_var-test t parse test name default h = elim (Bool-cases (is_empty (t.getenv name))) [
  | inl e ↦ rw e h
  | inr e ↦ rw e (number_or-test test (parse (t.getenv name)) default h)
]

-- Every duration, count and buffer of a configuration from the environment is positive, and the database
-- and the price increment are not negative, whatever the variables hold and however they parse.
pub config_from_env-positive :
    (t : Texts)
    → let c = config_from_env t in
      let e = c.bidder_engine_config in
      (positive c.cache_refresh ≡ true)
      × (positive c.max_snapshot_age ≡ true)
      × (positive c.decision_log_buffer ≡ true)
      × (positive c.dsp_timeout ≡ true)
      × (positive c.dsp_max_concurrent ≡ true)
      × (positive c.dsp_failure_threshold ≡ true)
      × (positive c.dsp_circuit_open_for ≡ true)
      × (positive e.max_fanout ≡ true)
      × (positive e.max_concurrent_refreshes ≡ true)
      × (positive e.cache_ttl ≡ true)
      × (positive e.failure_ttl ≡ true)
      × (positive e.max_keys ≡ true)
      × (not_negative c.redis_db ≡ true)
      × (not_negative c.auction_policy.second_price_increment_micros ≡ true)
unfolding config_from_env engine_from_env
config_from_env-positive t =
    let p = λ (parse : Str → Option ℤ) (name : Str) (d : ℤ) (h : positive d ≡ true).
      number_var-test t parse positive name d h in
    (
      p t.parse_duration _ _ refl,
      p t.parse_duration _ _ refl,
      p t.atoi _ _ refl,
      p t.parse_duration _ _ refl,
      p t.atoi _ _ refl,
      p t.atoi _ _ refl,
      p t.parse_duration _ _ refl,
      p t.atoi _ _ refl,
      p t.atoi _ _ refl,
      p t.parse_duration _ _ refl,
      p t.parse_duration _ _ refl,
      p t.atoi _ _ refl,
      number_var-test t t.atoi not_negative _ _ refl,
      number_var-test t t.atoi not_negative _ _ refl,
    )
