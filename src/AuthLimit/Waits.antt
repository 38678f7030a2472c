-- ===== src/AuthLimit/Waits.antt =====
-- auth_rate_limit.py: who waits, who is banned, and who is forgiven.
use piltover.Base.{
  Option, ap, arith, false, none, refl, some, true, ℕ, ◌+◌, ◌-◌, ◌<◌, ◌∙◌, ◌≡◌, ◌≤◌,
}
use piltover.AuthLimit.{
  send_last, send_ip, send_key, shadow, fail_ip, fail_key, CacheOps, IsCache, Config, flood_wait,
  phone_code_invalid, flood, count_of, bump_counter, seconds_until, check_send_code_allowed,
  bump_key, record_send_code, is_shadow_banned, key_failures, check_sign_in_allowed,
  record_sign_in_failure, clear_sign_in_failures,
}

module _ {Cache : Type 0} (ops : CacheOps Cache) (cache : IsCache ops) where
  sent_kept :
      (cfg : Config) (now t ip : ℕ) (auth_key_id : Option ℕ) (c : Cache)
      → cfg.enabled ≡ true
      → now ≤ t
      → t < now + cfg.send_code_per_ip_window_seconds
      → ops.get t (send_last ip) (record_send_code ops cfg now ip auth_key_id c) ≡ some now
  unfolding record_send_code bump_counter
  sent_kept cfg now t ip none c on from until =
      let c₁ = ops.set now (send_last ip) now cfg.send_code_per_ip_window_seconds c in
      rw on (
        cache.get-set_other now t (send_ip ip) (send_last ip) _ _ c₁ refl
        ∙ cache.get-set now t (send_last ip) now _ c from until)
  sent_kept cfg now t ip (some id) c on from until =
      let c₁ = ops.set now (send_last ip) now cfg.send_code_per_ip_window_seconds c in
      let c₂ = (bump_counter ops now (send_ip ip) cfg.send_code_per_ip_window_seconds c₁).1 in
      rw on (
        cache.get-set_other now t (send_key id) (send_last ip) _ _ c₂ refl
        ∙ cache.get-set_other now t (send_ip ip) (send_last ip) _ _ c₁ refl
        ∙ cache.get-set now t (send_last ip) now _ c from until)

  -- If the limits are enabled: once a code is sent, an address that asks again before the interval has passed, while the cache
  -- keeps the time of the code, is told to wait for exactly the rest of the interval.
  pub send_code_waits :
      (cfg : Config) (now t ip : ℕ) (auth_key_id : Option ℕ) (c : Cache)
      → cfg.enabled ≡ true
      → now ≤ t
      → t < now + cfg.send_code_per_ip_window_seconds
      → t < now + cfg.send_code_min_interval_seconds
      → check_send_code_allowed ops cfg t ip auth_key_id
          (record_send_code ops cfg now ip auth_key_id c)
        ≡ some (flood_wait (now + cfg.send_code_min_interval_seconds - t))
  unfolding check_send_code_allowed seconds_until flood
  send_code_waits cfg now t ip auth_key_id c on from kept early =
      ground (arith, sent_kept cfg now t ip auth_key_id c on from kept)

  -- If the limits are enabled: a failed sign-in with which the failures of an address reach the threshold bans the address: while
  -- the ban lasts, each attempt from it is refused as if the code were wrong.
  pub failures_ban :
      (cfg : Config) (now t ip : ℕ) (auth_key_id auth_key_id' : Option ℕ) (c : Cache)
      → cfg.enabled ≡ true
      → cfg.shadow_ban_fail_threshold ≤ count_of (ops.get now (fail_ip ip) c) + 1
      → now ≤ t
      → t < now + cfg.shadow_ban_duration_seconds
      → check_sign_in_allowed ops cfg t ip auth_key_id'
          (record_sign_in_failure ops cfg now ip auth_key_id c)
        ≡ some phone_code_invalid
  unfolding check_sign_in_allowed record_sign_in_failure is_shadow_banned bump_counter
  failures_ban cfg now t ip auth_key_id auth_key_id' c on many from until =
      let (_, c₁) = bump_counter ops now (fail_ip ip) cfg.sign_in_fail_window_seconds c in
      let (_, c₂) = bump_key ops now fail_key auth_key_id cfg.sign_in_fail_window_seconds c₁ in
      ground
        (arith, cache.get-set now t (shadow ip) 1 cfg.shadow_ban_duration_seconds c₂ from until)

  cleared :
      (cfg : Config) (t ip : ℕ) (auth_key_id : Option ℕ) (c : Cache)
      → cfg.enabled ≡ true
      → let c' = clear_sign_in_failures ops cfg ip auth_key_id c in
        (ops.get t (fail_ip ip) c' ≡ none)
        × (key_failures ops t auth_key_id c' ≡ 0)
        × (ops.get t (shadow ip) c' ≡ ops.get t (shadow ip) c)
  unfolding clear_sign_in_failures
  cleared cfg t ip none c on = rw on (
    cache.get-delete t (fail_ip ip) c,
    refl,
    cache.get-delete_other t (fail_ip ip) (shadow ip) c refl,
  )
  cleared cfg t ip (some id) c on =
      let c₁ = ops.delete (fail_ip ip) c in
      rw on (
        cache.get-delete_other t (fail_key id) (fail_ip ip) c₁ refl
            ∙ cache.get-delete t (fail_ip ip) c,
        ap count_of (cache.get-delete t (fail_key id) c₁),
        cache.get-delete_other t (fail_key id) (shadow ip) c₁ refl
            ∙ cache.get-delete_other t (fail_ip ip) (shadow ip) c refl,
      )

  -- After the failures of an address and a key are cleared, a sign-in with them passes, unless the
  -- address is banned.
  cleared_may_sign_in :
      (cfg : Config) (t ip : ℕ) (auth_key_id : Option ℕ) (c : Cache)
      → cfg.enabled ≡ true
      → 0 < cfg.sign_in_fail_limit
      → is_shadow_banned ops cfg t ip c ≡ false
      → check_sign_in_allowed ops cfg t ip auth_key_id
          (clear_sign_in_failures ops cfg ip auth_key_id c)
        ≡ none
  unfolding check_sign_in_allowed is_shadow_banned
  cleared_may_sign_in cfg t ip auth_key_id c on some_limit free =
      let (a, b, d) = cleared cfg t ip auth_key_id c on in ground (arith, a, b, d)
