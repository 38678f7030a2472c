-- ===== src/AuthLimit.antt =====
-- piltover/app/utils/auth_rate_limit.py: limits on login codes and on failed sign-ins. The cache is
-- that of the `aiocache` package: its operations are a parameter. A time is a number of seconds.
pub mod Waits
use piltover.Base.{
  Bool, Option, false, if◌then◌else◌, leb, ltb, max, min, none, not, some, true, ℕ, ◌&&◌, ◌*◌, ◌+◌,
  ◌-◌, ◌<◌, ◌==◌, ◌≡◌, ◌≤◌,
}

-- A key of the cache: its prefix, and the address (by a number) or the auth key's id.
pub record Key : Type 0 where
  pub prefix : ℕ
  pub subject : ℕ

abbrev pub send_last : ℕ → Key
send_last ip = record { prefix = 0; subject = ip }

abbrev pub send_ip : ℕ → Key
send_ip ip = record { prefix = 1; subject = ip }

abbrev pub send_key : ℕ → Key
send_key auth_key_id = record { prefix = 2; subject = auth_key_id }

abbrev pub shadow : ℕ → Key
shadow ip = record { prefix = 3; subject = ip }

abbrev pub fail_ip : ℕ → Key
fail_ip ip = record { prefix = 4; subject = ip }

abbrev pub fail_key : ℕ → Key
fail_key auth_key_id = record { prefix = 5; subject = auth_key_id }

abbrev pub same_key : Key → Key → Bool
same_key a b = a.prefix == b.prefix && a.subject == b.subject

-- `get(key)`, `set(key, value, ttl=…)` and `delete(key)`, each at a time
pub record CacheOps (Cache : Type 0) : Type 0 where
  pub get : ℕ → Key → Cache → Option ℕ
  pub set : ℕ → Key → ℕ → ℕ → Cache → Cache
  pub delete : Key → Cache → Cache

-- A value that is set is there until its time to live ends, and no operation touches other keys.
pub record IsCache {Cache : Type 0} (ops : CacheOps Cache) : Type 0 where
  pub get-set :
      (now t : ℕ) (k : Key) (v ttl : ℕ) (c : Cache)
      → now ≤ t
      → t < now + ttl
      → ops.get t k (ops.set now k v ttl c) ≡ some v
  pub get-set_other :
      (now t : ℕ) (k j : Key) (v ttl : ℕ) (c : Cache)
      → same_key k j ≡ false
      → ops.get t j (ops.set now k v ttl c) ≡ ops.get t j c
  pub get-delete : (t : ℕ) (k : Key) (c : Cache) → ops.get t k (ops.delete k c) ≡ none
  pub get-delete_other :
      (t : ℕ) (k j : Key) (c : Cache)
      → same_key k j ≡ false
      → ops.get t j (ops.delete k c) ≡ ops.get t j c

-- `APP_CONFIG.auth_rate_limit`
pub record Config : Type 0 where
  pub enabled : Bool
  pub send_code_min_interval_seconds : ℕ
  pub send_code_per_ip_limit : ℕ
  pub send_code_per_ip_window_seconds : ℕ
  pub send_code_per_key_limit : ℕ
  pub send_code_per_key_window_seconds : ℕ
  pub sign_in_fail_limit : ℕ
  pub sign_in_fail_window_seconds : ℕ
  pub shadow_ban_fail_threshold : ℕ
  pub shadow_ban_duration_seconds : ℕ

-- The errors that are raised; `flood_wait` with its seconds.
pub data Refusal : Type 0 where
  flood_wait : ℕ → Refusal
  phone_code_invalid : Refusal

-- `_flood_wait`
unfoldable pub flood : ℕ → Refusal
flood seconds = flood_wait (max seconds 1)

abbrev reaches : Option ℕ → ℕ → Bool
reaches none limit = false
reaches (some count) limit = leb limit count

abbrev pub count_of : Option ℕ → ℕ
count_of none = 0
count_of (some count) = count

module _ {Cache : Type 0} (ops : CacheOps Cache) where
  -- `_bump_counter`: the new value and the cache
  unfoldable pub bump_counter : ℕ → Key → ℕ → Cache → ℕ × Cache
  bump_counter now key window_seconds c =
      let new_value = count_of (ops.get now key c) + 1 in
      (new_value, ops.set now key new_value window_seconds c)

  -- `_seconds_until`: `min_interval - elapsed` without going through `elapsed`, which is negative if
  -- the clock went back.
  unfoldable pub seconds_until : ℕ → Key → ℕ → Cache → Option ℕ
  seconds_until now key min_interval c = elim (ops.get now key c) [
    | none ↦ none
    | some last_sent ↦
        if ltb now (last_sent + min_interval) then some (last_sent + min_interval - now) else none
  ]

  unfoldable key_refusal : Config → ℕ → Option ℕ → Cache → Option Refusal
  unfolding flood
  key_refusal cfg now none c = none
  key_refusal cfg now (some auth_key_id) c =
      if reaches (ops.get now (send_key auth_key_id) c) cfg.send_code_per_key_limit
      then some (flood cfg.send_code_min_interval_seconds)
      else none

  unfoldable count_refusal : Config → ℕ → ℕ → Option ℕ → Cache → Option Refusal
  unfolding flood key_refusal
  count_refusal cfg now ip auth_key_id c =
      if reaches (ops.get now (send_ip ip) c) cfg.send_code_per_ip_limit
      then some (flood cfg.send_code_min_interval_seconds)
      else key_refusal cfg now auth_key_id c

  -- `check_send_code_allowed`; `none` lets the request pass.
  unfoldable pub check_send_code_allowed : Config → ℕ → ℕ → Option ℕ → Cache → Option Refusal
  unfolding flood seconds_until count_refusal
  check_send_code_allowed cfg now ip auth_key_id c =
      let wait =
        if ltb 0 cfg.send_code_min_interval_seconds
        then seconds_until now (send_last ip) cfg.send_code_min_interval_seconds c
        else none in
      if not cfg.enabled then none else elim wait [
        | some seconds ↦ some (flood seconds)
        | none ↦ count_refusal cfg now ip auth_key_id c
      ]

  abbrev pub bump_key : ℕ → (ℕ → Key) → Option ℕ → ℕ → Cache → ℕ × Cache
  bump_key now key none window c = (0, c)
  bump_key now key (some auth_key_id) window c = bump_counter now (key auth_key_id) window c

  unfoldable pub record_send_code : Config → ℕ → ℕ → Option ℕ → Cache → Cache
  unfolding bump_counter
  record_send_code cfg now ip auth_key_id c =
      if not cfg.enabled
      then c
      else (let c₁ = ops.set now (send_last ip) now cfg.send_code_per_ip_window_seconds c in
          let c₂ = (bump_counter now (send_ip ip) cfg.send_code_per_ip_window_seconds c₁).1 in
          (bump_key now send_key auth_key_id cfg.send_code_per_key_window_seconds c₂).1)

  abbrev is_there : Option ℕ → Bool
  is_there none = false
  is_there (some _) = true

  unfoldable pub is_shadow_banned : Config → ℕ → ℕ → Cache → Bool
  is_shadow_banned cfg now ip c = cfg.enabled && is_there (ops.get now (shadow ip) c)

  abbrev pub key_failures : ℕ → Option ℕ → Cache → ℕ
  key_failures now none c = 0
  key_failures now (some auth_key_id) c = count_of (ops.get now (fail_key auth_key_id) c)

  unfoldable pub check_sign_in_allowed : Config → ℕ → ℕ → Option ℕ → Cache → Option Refusal
  unfolding flood is_shadow_banned
  check_sign_in_allowed cfg now ip auth_key_id c =
      let failures = max (count_of (ops.get now (fail_ip ip) c)) (key_failures now auth_key_id c) in
      if not cfg.enabled
      then none
      else if is_shadow_banned cfg now ip c
      then some phone_code_invalid
      else if leb cfg.sign_in_fail_limit failures
      then some (flood (min 600 (60 * (failures - cfg.sign_in_fail_limit + 1))))
      else none

  unfoldable pub record_sign_in_failure : Config → ℕ → ℕ → Option ℕ → Cache → Cache
  unfolding bump_counter
  record_sign_in_failure cfg now ip auth_key_id c =
      let (ip_failures, c₁) = bump_counter now (fail_ip ip) cfg.sign_in_fail_window_seconds c in
      let (failures, c₂) = bump_key now fail_key auth_key_id cfg.sign_in_fail_window_seconds c₁ in
      if not cfg.enabled
      then c
      else if leb cfg.shadow_ban_fail_threshold (max ip_failures failures)
      then ops.set now (shadow ip) 1 cfg.shadow_ban_duration_seconds c₂
      else c₂

  abbrev delete_key : Option ℕ → Cache → Cache
  delete_key none c = c
  delete_key (some auth_key_id) c = ops.delete (fail_key auth_key_id) c

  unfoldable pub clear_sign_in_failures : Config → ℕ → Option ℕ → Cache → Cache
  clear_sign_in_failures cfg ip auth_key_id c =
      if not cfg.enabled then c else delete_key auth_key_id (ops.delete (fail_ip ip) c)
