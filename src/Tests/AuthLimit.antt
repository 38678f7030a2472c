-- ===== src/Tests/AuthLimit.antt =====
-- Concrete inputs for the theorems on auth_rate_limit.py, over a cache that is a list of what was set.
use piltover.Base.{
  List, Option, [], arith, if◌then◌else◌, ltb, none, refl, some, true, ℕ, ◌+◌, ◌-◌, ◌∷◌, ◌≡◌,
}
use piltover.AuthLimit.{
  Key, same_key, fail_ip, CacheOps, IsCache, Config, flood_wait, phone_code_invalid,
  check_send_code_allowed, record_send_code, check_sign_in_allowed, record_sign_in_failure,
}
use piltover.AuthLimit.Waits.{send_code_waits, failures_ban}

-- A value with the end of its life; the last one of a key counts. A life that has ended is kept.
record Item : Type 0 where
  key : Key
  value : Option ℕ
  until : ℕ

abbrev found : ℕ → Key → List Item → Option ℕ
found now k [] = none
found now k (i ∷ is) =
    if same_key i.key k then (if ltb now i.until then i.value else none) else found now k is

abbrev memory : CacheOps (List Item)
memory = record {
  get = found;
  set = λ now k v ttl c. record { key = k; value = some v; until = now + ttl } ∷ c;
  delete = λ k c. record { key = k; value = none; until = 0 } ∷ c;
}

memory-IsCache : IsCache memory
memory-IsCache = record {
  get-set = λ now t k v ttl c from until. ground arith;
  get-set_other = λ now t k j v ttl c apart. rw apart;
  get-delete = λ t k c. ground arith;
  get-delete_other = λ t k j c apart. rw apart;
}

abbrev config : Config
config = record {
  enabled = true;
  send_code_min_interval_seconds = 60;
  send_code_per_ip_limit = 10;
  send_code_per_ip_window_seconds = 3600;
  send_code_per_key_limit = 5;
  send_code_per_key_window_seconds = 3600;
  sign_in_fail_limit = 5;
  sign_in_fail_window_seconds = 900;
  shadow_ban_fail_threshold = 2;
  shadow_ban_duration_seconds = 7200;
}

send_code_waits_example :
    check_send_code_allowed memory config 1020 8
      (some 77)
      (record_send_code memory config 1000 8 (some 77) [])
    ≡ some (flood_wait (1000 + 60 - 1020))
send_code_waits_example =
    send_code_waits memory memory-IsCache config 1000 1020 8 (some 77) [] refl (omega arith)
      (omega arith) (omega arith)

-- One failure was there.
abbrev failed : List Item
failed = record { key = fail_ip 8; value = some 1; until = 1500 } ∷ []

failures_ban_example :
    check_sign_in_allowed memory config 1020 8 none
      (record_sign_in_failure memory config 1000 8 (some 77) failed)
    ≡ some phone_code_invalid
failures_ban_example =
    failures_ban memory memory-IsCache config 1000 1020 8 (some 77) none failed refl (omega arith)
      (omega arith) (omega arith)
