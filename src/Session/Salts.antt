-- ===== src/Session/Salts.antt =====
-- session.py: the salts of the current and the last half hour.
use piltover.Base.{
  Bool, Option, arith, if◌then◌else◌, none, not, some, ℕ, ◌&&◌, ◌*◌, ◌-◌, ◌/◌, ◌==◌, ◌≡◌,
}
use piltover.Tl.Codec.{Bytes}
use piltover.Session.{AuthData, Salt, Session, no_salt}

abbrev pub half_hour : ℕ
half_hour = 30 * 60 * 1000000

-- `auth_key_id` of the session's `auth_data`, if both are there
abbrev pub key_of : Option AuthData → Option ℕ
key_of none = none
key_of (some a) = a.auth_key_id

-- `make_salt` is an HMAC: the parameter is its first eight bytes, as a function of the salt key, the
-- auth key's id and the number of the half hour.
module _ (make_salt : Bytes → ℕ → ℕ → Bytes) where
  -- The salts after the update, the current one first. The clock is past the first half hour of its
  -- epoch, so `now - 1` does not stop at 0.
  next_salts : Session → Bytes → Bool → ℕ → Salt × Salt
  next_salts s salt_key force time = elim (key_of s.auth_data) [
    | none ↦ (no_salt, no_salt)
    | some id ↦
        let now = time / half_hour in
        if s.salt_now.valid_at == now && not force then (s.salt_now, s.salt_prev) else (
          record { salt = make_salt salt_key id now; valid_at = now },
          record { salt = make_salt salt_key id (now - 1); valid_at = now - 1 },
        )
  ]

  unfoldable pub update_salts_maybe : Session → Bytes → Bool → ℕ → Session
  unfolding next_salts
  update_salts_maybe s salt_key force time =
      let (now, prev) = next_salts s salt_key force time in
      record s { salt_now = now; salt_prev = prev }

  -- The salts of a session are those of its key at the half hours that they name, one after the
  -- other.
  pub record HasSalts (s : Session) (salt_key : Bytes) (id : ℕ) : Type 0 where
    pub key : key_of s.auth_data ≡ some id
    pub now : s.salt_now.salt ≡ make_salt salt_key id s.salt_now.valid_at
    pub prev : s.salt_prev.salt ≡ make_salt salt_key id s.salt_prev.valid_at
    pub consecutive : s.salt_prev.valid_at ≡ s.salt_now.valid_at - 1

  -- After an update at any time, forced or not, a session with a key holds the salts of the half
  -- hour of the update and of the one before, unless salts of that half hour were there and wrong.
  pub update_salts_maybe-HasSalts :
      (s : Session) (salt_key : Bytes) (id : ℕ) (force : Bool) (time : ℕ)
      → key_of s.auth_data ≡ some id
      → (s.salt_now.valid_at ≡ time / half_hour → HasSalts s salt_key id)
      → let s' = update_salts_maybe s salt_key force time in
        HasSalts s' salt_key id × (s'.salt_now.valid_at ≡ time / half_hour)
  unfolding update_salts_maybe
  update_salts_maybe-HasSalts s salt_key id force time key old = ground (arith, old)
