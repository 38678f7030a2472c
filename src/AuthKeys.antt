-- ===== src/AuthKeys.antt =====
-- piltover/db/models/authkey.py: the tables of permanent and temporary auth keys. A row is found by
-- its id; a time is a number of seconds.
pub mod Binding
use piltover.Base.{
  Bool, Dict, Option, false, get, has_key, if◌then◌else◌, ltb, none, put, some, true, ℕ, ◌&&◌, ◌||◌,
}
use piltover.Tl.Codec.{Bytes}
use piltover.Tl.Vector.{same_bytes}
use piltover.Session.{AuthData}

pub record AuthKey : Type 0 where
  pub auth_key : Bytes
  pub layer : ℕ

pub record TempAuthKey : Type 0 where
  pub auth_key : Bytes
  pub expires_at : ℕ
  pub perm_key_id : Option ℕ

pub record Tables : Type 0 where
  pub keys : Dict AuthKey
  pub temp_keys : Dict TempAuthKey

-- `_create_ignore_asyncmy_overflow`: a row of the same id is accepted if it holds the same key; else
-- the exception goes on, here `none`.
unfoldable accept_existing {ℓ} : {A : Type ℓ} → Bytes → Bytes → A → Option A
accept_existing stored auth_key tables = if same_bytes stored auth_key then some tables else none

unfoldable pub create_key : Tables → ℕ → Bytes → Option Tables
unfolding accept_existing
create_key t id auth_key = elim (get id t.keys) [
  | some row ↦ accept_existing row.auth_key auth_key t
  | none ↦ some (record t { keys = put id (record { auth_key = auth_key; layer = 133 }) t.keys })
]

unfoldable pub create_temp_key : Tables → ℕ → Bytes → ℕ → Option Tables
unfolding accept_existing
create_temp_key t id auth_key expires_at = elim (get id t.temp_keys) [
  | some row ↦ accept_existing row.auth_key auth_key t
  | none ↦
      let row : TempAuthKey = record {
        auth_key = auth_key;
        expires_at = expires_at;
        perm_key_id = none;
      } in
      some (record t { temp_keys = put id row t.temp_keys })
]

abbrev temp_data : ℕ → TempAuthKey → AuthData
temp_data id row = record {
  auth_key_id = some id;
  auth_key = some row.auth_key;
  perm_auth_key_id = row.perm_key_id;
}

abbrev of_temp : Bool → ℕ → ℕ → Option TempAuthKey → Option AuthData
of_temp allow_expired now id none = none
of_temp allow_expired now id (some row) =
    if allow_expired || ltb now row.expires_at then some (temp_data id row) else none

unfoldable pub get_auth_data : Tables → ℕ → ℕ → Bool → Option AuthData
get_auth_data t now id allow_expired = elim (get id t.keys) [
  | some row ↦
      some
        (record { auth_key_id = some id; auth_key = some row.auth_key; perm_auth_key_id = some id })
  | none ↦ of_temp allow_expired now id (get id t.temp_keys)
]

unfoldable pub is_registered : Tables → ℕ → ℕ → Bool
unfolding get_auth_data
is_registered t now id = elim (get_auth_data t now id false) [ none ↦ false | some _ ↦ true ]

unfoldable pub can_bind_temp_auth_key : Tables → ℕ → ℕ → ℕ → Bool
can_bind_temp_auth_key t now temp_key_id perm_key_id = elim (get temp_key_id t.temp_keys) [
  | none ↦ false
  | some row ↦ ltb now row.expires_at && has_key perm_key_id t.keys
]

-- `AuthKey.filter(id=…).update(layer=…)`: without such a row nothing is written.
unfoldable pub update_layer : Option ℕ → ℕ → Tables → Tables
update_layer none layer t = t
update_layer (some id) layer t = elim (get id t.keys) [
  | none ↦ t
  | some row ↦ record t { keys = put id (record row { layer = layer }) t.keys }
]

-- `AuthKey.get_or_none(id=…).values_list("layer")`
unfoldable pub layer_of : Tables → ℕ → Option ℕ
layer_of t id = elim (get id t.keys) [ none ↦ none | some row ↦ some row.layer ]
