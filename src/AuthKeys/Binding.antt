-- ===== src/AuthKeys/Binding.antt =====
-- authkey.py: which keys are found, and which are accepted.
use piltover.Base.{
  Bool, arith, get, get-put, has_key, if◌then◌else◌, ltb, none, put, refl, some, true, ℕ, ◌&&◌,
  ◌==◌, ◌≡◌,
}
use piltover.Tl.Codec.{Bytes}
use piltover.AuthKeys.{
  Tables, AuthKey, TempAuthKey, create_key, create_temp_key, get_auth_data, is_registered,
  can_bind_temp_auth_key,
}

-- A key whose id is free is stored, and from then on it is found with the bytes that were given and
-- bound to itself; what is found of any other id is as before.
get_auth_data-create_key :
    (t : Tables) (id : ℕ) (auth_key : Bytes)
    → get id t.keys ≡ none
    → (t' : Tables) × (create_key t id auth_key ≡ some t')
      × ((now j : ℕ) (allow_expired : Bool)
          → get_auth_data t' now j allow_expired ≡ (
              if id == j
              then some (record {
                auth_key_id = some j;
                auth_key = some auth_key;
                perm_auth_key_id = some j;
              })
              else get_auth_data t now j allow_expired))
unfolding create_key
get_auth_data-create_key t id key free =
    let row : AuthKey = record { auth_key = key; layer = 133 } in
    let t' : Tables = record t { keys = put id row t.keys } in
    (t', rw (free, create_key) refl, λ now j allow. found row now j allow)
  where
    found :
        (row : AuthKey) (now j : ℕ) (allow : Bool)
        → get_auth_data (record t { keys = put id row t.keys }) now j allow ≡ (
            if id == j
            then some (record {
              auth_key_id = some j;
              auth_key = some row.auth_key;
              perm_auth_key_id = some j;
            })
            else get_auth_data t now j allow)
    found row now j allow = unfold get_auth_data in ground (arith, get-put id j row t.keys)

-- A temporary key whose id is free is stored with its end, and from then on it is found with the bytes
-- that were given and bound to no key. It is accepted, and may be bound to the keys that there are,
-- exactly before its end.
pub create_temp_key_ends :
    (t : Tables) (id expires_at : ℕ) (auth_key : Bytes)
    → get id t.keys ≡ none
    → get id t.temp_keys ≡ none
    → (t' : Tables) × (create_temp_key t id auth_key expires_at ≡ some t')
      × ((now : ℕ)
          → (get_auth_data t' now id true
              ≡ some (record {
                auth_key_id = some id;
                auth_key = some auth_key;
                perm_auth_key_id = none;
              }))
            × (is_registered t' now id ≡ ltb now expires_at)
            × ((perm_key_id : ℕ)
                → can_bind_temp_auth_key t' now id perm_key_id
                  ≡ (ltb now expires_at && has_key perm_key_id t.keys)))
unfolding create_temp_key
create_temp_key_ends t id expires_at key free free_temp =
    let row : TempAuthKey = record {
      auth_key = key;
      expires_at = expires_at;
      perm_key_id = none;
    } in
    let t' : Tables = record t { temp_keys = put id row t.temp_keys } in
    (
      t',
      rw (free_temp, create_temp_key) refl,
      λ now. (
        unfold get_auth_data in ground (arith, get-put id id row t.temp_keys),
        unfold is_registered get_auth_data in ground (arith, get-put id id row t.temp_keys),
        λ perm. unfold can_bind_temp_auth_key in ground (arith, get-put id id row t.temp_keys),
      ),
    )
