-- ===== src/Tests/AuthKeys.antt =====
-- Concrete inputs for the theorems on piltover/db/models/authkey.py.
use piltover.Base.{[], has_key, ltb, none, refl, some, true, ℕ, ◌&&◌, ◌∷◌, ◌≡◌}
use piltover.AuthKeys.{
  Tables, create_temp_key, get_auth_data, is_registered, can_bind_temp_auth_key,
}
use piltover.AuthKeys.Binding.{create_temp_key_ends}

abbrev tables : Tables
tables = record { keys = (5, record { auth_key = 50 ∷ []; layer = 133 }) ∷ []; temp_keys = [] }

create_temp_key_ends_example :
    (t' : Tables) × (create_temp_key tables 7 (70 ∷ []) 1000 ≡ some t')
    × ((now : ℕ)
        → (get_auth_data t' now 7 true
            ≡ some (record {
              auth_key_id = some 7;
              auth_key = some (70 ∷ []);
              perm_auth_key_id = none;
            }))
          × (is_registered t' now 7 ≡ ltb now 1000)
          × ((perm_key_id : ℕ)
              → can_bind_temp_auth_key t' now 7 perm_key_id
                ≡ (ltb now 1000 && has_key perm_key_id tables.keys)))
create_temp_key_ends_example = create_temp_key_ends tables 7 1000 (70 ∷ []) refl refl
