-- ===== src/Tests/Chat.antt =====
-- Concrete inputs for the theorems on piltover/db/models/chat_base.py.
use piltover.Base.{[], false, if◌then◌else◌, leb, length, none, some, true, ◌+◌, ◌∷◌, ◌≡◌, ◌⊎◌}
use piltover.Chat.Update.{Given, Settings, Changes, UpdateError, not_saved, update}
use piltover.Chat.Versions.{asks, early, update_versions}

-- A chat called "a" about "b".
abbrev settings : Settings
settings = record {
  name = 97 ∷ [];
  description = 98 ∷ [];
  photo = none;
  ttl_period_days = 0;
  version = 4;
}

abbrev changes : Changes
changes = record {
  title = some (99 ∷ []);
  description = none;
  photo = some (some 5);
  ttl_period_days = some 7;
}

abbrev lib : Given
lib = record {
  strip = λ text. text;
  is_photo = λ photo s. false;
  saves = λ s. leb (length s.name) 64;
}

update_versions_example :
    let r = update lib changes settings in
    ((e : UpdateError) × (early e ≡ true)
      × (r.error ≡ some e)
      × (r.stored ≡ none)
      × (r.chat.version ≡ settings.version))
    ⊎ ((r.error ≡ none)
        × (r.stored ≡ (if asks changes then some r.chat else none))
        × (r.chat.version ≡ settings.version + (if asks changes then 1 else 0)))
    ⊎ ((r.error ≡ some not_saved)
        × (asks changes ≡ true)
        × (lib.saves r.chat ≡ false)
        × (r.stored ≡ none)
        × (r.chat.version ≡ settings.version + 1))
update_versions_example = update_versions lib changes settings
