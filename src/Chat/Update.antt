-- ===== src/Chat/Update.antt =====
-- `update` of chat_base.py: new titles, descriptions, photos and lifetimes of messages. A text is the
-- list of its code points. `strip` of `str`, the comparison with the photo that the object-relational
-- mapper gives, and whether it saves the row are parameters.
use piltover.Base.{
  Bool, List, Option, [], false, if◌then◌else◌, length, ltb, none, not, some, true, ℕ, ◌+◌, ◌==◌,
  ◌||◌,
}
use piltover.Tl.Vector.{same_bytes}

abbrev pub Text : Type 0
Text = List ℕ

-- The fields that `update` reads and writes; a photo is its id.
pub record Settings : Type 0 where
  pub name : Text
  pub description : Text
  pub photo : Option ℕ
  pub ttl_period_days : ℕ
  pub version : ℕ

-- The arguments: `none` is `None`, and for the photo `_PHOTO_MISSING`.
pub record Changes : Type 0 where
  pub title : Option Text
  pub description : Option Text
  pub photo : Option (Option ℕ)
  pub ttl_period_days : Option ℕ

pub data UpdateError : Type 0 where
  chat_not_modified : UpdateError
  chat_title_empty : UpdateError
  chat_about_not_modified : UpdateError
  chat_about_too_long : UpdateError
  not_saved : UpdateError

-- The object in memory, the error that was raised, and whether `save_fields` has an element.
pub record Attempt : Type 0 where
  pub error : Option UpdateError
  pub chat : Settings
  pub saved : Bool

abbrev pub raised : UpdateError → Settings → Attempt
raised e s = record { error = some e; chat = s; saved = false }

abbrev changed : Settings → Attempt
changed s = record { error = none; chat = s; saved = true }

-- What follows a step, unless it raised.
abbrev pub and_then : Attempt → (Settings → Attempt) → Attempt
and_then a next = elim a.error [
  | some e ↦ a
  | none ↦ let b = next a.chat in record b { saved = a.saved || b.saved }
]

abbrev unchanged : Settings → Attempt
unchanged s = record { error = none; chat = s; saved = false }

unfoldable pub set_ttl : Option ℕ → Settings → Attempt
set_ttl none s = unchanged s
set_ttl (some days) s =
    if days == s.ttl_period_days
    then raised chat_not_modified s
    else changed (record s { ttl_period_days = days })

-- The error, the object in memory, and the row if it is written.
pub record Updated : Type 0 where
  pub error : Option UpdateError
  pub chat : Settings
  pub stored : Option Settings

-- `is_photo` is the comparison of a photo with `self.photo`, which gives a query in place of the photo
-- if it was not fetched. `saves` is whether `save` writes the row; it raises `not_saved` if it does
-- not, as for a name that is longer than the column.
pub record Given : Type 0 where
  pub strip : Text → Text
  pub is_photo : Option ℕ → Settings → Bool
  pub saves : Settings → Bool

module _ (lib : Given) where
  open lib use {strip, is_photo, saves}

  unfoldable pub set_photo : Option (Option ℕ) → Settings → Attempt
  set_photo none s = unchanged s
  set_photo (some photo) s =
      if is_photo photo s then raised chat_not_modified s else changed (record s { photo = photo })

  -- The version grows in memory before the row is saved.
  unfoldable pub finish : Attempt → Updated
  finish a = elim a.error [
    | some e ↦ record { error = some e; chat = a.chat; stored = none }
    | none ↦
        let next = record a.chat { version = a.chat.version + 1 } in
        if not a.saved
        then record { error = none; chat = a.chat; stored = none }
        else if saves next
        then record { error = none; chat = next; stored = some next }
        else record { error = some not_saved; chat = next; stored = none }
  ]

  unfoldable pub set_title : Option Text → Settings → Attempt
  set_title none s = unchanged s
  set_title (some title) s =
      let stripped = strip title in
      if same_bytes stripped s.name
      then raised chat_not_modified s
      else if same_bytes stripped []
      then raised chat_title_empty s
      else changed (record s { name = stripped })

  -- The description is compared with the name.
  unfoldable pub set_description : Option Text → Settings → Attempt
  set_description none s = unchanged s
  set_description (some description) s =
      let stripped = strip description in
      if same_bytes stripped s.name
      then raised chat_about_not_modified s
      else if ltb 255 (length stripped)
      then raised chat_about_too_long s
      else changed (record s { description = stripped })

  unfoldable pub set_all : Changes → Settings → Attempt
  unfolding set_title set_description set_photo set_ttl
  set_all c s =
      and_then
        (and_then (and_then (set_title c.title s) (set_description c.description))
          (set_photo c.photo))
        (set_ttl c.ttl_period_days)

  unfoldable pub update : Changes → Settings → Updated
  unfolding set_all finish
  update c s = finish (set_all c s)
