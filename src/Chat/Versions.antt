-- ===== src/Chat/Versions.antt =====
-- `update` of chat_base.py: when the version of a chat grows.
use piltover.Base.{
  Bool, Bool-cases, Option, Option-cases, ap, arith, false, if◌then◌else◌, inl, inr, length, le→ltb,
  ltb, none, refl, some, sym, true, ℕ, ◌+◌, ◌||◌, ◌∙◌, ◌≡◌, ◌≤◌, ◌⊎◌,
}
use piltover.Tl.Vector.{same_bytes}
use piltover.Chat.Update.{
  Text, Settings, Given, not_saved, Changes, UpdateError, Attempt, and_then, set_title,
  set_description, set_photo, set_ttl, set_all, finish, update,
}

abbrev given {ℓ} : {A : Type ℓ} → Option A → Bool
given none = false
given (some _) = true

-- Whether an update asks for anything.
abbrev pub asks : Changes → Bool
asks c = ((given c.title || given c.description) || given c.photo) || given c.ttl_period_days

-- Whether an error comes before the chat is saved.
abbrev pub early : UpdateError → Bool
early not_saved = false
early _ = true

abbrev early_or_none : Option UpdateError → Bool
early_or_none none = true
early_or_none (some e) = early e

-- A step keeps the version, and if it does not raise it saves what it was asked to.
record Keeps (s : Settings) (asked : Bool) (a : Attempt) : Type 0 where
  version : a.chat.version ≡ s.version
  saves : a.error ≡ none → a.saved ≡ asked
  own : early_or_none a.error ≡ true

Keeps-and_then :
    (s : Settings) (x y : Bool) (a : Attempt) (next : Settings → Attempt)
    → Keeps s x a
    → ((s' : Settings) → Keeps s' y (next s'))
    → Keeps s (x || y) (and_then a next)
Keeps-and_then s x y a next k l = elim (Option-cases a.error) [
  | inl e ↦ rw e (record {
    version = (l a.chat).version ∙ k.version;
    saves = λ ok. let f = k.saves e in let g = (l a.chat).saves ok in rw (f, g);
    own = (l a.chat).own;
  })
  | inr (x', e) ↦
      rw e
        (record { version = k.version; saves = λ ok. cc; own = ap early_or_none (sym e) ∙ k.own })
]

module _ (lib : Given) where
  Keeps-set_title : (t : Option Text) (s : Settings) → Keeps s (given t) (set_title lib t s)
  unfolding set_title
  Keeps-set_title none s = record { version = refl; saves = λ e. refl; own = refl }
  Keeps-set_title (some t) s = record {
    version = ground arith;
    saves = λ e. ground arith;
    own = ground arith;
  }

  Keeps-set_description :
      (t : Option Text) (s : Settings) → Keeps s (given t) (set_description lib t s)
  unfolding set_description
  Keeps-set_description none s = record { version = refl; saves = λ e. refl; own = refl }
  Keeps-set_description (some t) s = record {
    version = ground arith;
    saves = λ e. ground arith;
    own = ground arith;
  }

  Keeps-set_photo : (t : Option (Option ℕ)) (s : Settings) → Keeps s (given t) (set_photo lib t s)
  unfolding set_photo
  Keeps-set_photo none s = record { version = refl; saves = λ e. refl; own = refl }
  Keeps-set_photo (some t) s = record {
    version = ground arith;
    saves = λ e. ground arith;
    own = ground arith;
  }

  Keeps-set_ttl : (t : Option ℕ) (s : Settings) → Keeps s (given t) (set_ttl t s)
  unfolding set_ttl
  Keeps-set_ttl none s = record { version = refl; saves = λ e. refl; own = refl }
  Keeps-set_ttl (some t) s = record {
    version = ground arith;
    saves = λ e. ground arith;
    own = ground arith;
  }

  Keeps-set_all : (c : Changes) (s : Settings) → Keeps s (asks c) (set_all lib c s)
  unfolding set_all
  Keeps-set_all c s =
      Keeps-and_then s _ _ _ (set_ttl c.ttl_period_days)
        (Keeps-and_then s _ _ _ (set_photo lib c.photo)
          (Keeps-and_then s _ _ _ (set_description lib c.description) (Keeps-set_title c.title s)
            (Keeps-set_description c.description))
          (Keeps-set_photo c.photo))
        (Keeps-set_ttl c.ttl_period_days)

  -- An update ends in one of three ways. It raises an error before it saves anything, and keeps the
  -- version. Or it succeeds, and then it writes the chat with the next version if it asks for anything,
  -- and else nothing. Or it asks for something and saving the chat fails: then nothing is written, and
  -- the chat in memory has the next version.
  pub update_versions :
      (c : Changes) (s : Settings)
      → let r = update lib c s in
        ((e : UpdateError) × (early e ≡ true)
          × (r.error ≡ some e)
          × (r.stored ≡ none)
          × (r.chat.version ≡ s.version))
        ⊎ ((r.error ≡ none)
            × (r.stored ≡ (if asks c then some r.chat else none))
            × (r.chat.version ≡ s.version + (if asks c then 1 else 0)))
        ⊎ ((r.error ≡ some not_saved)
            × (asks c ≡ true)
            × (lib.saves r.chat ≡ false)
            × (r.stored ≡ none)
            × (r.chat.version ≡ s.version + 1))
  unfolding update finish
  update_versions c s =
      let a = set_all lib c s in
      let k = Keeps-set_all c s in
      elim (Option-cases a.error) [
        | inl e ↦
            let f = k.saves e in
            elim (Bool-cases (asks c)) [
              | inl g ↦
                  let saved : a.saved ≡ true = f ∙ g in
                  let next = record a.chat { version = a.chat.version + 1 } in
                  elim (Bool-cases (lib.saves next)) [
                    | inl ok ↦ inr (
                        inl (
                          rw (update, finish, e, saved, ok, g)
                            (refl, refl, ground (arith, k.version))))
                    | inr bad ↦ inr (
                        inr (
                          rw (update, finish, e, saved, bad)
                            (refl, g, bad, refl, ground (arith, k.version))))
                  ]
              | inr g ↦
                  let saved : a.saved ≡ false = f ∙ g in
                  inr
                    (inl (rw (update, finish, e, saved, g) (refl, refl, ground (arith, k.version))))
            ]
        | inr (x, e) ↦ inl (
          x,
          ap early_or_none (sym e) ∙ k.own,
          ground (arith, e),
          ground (arith, e),
          ground (arith, e, k.version),
        )
      ]

  -- A description that is the present one, that is not the name of the chat, and that is short enough is
  -- not refused: the chat is written again with the next version.
  update_same_description :
      (s : Settings) (text : Text)
      → lib.strip text ≡ s.description
      → same_bytes s.description s.name ≡ false
      → length s.description ≤ 255
      → lib.saves (record s { version = s.version + 1 }) ≡ true
      → (update lib
          (record { title = none; description = some text; photo = none; ttl_period_days = none })
          s).stored
        ≡ some (record s { version = s.version + 1 })
  unfolding update finish set_all set_title set_description set_photo set_ttl
  update_same_description s text same apart short ok =
      let e : ltb 255 (length s.description) ≡ false = le→ltb (length s.description) 255 short in
      rw (same, apart, e, ok)
