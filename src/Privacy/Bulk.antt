-- ===== src/Privacy/Bulk.antt =====
-- privacy_rule.py: many questions at once are answered as each of them alone.
use piltover.Base.{
  Bool, Bool-cases, List, Option, Option-cases, [], ap, arith, discard, false, if◌then◌else◌, inl,
  inr, length, member, member-discard, none, refl, some, sym, true, ℕ, ◌&&◌, ◌==◌, ◌||◌, ◌∙◌, ◌∷◌,
  ◌≡◌,
}
use piltover.Privacy.{
  PrivacyRule, Tables, CacheOps, Results, Target, decide, default_allow_all, find_rule, is_of,
  is_contact, pairs, selected, without_rule, take_cached, not_cached, decide_each, answer_rest,
  has_access_to, has_access_to_bulk, target_ids, discard_bots,
}
use piltover.Privacy.Agreement.{
  Unique, found_at, selected-Unique, find_rule-selected, take_cached_at, decide_each_at,
  find_rule-not_cached, not_cached-Unique, cached, or_cached, or_decided, unless_cached,
}
use piltover.Privacy.Leftover.{
  has_pair, has_pair-pairs, has_pair-without_rule, unless_found, default_each_at,
}

find_rule-user :
    (u k : ℕ) (rules : List PrivacyRule) (x : PrivacyRule)
    → find_rule u k rules ≡ some x
    → x.user_id ≡ u
unfolding find_rule
find_rule-user u k [] x e = cc
find_rule-user u k (y ∷ ys) x e = elim (Bool-cases (is_of u k y)) [
  | inl hit ↦
      let e' : some y ≡ some x = rw hit at e in
      let eq : y ≡ x = cc in ap (λ (z : PrivacyRule). z.user_id) (sym eq) ∙ (found_at u k y hit).0
  | inr miss ↦ find_rule-user u k ys x (rw miss at e)
]

module _ {Cache : Type 0} (ops : CacheOps Cache) (t : Tables) (this u k : ℕ) (c : Cache) where
  -- The answer, by the rule that there is or not.
  abbrev verdict : Option PrivacyRule → Bool → Bool
  verdict none contact = if default_allow_all k then true else contact
  verdict (some x) contact = elim (cached ops this u k c x) [
    | some allowed ↦ allowed
    | none ↦ decide x this contact
  ]

  alone :
      this == u ≡ false
      → (has_access_to ops t this u k c).0
        ≡ verdict (find_rule u k t.rules) (is_contact u this t.contacts)
  unfolding has_access_to
  alone other = elim (Option-cases (find_rule u k t.rules)) [
    | inl e ↦ rw (other, e, verdict) refl
    | inr (x, e) ↦ elim (Option-cases (cached ops this u k c x)) [
      | inl f ↦ rw (other, e, has_access_to, verdict, f) refl
      | inr (v, f) ↦ rw (other, e, has_access_to, verdict, f) refl
    ]
  ]

  -- What the three passes make of it.
  together :
      (o : Option PrivacyRule) (owners : List ℕ) (contact : Bool) (old : Option Bool)
      → ((x : PrivacyRule) → o ≡ some x → x.user_id ≡ u)
      → member u owners ≡ contact
      → (if unless_found o true
          then some (default_allow_all k || member u owners)
          else or_decided ops this u k owners
              (unless_cached ops this u k c o)
              (or_cached ops this u k c o old))
        ≡ some (verdict o contact)
  together none owners contact old own known = ground (arith, known)
  together (some x) owners contact old own known =
      let same : member x.user_id owners ≡ contact =
        ap (λ i. member i owners) (own x refl) ∙ known in
      elim (Option-cases (cached ops this u k c x)) [
        | inl f ↦ rw (f, unless_cached, or_cached, verdict, same) refl
        | inr (v, f) ↦ rw (f, unless_cached, or_cached, verdict) refl
      ]

module _ {Cache : Type 0} (ops : CacheOps Cache) (t : Tables) (this : ℕ)
    (ids keys owners : List ℕ) where
  answer_rest_agrees :
      (u k : ℕ) (r : Results) (c : Cache)
      → Unique t.rules
      → member u ids ≡ true
      → member k keys ≡ true
      → (this == u) ≡ false
      → member u owners ≡ is_contact u this t.contacts
      → (res : Results) × (c' : Cache) × (answer_rest ops t this ids keys (some owners) r c
          ≡ some (res, c'))
        × (res u k ≡ some (has_access_to ops t this u k c).0)
  unfolding answer_rest
  answer_rest_agrees u k r c unique hu hk other known =
      let rules = selected ids keys t.rules in
      let sole = selected-Unique ids keys t.rules unique in
      let fresh = not_cached ops this c rules in
      let r₁ = take_cached ops this c rules r in
      let r₂ = (decide_each ops this owners fresh r₁ c).0 in
      let c' = (decide_each ops this owners fresh r₁ c).1 in
      let ps = without_rule rules (pairs ids keys) in
      let o = find_rule u k t.rules in
      let here : find_rule u k rules ≡ o = find_rule-selected ids keys u k t.rules hu hk in
      let (res, e, at) = default_each_at owners u k ps r₂ in
      let open_pair : has_pair u k ps ≡ unless_found o true =
        has_pair-without_rule rules u k (pairs ids keys)
        ∙ rw (here, has_pair-pairs u k ids keys, hu, hk) refl in
      let second : r₂ u k
          ≡ or_decided ops this u k owners (unless_cached ops this u k c o)
              (or_cached ops this u k c o (r u k)) =
        decide_each_at ops this u k owners fresh r₁ c (not_cached-Unique ops this c rules sole)
        ∙ rw
            (
              find_rule-not_cached ops this u k c rules sole,
              take_cached_at ops this u k c rules r sole,
              here,
            )
            refl in
      (
        res,
        c',
        rw (e, answer_rest) refl,
        at
            ∙ rw (open_pair, second)
                (together ops t this u k c o owners (is_contact u this t.contacts) (r u k)
                  (find_rule-user u k t.rules) known)
            ∙ ap some (sym (alone ops t this u k c other)),
      )

-- Whether a user is given as a bot.
abbrev given_as_bot : ℕ → List Target → Bool
given_as_bot u [] = false
given_as_bot u (t ∷ targets) = t.id == u && t.bot || given_as_bot u targets

member-discard_bots :
    (u : ℕ) (targets : List Target) (ids : List ℕ)
    → given_as_bot u targets ≡ false
    → member u ids ≡ true
    → member u (discard_bots targets ids) ≡ true
unfolding discard_bots
member-discard_bots u [] ids h there = there
member-discard_bots u (t ∷ targets) ids h there =
    member-discard_bots u targets (if t.bot then discard t.id ids else ids) (ground arith)
      (ground (arith, member-discard t.id u ids))

nonempty : (u : ℕ) (ids : List ℕ) → member u ids ≡ true → (length ids == 0) ≡ false
nonempty u [] h = cc
nonempty u (i ∷ ids) h = ground arith

module _ {Cache : Type 0} (ops : CacheOps Cache) where
  -- If the owners of contacts are given, the question about all users and keys at once is answered, and
  -- for each user that was asked about, other than the one who asks and not given as a bot, and each
  -- key, its answer is the one that the question about these alone gets with the same cache; the rules
  -- are unique, and the given owners say of this user what the table of contacts says.
  pub has_access_to_bulk_agrees :
      (t : Tables) (targets : List Target) (this u k : ℕ) (keys owners : List ℕ) (c : Cache)
      → Unique t.rules
      → member u (target_ids targets) ≡ true
      → given_as_bot u targets ≡ false
      → member k keys ≡ true
      → (this == u) ≡ false
      → member u owners ≡ is_contact u this t.contacts
      → (res : Results) × (c' : Cache) × (has_access_to_bulk ops t targets this keys (some owners) c
          ≡ some (res, c'))
        × (res u k ≡ some (has_access_to ops t this u k c).0)
  unfolding has_access_to_bulk
  has_access_to_bulk_agrees t targets this u k keys owners c unique asked human hk other known =
      let all = target_ids targets in
      let ids = discard_bots targets (discard this all) in
      let hu : member u ids ≡ true =
        member-discard_bots u targets (discard this all) human
          (ground (arith, member-discard this u all)) in
      rw (nonempty k keys hk, nonempty u ids hu)
        (answer_rest_agrees ops t this ids keys owners u k _ c unique hu hk other known)
