-- ===== src/Privacy/Agreement.antt =====
-- privacy_rule.py: the passes of `has_access_to_bulk`, each by what it does to one user and one key.
use piltover.Base.{
  Bool, Bool-cases, List, Option, Option-cases, [], ap, arith, false, if_intro, inl, inr, member,
  none, refl, some, subst, sym, true, ℕ, ◌&&◌, ◌∙◌, ◌∷◌, ◌≡◌,
}
use piltover.Privacy.{
  PrivacyRule, CacheOps, Results, cache_key, decide, find_rule, is_of, selected, set_result,
  take_cached, not_cached, decide_each,
}

-- A user has at most one rule for a key.
abbrev pub Unique : List PrivacyRule → Type 0
Unique [] = Unit {0}
Unique (x ∷ xs) = (find_rule x.user_id x.key xs ≡ none) × Unique xs

pub found_at : (u k : ℕ) (x : PrivacyRule) → is_of u k x ≡ true → (x.user_id ≡ u) × (x.key ≡ k)
found_at u k x h = (ground arith, ground arith)

-- A rule that is the one asked for is the only one.
no_other :
    (u k : ℕ) (x : PrivacyRule) (xs : List PrivacyRule)
    → Unique (x ∷ xs)
    → is_of u k x ≡ true
    → find_rule u k xs ≡ none
no_other u k x xs unique h =
    let (a, b) = found_at u k x h in
    subst (λ v. find_rule v k xs ≡ none) a (subst (λ j. find_rule x.user_id j xs ≡ none) b unique.0)

find_rule_hit :
    (u k : ℕ) (x : PrivacyRule) (xs : List PrivacyRule)
    → is_of u k x ≡ true
    → find_rule u k (x ∷ xs) ≡ some x
unfolding find_rule
find_rule_hit u k x xs hit = rw hit refl

find_rule_miss :
    (u k : ℕ) (x : PrivacyRule) (xs : List PrivacyRule)
    → is_of u k x ≡ false
    → find_rule u k (x ∷ xs) ≡ find_rule u k xs
unfolding find_rule
find_rule_miss u k x xs miss = rw miss refl

selected-none :
    (ids keys : List ℕ) (u k : ℕ) (rules : List PrivacyRule)
    → find_rule u k rules ≡ none
    → find_rule u k (selected ids keys rules) ≡ none
unfolding selected find_rule
selected-none ids keys u k [] h = refl
selected-none ids keys u k (x ∷ xs) h = ground (arith, selected-none ids keys u k xs)

pub selected-Unique :
    (ids keys : List ℕ) (rules : List PrivacyRule) → Unique rules → Unique (selected ids keys rules)
unfolding selected
selected-Unique ids keys [] h = tt
selected-Unique ids keys (x ∷ xs) (first, h) =
    if_intro Unique (member x.user_id ids && member x.key keys)
      (selected-none ids keys x.user_id x.key xs first, selected-Unique ids keys xs h)
      (selected-Unique ids keys xs h)

pub find_rule-selected :
    (ids keys : List ℕ) (u k : ℕ) (rules : List PrivacyRule)
    → member u ids ≡ true
    → member k keys ≡ true
    → find_rule u k (selected ids keys rules) ≡ find_rule u k rules
unfolding selected
find_rule-selected ids keys u k [] hu hk = refl
find_rule-selected ids keys u k (x ∷ xs) hu hk =
    let rest = find_rule-selected ids keys u k xs hu hk in
    elim (Bool-cases (is_of u k x)) [
      | inl hit ↦
          let (a, b) = found_at u k x hit in
          let hu' : member x.user_id ids ≡ true = ap (λ v. member v ids) a ∙ hu in
          let hk' : member x.key keys ≡ true = ap (λ v. member v keys) b ∙ hk in
          rw (hu', hk', find_rule_hit u k x (selected ids keys xs) hit, find_rule_hit u k x xs hit)
            refl
      | inr miss ↦
          if_intro (λ l. find_rule u k l ≡ find_rule u k (x ∷ xs))
            (member x.user_id ids && member x.key keys)
            (find_rule_miss u k x (selected ids keys xs) miss
              ∙ rest
              ∙ sym (find_rule_miss u k x xs miss))
            (rest ∙ sym (find_rule_miss u k x xs miss))
    ]

set_result_hit :
    (u k : ℕ) (x : PrivacyRule) (v : Bool) (r : Results)
    → is_of u k x ≡ true
    → set_result x.user_id x.key v r u k ≡ some v
set_result_hit u k x v r h = ground arith

set_result_miss :
    (u k : ℕ) (x : PrivacyRule) (v : Bool) (r : Results)
    → is_of u k x ≡ false
    → set_result x.user_id x.key v r u k ≡ r u k
set_result_miss u k x v r h = ground arith

module _ {Cache : Type 0} (ops : CacheOps Cache) (this : ℕ) (u k : ℕ) where
  abbrev pub cached : Cache → PrivacyRule → Option Bool
  cached c x = ops.cache_get (cache_key this x) c

  abbrev pub or_cached : Cache → Option PrivacyRule → Option Bool → Option Bool
  or_cached c none old = old
  or_cached c (some x) old = elim (cached c x) [ none ↦ old | some v ↦ some v ]

  pub take_cached_at :
      (c : Cache) (rules : List PrivacyRule) (r : Results)
      → Unique rules
      → take_cached ops this c rules r u k ≡ or_cached c (find_rule u k rules) (r u k)
  unfolding take_cached
  take_cached_at c [] r h = unfold find_rule in refl
  take_cached_at c (x ∷ xs) r h =
      let r' : Results = elim (cached c x) [ none ↦ r | some v ↦ set_result x.user_id x.key v r ] in
      let later = take_cached_at c xs r' h.1 in
      elim (Bool-cases (is_of u k x)) [
        | inl hit ↦
            let alone = no_other u k x xs h hit in
            later
            ∙ rw (alone, find_rule_hit u k x xs hit)
                (elim (Option-cases (cached c x)) [
                  | inl e ↦ rw (e, or_cached) refl
                  | inr (v, e) ↦ rw (e, or_cached) (set_result_hit u k x v r hit)
                ])
        | inr miss ↦
            later
            ∙ rw (find_rule_miss u k x xs miss) (elim (Option-cases (cached c x)) [
              | inl e ↦ rw e refl
              | inr (v, e) ↦ rw (e, set_result_miss u k x v r miss) refl
            ])
      ]

  abbrev pub or_decided : List ℕ → Option PrivacyRule → Option Bool → Option Bool
  or_decided owners none old = old
  or_decided owners (some x) old = some (decide x this (member x.user_id owners))

  pub decide_each_at :
      (owners : List ℕ) (rules : List PrivacyRule) (r : Results) (c : Cache)
      → Unique rules
      → (decide_each ops this owners rules r c).0 u k
        ≡ or_decided owners (find_rule u k rules) (r u k)
  unfolding decide_each
  decide_each_at owners [] r c h = unfold find_rule in refl
  decide_each_at owners (x ∷ xs) r c h =
      let v = decide x this (member x.user_id owners) in
      let later =
        decide_each_at owners xs (set_result x.user_id x.key v r)
          (ops.cache_set (cache_key this x) v c) h.1 in
      elim (Bool-cases (is_of u k x)) [
        | inl hit ↦
            let alone = no_other u k x xs h hit in
            later ∙ rw (alone, find_rule_hit u k x xs hit) (set_result_hit u k x v r hit)
        | inr miss ↦ later ∙ rw (find_rule_miss u k x xs miss, set_result_miss u k x v r miss) refl
      ]

  not_cached_keep :
      (c : Cache) (x : PrivacyRule) (xs : List PrivacyRule)
      → cached c x ≡ none
      → not_cached ops this c (x ∷ xs) ≡ x ∷ not_cached ops this c xs
  unfolding not_cached
  not_cached_keep c x xs e = rw (e, not_cached) refl

  not_cached_skip :
      (c : Cache) (x : PrivacyRule) (xs : List PrivacyRule) (v : Bool)
      → cached c x ≡ some v
      → not_cached ops this c (x ∷ xs) ≡ not_cached ops this c xs
  unfolding not_cached
  not_cached_skip c x xs v e = rw (e, not_cached) refl

  abbrev pub unless_cached : Cache → Option PrivacyRule → Option PrivacyRule
  unless_cached c none = none
  unless_cached c (some x) = elim (cached c x) [ none ↦ some x | some v ↦ none ]

  pub find_rule-not_cached :
      (c : Cache) (rules : List PrivacyRule)
      → Unique rules
      → find_rule u k (not_cached ops this c rules) ≡ unless_cached c (find_rule u k rules)
  unfolding not_cached
  find_rule-not_cached c [] h = unfold find_rule in refl
  find_rule-not_cached c (x ∷ xs) h =
      let later = find_rule-not_cached c xs h.1 in
      elim (Option-cases (cached c x)) [
        | inl e ↦ rw (not_cached_keep c x xs e) (elim (Bool-cases (is_of u k x)) [
          | inl hit ↦
              rw (find_rule_hit u k x (not_cached ops this c xs) hit, find_rule_hit u k x xs hit)
                (rw (e, unless_cached) refl)
          | inr miss ↦
              rw
                (find_rule_miss u k x (not_cached ops this c xs) miss, find_rule_miss u k x xs miss)
                later
        ])
        | inr (v, e) ↦ rw (not_cached_skip c x xs v e) (elim (Bool-cases (is_of u k x)) [
          | inl hit ↦
              rw (later, no_other u k x xs h hit, find_rule_hit u k x xs hit)
                (rw (e, unless_cached) refl)
          | inr miss ↦ rw (find_rule_miss u k x xs miss) later
        ])
      ]

not_cached-none :
    {Cache : Type 0} (ops : CacheOps Cache) (this u k : ℕ) (c : Cache) (rules : List PrivacyRule)
    → find_rule u k rules ≡ none
    → find_rule u k (not_cached ops this c rules) ≡ none
unfolding not_cached find_rule
not_cached-none ops this u k c [] h = refl
not_cached-none ops this u k c (x ∷ xs) h = ground (arith, not_cached-none ops this u k c xs)

pub not_cached-Unique :
    {Cache : Type 0} (ops : CacheOps Cache) (this : ℕ) (c : Cache) (rules : List PrivacyRule)
    → Unique rules
    → Unique (not_cached ops this c rules)
unfolding not_cached
not_cached-Unique ops this c [] h = tt
not_cached-Unique ops this c (x ∷ xs) (first, h) =
    let rest = not_cached-Unique ops this c xs h in
    elim (Option-cases (ops.cache_get (cache_key this x) c)) [
      | inl e ↦
          rw (not_cached_keep ops this 0 0 c x xs e)
            (not_cached-none ops this x.user_id x.key c xs first, rest)
      | inr (v, e) ↦ rw (not_cached_skip ops this 0 0 c x xs v e) rest
    ]
