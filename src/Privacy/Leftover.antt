-- ===== src/Privacy/Leftover.antt =====
-- privacy_rule.py: the users and keys that `has_access_to_bulk` finds no rule for.
use piltover.Base.{
  Bool, Bool-cases, List, Option, Option-cases, [], ap, arith, false, if◌then◌else◌, inl, inr,
  member, none, refl, some, sym, ℕ, ◌&&◌, ◌++◌, ◌==◌, ◌||◌, ◌∙◌, ◌∷◌, ◌≡◌,
}
use piltover.Privacy.{
  PrivacyRule, Results, default_allow_all, default_each, find_rule, pairs, pairs_of, set_result,
  without_rule,
}

abbrev pub has_pair : ℕ → ℕ → List (ℕ × ℕ) → Bool
has_pair u k [] = false
has_pair u k ((v, j) ∷ ps) = v == u && j == k || has_pair u k ps

has_pair-append :
    (u k : ℕ) (ps qs : List (ℕ × ℕ))
    → has_pair u k (ps ++ qs) ≡ (has_pair u k ps || has_pair u k qs)
has_pair-append u k [] qs = refl
has_pair-append u k ((v, j) ∷ ps) qs = ground (arith, has_pair-append u k ps qs)

has_pair-pairs_of :
    (u k v : ℕ) (keys : List ℕ) → has_pair u k (pairs_of v keys) ≡ (v == u && member k keys)
unfolding pairs_of
has_pair-pairs_of u k v [] = ground arith
has_pair-pairs_of u k v (j ∷ keys) = ground (arith, has_pair-pairs_of u k v keys)

pub has_pair-pairs :
    (u k : ℕ) (ids keys : List ℕ) → has_pair u k (pairs ids keys) ≡ (member u ids && member k keys)
unfolding pairs
has_pair-pairs u k [] keys = refl
has_pair-pairs u k (v ∷ ids) keys =
    has_pair-append u k (pairs_of v keys) (pairs ids keys)
    ∙ ground (arith, has_pair-pairs_of u k v keys, has_pair-pairs u k ids keys)

abbrev pub unless_found : Option PrivacyRule → Bool → Bool
unless_found none b = b
unless_found (some _) b = false

unless_found-false : (o : Option PrivacyRule) → unless_found o false ≡ false
unless_found-false none = refl
unless_found-false (some _) = refl

without_rule_keep :
    (rules : List PrivacyRule) (v j : ℕ) (ps : List (ℕ × ℕ))
    → find_rule v j rules ≡ none
    → without_rule rules ((v, j) ∷ ps) ≡ (v, j) ∷ without_rule rules ps
unfolding without_rule
without_rule_keep rules v j ps e = rw (e, without_rule) refl

without_rule_skip :
    (rules : List PrivacyRule) (v j : ℕ) (x : PrivacyRule) (ps : List (ℕ × ℕ))
    → find_rule v j rules ≡ some x
    → without_rule rules ((v, j) ∷ ps) ≡ without_rule rules ps
unfolding without_rule
without_rule_skip rules v j x ps e = rw (e, without_rule) refl

pub has_pair-without_rule :
    (rules : List PrivacyRule) (u k : ℕ) (ps : List (ℕ × ℕ))
    → has_pair u k (without_rule rules ps) ≡ unless_found (find_rule u k rules) (has_pair u k ps)
unfolding without_rule
has_pair-without_rule rules u k [] = sym (unless_found-false (find_rule u k rules))
has_pair-without_rule rules u k ((v, j) ∷ ps) =
    let later = has_pair-without_rule rules u k ps in
    elim (Bool-cases (v == u && j == k)) [
      | inl hit ↦
          let a : v ≡ u = ground arith in
          let b : j ≡ k = ground arith in
          let same : find_rule v j rules ≡ find_rule u k rules =
            ap (λ i. find_rule i j rules) a ∙ ap (λ i. find_rule u i rules) b in
          elim (Option-cases (find_rule u k rules)) [
            | inl e ↦
                rw (without_rule_keep rules v j ps (same ∙ e), hit) (rw (e, unless_found) refl)
            | inr (x, e) ↦
                rw (without_rule_skip rules v j x ps (same ∙ e)) (later ∙ rw (e, unless_found) refl)
          ]
      | inr miss ↦ elim (Option-cases (find_rule v j rules)) [
        | inl e ↦ rw (without_rule_keep rules v j ps e, miss) later
        | inr (x, e) ↦ rw (without_rule_skip rules v j x ps e, miss) later
      ]
    ]

default_each_step :
    (owners : List ℕ) (v j : ℕ) (ps : List (ℕ × ℕ)) (r : Results)
    → default_each (some owners) ((v, j) ∷ ps) r
      ≡ default_each (some owners) ps (set_result v j (default_allow_all j || member v owners) r)
unfolding default_each
default_each_step owners v j ps r = elim (Bool-cases (default_allow_all j)) [
  | inl all ↦ rw (all, default_each) refl
  | inr ask ↦ rw (ask, default_each) refl
]

set_result_at :
    (owners : List ℕ) (u k v j : ℕ) (r : Results)
    → set_result v j (default_allow_all j || member v owners) r u k
      ≡ (if v == u && j == k then some (default_allow_all k || member u owners) else r u k)
set_result_at owners u k v j r = elim (Bool-cases (v == u && j == k)) [
  | inl hit ↦
      let a : v ≡ u = ground arith in
      let b : j ≡ k = ground arith in
      let same : member v owners ≡ member u owners = ap (λ i. member i owners) a in
      ground (arith, same)
  | inr miss ↦ ground arith
]

-- With the contacts known, the rest of the answers is always found.
pub default_each_at :
    (owners : List ℕ) (u k : ℕ) (ps : List (ℕ × ℕ)) (r : Results)
    → (r' : Results) × (default_each (some owners) ps r ≡ some r')
      × (r' u k
          ≡ (if has_pair u k ps then some (default_allow_all k || member u owners) else r u k))
unfolding default_each
default_each_at owners u k [] r = (r, refl, refl)
default_each_at owners u k ((v, j) ∷ ps) r =
    let r₁ = set_result v j (default_allow_all j || member v owners) r in
    let (r', e, at) = default_each_at owners u k ps r₁ in
    (r', default_each_step owners v j ps r ∙ e, at ∙ ground (arith, set_result_at owners u k v j r))
