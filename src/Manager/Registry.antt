-- ===== src/Manager/Registry.antt =====
-- session_manager.py: a session is found again by its key and its id until it is finalized.
use piltover.Base.{
  ==→eq, Bool, Bool-cases, List, Option, [], ap, arith, false, get, get-put, if◌then◌else◌, inl,
  inr, none, refl, some, sym, true, ℕ, ◌&&◌, ◌==◌, ◌∙◌, ◌∷◌, ◌≡◌, ◌≤◌, ◌⊎◌,
}
use piltover.Session.{AuthData, Session, new_session}
use piltover.Broker.{key_id}
use piltover.Manager.{Entry, Manager, same_key, lookup, drop_key, created, get_or_create}

-- Every entry leads to a session of its key and id, and all identities are below the next one.
pub record IsRegistered (m : Manager) : Type 0 where
  pub entries :
      (key : Option ℕ) (id ref : ℕ)
      → lookup key id m.sessions ≡ some ref
      → (s : Session) × (get ref m.heap ≡ some s) × (key_id s.auth_data ≡ key) × (s.session_id ≡ id)
  pub fresh : (ref : ℕ) → m.next_ref ≤ ref → get ref m.heap ≡ none

same_key-eq : (a b : Option ℕ) → same_key a b ≡ true → a ≡ b
same_key-eq none none h = refl
same_key-eq none (some b) h = cc
same_key-eq (some a) none h = cc
same_key-eq (some a) (some b) h = ap some (==→eq a b h)

pub lookup-drop_key :
    (key : Option ℕ) (id : ℕ) (es : List Entry) → lookup key id (drop_key key id es) ≡ none
unfolding lookup drop_key
lookup-drop_key key id [] = refl
lookup-drop_key key id (e ∷ es) = elim (Bool-cases (same_key e.key key && e.session_id == id)) [
  | inl hit ↦ rw hit (lookup-drop_key key id es)
  | inr miss ↦ rw (miss, miss) (lookup-drop_key key id es)
]

lookup-created :
    (m : Manager) (id client : ℕ) (auth : AuthData) (key : Option ℕ) (id' : ℕ)
    → lookup key id' (created m id client auth).sessions ≡ (
        if same_key auth.auth_key_id key && id == id'
        then some m.next_ref
        else lookup key id' m.sessions)
unfolding lookup created
lookup-created m id client auth key id' = refl

entries-created :
    (m : Manager) (id client : ℕ) (auth : AuthData)
    → IsRegistered m
    → (key : Option ℕ) (id' ref : ℕ) → lookup key id' (created m id client auth).sessions ≡ some ref
    → (s : Session) × (get ref (created m id client auth).heap ≡ some s)
      × (key_id s.auth_data ≡ key)
      × (s.session_id ≡ id')
unfolding created
entries-created m id client auth h key id' ref e =
    let e' = sym (lookup-created m id client auth key id') ∙ e in
    let new = new_session id (some client) (some auth) in
    elim (Bool-cases (same_key auth.auth_key_id key && id == id')) [
      | inl hit ↦
          let at : m.next_ref ≡ ref = ground arith in
          (
            new,
            rw (← at) (ground (arith, get-put m.next_ref m.next_ref new m.heap)),
            same_key-eq auth.auth_key_id key (ground arith),
            ==→eq id id' (ground arith),
          )
      | inr miss ↦
          let (s, there, k, i) = h.entries key id' ref (rw miss at e') in
          (s, ground (arith, there, h.fresh m.next_ref, get-put m.next_ref ref new m.heap), k, i)
    ]

pub created-IsRegistered :
    (m : Manager) (id client : ℕ) (auth : AuthData)
    → IsRegistered m
    → IsRegistered (created m id client auth)
unfolding created
created-IsRegistered m id client auth h = record {
  entries = entries-created m id client auth h;
  fresh = λ ref le. ground (
    arith,
    h.fresh ref,
    get-put m.next_ref ref (new_session id (some client) (some auth)) m.heap,
  );
}

-- What an answer to a request for a session promises.
abbrev pub Answered : Manager → ℕ → ℕ → ℕ → AuthData → AuthData → (ℕ × Bool) × Manager → Type 0
Answered m id client client' auth auth' ((ref, new), m') =
    IsRegistered m'
    × (get_or_create m' id client' auth' ≡ ((ref, false), m'))
    × (((new ≡ true) × (get ref m'.heap ≡ some (new_session id (some client) (some auth))))
        ⊎ ((new ≡ false) × (m' ≡ m)))
