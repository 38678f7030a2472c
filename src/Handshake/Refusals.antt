-- ===== src/Handshake/Refusals.antt =====
-- _keygen_handlers.py: the last message of the exchange is answered or refused.
use piltover.Base.{
  Bool, List, Option, Option-cases, [], ap, drop, false, if◌then◌else◌, inl, inr, none, refl, some,
  subst, sym, take, true, ℕ, ◌++◌, ◌+◌, ◌==◌, ◌∷◌, ◌≡◌, ◌⊎◌,
}
use piltover.Tl.Codec.{Bytes}
use piltover.Tl.Vector.{same_bytes}
use piltover.AuthKeys.{Tables, create_key, create_temp_key}
use piltover.Gateway.Action.{Action, Done, Result, done, raised, disconnection, pure, ◌>>=◌, ◌>>◌}
use piltover.Handshake.{
  ClientInner, Crypto, GenAuthData, Reply, SetClientDhParams, State, dh_gen_fail, dh_gen_ok, finish,
  key_id_of, open_client, or_other, read_decrypted, refuse, require, send_unencrypted,
  set_client_dh_params, settle, store_key, with_gen,
}
use piltover.Handshake.Exchange.{Reachable, Reachable-IsPrepared}

abbrev pub IsRefused : {A : Type 0} → Result A → Type 0
IsRefused r = r ≡ raised (disconnection (some 404))

-- It returns and one `DhGenOk` was sent since, or it refuses the connection.
abbrev pub Answers : List Reply → Result Done × State → Type 0
Answers sent (r, s) =
    ((r ≡ done tt)
      × (nonce : Bytes) × (server_nonce : Bytes) × (s.sent
          ≡ sent ++ dh_gen_ok nonce server_nonce ∷ []))
    ⊎ IsRefused r

-- It changes nothing, and gives a value or refuses the connection.
abbrev Passes : {A : Type 0} → Action State A → Type 0
Passes {A = A} m =
    (s : State) → ((a : A) × (m s ≡ (done a, s))) ⊎ (m s ≡ (raised (disconnection (some 404)), s))

require-Passes : (c : Bool) → Passes (require c)
require-Passes true s = inl (tt, refl)
require-Passes false s = inr refl

or_other-Passes : {A : Type 0} (o : Option A) (a : A) → o ≡ some a → Passes (or_other o)
or_other-Passes none a e = λ s. cc
or_other-Passes (some b) a e = λ s. inl (b, refl)

bind-Passes :
    {A B : Type 0} (m : Action State A) (f : A → Action State B)
    → Passes m
    → ((a : A) → Passes (f a))
    → Passes (m >>= f)
bind-Passes m f h k s = elim (h s) [
  | inl (a, e) ↦
      let Goes : Result _ × State → Type 0 = λ r.
        ((b : _) × ((((λ _. r) >>= f) s) ≡ (done b, s)))
        ⊎ ((((λ _. r) >>= f) s) ≡ (raised (disconnection (some 404)), s)) in
      subst Goes (sym e) (k a s)
  | inr e ↦ inr (ap (λ r. ((λ _. r) >>= f) s) e)
]

bind-Answers :
    {A : Type 0} (m : Action State A) (f : A → Action State Done) (s : State)
    → Passes m
    → ((a : A) → Answers s.sent (f a s))
    → Answers s.sent ((m >>= f) s)
bind-Answers m f s h k = elim (h s) [
  | inl (a, e) ↦ subst (λ r. Answers s.sent (((λ _. r) >>= f) s)) (sym e) (k a)
  | inr e ↦ subst (λ r. Answers s.sent (((λ _. r) >>= f) s)) (sym e) (inr refl)
]

module _ (crypto : Crypto) where
  store_key-Answers :
      (now : ℕ) (key : Bytes) (d : GenAuthData) (inner : ClientInner) (s : State)
      → Answers s.sent (store_key crypto now key d inner s)
  unfolding store_key
  store_key-Answers now key d inner s = go (
      if d.expires_in == 0
      then create_key s.tables (key_id_of crypto key) key
      else create_temp_key s.tables (key_id_of crypto key) key (now + d.expires_in))
    where
      go :
          (o : Option Tables)
          → Answers s.sent (elim o as (λ _. Result Done × State) [
            | none ↦ (send_unencrypted (dh_gen_fail inner.nonce d.server_nonce) >> refuse) s
            | some tables ↦
                send_unencrypted
                  (dh_gen_ok inner.nonce d.server_nonce)
                  (record s { tables = tables })
          ])
      go none = inr refl
      go (some tables) = inl (refl, inner.nonce, d.server_nonce, refl)

  read_decrypted-Passes :
      (d : GenAuthData) (decrypted : Bytes) (inner : ClientInner)
      → crypto.read_client (drop 20 decrypted) ≡ some inner
      → Passes (read_decrypted crypto d decrypted)
  unfolding read_decrypted
  read_decrypted-Passes d decrypted inner e =
      let digest : ClientInner → Bool =
        λ inner. same_bytes (crypto.sha1 (crypto.write_client inner)) (take 20 decrypted) in
      let nonce : ClientInner → Bool = λ inner. same_bytes d.server_nonce inner.server_nonce in
      bind-Passes (or_other (crypto.read_client (drop 20 decrypted)))
        (λ inner. require (digest inner) >> (require (nonce inner) >> pure inner))
        (or_other-Passes (crypto.read_client (drop 20 decrypted)) inner e)
        (λ inner.
          bind-Passes (require (digest inner)) (λ _. require (nonce inner) >> pure inner)
            (require-Passes (digest inner))
            (λ _.
              bind-Passes (require (nonce inner)) (λ _. pure inner) (require-Passes (nonce inner))
                (λ _ s. inl (inner, refl))))

  open_client-Passes :
      (d : GenAuthData) (encrypted decrypted : Bytes) (aes : Bytes × Bytes) (inner : ClientInner)
      → crypto.ige_decrypt encrypted aes ≡ some decrypted
      → crypto.read_client (drop 20 decrypted) ≡ some inner
      → Passes (open_client crypto d encrypted aes)
  unfolding open_client
  open_client-Passes d encrypted decrypted aes inner e f =
      rw (open_client, e) (read_decrypted-Passes d decrypted inner f)

  settle-Answers :
      (now : ℕ) (d : GenAuthData) (inner : ClientInner) (secret : ℕ) (s : State)
      → Answers s.sent (settle crypto now d inner secret s)
  unfolding settle
  settle-Answers now d inner secret s =
      let key = crypto.to_bytes (crypto.powmod inner.g_b secret crypto.dh_prime) in
      let d' : GenAuthData = record d {
        auth_key = some key;
        auth_key_id = some (key_id_of crypto key);
      } in
      store_key-Answers now key d inner (record s { gen_auth_data = some d' })

  finish-Answers :
      (now : ℕ) (r : SetClientDhParams) (d : GenAuthData) (aes : Bytes × Bytes) (decrypted : Bytes)
      (inner : ClientInner) (secret : ℕ) (s : State)
      → crypto.ige_decrypt r.encrypted_data aes ≡ some decrypted
      → crypto.read_client (drop 20 decrypted) ≡ some inner
      → d.a ≡ some secret
      → Answers s.sent (finish crypto now r d aes s)
  unfolding finish
  finish-Answers now r d aes decrypted inner secret s e f k =
      let settled : ClientInner → Action State Done =
        λ inner. or_other d.a >>= settle crypto now d inner in
      bind-Answers (require (same_bytes d.server_nonce r.server_nonce))
        (λ _. open_client crypto d r.encrypted_data aes >>= settled) s
        (require-Passes (same_bytes d.server_nonce r.server_nonce))
        (λ _.
          bind-Answers (open_client crypto d r.encrypted_data aes) settled s
            (open_client-Passes d r.encrypted_data decrypted aes inner e f)
            (λ inner.
              bind-Answers (or_other d.a) (settle crypto now d inner) s
                (or_other-Passes d.a secret k) (λ secret. settle-Answers now d inner secret s)))

  -- Whatever messages of the exchange came before, in whatever order, the last one is answered with one
  -- `DhGenOk`, or the connection is refused with 404 and nothing else is raised, if its data can be
  -- decrypted under the key of the exchange, should there be one, and then read.
  pub set_client_dh_params-Answers :
      (s : State) (now : ℕ) (r : SetClientDhParams)
      → Reachable crypto s
      → ((d : GenAuthData) (aes : Bytes × Bytes)
          → s.gen_auth_data ≡ some d
          → d.tmp_aes_key ≡ some aes
          → (decrypted : Bytes) × (inner : ClientInner) × (crypto.ige_decrypt r.encrypted_data aes
              ≡ some decrypted)
            × (crypto.read_client (drop 20 decrypted) ≡ some inner))
      → Answers s.sent (set_client_dh_params crypto now r s)
  unfolding set_client_dh_params
  set_client_dh_params-Answers s now r before readable = elim (Option-cases s.gen_auth_data) [
    | inl e ↦ rw (e, with_gen) (inr refl)
    | inr (d, e) ↦ elim (Option-cases d.tmp_aes_key) [
      | inl f ↦ rw (e, with_gen, f) (inr refl)
      | inr (aes, f) ↦
          let (secret, k) = Reachable-IsPrepared crypto before d e aes f in
          let (decrypted, inner, g, h) = readable d aes e f in
          rw (e, with_gen, f) (finish-Answers now r d aes decrypted inner secret s g h k)
    ]
  ]
