-- ===== src/Handshake/Exchange.antt =====
-- _keygen_handlers.py: the steps of the exchange in any order, and what holds after any number of them.
use piltover.Base.{
  Bool, Option, Option-cases, drop, if◌then◌else◌, inl, inr, max, min, none, not, refl, some, subst,
  take, ℕ, ◌*◌, ◌++◌, ◌+◌, ◌==◌, ◌≡◌,
}
use piltover.Tl.Codec.{Bytes}
use piltover.Tl.Vector.{same_bytes}
use piltover.Gateway.Action.{Action, Done, Result, pure, ◌>>=◌, ◌>>◌}
use piltover.Gateway.Action.Keeps.{Keeps, bind-Keeps, then-Keeps}
use piltover.AuthKeys.{Tables, create_key, create_temp_key}
use piltover.Handshake.{
  settle, finish, dh_gen_fail, dh_gen_ok, ClientInner, Crypto, GenAuthData, InnerData, ReqDhParams,
  SetClientDhParams, State, key_id_of, lstrip_zeros, new_gen, offer, open_client, read_decrypted,
  open_inner, or_other, or_refuse, params_fit, refuse, req_dh_params, req_pq, require,
  send_unencrypted, set_client_dh_params, set_gen, store_key, with_gen, with_inner, outside, aes_of,
  Reply, res_pq, server_dh_params_ok,
}

-- Who has the key of the answer also has the secret behind it.
abbrev pub Prepared : GenAuthData → Type 0
Prepared d = (aes : Bytes × Bytes) → d.tmp_aes_key ≡ some aes → (secret : ℕ) × (d.a ≡ some secret)

abbrev pub IsPrepared : State → Type 0
IsPrepared s = (d : GenAuthData) → s.gen_auth_data ≡ some d → Prepared d

-- One message of the client, with what is drawn for it; it may be refused.
pub data Step (crypto : Crypto) : State → State → Type 0 where
  asked :
      (p q : ℕ) (server_nonce nonce : Bytes) (s : State)
      → Step crypto s (req_pq p q server_nonce nonce s).1
  proposed :
      (secret : ℕ) (padding : Bytes) (r : ReqDhParams) (s : State)
      → Step crypto s (req_dh_params crypto secret padding r s).1
  settled :
      (now : ℕ) (r : SetClientDhParams) (s : State)
      → Step crypto s (set_client_dh_params crypto now r s).1

pub data Reachable (crypto : Crypto) : State → Type 0 where
  start : (s : State) → s.gen_auth_data ≡ none → Reachable crypto s
  next : {s s' : State} → Reachable crypto s → Step crypto s s' → Reachable crypto s'

set_gen-Keeps : (d : GenAuthData) → Prepared d → Keeps IsPrepared (set_gen d)
set_gen-Keeps d h s p d' e = let eq : d ≡ d' = cc in subst Prepared eq h

send-Keeps : (reply : Reply) → Keeps IsPrepared (send_unencrypted reply)
send-Keeps reply s p = p

require-Keeps : (c : Bool) → Keeps IsPrepared (require c)
require-Keeps c s p = p

or_other-Keeps : {A : Type 0} (o : Option A) → Keeps IsPrepared (or_other o)
or_other-Keeps none = λ s p. p
or_other-Keeps (some a) = λ s p. p

or_refuse-Keeps : {A : Type 0} (o : Option A) → Keeps IsPrepared (or_refuse o)
or_refuse-Keeps none = λ s p. p
or_refuse-Keeps (some a) = λ s p. p

with_gen-Keeps :
    {A : Type 0} (f : GenAuthData → Action State A)
    → ((d : GenAuthData) → Prepared d → Keeps IsPrepared (f d))
    → Keeps IsPrepared (with_gen f)
with_gen-Keeps f h s p = elim (Option-cases s.gen_auth_data) [
  | inl e ↦ rw (e, with_gen) p
  | inr (d, e) ↦ rw (e, with_gen) (h d (p d e) s p)
]

req_pq-Keeps :
    (p q : ℕ) (server_nonce nonce : Bytes) → Keeps IsPrepared (req_pq p q server_nonce nonce)
unfolding req_pq
req_pq-Keeps p q n nonce =
    let d = new_gen (min p q) (max p q) n in
    then-Keeps IsPrepared (require (not (p == q)))
      (set_gen d >> send_unencrypted (res_pq nonce n (p * q))) (require-Keeps (not (p == q)))
      (then-Keeps IsPrepared (set_gen d) (send_unencrypted (res_pq nonce n (p * q)))
        (set_gen-Keeps d (λ aes e. cc)) (send-Keeps (res_pq nonce n (p * q))))

module _ (crypto : Crypto) where
  abbrev Kept : {A : Type 0} → Action State A → Type 0
  Kept = Keeps IsPrepared

  offer-Keeps :
      (secret : ℕ) (padding : Bytes) (inner : InnerData) (d : GenAuthData)
      → Prepared d
      → Kept (offer crypto secret padding inner d)
  unfolding offer
  offer-Keeps secret padding inner d h s p =
      let g_a = crypto.powmod crypto.g secret crypto.dh_prime in
      let aes = aes_of crypto inner.new_nonce d.server_nonce in
      let d₁ = with_inner crypto inner d in
      let d₂ : GenAuthData = record d₁ { a = some secret } in
      let d₃ : GenAuthData = record d₁ { a = some secret; tmp_aes_key = some aes } in
      let body = crypto.answer inner g_a in
      let reply =
        server_dh_params_ok inner.nonce d.server_nonce
          (crypto.ige_encrypt (crypto.sha1 body ++ body ++ padding) aes) in
      let last = set_gen d₃ >> send_unencrypted reply in
      then-Keeps IsPrepared (set_gen d₁)
        (set_gen d₂ >> (require (not (outside crypto g_a)) >> last)) (set_gen-Keeps d₁ h)
        (then-Keeps IsPrepared (set_gen d₂) (require (not (outside crypto g_a)) >> last)
          (set_gen-Keeps d₂ (λ aes e. (secret, refl)))
          (then-Keeps IsPrepared (require (not (outside crypto g_a))) last
            (require-Keeps (not (outside crypto g_a)))
            (then-Keeps IsPrepared (set_gen d₃) (send_unencrypted reply)
              (set_gen-Keeps d₃ (λ aes e. (secret, refl))) (send-Keeps reply))))
        s p

  same_digest : Bytes → InnerData → Bool
  same_digest key inner =
      same_bytes (crypto.sha1 (crypto.write_inner inner)) (take 20 (lstrip_zeros key))

  digest-Keeps :
      (key : Bytes) (inner : InnerData) → Kept (require (same_digest key inner) >> pure inner)
  digest-Keeps key inner =
      then-Keeps IsPrepared (require (same_digest key inner)) (pure inner)
        (require-Keeps (same_digest key inner)) (λ s p. p)

  old-Keeps :
      (key : Bytes) (found : Option InnerData)
      → Kept (or_refuse found >>= λ inner. require (same_digest key inner) >> pure inner)
  old-Keeps key found =
      bind-Keeps IsPrepared (or_refuse found)
        (λ inner. require (same_digest key inner) >> pure inner) (or_refuse-Keeps found)
        (digest-Keeps key)

  -- Opening what the client sent changes nothing.
  open_inner-Keeps : (encrypted : Bytes) → Kept (open_inner crypto encrypted)
  unfolding open_inner same_digest
  open_inner-Keeps encrypted s p =
      let key = crypto.rsa_decrypt encrypted in
      elim (Option-cases (crypto.rsa_pad_inverse key)) [
        | inl e ↦
            let o = crypto.read_inner (drop 20 (lstrip_zeros key)) in
            rw (e, open_inner)
              (bind-Keeps IsPrepared (or_other o)
                (λ found.
                  or_refuse found >>= λ inner. require (same_digest key inner) >> pure inner)
                (or_other-Keeps o) (old-Keeps key) s p)
        | inr (padded, e) ↦
            let o = crypto.read_inner (lstrip_zeros padded) in
            rw (e, open_inner)
              (bind-Keeps IsPrepared (or_other o) or_refuse (or_other-Keeps o) or_refuse-Keeps s p)
      ]

  req_dh_params-Keeps :
      (secret : ℕ) (padding : Bytes) (r : ReqDhParams)
      → Kept (req_dh_params crypto secret padding r)
  unfolding req_dh_params
  req_dh_params-Keeps secret padding r = with_gen-Keeps _ (λ d h.
      then-Keeps IsPrepared (require (params_fit d r))
        (open_inner crypto r.encrypted_data >>= λ inner.
          require (same_bytes d.server_nonce inner.server_nonce)
          >> offer crypto secret padding inner d)
        (require-Keeps (params_fit d r))
        (bind-Keeps IsPrepared (open_inner crypto r.encrypted_data)
          (λ inner.
            require (same_bytes d.server_nonce inner.server_nonce)
            >> offer crypto secret padding inner d)
          (open_inner-Keeps r.encrypted_data)
          (λ inner.
            then-Keeps IsPrepared (require (same_bytes d.server_nonce inner.server_nonce))
              (offer crypto secret padding inner d)
              (require-Keeps (same_bytes d.server_nonce inner.server_nonce))
              (offer-Keeps secret padding inner d h))))

  read_decrypted-Keeps :
      (d : GenAuthData) (decrypted : Bytes) → Kept (read_decrypted crypto d decrypted)
  unfolding read_decrypted
  read_decrypted-Keeps d decrypted =
      let digest : ClientInner → Bool =
        λ inner. same_bytes (crypto.sha1 (crypto.write_client inner)) (take 20 decrypted) in
      let nonce : ClientInner → Bool = λ inner. same_bytes d.server_nonce inner.server_nonce in
      bind-Keeps IsPrepared (or_other (crypto.read_client (drop 20 decrypted)))
        (λ inner. require (digest inner) >> (require (nonce inner) >> pure inner))
        (or_other-Keeps (crypto.read_client (drop 20 decrypted)))
        (λ inner.
          then-Keeps IsPrepared (require (digest inner)) (require (nonce inner) >> pure inner)
            (require-Keeps (digest inner))
            (then-Keeps IsPrepared (require (nonce inner)) (pure inner)
              (require-Keeps (nonce inner)) (λ s p. p)))

  open_client-Keeps :
      (d : GenAuthData) (encrypted : Bytes) (aes : Bytes × Bytes)
      → Kept (open_client crypto d encrypted aes)
  unfolding open_client
  open_client-Keeps d encrypted aes =
      bind-Keeps IsPrepared (or_other (crypto.ige_decrypt encrypted aes)) (read_decrypted crypto d)
        (or_other-Keeps (crypto.ige_decrypt encrypted aes)) (read_decrypted-Keeps d)

  store_key-Keeps :
      (now : ℕ) (key : Bytes) (d : GenAuthData) (inner : ClientInner)
      → Kept (store_key crypto now key d inner)
  unfolding store_key
  store_key-Keeps now key d inner s p = go (
      if d.expires_in == 0
      then create_key s.tables (key_id_of crypto key) key
      else create_temp_key s.tables (key_id_of crypto key) key (now + d.expires_in))
    where
      go :
          (o : Option Tables)
          → IsPrepared
              (elim o as (λ _. Result Done × State) [
                | none ↦ (send_unencrypted (dh_gen_fail inner.nonce d.server_nonce) >> refuse) s
                | some tables ↦
                    send_unencrypted
                      (dh_gen_ok inner.nonce d.server_nonce)
                      (record s { tables = tables })
              ]).1
      go none = p
      go (some tables) = p

  settle-Keeps :
      (now : ℕ) (d : GenAuthData) (inner : ClientInner) (secret : ℕ)
      → Prepared d
      → Kept (settle crypto now d inner secret)
  unfolding settle
  settle-Keeps now d inner secret h =
      let key = crypto.to_bytes (crypto.powmod inner.g_b secret crypto.dh_prime) in
      let d' : GenAuthData = record d {
        auth_key = some key;
        auth_key_id = some (key_id_of crypto key);
      } in
      then-Keeps IsPrepared (set_gen d') (store_key crypto now key d inner) (set_gen-Keeps d' h)
        (store_key-Keeps now key d inner)

  finish-Keeps :
      (now : ℕ) (r : SetClientDhParams) (d : GenAuthData) (aes : Bytes × Bytes)
      → Prepared d
      → Kept (finish crypto now r d aes)
  unfolding finish
  finish-Keeps now r d aes h =
      let settled : ClientInner → Action State Done =
        λ inner. or_other d.a >>= settle crypto now d inner in
      then-Keeps IsPrepared (require (same_bytes d.server_nonce r.server_nonce))
        (open_client crypto d r.encrypted_data aes >>= settled)
        (require-Keeps (same_bytes d.server_nonce r.server_nonce))
        (bind-Keeps IsPrepared (open_client crypto d r.encrypted_data aes) settled
          (open_client-Keeps d r.encrypted_data aes)
          (λ inner.
            bind-Keeps IsPrepared (or_other d.a) (settle crypto now d inner) (or_other-Keeps d.a)
              (λ secret. settle-Keeps now d inner secret h)))

  set_client_dh_params-Keeps :
      (now : ℕ) (r : SetClientDhParams) → Kept (set_client_dh_params crypto now r)
  unfolding set_client_dh_params
  set_client_dh_params-Keeps now r = with_gen-Keeps _ (λ d h s p.
      elim (Option-cases d.tmp_aes_key) [
        | inl e ↦ rw e p
        | inr (aes, e) ↦ rw e (finish-Keeps now r d aes h s p)
      ])

  Step-Keeps : {s s' : State} → Step crypto s s' → IsPrepared s → IsPrepared s'
  Step-Keeps (asked p q n nonce s) h = req_pq-Keeps p q n nonce s h
  Step-Keeps (proposed secret padding r s) h = req_dh_params-Keeps secret padding r s h
  Step-Keeps (settled now r s) h = set_client_dh_params-Keeps now r s h

  pub Reachable-IsPrepared : {s : State} → Reachable crypto s → IsPrepared s
  Reachable-IsPrepared (start s e) = λ d f. cc
  Reachable-IsPrepared (next before step) = Step-Keeps step (Reachable-IsPrepared before)
