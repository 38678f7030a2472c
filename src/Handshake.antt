-- ===== src/Handshake.antt =====
-- piltover/gateway/_keygen_handlers.py: the exchange of messages that makes an auth key. Nonces are
-- their bytes; the packages for RSA, SHA-1, AES and primes, and the classes of the messages are
-- parameters. Of the last answer the hash of the new nonce is left out.
pub mod Exchange
pub mod Refusals
use piltover.Base.{
  Bool, List, Option, [], drop, false, if◌then◌else◌, leb, length, max, min, none, not, some, take,
  ℕ, ◌&&◌, ◌*◌, ◌++◌, ◌+◌, ◌-◌, ◌==◌, ◌^◌, ◌||◌, ◌∷◌,
}
use piltover.Tl.Codec.{Bytes}
use piltover.Tl.Vector.{same_bytes}
use piltover.Tl.LittleEndian.{from_le}
use piltover.AuthKeys.{Tables, create_key, create_temp_key}
use piltover.Gateway.Action.{
  Action, Done, done, raised, disconnection, other, pure, raise, modify, ◌>>=◌, ◌>>◌,
}

-- `GenAuthData` of piltover/auth_data.py
pub record GenAuthData : Type 0 where
  pub p : ℕ
  pub q : ℕ
  pub server_nonce : Bytes
  pub new_nonce : Option Bytes
  pub tmp_aes_key : Option (Bytes × Bytes)
  pub a : Option ℕ
  pub is_temp : Bool
  pub expires_in : ℕ
  pub auth_key : Option Bytes
  pub auth_key_id : Option ℕ

-- `PQInnerData` and its kinds
pub record InnerData : Type 0 where
  pub temp : Bool
  pub nonce : Bytes
  pub server_nonce : Bytes
  pub new_nonce : Bytes
  pub expires_in : ℕ

pub record ClientInner : Type 0 where
  pub nonce : Bytes
  pub server_nonce : Bytes
  pub g_b : ℕ

pub record ReqDhParams : Type 0 where
  pub p : Bytes
  pub q : Bytes
  pub server_nonce : Bytes
  pub encrypted_data : Bytes

pub record SetClientDhParams : Type 0 where
  pub server_nonce : Bytes
  pub encrypted_data : Bytes

pub data Reply : Type 0 where
  res_pq : Bytes → Bytes → ℕ → Reply
  server_dh_params_ok : Bytes → Bytes → Bytes → Reply
  dh_gen_ok : Bytes → Bytes → Reply
  dh_gen_fail : Bytes → Bytes → Reply

-- What the packages and the generated classes give. An object that is not of the class that is wanted
-- is `some none`, and bytes that cannot be read, or be decrypted for their length, are `none`.
pub record Crypto : Type 0 where
  pub rsa_decrypt : Bytes → Bytes
  pub rsa_pad_inverse : Bytes → Option Bytes
  pub sha1 : Bytes → Bytes
  pub read_inner : Bytes → Option (Option InnerData)
  pub write_inner : InnerData → Bytes
  pub ige_encrypt : Bytes → Bytes × Bytes → Bytes
  pub ige_decrypt : Bytes → Bytes × Bytes → Option Bytes
  pub read_client : Bytes → Option ClientInner
  pub write_client : ClientInner → Bytes
  pub powmod : ℕ → ℕ → ℕ → ℕ
  pub to_bytes : ℕ → Bytes
  pub dh_prime : ℕ
  pub g : ℕ
  pub answer : InnerData → ℕ → Bytes

pub record State : Type 0 where
  pub gen_auth_data : Option GenAuthData
  pub tables : Tables
  pub sent : List Reply

abbrev pub refuse : {A : Type 0} → Action State A
refuse = raise (disconnection (some 404))

abbrev pub require : Bool → Action State Done
require c s = (if c then done tt else raised (disconnection (some 404)), s)

abbrev pub send_unencrypted : Reply → Action State Done
send_unencrypted reply = modify (λ s. record s { sent = s.sent ++ reply ∷ [] })

-- `GenAuthData(p, q, server_nonce)`
abbrev pub new_gen : ℕ → ℕ → Bytes → GenAuthData
new_gen p q server_nonce = record {
  p = p;
  q = q;
  server_nonce = server_nonce;
  new_nonce = none;
  tmp_aes_key = none;
  a = none;
  is_temp = false;
  expires_in = 0;
  auth_key = none;
  auth_key_id = none;
}

-- `req_pq`, with the two primes and the nonce that are drawn.
unfoldable pub req_pq : ℕ → ℕ → Bytes → Bytes → Action State Done
req_pq p q server_nonce nonce = do
  require (not (p == q))
  modify (λ s. record s { gen_auth_data = some (new_gen (min p q) (max p q) server_nonce) })
  send_unencrypted (res_pq nonce server_nonce (p * q))

-- `int.from_bytes(…, "big")`
abbrev from_be : ℕ → Bytes → ℕ
from_be high [] = high
from_be high (b ∷ bs) = from_be (high * 256 + b) bs

abbrev pub lstrip_zeros : Bytes → Bytes
lstrip_zeros [] = []
lstrip_zeros (b ∷ bs) = let rest = lstrip_zeros bs in if b == 0 then rest else b ∷ bs

-- The state of the exchange is changed in place; without one the connection is refused.
abbrev pub with_gen : {A : Type 0} → (GenAuthData → Action State A) → Action State A
with_gen f s = elim s.gen_auth_data [ none ↦ refuse s | some d ↦ f d s ]

abbrev pub set_gen : GenAuthData → Action State Done
set_gen d = modify (λ s. record s { gen_auth_data = some d })

abbrev pub or_other : {A : Type 0} → Option A → Action State A
or_other none = raise other
or_other (some a) = pure a

abbrev pub or_refuse : {A : Type 0} → Option A → Action State A
or_refuse none = refuse
or_refuse (some a) = pure a

-- The guards on what the client says of the primes.
unfoldable pub params_fit : GenAuthData → ReqDhParams → Bool
params_fit d r =
    length r.p == 4
    && length r.q == 4
    && from_be 0 r.p == d.p
    && from_be 0 r.q == d.q
    && same_bytes d.server_nonce r.server_nonce
    && length r.encrypted_data == 256

module _ (crypto : Crypto) where
  open crypto use {rsa_decrypt, rsa_pad_inverse, sha1, read_inner, write_inner, dh_prime, g}

  -- The data inside, of the present or of the old way to pad; the old one carries a digest.
  unfoldable pub open_inner : Bytes → Action State InnerData
  open_inner encrypted =
      let key = rsa_decrypt encrypted in
      elim (rsa_pad_inverse key) [
        | some padded ↦ do found ← or_other (read_inner (lstrip_zeros padded)); or_refuse found
        | none ↦ do
          found ← or_other (read_inner (drop 20 (lstrip_zeros key)))
          inner ← or_refuse found
          require (same_bytes (sha1 (write_inner inner)) (take 20 (lstrip_zeros key)))
          pure inner
      ]

  abbrev pub outside : ℕ → Bool
  outside g_a =
      leb g 1
      || leb (dh_prime - 1) g
      || leb g_a 1
      || leb (dh_prime - 1) g_a
      || leb g_a (2 ^ (2048 - 64))
      || leb (dh_prime - 2 ^ (2048 - 64)) g_a

  -- The key and the vector of the answer's encryption
  abbrev pub aes_of : Bytes → Bytes → Bytes × Bytes
  aes_of new_nonce server_nonce = (
    sha1 (new_nonce ++ server_nonce) ++ take 12 (sha1 (server_nonce ++ new_nonce)),
    drop 12 (sha1 (server_nonce ++ new_nonce)) ++ sha1 (new_nonce ++ new_nonce) ++ take 4 new_nonce,
  )

  abbrev pub with_inner : InnerData → GenAuthData → GenAuthData
  with_inner inner d = record d {
    is_temp = inner.temp;
    expires_in = if inner.temp then max inner.expires_in 86400 else 0;
    new_nonce = some inner.new_nonce;
  }

  -- The part after the guards; `secret` and `padding` are drawn.
  unfoldable pub offer : ℕ → Bytes → InnerData → GenAuthData → Action State Done
  offer secret padding inner d =
      let g_a = crypto.powmod g secret dh_prime in
      let aes = aes_of inner.new_nonce d.server_nonce in
      let body = crypto.answer inner g_a in
      do
        set_gen (with_inner inner d)
        set_gen (record (with_inner inner d) { a = some secret })
        require (not (outside g_a))
        set_gen (record (with_inner inner d) { a = some secret; tmp_aes_key = some aes })
        send_unencrypted (
            server_dh_params_ok inner.nonce d.server_nonce
              (crypto.ige_encrypt (sha1 body ++ body ++ padding) aes))

  unfoldable pub req_dh_params : ℕ → Bytes → ReqDhParams → Action State Done
  unfolding params_fit open_inner offer
  req_dh_params secret padding r = with_gen (λ d. do
    require (params_fit d r)
    inner ← open_inner r.encrypted_data
    require (same_bytes d.server_nonce inner.server_nonce)
    offer secret padding inner d)

  -- The client's part after decryption, behind its digest.
  unfoldable pub read_decrypted : GenAuthData → Bytes → Action State ClientInner
  read_decrypted d decrypted = do
    inner ← or_other (crypto.read_client (drop 20 decrypted))
    require (same_bytes (sha1 (crypto.write_client inner)) (take 20 decrypted))
    require (same_bytes d.server_nonce inner.server_nonce)
    pure inner

  unfoldable pub open_client : GenAuthData → Bytes → Bytes × Bytes → Action State ClientInner
  unfolding read_decrypted
  open_client d encrypted aes = do
    decrypted ← or_other (crypto.ige_decrypt encrypted aes)
    read_decrypted d decrypted

  -- `Long.read_bytes` of the last eight bytes of the digest, here without a sign
  abbrev pub key_id_of : Bytes → ℕ
  key_id_of auth_key = let digest = sha1 auth_key in from_le (drop (length digest - 8) digest)

  -- A key that cannot be stored is told of, and the connection is refused.
  unfoldable pub store_key : ℕ → Bytes → GenAuthData → ClientInner → Action State Done
  unfolding create_key create_temp_key
  store_key now auth_key d inner s =
      let id = key_id_of auth_key in
      let stored : Option Tables =
        (if d.expires_in == 0
          then create_key s.tables id auth_key
          else create_temp_key s.tables id auth_key (now + d.expires_in)) in
      elim stored [
        | none ↦ (send_unencrypted (dh_gen_fail inner.nonce d.server_nonce) >> refuse) s
        | some tables ↦
            send_unencrypted (dh_gen_ok inner.nonce d.server_nonce) (record s { tables = tables })
      ]

  unfoldable pub settle : ℕ → GenAuthData → ClientInner → ℕ → Action State Done
  unfolding store_key
  settle now d inner secret =
      let auth_key = crypto.to_bytes (crypto.powmod inner.g_b secret dh_prime) in
      do
        set_gen (record d { auth_key = some auth_key; auth_key_id = some (key_id_of auth_key) })
        store_key now auth_key d inner

  -- Without the secret of the step before, its power is a `TypeError`.
  unfoldable pub finish : ℕ → SetClientDhParams → GenAuthData → Bytes × Bytes → Action State Done
  unfolding open_client settle
  finish now r d aes = do
    require (same_bytes d.server_nonce r.server_nonce)
    inner ← open_client d r.encrypted_data aes
    secret ← or_other d.a
    settle now d inner secret

  unfoldable pub set_client_dh_params : ℕ → SetClientDhParams → Action State Done
  unfolding finish
  set_client_dh_params now r =
      with_gen (λ d. elim d.tmp_aes_key [ none ↦ refuse | some aes ↦ finish now r d aes ])
