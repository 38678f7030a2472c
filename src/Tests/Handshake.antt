-- ===== src/Tests/Handshake.antt =====
-- Concrete inputs for the theorems on piltover/gateway/_keygen_handlers.py.
use piltover.Base.{
  [], false, if◌then◌else◌, length, none, refl, replicate, some, ◌%◌, ◌-◌, ◌==◌, ◌^◌, ◌∷◌, ◌≡◌,
}
use piltover.Gateway.Action.{done}
use piltover.AuthKeys.{create_key}
use piltover.Handshake.{
  ClientInner, Crypto, InnerData, ReqDhParams, SetClientDhParams, State, params_fit, open_inner,
  offer, read_decrypted, open_client, settle, store_key, finish, req_pq, req_dh_params,
  set_client_dh_params,
}
use piltover.Handshake.Exchange.{Reachable, asked, next, proposed, start}
use piltover.Handshake.Refusals.{Answers, set_client_dh_params-Answers}

abbrev inner : InnerData
inner = record {
  temp = false;
  nonce = 1 ∷ [];
  server_nonce = 2 ∷ [];
  new_nonce = 3 ∷ [];
  expires_in = 0;
}

abbrev client_inner : ClientInner
client_inner = record { nonce = 1 ∷ []; server_nonce = 2 ∷ []; g_b = 3 }

-- Stand-ins for the packages: digests are zeros, and powers are what they need to be.
abbrev crypto : Crypto
crypto = record {
  rsa_decrypt = λ bytes. bytes;
  rsa_pad_inverse = λ bytes. some bytes;
  sha1 = λ bytes. replicate 20 0;
  read_inner = λ bytes. some (some inner);
  write_inner = λ inner. [];
  ige_encrypt = λ bytes aes. bytes;
  ige_decrypt = λ bytes aes. if length bytes % 16 == 0 then some bytes else none;
  read_client = λ bytes. some client_inner;
  write_client = λ inner. [];
  powmod = λ b e m. 2 ^ 2000;
  to_bytes = λ n. n % 256 ∷ [];
  dh_prime = 2 ^ 2048 - 1;
  g = 2;
  answer = λ inner g_a. 5 ∷ [];
}

abbrev empty : State
empty = record { gen_auth_data = none; tables = record { keys = []; temp_keys = [] }; sent = [] }

-- The first two messages of the exchange, for the primes 3 and 5.
abbrev proposal : ReqDhParams
proposal = record {
  p = 0 ∷ 0 ∷ 0 ∷ 3 ∷ [];
  q = 0 ∷ 0 ∷ 0 ∷ 5 ∷ [];
  server_nonce = 2 ∷ [];
  encrypted_data = replicate 256 1;
}

abbrev first : State
first = (req_pq 3 5 (2 ∷ []) (1 ∷ []) empty).1

abbrev second : State
second = (req_dh_params crypto 7 [] proposal first).1

second-Reachable : Reachable crypto second
second-Reachable =
    next (next (start empty refl) (asked 3 5 (2 ∷ []) (1 ∷ []) empty))
      (proposed 7 [] proposal first)

abbrev reply : SetClientDhParams
reply = record { server_nonce = 2 ∷ []; encrypted_data = replicate 32 0 }

-- The exchange comes to its end.
set_client_dh_params_test : (set_client_dh_params crypto 1000 reply second).0 ≡ done tt
unfolding set_client_dh_params finish open_client read_decrypted settle store_key create_key req_pq
    req_dh_params params_fit open_inner offer
set_client_dh_params_test = refl

set_client_dh_params-Answers_example :
    Answers second.sent (set_client_dh_params crypto 1000 reply second)
set_client_dh_params-Answers_example =
    set_client_dh_params-Answers crypto second 1000 reply second-Reachable
      (λ d aes e f. (reply.encrypted_data, client_inner, refl, refl))
