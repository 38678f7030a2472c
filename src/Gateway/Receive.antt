-- ===== src/Gateway/Receive.antt =====
-- client.py: an encrypted packet is decrypted, checked, and its requests are handled.
pub mod Keeps
use piltover.Base.{
  Bool, List, Option, [], false, if◌then◌else◌, member, none, not, some, take, true, ℕ, ◌&&◌, ◌==◌,
  ◌∷◌,
}
use piltover.Tl.Codec.{Bytes}
use piltover.Tl.Vector.{same_bytes}
use piltover.Tl.LittleEndian.{to_le}
use piltover.Session.{AuthData}
use piltover.Session.MsgId.{seconds}
use piltover.Session.Salts.{update_salts_maybe}
use piltover.Session.Checks.{Notices, Packet, is_message_bad}
use piltover.AuthKeys.{get_auth_data}
use piltover.Gateway.{LruOps, World}
use piltover.Gateway.Action.{
  Action, Done, done, raised, disconnection, other, pure, raise, modify, gets, ◌>>=◌, ◌>>◌,
}
use piltover.Gateway.Requests.{
  Env, Query, worker, rpc_error, rpc_result, input_method_invalid, new_session_created,
}
use piltover.Gateway.Sessions.{get_cached_session, get_session}
use piltover.Gateway.Gate.{
  AuthGateResult, ok, drop, unregistered, on_session, enqueue, auth_gate,
  respond_auth_key_unregistered,
}
use piltover.Gateway.Handlers.{with_session}
use piltover.Gateway.Worker.{Lookup, fetch_layer}
use piltover.Gateway.Process.{handle_encrypted_message}

-- `EncryptedMessagePacket` of the `mtproto` package; `encrypted` is what the key opens.
pub record Encrypted : Type 0 where
  pub auth_key_id : ℕ
  pub needs_quick_ack : Bool
  pub encrypted : Bytes

-- `TLObject.read`: an object that cannot be read, by the constructor that is blamed or 0, one
-- request, or a container of requests with their ids.
pub data Parsed : Type 0 where
  invalid : ℕ → Parsed
  single : Query → Parsed
  container : List (ℕ × Query) → Parsed

-- The caches of the connection and of the server; decryption, which gives the id of the session and
-- the packet inside or is a `ValueError`; the generated classes; and whether the connection takes a
-- quick acknowledgement.
pub record Intake (C D : Type 0) : Type 0 where
  pub sessions : LruOps (ℕ × ℕ) ℕ C
  pub keys : LruOps ℕ Bytes D
  pub unknown : LruOps ℕ Bytes D
  pub decrypt : Bytes → Bytes → Option (ℕ × Packet)
  pub parse : Bytes → Parsed
  pub notices : Notices
  pub long : Bytes → Bytes
  pub writable : Bool

abbrev not_found : {S A : Type 0} → Action S A
not_found = raise (disconnection (some 404))

abbrev bind_of : Parsed → Option ℕ
bind_of (single (worker call)) = call.bind
bind_of _ = none

abbrev requests : ℕ → Parsed → List (ℕ × Query)
requests message_id (invalid _) = []
requests message_id (single query) = (message_id, query) ∷ []
requests message_id (container messages) = messages

-- `Int.write(BindTempAuthKey.tlid(), False)`
abbrev bind_temp_auth_key : Bytes
bind_temp_auth_key = to_le 4 0xcdd42a05

module _ {C D : Type 0} (env : Env) (db : Lookup) (intake : Intake C D) where
  -- `_get_auth_data`
  unfoldable pub find_auth_data : ℕ → Action (World C D) AuthData
  unfolding get_auth_data
  find_auth_data id w = elim (intake.unknown.find id w.unknown_auth_key_ids) [
    | some _ ↦ not_found w
    | none ↦ elim (get_auth_data w.tables (seconds env.time) id true) [
      | some auth_data ↦ (done auth_data, w)
      | none ↦
          not_found (record w {
            unknown_auth_key_ids = (intake.unknown.set id [] w.unknown_auth_key_ids).1;
          })
    ]
  ]

  abbrev keep_key : ℕ → Bytes → World C D → World C D
  keep_key id key w = record w {
    client = record w.client { active_keys = (intake.keys.set id key w.client.active_keys).1 };
  }

  abbrev fresh_key : ℕ → AuthData → Action (World C D) (Bytes × Option AuthData)
  fresh_key id auth_data w = elim auth_data.auth_key [
    | none ↦ (raised other, w)
    | some key ↦ (done (key, some auth_data), keep_key id key w)
  ]

  -- The key, and its data if they had to be read.
  unfoldable pub find_key : ℕ → Action (World C D) (Bytes × Option AuthData)
  unfolding find_auth_data
  find_key id w = elim (intake.keys.find id w.client.active_keys) [
    | some key ↦ (
      done (key, none),
      record w {
        client = record w.client { active_keys = intake.keys.touch id w.client.active_keys };
      },
    )
    | none ↦ (find_auth_data id >>= fresh_key id) w
  ]

  abbrev or_find : ℕ → Option AuthData → Action (World C D) AuthData
  or_find id none = find_auth_data id
  or_find id (some auth_data) = pure auth_data

  unfoldable open_session : ℕ → ℕ → AuthData → Action (World C D) ℕ
  unfolding get_session update_salts_maybe
  open_session id session_id auth_data w =
      let ((ref, _), w') = get_session intake.sessions intake.keys w id session_id auth_data in
      (
        done ref,
        on_session ref (λ s. update_salts_maybe env.make_salt s env.salt_key false env.time) w',
      )

  -- The session of the packet, from the cache or from the manager.
  unfoldable pub find_session : ℕ → ℕ → Option AuthData → Action (World C D) ℕ
  unfolding get_cached_session open_session
  find_session id session_id known w =
      let (cached, c) = get_cached_session intake.sessions intake.keys w.client id session_id in
      elim cached [
        | some ref ↦ (done ref, record w { client = c })
        | none ↦ (or_find id known >>= open_session id session_id) (record w { client = c })
      ]

  unfoldable quick_ack : Bool → Action (World C D) Done
  quick_ack needed w =
      (if needed && not intake.writable then raised (disconnection none) else done tt, w)

  -- `is_message_bad`; a packet that is shorter than a constructor id is a `struct.error`.
  unfoldable pub check : ℕ → Packet → Action (World C D) Bool
  unfolding is_message_bad
  check ref packet = with_session ref (λ s w.
      let check_salt = not (same_bytes (take 4 packet.body) bind_temp_auth_key) in
      elim (is_message_bad intake.notices s env.time env.stored packet check_salt) [
        | none ↦ (raised other, w)
        | some (bad, s') ↦ (done bad, on_session ref (λ _. s') w)
      ])

  -- The first message of a session.
  unfoldable pub greet : ℕ → ℕ → Action (World C D) Done
  unfolding enqueue fetch_layer
  greet ref message_id = with_session ref (λ s w.
      if s.min_msg_id == 0
      then (
        done tt,
        enqueue env ref (new_session_created message_id s.session_id (intake.long s.salt_now.salt))
            false
            (fetch_layer env ref (on_session ref (λ s'. record s' { min_msg_id = message_id }) w)),
      )
      else (done tt, w))

  unfoldable admitted : ℕ → ℕ → ℕ → List (ℕ × Query) → AuthGateResult → Action (World C D) Done
  unfolding handle_encrypted_message respond_auth_key_unregistered
  admitted id ref message_id messages drop = pure tt
  admitted id ref message_id messages unregistered = do
    modify (respond_auth_key_unregistered intake.sessions intake.keys env message_id ref id)
    not_found
  admitted id ref message_id messages ok =
      handle_encrypted_message intake.sessions intake.keys env db ref messages

  -- An object that cannot be read is answered, without being a reply.
  unfoldable pub accept : ℕ → ℕ → ℕ → Parsed → Action (World C D) Done
  unfolding greet admitted auth_gate enqueue
  accept id ref message_id (invalid constructor) = modify (
      enqueue env ref (rpc_result message_id (rpc_error 400 (input_method_invalid constructor)))
        false)
  accept id ref message_id parsed = do
    greet ref message_id
    verdict ← gets (λ w. auth_gate w (seconds env.time) id (bind_of parsed))
    admitted id ref message_id (requests message_id parsed) verdict

  unfoldable checked : ℕ → ℕ → Packet → Action (World C D) Done
  unfolding check accept
  checked id ref packet = do
    bad ← check ref packet
    elim bad [ true ↦ pure tt | false ↦ accept id ref packet.message_id (intake.parse packet.body) ]

  abbrev opened : Bytes → Bytes → Action (World C D) (ℕ × Packet)
  opened key encrypted w = elim (intake.decrypt key encrypted) [
    | none ↦ not_found w
    | some inner ↦ (done inner, w)
  ]

  unfoldable received : Encrypted → Action (World C D) Done
  unfolding find_key find_session quick_ack checked
  received p = do
    (key, auth_data) ← find_key p.auth_key_id
    (session_id, packet) ← opened key p.encrypted
    ref ← find_session p.auth_key_id session_id auth_data
    quick_ack p.needs_quick_ack
    checked p.auth_key_id ref packet

  -- `_recv_packet` of an encrypted packet
  unfoldable pub recv_packet : Encrypted → Action (World C D) Done
  unfolding received
  recv_packet p w =
      if member p.auth_key_id w.client.rejected_auth_keys then (done tt, w) else received p w
