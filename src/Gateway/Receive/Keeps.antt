-- ===== src/Gateway/Receive/Keeps.antt =====
-- client.py: no packet, good or bad, upsets the record of completed calls of a session.
use piltover.Base.{
  Bool, List, Option, Option-cases, [], false, if_intro, inl, inr, member, none, not, refl, some,
  take, true, ℕ, ◌==◌, ◌∷◌, ◌≡◌,
}
use piltover.Tl.Codec.{Bytes}
use piltover.Tl.Vector.{same_bytes}
use piltover.Session.{AuthData, Session}
use piltover.Session.Checks.{Packet, is_message_bad, is_message_bad-rpc}
use piltover.Session.Salts.{update_salts_maybe}
use piltover.Session.MsgId.{seconds}
use piltover.AuthKeys.{get_auth_data}
use piltover.Gateway.{World}
use piltover.Gateway.Action.{Action, Result, Done, pure, gets, ◌>>=◌, ◌>>◌}
use piltover.Gateway.Action.Keeps.{Keeps, bind-Keeps, then-Keeps, test-Keeps}
use piltover.Gateway.Requests.{
  Env, Query, input_method_invalid, new_session_created, rpc_error, rpc_result,
}
use piltover.Gateway.Sessions.{get_cached_session}
use piltover.Gateway.Gate.{AuthGateResult, ok, drop, unregistered, auth_gate}
use piltover.Gateway.Worker.{Lookup, refresh}
use piltover.Gateway.Process.{propagate, propagate_all, handle_encrypted_message}
use piltover.Gateway.Process.Completes.{propagate-Keeps, respond-Tracks}
use piltover.Gateway.Steps.{refresh-Keeps, fetch_layer-Tracks}
use piltover.Gateway.Tracks.{
  TracksWorld, on_session-Tracks, with_session-Keeps, same-Tracks, enqueue-Tracks,
  get_session-Tracks,
}
use piltover.Gateway.Receive.{
  Intake, Encrypted, Parsed, invalid, single, container, find_auth_data, fresh_key, find_key,
  or_find, open_session, find_session, quick_ack, check, greet, admitted, accept, checked, opened,
  received, recv_packet, bind_of, bind_temp_auth_key,
}

module _ {C D : Type 0} (env : Env) (db : Lookup) (intake : Intake C D) (ref : ℕ) where
  abbrev P : World C D → Type 0
  P = TracksWorld ref

  abbrev Kept : {A : Type 0} → Action (World C D) A → Type 0
  Kept = Keeps P

  propagate_all-Keeps :
      (j : ℕ) (messages : List (ℕ × Query))
      → Kept (propagate_all intake.sessions intake.keys env db j messages)
  unfolding propagate_all
  propagate_all-Keeps j [] = λ w t. t
  propagate_all-Keeps j ((m, q) ∷ messages) =
      then-Keeps P (propagate intake.sessions intake.keys env db m j q)
        (propagate_all intake.sessions intake.keys env db j messages)
        (propagate-Keeps intake.sessions intake.keys ref env db m j q)
        (propagate_all-Keeps j messages)

  handle-Keeps :
      (j : ℕ) (messages : List (ℕ × Query))
      → Kept (handle_encrypted_message intake.sessions intake.keys env db j messages)
  unfolding handle_encrypted_message
  handle-Keeps j messages =
      then-Keeps P (refresh env db false j)
        (propagate_all intake.sessions intake.keys env db j messages)
        (refresh-Keeps ref env db false j) (propagate_all-Keeps j messages)

  find_auth_data-Keeps : (id : ℕ) → Kept (find_auth_data env db intake id)
  unfolding find_auth_data
  find_auth_data-Keeps id w t =
      elim (Option-cases (intake.unknown.find id w.unknown_auth_key_ids)) [
        | inr (b, e) ↦ rw (e, find_auth_data) t
        | inl e ↦ elim (Option-cases (get_auth_data w.tables (seconds env.time) id true)) [
          | inr (a, f) ↦ rw (e, find_auth_data, f) t
          | inl f ↦ rw (e, find_auth_data, f) t
        ]
      ]

  fresh_key-Keeps : (id : ℕ) (a : AuthData) → Kept (fresh_key env db intake id a)
  fresh_key-Keeps id a w t = elim (Option-cases a.auth_key) [
    | inl e ↦ rw e t
    | inr (key, e) ↦ rw e t
  ]

  find_key-Keeps : (id : ℕ) → Kept (find_key env db intake id)
  unfolding find_key
  find_key-Keeps id w t = elim (Option-cases (intake.keys.find id w.client.active_keys)) [
    | inr (key, e) ↦ rw (e, find_key) t
    | inl e ↦
        rw (e, find_key)
          (bind-Keeps P (find_auth_data env db intake id) (fresh_key env db intake id)
            (find_auth_data-Keeps id) (fresh_key-Keeps id) w t)
  ]

  or_find-Keeps : (id : ℕ) (o : Option AuthData) → Kept (or_find env db intake id o)
  or_find-Keeps id none = find_auth_data-Keeps id
  or_find-Keeps id (some a) = λ w t. t

  update_salts_maybe-rpc :
      (s : Session) (force : Bool) (time : ℕ)
      → (update_salts_maybe env.make_salt s env.salt_key force time).rpc ≡ s.rpc
  unfolding update_salts_maybe
  update_salts_maybe-rpc s force time = refl

  open_session-Keeps :
      (id session_id : ℕ) (a : AuthData) → Kept (open_session env db intake id session_id a)
  unfolding open_session
  open_session-Keeps id session_id a w t =
      same-Tracks ref _ (λ s. update_salts_maybe env.make_salt s env.salt_key false env.time) _
        (λ s. update_salts_maybe-rpc s false env.time)
        (get_session-Tracks intake.sessions intake.keys ref w id session_id a t)

  find_session-Keeps :
      (id session_id : ℕ) (o : Option AuthData) → Kept (find_session env db intake id session_id o)
  unfolding find_session get_cached_session
  find_session-Keeps id session_id o w t =
      elim (Option-cases (intake.sessions.find (id, session_id) w.client.active_sessions)) [
        | inr (j, e) ↦ rw (e, find_session) t
        | inl e ↦
            rw (e, find_session)
              (bind-Keeps P (or_find env db intake id o) (open_session env db intake id session_id)
                (or_find-Keeps id o) (open_session-Keeps id session_id) _ t)
      ]

  check-Keeps : (j : ℕ) (packet : Packet) → Kept (check env db intake j packet)
  unfolding check
  check-Keeps j p = with_session-Keeps ref j _ (λ s w e t.
      let salt = not (same_bytes (take 4 p.body) bind_temp_auth_key) in
      elim (Option-cases (is_message_bad intake.notices s env.time env.stored p salt)) [
        | inl short ↦ rw short t
        | inr ((bad, s'), f) ↦ rw f (
            on_session-Tracks ref j (λ _. s') w
              (λ s₁ e₁ t₁.
                let eq : s₁ ≡ s = cc in
                let same =
                  is_message_bad-rpc intake.notices s s' env.time env.stored p salt bad f in
                rw (same, ← eq) t₁)
              t)
      ])

  greet-Keeps : (j m : ℕ) → Kept (greet env db intake j m)
  unfolding greet
  greet-Keeps j m = with_session-Keeps ref j _ (λ s w e t.
      if_intro (λ (r : Result Done × World C D). P r.1) (s.min_msg_id == 0)
        (enqueue-Tracks ref env j (new_session_created m s.session_id (intake.long s.salt_now.salt))
          false _
          (fetch_layer-Tracks ref env j _
            (same-Tracks ref j (λ s'. record s' { min_msg_id = m }) w (λ _. refl) t)))
        t)

  admitted-Keeps :
      (id j m : ℕ) (messages : List (ℕ × Query)) (r : AuthGateResult)
      → Kept (admitted env db intake id j m messages r)
  unfolding admitted
  admitted-Keeps id j m messages drop = λ w t. t
  admitted-Keeps id j m messages unregistered =
      λ w t. respond-Tracks intake.sessions intake.keys ref env m j id w t
  admitted-Keeps id j m messages ok = handle-Keeps j messages

  good-Keeps :
      (id j m : ℕ) (bind : Option ℕ) (messages : List (ℕ × Query))
      → Kept (
          greet env db intake j m
          >> (gets (λ w. auth_gate w (seconds env.time) id bind) >>= λ verdict.
              admitted env db intake id j m messages verdict))
  good-Keeps id j m bind messages =
      then-Keeps P (greet env db intake j m)
        (gets (λ w. auth_gate w (seconds env.time) id bind) >>= λ verdict.
          admitted env db intake id j m messages verdict)
        (greet-Keeps j m)
        (λ w t. admitted-Keeps id j m messages (auth_gate w (seconds env.time) id bind) w t)

  accept-Keeps : (id j m : ℕ) (parsed : Parsed) → Kept (accept env db intake id j m parsed)
  unfolding accept
  accept-Keeps id j m (invalid c) = λ w t.
      enqueue-Tracks ref env j (rpc_result m (rpc_error 400 (input_method_invalid c))) false w t
  accept-Keeps id j m (single q) = good-Keeps id j m (bind_of (single q)) ((m, q) ∷ [])
  accept-Keeps id j m (container messages) = good-Keeps id j m none messages

  checked-Keeps : (id j : ℕ) (packet : Packet) → Kept (checked env db intake id j packet)
  unfolding checked
  checked-Keeps id j p =
      bind-Keeps P (check env db intake j p)
        (λ bad. elim bad [
          | true ↦ pure tt
          | false ↦ accept env db intake id j p.message_id (intake.parse p.body)
        ])
        (check-Keeps j p)
        (test-Keeps P (pure tt) (accept env db intake id j p.message_id (intake.parse p.body))
          (λ w t. t) (accept-Keeps id j p.message_id (intake.parse p.body)))

  opened-Keeps : (key encrypted : Bytes) → Kept (opened env db intake key encrypted)
  opened-Keeps key encrypted w t = elim (Option-cases (intake.decrypt key encrypted)) [
    | inl e ↦ rw (e, opened) t
    | inr (inner, e) ↦ rw (e, opened) t
  ]

  answered-Keeps :
      (p : Encrypted) (packet : Packet) (j : ℕ)
      → Kept (
          quick_ack env db intake p.needs_quick_ack >> checked env db intake p.auth_key_id j packet)
  unfolding quick_ack
  answered-Keeps p packet j =
      then-Keeps P (quick_ack env db intake p.needs_quick_ack)
        (checked env db intake p.auth_key_id j packet) (λ w t. t)
        (checked-Keeps p.auth_key_id j packet)

  inner-Keeps :
      (p : Encrypted) (a : Option AuthData) (session_id : ℕ) (packet : Packet)
      → Kept (
          find_session env db intake p.auth_key_id session_id a >>= λ j.
          quick_ack env db intake p.needs_quick_ack >> checked env db intake p.auth_key_id j packet)
  inner-Keeps p a session_id packet =
      bind-Keeps P (find_session env db intake p.auth_key_id session_id a)
        (λ j.
          quick_ack env db intake p.needs_quick_ack >> checked env db intake p.auth_key_id j packet)
        (find_session-Keeps p.auth_key_id session_id a) (answered-Keeps p packet)

  received-Keeps : (p : Encrypted) → Kept (received env db intake p)
  unfolding received
  received-Keeps p =
      bind-Keeps P (find_key env db intake p.auth_key_id)
        (λ found. opened env db intake found.0 p.encrypted >>= λ inner.
          find_session env db intake p.auth_key_id inner.0 found.1 >>= λ j.
          quick_ack env db intake p.needs_quick_ack
          >> checked env db intake p.auth_key_id j inner.1)
        (find_key-Keeps p.auth_key_id)
        (λ found.
          bind-Keeps P (opened env db intake found.0 p.encrypted)
            (λ inner. find_session env db intake p.auth_key_id inner.0 found.1 >>= λ j.
              quick_ack env db intake p.needs_quick_ack
              >> checked env db intake p.auth_key_id j inner.1)
            (opened-Keeps found.0 p.encrypted) (λ inner. inner-Keeps p found.1 inner.0 inner.1))

  -- Whatever an encrypted packet holds and however its handling ends, a session that the heap holds,
  -- with its record of completed calls in order, is still there afterwards, with its record in order.
  pub recv_packet-Tracks :
      (p : Encrypted) (w : World C D)
      → TracksWorld ref w
      → TracksWorld ref (recv_packet env db intake p w).1
  unfolding recv_packet
  recv_packet-Tracks p w t =
      if_intro (λ (r : Result Done × World C D). P r.1)
        (member p.auth_key_id w.client.rejected_auth_keys) t (received-Keeps p w t)
