-- ===== src/Server/Login/Laws.antt =====
-- Who is let in, and which session a remote call is about.
use zn_tunnel.Prelude.{
  ℕ, zero, suc, ◌+◌, ◌^◌, ◌<◌, ◌≡◌, refl, true, false, ◌&&◌, List, [], ◌∷◌, ◌++◌, some, none, arith,
  length, get_elem?, set, get_elem?-middle, set-middle, get_elem?-set_self, get_elem?-some-lt,
  get_elem?-behind, get_elem?-length, subst, ◌∙◌, All, u16, ◌==◌, if◌then◌else◌, Bool-cases,
  Option-cases, inl, inr,
}
use zn_tunnel.Containers.Order.{Eq, same_refl}
use zn_tunnel.Transmission.Constant.{RpcErrorType, idle, success, not_connected}
use zn_tunnel.Transmission.Cryptor.{Cipher}
use zn_tunnel.Transmission.Session.{Session, is_idle, status_connected, update_transmit, reset}
use zn_tunnel.Server.Login.{
  user_name, user_password, same_string, idle_slot, reset_slot, rpc_connect_handler, is_session_of,
  rpc_ping_handler, rpc_disconnect_handler, remove_session,
}
use zn_tunnel.Server.State.{TunnelServer}

module _ {State Endpoint : Type 0} where
  abbrev pub IsBusy : Session State Endpoint → Type 0
  IsBusy s = is_idle s ≡ false

  idle_slot_busy :
      (sessions : List (Session State Endpoint)) (i id : ℕ)
      → All IsBusy sessions
      → idle_slot sessions i id ≡ id
  unfolding idle_slot
  idle_slot_busy [] i id h = refl
  idle_slot_busy (s ∷ rest) i id h = ground (arith, h.0, idle_slot_busy rest (i + 1) id h.1)

  idle_slot_last :
      (front : List (Session State Endpoint)) (s : Session State Endpoint)
      (back : List (Session State Endpoint)) (i id : ℕ)
      → is_idle s ≡ true
      → All IsBusy back
      → i + length front < 2 ^ 16
      → idle_slot (front ++ s ∷ back) i id ≡ i + length front
  unfolding idle_slot
  idle_slot_last [] s back i id free busy small =
      ground (arith, free, idle_slot_busy back (i + 1) (u16 i) busy)
  idle_slot_last (t ∷ front) s back i id free busy small =
      ground
        (arith, idle_slot_last front s back (i + 1) (if is_idle t then u16 i else id) free busy)

  reset_slot-middle :
      (cipher : Cipher State) (front : List (Session State Endpoint)) (s : Session State Endpoint)
      (back : List (Session State Endpoint)) (from : Endpoint) (now : ℕ) (key iv : List ℕ)
      → length front < 2 ^ 15
      → reset_slot cipher (front ++ s ∷ back) (length front) from now key iv
        ≡ some ((success, key, iv), front ++ reset cipher s (length front) from now key iv ∷ back)
  unfolding reset_slot
  reset_slot-middle cipher front s back from now key iv small = ground (
    arith,
    get_elem?-middle front s back,
    set-middle front s (reset cipher s (length front) from now key iv) back,
  )

  -- With the right name and password, and fewer than 2 ^ 15 sessions before it, the last idle
  -- session becomes the client's, under the number that it stands at, and no other is touched.
  pub connect_reuses :
      (cipher : Cipher State) (front : List (Session State Endpoint)) (s : Session State Endpoint)
      (back : List (Session State Endpoint)) (from : Endpoint) (now : ℕ) (key iv : List ℕ)
      (blank : Session State Endpoint)
      → is_idle s ≡ true
      → All IsBusy back
      → length front < 2 ^ 15
      → rpc_connect_handler cipher (front ++ s ∷ back) from user_name user_password now key iv blank
        ≡ some ((success, key, iv), front ++ reset cipher s (length front) from now key iv ∷ back)
  unfolding rpc_connect_handler same_string
  connect_reuses cipher front s back from now key iv blank free busy small = ground (
    arith,
    idle_slot_last front s back 0 0xffff free busy,
    reset_slot-middle cipher front s back from now key iv small,
  )

  -- With the right name and password, no idle session and fewer than 2 ^ 15 of them, one is added
  -- behind them, whatever `maxSessions` says.
  pub connect_adds :
      (cipher : Cipher State) (sessions : List (Session State Endpoint)) (from : Endpoint) (now : ℕ)
      (key iv : List ℕ) (blank : Session State Endpoint)
      → All IsBusy sessions
      → length sessions < 2 ^ 15
      → rpc_connect_handler cipher sessions from user_name user_password now key iv blank
        ≡ some (
          (success, key, iv),
          sessions ++ reset cipher blank (length sessions) from now key iv ∷ [],
        )
  unfolding rpc_connect_handler same_string
  connect_adds cipher sessions from now key iv blank busy small = ground (
    arith,
    idle_slot_busy sessions 0 0xffff busy,
    reset_slot-middle cipher sessions blank [] from now key iv small,
  )

module _ {State Endpoint : Type 0} ⦃e : Eq Endpoint⦄ where
  abbrev pub IsForeign : Endpoint → Session State Endpoint → Type 0
  IsForeign from s = is_session_of from s ≡ false

  -- A ping is about the first connected session of its sender: the session's time is that of the
  -- ping, and nothing else changes.
  pub ping_first :
      (front : List (Session State Endpoint)) (s : Session State Endpoint)
      (back : List (Session State Endpoint)) (from : Endpoint) (now : ℕ)
      → All (IsForeign from) front
      → is_session_of from s ≡ true
      → s.transmitted_bytes < 2 ^ 64
      → rpc_ping_handler (front ++ s ∷ back) from now
        ≡ (success, front ++ record s { last_active_at = now } ∷ back)
  unfolding rpc_ping_handler update_transmit
  ping_first [] s back from now foreign own small = ground (arith, own)
  ping_first (t ∷ front) s back from now foreign own small =
      ground (arith, foreign.0, ping_first front s back from now foreign.1 own small)

  -- A disconnect makes the first connected session of its sender idle, and changes nothing else.
  pub disconnect_first :
      (front : List (Session State Endpoint)) (s : Session State Endpoint)
      (back : List (Session State Endpoint)) (from : Endpoint)
      → All (IsForeign from) front
      → is_session_of from s ≡ true
      → rpc_disconnect_handler (front ++ s ∷ back) from
        ≡ (success, front ++ record s { status = idle } ∷ back)
  unfolding rpc_disconnect_handler
  disconnect_first [] s back from foreign own = ground (arith, own)
  disconnect_first (t ∷ front) s back from foreign own =
      ground (arith, foreign.0, disconnect_first front s back from foreign.1 own)

  -- Without a connected session, a ping and a disconnect are answered with `NOT_CONNECTED`, and
  -- change nothing.
  pub not_connected_unchanged :
      (sessions : List (Session State Endpoint)) (from : Endpoint) (now : ℕ)
      → All (IsForeign from) sessions
      → (rpc_ping_handler sessions from now ≡ (not_connected, sessions))
        × (rpc_disconnect_handler sessions from ≡ (not_connected, sessions))
  unfolding rpc_ping_handler rpc_disconnect_handler
  not_connected_unchanged [] from now foreign = (refl, refl)
  not_connected_unchanged (s ∷ rest) from now foreign =
      ground (arith, foreign.0, not_connected_unchanged rest from now foreign.1)

  ping_success :
      (sessions : List (Session State Endpoint)) (i : ℕ) (s : Session State Endpoint)
      (from : Endpoint) (now : ℕ)
      → get_elem? sessions i ≡ some s
      → is_session_of from s ≡ true
      → (rpc_ping_handler sessions from now).0 ≡ success
  unfolding rpc_ping_handler
  ping_success [] i s from now h own = ground (arith, h)
  ping_success (t ∷ rest) zero s from now h own = ground (arith, h, own)
  ping_success (t ∷ rest) (suc i) s from now h own =
      ground (arith, ping_success rest i s from now h own)

  reset_slot-success :
      (cipher : Cipher State) (sessions : List (Session State Endpoint)) (id : ℕ) (from : Endpoint)
      (now later : ℕ) (key iv : List ℕ) {answer : RpcErrorType × List ℕ × List ℕ}
      {after : List (Session State Endpoint)}
      → reset_slot cipher sessions id from now key iv ≡ some (answer, after)
      → (rpc_ping_handler after from later).0 ≡ success
  unfolding reset_slot reset
  reset_slot-success cipher sessions id from now later key iv {answer} {after} h =
      elim (Option-cases (get_elem? sessions id)) [
        | inl gone ↦ absurd (ground (arith, gone))
        | inr (s, held) ↦
            let new = reset cipher s id from now key iv in
            let there : set sessions id new ≡ after = ground (arith, held) in
            subst
              (λ (l : List (Session State Endpoint)). (rpc_ping_handler l from later).0 ≡ success)
              there
              (ping_success (set sessions id new) id new from later
                (get_elem?-set_self sessions id new (get_elem?-some-lt sessions id held))
                (unfold is_session_of status_connected in ground (arith, same_refl from)))
      ]

  -- A client that is let in is connected: a ping of its that comes next is answered with `SUCCESS`.
  pub ping-connect :
      (cipher : Cipher State) (sessions : List (Session State Endpoint)) (from : Endpoint)
      (name password : List ℕ) (now later : ℕ) (key iv : List ℕ) (blank : Session State Endpoint)
      {answer : RpcErrorType × List ℕ × List ℕ} {after : List (Session State Endpoint)}
      → rpc_connect_handler cipher sessions from name password now key iv blank
        ≡ some (answer, after)
      → answer.0 ≡ success
      → (rpc_ping_handler after from later).0 ≡ success
  unfolding rpc_connect_handler
  ping-connect cipher sessions from name password now later key iv blank {answer} {after} h ok =
      elim (Bool-cases (same_string name user_name && same_string password user_password)) [
        | inr wrong ↦ absurd (ground (arith, wrong))
        | inl right ↦ elim (Bool-cases (idle_slot sessions 0 0xffff == 0xffff)) [
          | inl full ↦
              reset_slot-success cipher (sessions ++ blank ∷ []) (u16 (length sessions)) from now
                later key iv {answer = answer} (ground (arith, right, full, h))
          | inr free ↦
              reset_slot-success cipher sessions (idle_slot sessions 0 0xffff) from now later key iv
                {answer = answer} (ground (arith, right, free, h))
        ]
      ]

  -- A client with two connected sessions, as one that connects again has, is still connected
  -- after a disconnect.
  pub disconnect_leaves_second :
      (front : List (Session State Endpoint)) (s : Session State Endpoint)
      (back : List (Session State Endpoint)) (i : ℕ) (t : Session State Endpoint) (from : Endpoint)
      (later : ℕ)
      → All (IsForeign from) front
      → is_session_of from s ≡ true
      → get_elem? back i ≡ some t
      → is_session_of from t ≡ true
      → (rpc_ping_handler (rpc_disconnect_handler (front ++ s ∷ back) from).1 from later).0
        ≡ success
  disconnect_leaves_second front s back i t from later foreign own second again =
      rw (disconnect_first front s back from foreign own) (
        ping_success (front ++ record s { status = idle } ∷ back) (length front + suc i) t from
          later (get_elem?-behind front (record s { status = idle }) back i ∙ second) again)

module _ {State Endpoint Callback : Type 0} where
  -- `_removeSession` of a number that is not one of a session: one past the last is let through its
  -- test, and reads beyond the sessions; any greater one changes nothing.
  pub remove_session_beyond :
      (server : TunnelServer State Endpoint Callback) (d : ℕ)
      → (remove_session server (length server.sessions) ≡ none)
        × (remove_session server (length server.sessions + 1 + d) ≡ some server)
  unfolding remove_session
  remove_session_beyond server d = (ground (arith, get_elem?-length server.sessions), ground arith)
