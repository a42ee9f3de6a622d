-- ===== src/Server/Runs/Authority.antt =====
-- Whose packets server/TunnelServer.cc forwards, and to whom.
use zn_tunnel.Prelude.{
  Bool, ℕ, ◌+◌, ◌<◌, ◌≡◌, ◌≢◌, ◌⊎◌, refl, sym, ap, ap₂, ◌∙◌, inl, inr, true, List, [], ◌∷◌, ◌++◌,
  some, arith, subst, Bool-cases, Option-cases, get_elem?, sub32, set, replicate, zero, suc,
}
use zn_tunnel.Memory.{Memory, load16}
use zn_tunnel.Buffer.{Buffer}
use zn_tunnel.Pool.{Pool}
use zn_tunnel.Containers.Order.{Eq}
use zn_tunnel.Protocol.Ip4.{Ip4}
use zn_tunnel.Transmission.Constant.{SessionStatus, idle, connected, disconnected, error}
use zn_tunnel.Transmission.Cryptor.{Cipher}
use zn_tunnel.Transmission.Rpc.State.{Rpc, Answer}
use zn_tunnel.Transmission.Session.{Session, is_connected, status_connected}
use zn_tunnel.Server.State.{TunnelServer, TunnelServerConfig, new_server, sends_to}
use zn_tunnel.Server.Login.{same_string, user_name, user_password}
use zn_tunnel.Server.Forward.{accepts, process_transmit, raw_packet_handler}
use zn_tunnel.Server.Forward.Return.{raw_packet_handler_delivers}
use zn_tunnel.Server.Table.{
  Slot, vacant, held_by, Event, asks, leaves, removes, is_right, slot, is_vacant, place, admit,
  is_held_by, leave, replay, slot_of, get_elem?-table,
}
use zn_tunnel.Server.Runs.{Run}
use zn_tunnel.Server.Runs.Refinement.{Run-Table}

-- A client called with the right name and password.
abbrev pub Granted : {Endpoint : Type 0} → Endpoint → List (Event Endpoint) → Type 0
Granted client [] = ⊥
Granted client (asks a ∷ rest) =
    ((a.from ≡ client) × (a.name ≡ user_name) × (a.password ≡ user_password)) ⊎ Granted client rest
Granted client (leaves c ∷ rest) = Granted client rest
Granted client (removes i ∷ rest) = Granted client rest

same_string_eq : (a b : List ℕ) → same_string a b ≡ true → a ≡ b
unfolding same_string
same_string_eq [] [] h = refl
same_string_eq [] (y ∷ ys) h = absurd (ground (arith, h))
same_string_eq (x ∷ xs) [] h = absurd (ground (arith, h))
same_string_eq (x ∷ xs) (y ∷ ys) h =
    ap₂ (λ (c : ℕ) (l : List ℕ). c ∷ l) (ground (arith, h))
      (same_string_eq xs ys (ground (arith, h)))

-- A slot of the table is the client's.
abbrev Holds : {Endpoint : Type 0} → Endpoint → List (Slot Endpoint) → Type 0
Holds client [] = ⊥
Holds client (s ∷ rest) = (s ≡ held_by client) ⊎ Holds client rest

module _ {Endpoint : Type 0} (client : Endpoint) where
  get_elem?-Holds :
      (slots : List (Slot Endpoint)) (i : ℕ)
      → get_elem? slots i ≡ some (held_by client)
      → Holds client slots
  get_elem?-Holds [] i h = absurd (ground (arith, h))
  get_elem?-Holds (s ∷ rest) zero h = inl (ground (arith, h))
  get_elem?-Holds (s ∷ rest) (suc i) h = inr (get_elem?-Holds rest i h)

  replicate-Holds : (n : ℕ) → Holds client (replicate n vacant) → ⊥
  replicate-Holds zero holds = holds
  replicate-Holds (suc n) (inl first) = absurd (ground (arith, first))
  replicate-Holds (suc n) (inr later) = replicate-Holds n later

  place-Holds :
      (a : Endpoint) (slots : List (Slot Endpoint)) {placed : List (Slot Endpoint)}
      → place a slots ≡ some placed
      → Holds client placed
      → (a ≡ client) ⊎ Holds client slots
  place-Holds a [] h holds = absurd (ground (arith, h))
  place-Holds a (s ∷ rest) {placed} h holds = elim (Option-cases (place a rest)) [
    | inr (others, at) ↦
        let is_placed : placed ≡ s ∷ others = ground (arith, at, h) in
        let where_held : (s ≡ held_by client) ⊎ Holds client others =
          subst (Holds client) is_placed holds in
        elim where_held [
          | inl first ↦ inr (inl first)
          | inr later ↦ elim (place-Holds a rest at later) [
            | inl own ↦ inl own
            | inr held ↦ inr (inr held)
          ]
        ]
    | inl full ↦ elim (Bool-cases (is_vacant s)) [
      | inr busy ↦ absurd (ground (arith, full, busy, h))
      | inl free ↦
          let is_placed : placed ≡ held_by a ∷ rest = ground (arith, full, free, h) in
          let where_held : (held_by a ≡ held_by client) ⊎ Holds client rest =
            subst (Holds client) is_placed holds in
          elim where_held [ inl first ↦ inl (ground (arith, first)) | inr later ↦ inr (inr later) ]
    ]
  ]

  append-Holds :
      (a : Endpoint) (slots : List (Slot Endpoint))
      → Holds client (slots ++ held_by a ∷ [])
      → (a ≡ client) ⊎ Holds client slots
  append-Holds a [] (inl first) = inl (ground (arith, first))
  append-Holds a [] (inr later) = inr later
  append-Holds a (s ∷ rest) (inl first) = inr (inl first)
  append-Holds a (s ∷ rest) (inr later) = elim (append-Holds a rest later) [
    | inl own ↦ inl own
    | inr held ↦ inr (inr held)
  ]

  admit-Holds :
      (a : Endpoint) (slots : List (Slot Endpoint))
      → Holds client (admit a slots)
      → (a ≡ client) ⊎ Holds client slots
  admit-Holds a slots holds = elim (Option-cases (place a slots)) [
    | inl full ↦ append-Holds a slots (rw (admit, full) at holds)
    | inr (placed, at) ↦ place-Holds a slots at (rw (admit, at) at holds)
  ]

  set-Holds :
      (slots : List (Slot Endpoint)) (i : ℕ)
      → Holds client (set slots i vacant)
      → Holds client slots
  set-Holds [] i holds = holds
  set-Holds (s ∷ rest) zero (inl first) = absurd (ground (arith, first))
  set-Holds (s ∷ rest) zero (inr later) = inr later
  set-Holds (s ∷ rest) (suc i) (inl first) = inl first
  set-Holds (s ∷ rest) (suc i) (inr later) = inr (set-Holds rest i later)

  leave-Holds :
      ⦃e : Eq Endpoint⦄ (from : Endpoint) (slots : List (Slot Endpoint))
      → Holds client (leave from slots)
      → Holds client slots
  leave-Holds from [] holds = holds
  leave-Holds from (s ∷ rest) holds = elim (Bool-cases (is_held_by from s)) [
    | inl own ↦
        let where_held : (vacant ≡ held_by client) ⊎ Holds client rest = rw own at holds in
        elim where_held [ inl first ↦ absurd (ground (arith, first)) | inr later ↦ inr later ]
    | inr foreign ↦
        let where_held : (s ≡ held_by client) ⊎ Holds client (leave from rest) =
          rw foreign at holds in
        elim where_held [ inl first ↦ inl first | inr later ↦ inr (leave-Holds from rest later) ]
  ]

  -- Who holds a slot was given it.
  replay-Granted :
      ⦃e : Eq Endpoint⦄ (n : ℕ) (events : List (Event Endpoint))
      → Holds client (replay n events)
      → Granted client events
  replay-Granted n [] holds = replicate-Holds n holds
  replay-Granted n (leaves from ∷ rest) holds =
      replay-Granted n rest (leave-Holds from (replay n rest) holds)
  replay-Granted n (removes i ∷ rest) holds =
      replay-Granted n rest (set-Holds (replay n rest) i holds)
  replay-Granted n (asks a ∷ rest) holds = elim (Bool-cases (is_right a)) [
    | inr wrong ↦ inr (replay-Granted n rest (rw wrong at holds))
    | inl right ↦ elim (admit-Holds a.from (replay n rest) (rw right at holds)) [
      | inr held ↦ inr (replay-Granted n rest held)
      | inl own ↦ inl (
        own,
        same_string_eq a.name user_name (ground (arith, right)),
        same_string_eq a.password user_password (ground (arith, right)),
      )
    ]
  ]

slot-connected :
    {Endpoint : Type 0} (status : SessionStatus) (client : Endpoint)
    → status_connected status ≡ true
    → slot status client ≡ held_by client
unfolding status_connected
slot-connected idle client on = absurd (ground (arith, on))
slot-connected connected client on = refl
slot-connected disconnected client on = absurd (ground (arith, on))
slot-connected error client on = absurd (ground (arith, on))

module _ {State Endpoint : Type 0} ⦃e : Eq Endpoint⦄ where
  -- Whose packet is accepted.
  accepts_sender :
      (s : Session State Endpoint) (from : Endpoint) (m : Memory) (ip4 : Ip4)
      → accepts s from m ip4 ≡ true
      → (s.endpoint ≡ from) × (is_connected s ≡ true)
  unfolding accepts
  accepts_sender s from m ip4 h = ground (arith, e.same_iff s.endpoint from, h)

module _ {State Endpoint Callback : Type 0} (cipher : Cipher State) ⦃e : Eq Endpoint⦄
    (endpoint_less : Endpoint → Endpoint → Bool)
    (on_request : Memory → Buffer → Endpoint → ℕ → Answer Callback) (config : TunnelServerConfig)
    (pool : Pool) (blank : ℕ → Session State Endpoint) (rpc : Rpc State Endpoint Callback)
    (endpoint : Endpoint) (if_address : ℕ) where
  -- Who has a connected session was let in.
  connected-Granted :
      {server : TunnelServer State Endpoint Callback} {events : List (Event Endpoint)} (i : ℕ)
      (s : Session State Endpoint)
      → ((j : ℕ) → (blank j).status ≡ idle)
      → config.max_sessions < 256
      → Run cipher endpoint_less on_request
          (new_server config pool blank rpc endpoint if_address)
          events
          server
      → get_elem? server.sessions i ≡ some s
      → is_connected s ≡ true
      → Granted s.endpoint events
  unfolding is_connected
  connected-Granted {server} {events} i s idle_first small run held on =
      let owner : slot_of s ≡ held_by s.endpoint = slot-connected s.status s.endpoint on in
      replay-Granted s.endpoint config.max_sessions events (
        get_elem?-Holds s.endpoint (replay config.max_sessions events) i (
          subst (λ (slots : List (Slot Endpoint)). get_elem? slots i ≡ some (held_by s.endpoint))
            (Run-Table cipher endpoint_less on_request config pool blank rpc endpoint if_address
              idle_first small run)
            (get_elem?-table server.sessions i held ∙ ap some owner)))

  -- The sessions of a server start idle, and `maxSessions` is a byte. Whatever handlers ran, a
  -- datagram that makes the server write to the net comes from an endpoint that called with the
  -- right name and password.
  pub process_transmit-Granted :
      {server : TunnelServer State Endpoint Callback} {events : List (Event Endpoint)} (now : ℕ)
      (buf : Buffer) {after : TunnelServer State Endpoint Callback}
      → ((j : ℕ) → (blank j).status ≡ idle)
      → config.max_sessions < 256
      → Run cipher endpoint_less on_request
          (new_server config pool blank rpc endpoint if_address)
          events
          server
      → process_transmit cipher server now buf ≡ some after
      → after.requests ≢ server.requests
      → Granted server.receive_ep events
  unfolding process_transmit
  process_transmit-Granted {server} {events} now buf {after} idle_first small run h changed =
      let client_id = load16 server.rpc.memory buf.start in
      let ip4 : Ip4 = record { header = buf.start + 2; size = sub32 buf.size 2 } in
      elim (Option-cases (get_elem? server.sessions client_id)) [
        | inl unknown ↦
            let same_state : server ≡ after = ground (arith, unknown, h) in
            absurd (
              changed
                (ap (λ (s : TunnelServer State Endpoint Callback). s.requests) (sym same_state)))
        | inr (s, known) ↦ elim (Bool-cases (accepts s server.receive_ep server.rpc.memory ip4)) [
          | inr refused ↦
              let same_state : server ≡ after = ground (arith, known, refused, h) in
              absurd (
                changed
                  (ap (λ (s : TunnelServer State Endpoint Callback). s.requests) (sym same_state)))
          | inl accepted ↦
              let (sender, on) =
                accepts_sender s server.receive_ep server.rpc.memory ip4 accepted in
              subst (λ (c : Endpoint). Granted c events) sender
                (connected-Granted client_id s idle_first small run known on)
        ]
      ]

  -- The sessions of a server start idle, and `maxSessions` is a byte. Whatever handlers ran, a
  -- packet from the net is dropped without a change, or sent to one endpoint, which called with the
  -- right name and password.
  pub raw_packet_handler-Granted :
      {server : TunnelServer State Endpoint Callback} {events : List (Event Endpoint)}
      (data_at size chunk : ℕ) {after : TunnelServer State Endpoint Callback}
      → ((j : ℕ) → (blank j).status ≡ idle)
      → config.max_sessions < 256
      → Run cipher endpoint_less on_request
          (new_server config pool blank rpc endpoint if_address)
          events
          server
      → raw_packet_handler cipher server data_at size chunk ≡ some after
      → (after ≡ server)
        ⊎ ((to : Endpoint) × (datagram : List ℕ) × (buf : Buffer) × (after.requests
              ≡ server.requests ++ sends_to to datagram buf ∷ [])
            × Granted to events)
  raw_packet_handler-Granted {server} {events} data_at size chunk {after} idle_first small run h =
      elim (raw_packet_handler_delivers cipher server data_at size chunk h) [
        | inl dropped ↦ inl dropped
        | inr (conn, session, _, held, on, s) ↦ inr (
          session.endpoint,
          s.datagram,
          s.buf,
          s.sent,
          connected-Granted conn.client_id session idle_first small run held on,
        )
      ]
