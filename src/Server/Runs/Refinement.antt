-- ===== src/Server/Runs/Refinement.antt =====
-- The server of server/TunnelServer.cc, whatever order its handlers are called in, keeps a table of
-- slots for its clients.
use zn_tunnel.Prelude.{
  Bool, ℕ, zero, suc, ◌+◌, ◌^◌, ◌≤◌, ◌<◌, ◌≡◌, refl, ap, ◌∙◌, List, [], ◌∷◌, arith, length,
  replicate,
}
use zn_tunnel.Memory.{Memory}
use zn_tunnel.Buffer.{Buffer}
use zn_tunnel.Pool.{Pool}
use zn_tunnel.Containers.Order.{Eq}
use zn_tunnel.Napt.{new_napt}
use zn_tunnel.Transmission.Constant.{idle}
use zn_tunnel.Transmission.Cryptor.{Cipher}
use zn_tunnel.Transmission.Rpc.State.{Rpc, Answer}
use zn_tunnel.Transmission.Session.{Session}
use zn_tunnel.Server.State.{TunnelServer, TunnelServerConfig, blank_sessions, new_server}
use zn_tunnel.Server.Forward.Went.{Consistent}
use zn_tunnel.Server.Table.{
  Slot, vacant, Event, asks, leaves, removes, after_event, replay, table, Unmoved,
}
use zn_tunnel.Server.Runs.{
  Run, begins, receives, from_net, connects, pings, disconnects, loses, elsewhere,
}
use zn_tunnel.Server.Runs.Admission.{connect-Shows}
use zn_tunnel.Server.Runs.Quiet.{
  on_socket_receive-Quiet, raw_packet_handler-Quiet, ping-Unmoved, disconnect-leave, remove-Removed,
}

module _ {State Endpoint : Type 0} where
  blank_sessions-table :
      (blank : ℕ → Session State Endpoint) (i n : ℕ)
      → ((j : ℕ) → (blank j).status ≡ idle)
      → (table (blank_sessions blank i n) ≡ replicate n vacant)
        × (length (blank_sessions blank i n) ≡ n)
  unfolding blank_sessions
  blank_sessions-table blank i zero idle_first = (refl, refl)
  blank_sessions-table blank i (suc n) idle_first =
      let rest = blank_sessions-table blank (i + 1) n idle_first in
      (
        rw (idle_first i) (ap (λ (l : List (Slot Endpoint)). vacant ∷ l) rest.0),
        omega (arith, rest.1),
      )

module _ {State Endpoint Callback : Type 0} ⦃e : Eq Endpoint⦄ (n : ℕ) where
  -- The sessions are the table that the events leave of `n` vacant slots, and no more than an
  -- `int16_t` can number; and the tables of connections are consistent.
  record IsSound (events : List (Event Endpoint)) (server : TunnelServer State Endpoint Callback)
      : Type 0 where
    slots : table server.sessions ≡ replay n events
    few : length server.sessions ≤ 2 ^ 15
    consistent : Consistent server

  quiet-IsSound :
      {events : List (Event Endpoint)} {before after : TunnelServer State Endpoint Callback}
      → IsSound events before
      → Consistent after × Unmoved before.sessions after.sessions
      → IsSound events after
  quiet-IsSound {events} {before} {after} v (consistent, unmoved) = record {
    slots = unmoved.0 ∙ v.slots;
    few = omega (arith, unmoved.1, v.few);
    consistent = consistent;
  }

  -- A handler that does to the table what an event does.
  event-IsSound :
      {events : List (Event Endpoint)} {before after : TunnelServer State Endpoint Callback}
      (event : Event Endpoint)
      → IsSound events before
      → Consistent after
      → table after.sessions ≡ after_event event (table before.sessions)
      → length after.sessions ≤ 2 ^ 15
      → IsSound (event ∷ events) after
  event-IsSound {events} {before} {after} event v consistent shown few = record {
    slots = shown ∙ ap (after_event event) v.slots;
    few = few;
    consistent = consistent;
  }

module _ {State Endpoint Callback : Type 0} ⦃e : Eq Endpoint⦄ where
  new_server-IsSound :
      (config : TunnelServerConfig) (pool : Pool) (blank : ℕ → Session State Endpoint)
      (rpc : Rpc State Endpoint Callback) (endpoint : Endpoint) (if_address : ℕ)
      → ((j : ℕ) → (blank j).status ≡ idle)
      → config.max_sessions < 256
      → IsSound config.max_sessions [] (new_server config pool blank rpc endpoint if_address)
  unfolding new_server new_napt
  new_server-IsSound config pool blank rpc endpoint if_address idle_first small =
      let fresh = blank_sessions-table blank 0 config.max_sessions idle_first in
      record { slots = fresh.0; few = omega (arith, fresh.1, small); consistent = (tt, tt) }

module _ {State Endpoint Callback : Type 0} (cipher : Cipher State) ⦃e : Eq Endpoint⦄
    (endpoint_less : Endpoint → Endpoint → Bool)
    (on_request : Memory → Buffer → Endpoint → ℕ → Answer Callback) where
  Run-IsSound :
      {start server : TunnelServer State Endpoint Callback} {events : List (Event Endpoint)} (n : ℕ)
      → IsSound n [] start
      → Run cipher endpoint_less on_request start events server
      → IsSound n events server
  Run-IsSound n v begins = v
  Run-IsSound n v
        (receives {server = server} err transfered buf now control callback_pool chunk run h) =
      let before = Run-IsSound n v run in
      quiet-IsSound n before (
        on_socket_receive-Quiet cipher endpoint_less on_request server err transfered buf now
          control callback_pool chunk before.consistent h)
  Run-IsSound n v (from_net {server = server} data_at size chunk run h) =
      let before = Run-IsSound n v run in
      quiet-IsSound n before
        (raw_packet_handler-Quiet cipher server data_at size chunk before.consistent h)
  Run-IsSound n v (connects {server = server} {answer} attempt now key iv blank run h) =
      let before = Run-IsSound n v run in
      let (shown, few) =
        connect-Shows cipher attempt server.sessions now key iv blank {answer = answer} before.few
          h in
      event-IsSound n (asks attempt) before before.consistent shown few
  Run-IsSound n v (pings {server = server} from now run) =
      let before = Run-IsSound n v run in
      quiet-IsSound n before (before.consistent, ping-Unmoved server.sessions from now)
  Run-IsSound n v (disconnects {server = server} from run) =
      let before = Run-IsSound n v run in
      let (left, kept) = disconnect-leave server.sessions from in
      event-IsSound n (leaves from) before before.consistent left (omega (arith, kept, before.few))
  Run-IsSound n v (loses {server = server} id run h) =
      let before = Run-IsSound n v run in
      let (consistent, removed, kept) = remove-Removed server id before.consistent h in
      event-IsSound n (removes id) before consistent removed (omega (arith, kept, before.few))
  Run-IsSound n v (elsewhere rpc pool receive_ep requests run) =
      let before = Run-IsSound n v run in
      record { slots = before.slots; few = before.few; consistent = before.consistent }

  module _ (config : TunnelServerConfig) (pool : Pool) (blank : ℕ → Session State Endpoint)
      (rpc : Rpc State Endpoint Callback) (endpoint : Endpoint) (if_address : ℕ) where
    -- The sessions of a server start idle, and `maxSessions` is a byte. Whatever handlers run and
    -- return, in whatever order, the sessions are the table that the events leave of as many vacant
    -- slots: a call with the right name and password takes the last vacant slot, or a new one behind
    -- the others if none is vacant; a call with another changes none; a logout vacates the first
    -- slot of its client, and a removal that of its number, or none if there is none. Nothing else
    -- that runs moves a client.
    pub Run-Table :
        {server : TunnelServer State Endpoint Callback} {events : List (Event Endpoint)}
        → ((j : ℕ) → (blank j).status ≡ idle)
        → config.max_sessions < 256
        → Run cipher endpoint_less on_request
            (new_server config pool blank rpc endpoint if_address)
            events
            server
        → table server.sessions ≡ replay config.max_sessions events
    Run-Table idle_first small run =
        (Run-IsSound config.max_sessions
          (new_server-IsSound config pool blank rpc endpoint if_address idle_first small) run).slots

    -- The sessions of a server start idle, and `maxSessions` is a byte. Whatever handlers run and
    -- return, in whatever order, both tables of connections stay consistent: each entry of the
    -- server map stands under the key of its connection, at a port of the range.
    pub Run-Consistent :
        {server : TunnelServer State Endpoint Callback} {events : List (Event Endpoint)}
        → ((j : ℕ) → (blank j).status ≡ idle)
        → config.max_sessions < 256
        → Run cipher endpoint_less on_request
            (new_server config pool blank rpc endpoint if_address)
            events
            server
        → Consistent server
    Run-Consistent idle_first small run =
        (Run-IsSound config.max_sessions
          (new_server-IsSound config pool blank rpc endpoint if_address idle_first small)
          run).consistent
