-- ===== src/Server/Table.antt =====
-- What the sessions of server/TunnelServer.h promise, without ciphers, times and counts: a table of
-- slots, each vacant or held by a client, and what a login, a logout and a removal do to it.
use zn_tunnel.Prelude.{
  ℕ, zero, suc, ◌≡◌, refl, ap, ◌∙◌, Bool, true, false, ◌&&◌, List, [], ◌∷◌, ◌++◌, Option, none,
  some, arith, if◌then◌else◌, get_elem?, set, replicate, length, length-set, sym, subst,
}
use zn_tunnel.Containers.Order.{Eq, same}
use zn_tunnel.Transmission.Constant.{SessionStatus, idle, connected, disconnected, error}
use zn_tunnel.Transmission.Session.{Session}
use zn_tunnel.Server.Login.{same_string, user_name, user_password}

pub data Slot (Endpoint : Type 0) : Type 0 where
  vacant : Slot Endpoint
  held_by : Endpoint → Slot Endpoint
  neither : Slot Endpoint

-- A call of `_rpcConnectHandler`.
pub record Attempt (Endpoint : Type 0) : Type 0 where
  pub from : Endpoint
  pub name : List ℕ
  pub password : List ℕ

-- A call to log in, a call to log out, and the removal of a session by its number.
pub data Event (Endpoint : Type 0) : Type 0 where
  asks : Attempt Endpoint → Event Endpoint
  leaves : Endpoint → Event Endpoint
  removes : ℕ → Event Endpoint

abbrev pub is_right : {Endpoint : Type 0} → Attempt Endpoint → Bool
is_right a = same_string a.name user_name && same_string a.password user_password

module _ {Endpoint : Type 0} where
  abbrev pub slot : SessionStatus → Endpoint → Slot Endpoint
  slot idle client = vacant
  slot connected client = held_by client
  slot disconnected client = neither
  slot error client = neither

  abbrev pub is_vacant : Slot Endpoint → Bool
  is_vacant vacant = true
  is_vacant (held_by c) = false
  is_vacant neither = false

  -- The last vacant slot is the client's; none is a table without a vacant slot.
  abbrev pub place : Endpoint → List (Slot Endpoint) → Option (List (Slot Endpoint))
  place client [] = none
  place client (s ∷ rest) = elim (place client rest) [
    | some placed ↦ some (s ∷ placed)
    | none ↦ if is_vacant s then some (held_by client ∷ rest) else none
  ]

  -- Without a vacant slot there is one more.
  abbrev pub admit : Endpoint → List (Slot Endpoint) → List (Slot Endpoint)
  admit client slots = elim (place client slots) [
    | some placed ↦ placed
    | none ↦ slots ++ held_by client ∷ []
  ]

module _ {Endpoint : Type 0} ⦃e : Eq Endpoint⦄ where
  abbrev pub is_held_by : Endpoint → Slot Endpoint → Bool
  is_held_by client vacant = false
  is_held_by client (held_by c) = same c client
  is_held_by client neither = false

  -- The first slot that the client holds is vacant.
  abbrev pub leave : Endpoint → List (Slot Endpoint) → List (Slot Endpoint)
  leave client [] = []
  leave client (s ∷ rest) = if is_held_by client s then vacant ∷ rest else s ∷ leave client rest

  abbrev pub after_event : Event Endpoint → List (Slot Endpoint) → List (Slot Endpoint)
  after_event (asks a) slots = if is_right a then admit a.from slots else slots
  after_event (leaves client) slots = leave client slots
  after_event (removes i) slots = set slots i vacant

  -- The table of `n` vacant slots after these events, the last of them first.
  abbrev pub replay : ℕ → List (Event Endpoint) → List (Slot Endpoint)
  replay n [] = replicate n vacant
  replay n (event ∷ events) = after_event event (replay n events)

module _ {State Endpoint : Type 0} where
  abbrev pub slot_of : Session State Endpoint → Slot Endpoint
  slot_of s = slot s.status s.endpoint

  -- The table that the sessions stand for.
  abbrev pub table : List (Session State Endpoint) → List (Slot Endpoint)
  table [] = []
  table (s ∷ rest) = slot_of s ∷ table rest

  pub get_elem?-table :
      (sessions : List (Session State Endpoint)) (i : ℕ) {s : Session State Endpoint}
      → get_elem? sessions i ≡ some s
      → get_elem? (table sessions) i ≡ some (slot_of s)
  get_elem?-table [] i h = absurd (ground (arith, h))
  get_elem?-table (x ∷ xs) zero {s} h =
      ap some (ap (λ (t : Session State Endpoint). slot_of t) {x = x} {y = s} (ground (arith, h)))
  get_elem?-table (x ∷ xs) (suc i) h = get_elem?-table xs i h

  pub table-set :
      (sessions : List (Session State Endpoint)) (i : ℕ) (s : Session State Endpoint)
      → table (set sessions i s) ≡ set (table sessions) i (slot_of s)
  table-set [] i s = refl
  table-set (x ∷ xs) zero s = refl
  table-set (x ∷ xs) (suc i) s = ap (λ (l : List (Slot Endpoint)). slot_of x ∷ l) (table-set xs i s)

  pub table-append :
      (sessions : List (Session State Endpoint)) (s : Session State Endpoint)
      → table (sessions ++ s ∷ []) ≡ table sessions ++ slot_of s ∷ []
  table-append [] s = refl
  table-append (x ∷ xs) s = ap (λ (l : List (Slot Endpoint)). slot_of x ∷ l) (table-append xs s)

  -- A session that keeps its slot leaves the table as it is.
  table-set_same :
      (sessions : List (Session State Endpoint)) (i : ℕ) (old s : Session State Endpoint)
      → get_elem? sessions i ≡ some old
      → slot_of s ≡ slot_of old
      → table (set sessions i s) ≡ table sessions
  table-set_same [] i old s h same_slot = refl
  table-set_same (x ∷ xs) zero old s h same_slot =
      ap (λ (c : Slot Endpoint). c ∷ table xs)
        (same_slot
          ∙ ap (λ (t : Session State Endpoint). slot_of t) {x = old} {y = x} (ground (arith, h)))
  table-set_same (x ∷ xs) (suc i) old s h same_slot =
      ap (λ (l : List (Slot Endpoint)). slot_of x ∷ l) (table-set_same xs i old s h same_slot)

  -- The sessions stand for the same table.
  abbrev pub Unmoved : List (Session State Endpoint) → List (Session State Endpoint) → Type 0
  Unmoved before after = (table after ≡ table before) × (length after ≡ length before)

  pub set-Unmoved :
      (sessions : List (Session State Endpoint)) (i : ℕ) (old s : Session State Endpoint)
      {after : List (Session State Endpoint)}
      → get_elem? sessions i ≡ some old
      → (s.endpoint ≡ old.endpoint) × (s.status ≡ old.status)
      → after ≡ set sessions i s
      → Unmoved sessions after
  set-Unmoved sessions i old s {after} h same_client is_after =
      subst (Unmoved sessions) (sym is_after) (
        table-set_same sessions i old s h (rw (same_client.0, same_client.1) refl),
        length-set sessions i s,
      )
