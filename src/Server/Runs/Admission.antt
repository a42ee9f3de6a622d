-- ===== src/Server/Runs/Admission.antt =====
-- Who `_rpcConnectHandler` of server/TunnelServer.cc lets in, and into which session.
use zn_tunnel.Prelude.{
  ℕ, suc, ◌+◌, ◌^◌, ◌<◌, ◌≤◌, ◌≡◌, ◌⊎◌, refl, sym, ap, ◌∙◌, inl, inr, List, [], ◌∷◌, ◌++◌, none,
  some, arith, subst, Bool-cases, ◌==◌, ltb, u16, length, get_elem?, set, set-middle, length-set,
  length-append, Option-cases, if◌then◌else◌,
}
use zn_tunnel.Transmission.Constant.{
  RpcErrorType, SessionStatus, idle, connected, disconnected, error,
}
use zn_tunnel.Transmission.Cryptor.{Cipher}
use zn_tunnel.Transmission.Session.{Session, is_idle, status_idle, reset}
use zn_tunnel.Server.Login.{idle_slot, reset_slot, rpc_connect_handler}
use zn_tunnel.Server.Table.{
  Slot, held_by, Attempt, is_right, slot, is_vacant, place, admit, slot_of, table, table-set,
  table-append,
}

is_vacant-slot :
    {Endpoint : Type 0} (status : SessionStatus) (client : Endpoint)
    → is_vacant (slot status client) ≡ status_idle status
unfolding status_idle
is_vacant-slot idle client = refl
is_vacant-slot connected client = refl
is_vacant-slot disconnected client = refl
is_vacant-slot error client = refl

module _ {State Endpoint : Type 0} where
  is_vacant-slot_of : (s : Session State Endpoint) → is_vacant (slot_of s) ≡ is_idle s
  unfolding is_idle
  is_vacant-slot_of s = is_vacant-slot s.status s.endpoint

  -- The search gives the number of the session that `place` fills, or what it started with.
  idle_slot-place :
      (sessions : List (Session State Endpoint)) (client : Endpoint) (i id : ℕ)
      → i + length sessions ≤ 2 ^ 16
      → ((idle_slot sessions i id ≡ id) × (place client (table sessions) ≡ none))
        ⊎ ((j : ℕ) × (idle_slot sessions i id ≡ i + j)
            × (j < length sessions)
            × (place client (table sessions) ≡ some (set (table sessions) j (held_by client))))
  unfolding idle_slot
  idle_slot-place [] client i id few = inl (refl, refl)
  idle_slot-place (s ∷ rest) client i id few = elim (Bool-cases (is_idle s)) [
    | inr busy ↦ elim (idle_slot-place rest client (i + 1) id (omega (arith, few))) [
      | inl (same_id, full) ↦ inl (rw busy same_id, rw (full, is_vacant-slot_of s ∙ busy) refl)
      | inr (j, at, within, placed) ↦
          inr (suc j, rw busy (omega (arith, at)), omega (arith, within), rw placed refl)
    ]
    | inl free ↦ elim (idle_slot-place rest client (i + 1) (u16 i) (omega (arith, few))) [
      | inl (same_id, full) ↦ inr (
        0,
        rw free (omega (arith, same_id, few)),
        omega arith,
        rw (full, is_vacant-slot_of s ∙ free) refl,
      )
      | inr (j, at, within, placed) ↦
          inr (suc j, rw free (omega (arith, at)), omega (arith, within), rw placed refl)
    ]
  ]

  reset_slot_cases :
      (cipher : Cipher State) (sessions : List (Session State Endpoint)) (id : ℕ) (from : Endpoint)
      (now : ℕ) (key iv : List ℕ) {answer : RpcErrorType × List ℕ × List ℕ}
      {after : List (Session State Endpoint)}
      → reset_slot cipher sessions id from now key iv ≡ some (answer, after)
      → (id < 2 ^ 15)
        × (s : Session State Endpoint) × (after
            ≡ set sessions id (reset cipher s id from now key iv))
  unfolding reset_slot
  reset_slot_cases cipher sessions id from now key iv {answer} {after} h =
      elim (Bool-cases (ltb id (2 ^ 15))) [
        | inr great ↦ absurd (ground (arith, great, h))
        | inl small ↦ elim (Option-cases (get_elem? sessions id)) [
          | inl gone ↦ absurd (ground (arith, small, gone, h))
          | inr (s, held) ↦ (ground (arith, small), s, ground (arith, small, held, h))
        ]
      ]

  -- The sessions are this table, and few enough for an `int16_t`.
  abbrev pub Shows : List (Slot Endpoint) → List (Session State Endpoint) → Type 0
  Shows slots sessions = (table sessions ≡ slots) × (length sessions ≤ 2 ^ 15)

  slot_of-reset :
      (cipher : Cipher State) (s : Session State Endpoint) (id : ℕ) (from : Endpoint) (now : ℕ)
      (key iv : List ℕ)
      → slot_of (reset cipher s id from now key iv) ≡ held_by from
  unfolding reset
  slot_of-reset cipher s id from now key iv = refl

  -- The session that is added behind the others is the client's.
  lets_in_behind :
      (cipher : Cipher State) (from : Endpoint) (sessions : List (Session State Endpoint)) (now : ℕ)
      (key iv : List ℕ) (blank : Session State Endpoint) {answer : RpcErrorType × List ℕ × List ℕ}
      {after : List (Session State Endpoint)}
      → length sessions ≤ 2 ^ 15
      → reset_slot cipher (sessions ++ blank ∷ []) (u16 (length sessions)) from now key iv
        ≡ some (answer, after)
      → Shows (table sessions ++ held_by from ∷ []) after
  lets_in_behind cipher from sessions now key iv blank {answer} few h =
      let (small, s, is_set) =
        reset_slot_cases cipher (sessions ++ blank ∷ []) (u16 (length sessions)) from now key iv
          {answer = answer} h in
      let id : u16 (length sessions) ≡ length sessions = omega (arith, few) in
      let new = reset cipher s (u16 (length sessions)) from now key iv in
      let is_after =
        is_set
        ∙ ap (λ (i : ℕ). set (sessions ++ blank ∷ []) i new) id
        ∙ set-middle sessions blank new [] in
      subst (Shows (table sessions ++ held_by from ∷ [])) (sym is_after) (
        table-append sessions new
            ∙ ap (λ (c : Slot Endpoint). table sessions ++ c ∷ [])
                (slot_of-reset cipher s (u16 (length sessions)) from now key iv),
        omega (arith, length-append sessions (new ∷ []), few, small),
      )

  -- A session becomes the client's.
  lets_in_at :
      (cipher : Cipher State) (from : Endpoint) (sessions : List (Session State Endpoint))
      (id now : ℕ) (key iv : List ℕ) {answer : RpcErrorType × List ℕ × List ℕ}
      {after : List (Session State Endpoint)}
      → length sessions ≤ 2 ^ 15
      → reset_slot cipher sessions id from now key iv ≡ some (answer, after)
      → Shows (set (table sessions) id (held_by from)) after
  lets_in_at cipher from sessions id now key iv {answer} few h =
      let (small, s, is_set) =
        reset_slot_cases cipher sessions id from now key iv {answer = answer} h in
      let new = reset cipher s id from now key iv in
      subst (Shows (set (table sessions) id (held_by from))) (sym is_set) (
        table-set sessions id new
            ∙ ap (set (table sessions) id) (slot_of-reset cipher s id from now key iv),
        omega (arith, length-set sessions id new, few),
      )

  -- `_rpcConnectHandler` gives the last idle session, or else a new one, to who comes with the right
  -- name and password, and to no other.
  pub connect-Shows :
      (cipher : Cipher State) (attempt : Attempt Endpoint)
      (sessions : List (Session State Endpoint)) (now : ℕ) (key iv : List ℕ)
      (blank : Session State Endpoint) {answer : RpcErrorType × List ℕ × List ℕ}
      {after : List (Session State Endpoint)}
      → length sessions ≤ 2 ^ 15
      → rpc_connect_handler cipher sessions attempt.from attempt.name attempt.password now key iv
          blank
        ≡ some (answer, after)
      → Shows
          (if is_right attempt then admit attempt.from (table sessions) else table sessions)
          after
  unfolding rpc_connect_handler
  connect-Shows cipher attempt sessions now key iv blank {answer} {after} few h =
      elim (Bool-cases (is_right attempt)) [
        | inr wrong ↦
            let same_sessions : sessions ≡ after = ground (arith, wrong, h) in
            rw wrong (subst (Shows (table sessions)) same_sessions (refl, few))
        | inl right ↦ elim (idle_slot-place sessions attempt.from 0 0xffff (omega (arith, few))) [
          | inl (none_idle, full) ↦
              let shown =
                lets_in_behind cipher attempt.from sessions now key iv blank {answer = answer} few
                  (ground (arith, right, none_idle, h)) in
              rw (right, admit, full) shown
          | inr (j, at, within, placed) ↦
              elim (Bool-cases (idle_slot sessions 0 0xffff == 0xffff)) [
                | inl last ↦ absurd (ground (arith, last, at, within, few))
                | inr found ↦
                    let found_at : idle_slot sessions 0 0xffff ≡ j = omega (arith, at) in
                    let shown =
                      lets_in_at cipher attempt.from sessions (idle_slot sessions 0 0xffff) now key
                        iv {answer = answer} few (ground (arith, right, found, h)) in
                    rw (right, admit, placed)
                      (subst
                        (λ (i : ℕ). Shows (set (table sessions) i (held_by attempt.from)) after)
                        found_at shown)
              ]
        ]
      ]
