-- ===== src/Napt/Ports.antt =====
-- The search of `createIfNotExist` for a port.
use native.Mathlib.Decide.{dec_lt}
use zn_tunnel.Prelude.{
  ℕ, zero, suc, ◌+◌, ◌-◌, ◌^◌, ◌≤◌, ◌<◌, ◌≡◌, refl, subst, inl, inr, true, false, none, some, arith,
  Bool-cases, u16,
}
use zn_tunnel.Containers.Order.{Eq}
use zn_tunnel.Napt.{Napt, is_taken, scan_ports}

module _ {IpAddress : Type 0} ⦃e : Eq IpAddress⦄ (n : Napt IpAddress) (server_ip : IpAddress)
    (server_port : ℕ) where
  -- Each port from `p` up to `q` has a connection to this server.
  abbrev pub TakenUpTo : ℕ → ℕ → Type 0
  TakenUpTo p q = (r : ℕ) → p ≤ r → r < q → is_taken n server_ip server_port r ≡ true

  -- `q` is the first port from `p` to the last that no connection to this server has.
  pub record IsFirstFree (p q : ℕ) : Type 0 where
    pub from_start : p ≤ q
    pub to_end : q ≤ n.port_to
    pub free : is_taken n server_ip server_port q ≡ false
    pub first : TakenUpTo p q

  -- What the search from `p` on ends with, if `local_port` is the port so far.
  pub data Scanned (p local_port q : ℕ) : Type 0 where
    found : IsFirstFree p q → Scanned p local_port q
    exhausted : p ≤ n.port_to → TakenUpTo p (n.port_to + 1) → q ≡ n.port_to → Scanned p local_port q
    empty_range : n.port_to < p → q ≡ local_port → Scanned p local_port q

  TakenUpTo-cons :
      (p q : ℕ) → is_taken n server_ip server_port p ≡ true → TakenUpTo (p + 1) q → TakenUpTo p q
  TakenUpTo-cons p q taken rest r h k = elim (dec_lt p r) [
    | yes lt ↦ rest r (omega arith) k
    | no ge ↦
        let same_port : p ≡ r = omega arith in
        subst (λ (t : ℕ). is_taken n server_ip server_port t ≡ true) same_port taken
  ]

  Scanned-next :
      {p local_port q : ℕ}
      → p ≤ n.port_to
      → is_taken n server_ip server_port p ≡ true
      → Scanned (p + 1) p q
      → Scanned p local_port q
  Scanned-next {p} {q = q} le taken (found f) = found (record {
    from_start = omega (arith, f.from_start);
    to_end = f.to_end;
    free = f.free;
    first = TakenUpTo-cons p q taken f.first;
  })
  Scanned-next {p} le taken (exhausted h a e) =
      exhausted le (TakenUpTo-cons p (n.port_to + 1) taken a) e
  Scanned-next {p} le taken (empty_range h e) =
      exhausted le (TakenUpTo-cons p (n.port_to + 1) taken (λ r a b. absurd (omega arith)))
        (omega arith)

  -- Below the last port number the loop ends: enough fuel for the range is enough. It finds the
  -- first free port, or the last port of the range if none is free.
  pub scan_ports-Scanned :
      (fuel p local_port : ℕ)
      → n.port_to < 2 ^ 16 - 1
      → n.port_to + 1 < p + fuel
      → 0 < fuel
      → (q : ℕ) × (scan_ports n server_ip server_port fuel p local_port ≡ some q)
        × Scanned p local_port q
  unfolding scan_ports
  scan_ports-Scanned zero p local_port h k b = absurd (omega arith)
  scan_ports-Scanned (suc fuel) p local_port h k b = elim (dec_lt n.port_to p) [
    | yes past ↦ (local_port, ground arith, empty_range past refl)
    | no inside ↦ elim (Bool-cases (is_taken n server_ip server_port p)) [
      | inl taken ↦
          let next_port : u16 (p + 1) ≡ p + 1 = omega arith in
          let rest = scan_ports-Scanned fuel (p + 1) p h (omega arith) (omega arith) in
          (
            rest.0,
            ground (arith, rest.1, taken, next_port),
            Scanned-next (omega arith) taken rest.2,
          )
      | inr free ↦ (
        p,
        ground (arith, free),
        found (record {
          from_start = omega arith;
          to_end = omega arith;
          free = free;
          first = λ r a c. absurd (omega arith);
        }),
      )
    ]
  ]

  -- With the range up to 65535, the counter of 16 bits wraps: if every port is taken, the loop
  -- does not end on any fuel.
  pub scan_ports_diverges :
      (fuel p local_port : ℕ)
      → n.port_to ≡ 2 ^ 16 - 1
      → p < 2 ^ 16
      → ((r : ℕ) → r < 2 ^ 16 → is_taken n server_ip server_port r ≡ true)
      → scan_ports n server_ip server_port fuel p local_port ≡ none
  unfolding scan_ports
  scan_ports_diverges zero p local_port h b taken = refl
  scan_ports_diverges (suc fuel) p local_port h b taken =
      ground (arith, taken p b, scan_ports_diverges fuel (u16 (p + 1)) p h (omega arith) taken)
