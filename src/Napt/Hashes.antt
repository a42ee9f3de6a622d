-- ===== src/Napt/Hashes.antt =====
-- The keys' hashes, `NAPT::ServerKeyHash` and `NAPT::ClientKeyHash` of libtun/include/libtun/napt.h,
-- over boost's `hash_combine` and the bytes of an address.
use zn_tunnel.Prelude.{ℕ, Bool, true, ◌&&◌, ◌==◌, ◌≡◌, refl, List, [], ◌∷◌, arith, ap, ◌⊎◌, false}
use zn_tunnel.Containers.Order.{Eq}
use zn_tunnel.Napt.{ServerKey, ClientKey, server_same, server_same_iff, client_less}

-- `ClientKey::operator ==`, which nothing uses: a `std::map` asks `operator <` alone.
unfoldable pub client_same : ClientKey → ClientKey → Bool
client_same a b = a.client_id == b.client_id && a.client_port == b.client_port

module _ (hash_combine : ℕ → ℕ → ℕ) where
  unfoldable pub combine_all : ℕ → List ℕ → ℕ
  combine_all seed [] = seed
  combine_all seed (b ∷ bytes) = combine_all (hash_combine seed b) bytes

  unfoldable pub client_hash : ClientKey → ℕ
  client_hash k = hash_combine (hash_combine 0 k.client_id) k.client_port

  unfoldable pub server_hash : {IpAddress : Type 0} → (IpAddress → List ℕ) → ServerKey IpAddress → ℕ
  unfolding combine_all
  server_hash to_bytes k = hash_combine (combine_all 0 (to_bytes k.server_ip)) k.server_port

  -- Equal keys have one hash, as `std::unordered_map` asks.
  pub server_hash_same :
      {IpAddress : Type 0} ⦃e : Eq IpAddress⦄ (to_bytes : IpAddress → List ℕ)
      (a b : ServerKey IpAddress)
      → server_same a b ≡ true
      → server_hash to_bytes a ≡ server_hash to_bytes b
  server_hash_same to_bytes a b h = ap (server_hash to_bytes) ((server_same_iff a b).0 h)

  -- The local port has no part in it: the connections to one port of a server, of whatever clients,
  -- have one hash, and stand in one bucket.
  pub server_hash_one_bucket :
      {IpAddress : Type 0} (to_bytes : IpAddress → List ℕ) (a b : ServerKey IpAddress)
      → a.server_ip ≡ b.server_ip
      → a.server_port ≡ b.server_port
      → server_hash to_bytes a ≡ server_hash to_bytes b
  unfolding server_hash
  server_hash_one_bucket to_bytes a b same_ip same_port = rw (same_ip, same_port) refl

-- Where `operator <` tells two clients apart, they are of one number: clients of different numbers
-- are equivalent to the map, though `operator ==` tells them apart.
pub client_less-client_same :
    (a b : ClientKey)
    → (client_less a b ≡ false) × (client_less b a ≡ false)
    → (client_same a b ≡ true) ⊎ ((a.client_id == b.client_id) ≡ false)
unfolding client_less client_same
client_less-client_same a b h = ground (arith, h.0, h.1)
