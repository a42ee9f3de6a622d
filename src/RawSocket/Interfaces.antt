-- ===== src/RawSocket/Interfaces.antt =====
-- `RawSocketImpl::getInterfaces`, and `RawSocket::_useInterface`. `none` is an exception.
use zn_tunnel.Prelude.{
  ℕ, Bool, ◌&&◌, not, ◌≡◌, ◌≢◌, refl, List, [], ◌∷◌, Option, none, some, if◌then◌else◌, ◌>>=◌,
  arith, inl, inr, ◌⊎◌, Bool-cases, All, Option-cases,
}
use zn_tunnel.Containers.Order.{same}
use zn_tunnel.Config.Text.{String}
use zn_tunnel.Config.Order.{string_eq}

-- What `getifaddrs` lists, with what `getnameinfo` says of the address: none is a failure.
pub record IfAddr : Type 0 where
  pub has_address : Bool
  pub is_inet : Bool
  pub is_up : Bool
  pub is_loopback : Bool
  pub name : String
  pub host : Option ℕ

pub record InterfaceInfo : Type 0 where
  pub name : String
  pub address : ℕ

-- The interfaces that are up, with an address of IPv4, and no loopback.
unfoldable pub is_listed : IfAddr → Bool
is_listed cur = cur.has_address && cur.is_inet && cur.is_up && not cur.is_loopback

unfoldable pub list_interfaces : List IfAddr → Option (List InterfaceInfo)
list_interfaces [] = some []
list_interfaces (cur ∷ others) =
    let rest = list_interfaces others in
    if is_listed cur
    then (do
      host ← cur.host
      infos ← rest
      some (record { name = cur.name; address = host } ∷ infos))
    else rest

-- `getInterfaces()`; the list is none where `getifaddrs` fails.
unfoldable pub get_interfaces : Option (List IfAddr) → Option (List InterfaceInfo)
get_interfaces listed = listed >>= list_interfaces

unfoldable pub find_interface : String → List InterfaceInfo → Option InterfaceInfo
find_interface name [] = none
find_interface name (i ∷ rest) =
    let later = find_interface name rest in if same name i.name then some i else later

-- `_useInterface(name)`: the interface whose name and address it keeps.
unfoldable pub use_interface : List InterfaceInfo → String → Option InterfaceInfo
use_interface [] name = none
use_interface (i ∷ rest) [] = some i
use_interface (i ∷ rest) (c ∷ name) = find_interface (c ∷ name) (i ∷ rest)

-- The interface is the first of the list that has this name, where a name is asked for.
unfoldable pub IsFirstNamed : String → List InterfaceInfo → InterfaceInfo → Type 0
IsFirstNamed name [] found = ⊥
IsFirstNamed name (i ∷ rest) found =
    ((name ≡ i.name) × (found ≡ i)) ⊎ ((name ≢ i.name) × IsFirstNamed name rest found)

find_interface-IsFirstNamed :
    (name : String) (infos : List InterfaceInfo) (found : InterfaceInfo)
    → find_interface name infos ≡ some found
    → IsFirstNamed name infos found
unfolding find_interface IsFirstNamed
find_interface-IsFirstNamed name [] found h = absurd (ground arith)
find_interface-IsFirstNamed name (i ∷ rest) found h = elim (Bool-cases (same name i.name)) [
  | inl hit ↦ inl ((string_eq.same_iff name i.name).0 hit, ground (arith, hit, h))
  | inr miss ↦ inr (
    λ e. ground (arith, miss, (string_eq.same_iff name i.name).1 e),
    find_interface-IsFirstNamed name rest found (ground (arith, miss, h)),
  )
]

find_interface-none :
    (name : String) (infos : List InterfaceInfo)
    → find_interface name infos ≡ none
    → All (λ (i : InterfaceInfo). name ≢ i.name) infos
unfolding find_interface
find_interface-none name [] h = tt
find_interface-none name (i ∷ rest) h = elim (Bool-cases (same name i.name)) [
  | inl hit ↦ absurd (ground (arith, hit, h))
  | inr miss ↦ (
    λ e. ground (arith, miss, (string_eq.same_iff name i.name).1 e),
    find_interface-none name rest (ground (arith, miss, h)),
  )
]

-- With a name the first interface of that name is used, and it throws exactly where there is none.
pub use_interface-IsFirstNamed :
    (infos : List InterfaceInfo) (name : String)
    → name ≢ []
    → ((found : InterfaceInfo) × (use_interface infos name ≡ some found)
        × IsFirstNamed name infos found)
      ⊎ ((use_interface infos name ≡ none) × All (λ (i : InterfaceInfo). name ≢ i.name) infos)
unfolding use_interface
use_interface-IsFirstNamed infos [] n = absurd (n refl)
use_interface-IsFirstNamed [] (c ∷ name) n = inr (refl, tt)
use_interface-IsFirstNamed (i ∷ rest) (c ∷ name) n =
    elim (Option-cases (find_interface (c ∷ name) (i ∷ rest))) [
      | inl missing ↦ inr (missing, find_interface-none (c ∷ name) (i ∷ rest) missing)
      | inr (found, at) ↦
          inl (found, at, find_interface-IsFirstNamed (c ∷ name) (i ∷ rest) found at)
    ]
