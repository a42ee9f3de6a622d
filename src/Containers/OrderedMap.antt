-- ===== src/Containers/OrderedMap.antt =====
-- `std::map`: the entries in order, and the tests that a search makes. A search looks for the first
-- entry that is not less than the key, as `lower_bound` does.
use zn_tunnel.Prelude.{
  ◌≡◌, refl, subst, Bool, true, false, List, [], ◌∷◌, Option, none, some, if◌then◌else◌, arith, ◌≢◌,
}
use zn_tunnel.Containers.Order.{StrictOrder, asymmetric}

module _ {ℓ κ} {K : Type ℓ} {V : Type κ} (less : K → K → Bool) where
  unfoldable pub find : K → List (K × V) → Option V
  find k [] = none
  find k ((j, v) ∷ m) = if less j k then find k m else if less k j then none else some v

  -- `m[k] = v`.
  unfoldable pub assign : K → V → List (K × V) → List (K × V)
  assign k v [] = (k, v) ∷ []
  assign k v ((j, w) ∷ m) =
      if less j k
      then (j, w) ∷ assign k v m
      else if less k j
      then (k, v) ∷ (j, w) ∷ m
      else (j, v) ∷ m

  unfoldable pub erase : K → List (K × V) → List (K × V)
  erase k [] = []
  erase k ((j, w) ∷ m) = if less j k then (j, w) ∷ erase k m else if less k j then (j, w) ∷ m else m

  -- Every key is above `k`.
  abbrev pub Above : K → List (K × V) → Type 0
  Above k [] = Unit
  Above k ((j, w) ∷ m) = (less k j ≡ true) × Above k m

  abbrev pub Sorted : List (K × V) → Type 0
  Sorted [] = Unit
  Sorted ((j, w) ∷ m) = Above j m × Sorted m

module _ {ℓ κ} {K : Type ℓ} {V : Type κ} (less : K → K → Bool) where
  pub find-assign_self :
      (k : K) (v : V) (m : List (K × V))
      → less k k ≡ false
      → find less k (assign less k v m) ≡ some v
  unfolding find assign
  find-assign_self k v [] h = ground arith
  find-assign_self k v ((j, w) ∷ m) h = ground (arith, find-assign_self k v m h)

  -- The later value is the one that stays.
  pub assign_twice :
      (k : K) (v w : V) (m : List (K × V))
      → less k k ≡ false
      → assign less k v (assign less k w m) ≡ assign less k v m
  unfolding assign
  assign_twice k v w [] h = ground arith
  assign_twice k v w ((j, u) ∷ m) h = ground (arith, assign_twice k v w m h)

module _ {ℓ κ} {K : Type ℓ} {V : Type κ} (less : K → K → Bool) (o : StrictOrder less) where
  Above-trans : (i j : K) (m : List (K × V)) → less i j ≡ true → Above less j m → Above less i m
  Above-trans i j [] h a = tt
  Above-trans i j ((k, w) ∷ m) h a = (o.transitive i j k h a.0, Above-trans i j m h a.1)

  pub find-Above : (k : K) (m : List (K × V)) → Above less k m → find less k m ≡ none
  unfolding find
  find-Above k [] a = refl
  find-Above k ((j, w) ∷ m) a = ground (arith, asymmetric o k j, find-Above k m a.1)

  pub find-assign_ne :
      (k j : K) (v : V) (m : List (K × V)) → k ≢ j → find less j (assign less k v m) ≡ find less j m
  unfolding find assign
  find-assign_ne k j v [] ne = ground (arith, o.total k j)
  find-assign_ne k j v ((i, w) ∷ m) ne = ground (
    arith,
    find-assign_ne k j v m ne,
    o.total k j,
    o.transitive j k i,
    asymmetric o j i,
    asymmetric o j k,
    o.total i k,
    o.transitive i k j,
    asymmetric o k j,
  )

  assign-Above :
      (i k : K) (v : V) (m : List (K × V))
      → less i k ≡ true
      → Above less i m
      → Above less i (assign less k v m)
  unfolding assign
  assign-Above i k v [] h a = (h, tt)
  assign-Above i k v ((j, w) ∷ m) h a = ground (arith, assign-Above i k v m h a.1)

  pub assign-Sorted :
      (k : K) (v : V) (m : List (K × V)) → Sorted less m → Sorted less (assign less k v m)
  unfolding assign
  assign-Sorted k v [] s = (tt, tt)
  assign-Sorted k v ((j, w) ∷ m) s =
      ground (arith, assign-Sorted k v m s.1, assign-Above j k v m, Above-trans k j m)

  erase-Above : (i k : K) (m : List (K × V)) → Above less i m → Above less i (erase less k m)
  unfolding erase
  erase-Above i k [] a = tt
  erase-Above i k ((j, w) ∷ m) a = ground (arith, erase-Above i k m a.1)

  pub erase-Sorted : (k : K) (m : List (K × V)) → Sorted less m → Sorted less (erase less k m)
  unfolding erase
  erase-Sorted k [] s = tt
  erase-Sorted k ((j, w) ∷ m) s = ground (arith, erase-Sorted k m s.1, erase-Above j k m s.0)

  pub find-erase_self :
      (k : K) (m : List (K × V)) → Sorted less m → find less k (erase less k m) ≡ none
  unfolding find erase
  find-erase_self k [] s = refl
  find-erase_self k ((j, w) ∷ m) s = ground (
    arith,
    find-erase_self k m s.1,
    o.total j k,
    λ (e : j ≡ k). find-Above k m (subst (λ (x : K). Above less x m) e s.0),
  )

  pub find-erase_ne :
      (k j : K) (m : List (K × V))
      → Sorted less m
      → k ≢ j
      → find less j (erase less k m) ≡ find less j m
  unfolding find erase
  find-erase_ne k j [] s ne = refl
  find-erase_ne k j ((i, w) ∷ m) s ne = ground (
    arith,
    find-erase_ne k j m s.1 ne,
    o.total i k,
    o.total i j,
    λ (h : less j i ≡ true). find-Above j m (Above-trans j i m h s.0),
  )
