-- ===== src/Containers/HashMap.antt =====
-- `std::unordered_map`: what it holds, by the equality of its keys. A hash that agrees with the
-- equality decides where entries are kept and nothing else.
use zn_tunnel.Prelude.{
  ◌≡◌, refl, List, [], ◌∷◌, Option, none, some, if◌then◌else◌, arith, ◌≢◌, inl, inr, Bool-cases,
  All, subst, sym,
}
use zn_tunnel.Containers.Order.{Eq, same, same_refl, same_ne}

module _ {ℓ κ} {K : Type ℓ} {V : Type κ} ⦃e : Eq K⦄ where
  unfoldable pub find : K → List (K × V) → Option V
  find k [] = none
  find k ((j, v) ∷ m) = if same j k then some v else find k m

  -- `m[k] = v`.
  unfoldable pub assign : K → V → List (K × V) → List (K × V)
  assign k v [] = (k, v) ∷ []
  assign k v ((j, w) ∷ m) = if same j k then (j, v) ∷ m else (j, w) ∷ assign k v m

  unfoldable pub erase : K → List (K × V) → List (K × V)
  erase k [] = []
  erase k ((j, w) ∷ m) = if same j k then erase k m else (j, w) ∷ erase k m

  pub find-assign_self : (k : K) (v : V) (m : List (K × V)) → find k (assign k v m) ≡ some v
  unfolding find assign
  find-assign_self k v [] = ground (arith, same_refl k)
  find-assign_self k v ((j, w) ∷ m) = ground (arith, find-assign_self k v m)

  pub find-assign_ne :
      (k j : K) (v : V) (m : List (K × V)) → k ≢ j → find j (assign k v m) ≡ find j m
  unfolding find assign
  find-assign_ne k j v [] ne = ground (arith, same_ne k j ne)
  find-assign_ne k j v ((i, w) ∷ m) ne =
      ground (arith, find-assign_ne k j v m ne, e.same_iff i k, e.same_iff i j)

  pub find-erase_self : (k : K) (m : List (K × V)) → find k (erase k m) ≡ none
  unfolding find erase
  find-erase_self k [] = refl
  find-erase_self k ((j, w) ∷ m) = ground (arith, find-erase_self k m)

  pub find-erase_ne : (k j : K) (m : List (K × V)) → k ≢ j → find j (erase k m) ≡ find j m
  unfolding find erase
  find-erase_ne k j [] ne = refl
  find-erase_ne k j ((i, w) ∷ m) ne =
      ground (arith, find-erase_ne k j m ne, e.same_iff i k, e.same_iff i j)

  pub find-erase-none : (k j : K) (m : List (K × V)) → find k m ≡ none → find k (erase j m) ≡ none
  unfolding find erase
  find-erase-none k j [] h = refl
  find-erase-none k j ((i, w) ∷ m) h = ground (arith, find-erase-none k j m)

  -- A property of the entries, of the new one among them, holds after an assignment.
  pub All-assign {μ} :
      (P : K × V → Type μ) (k : K) (v : V) (m : List (K × V))
      → P (k, v)
      → All P m
      → All P (assign k v m)
  unfolding assign
  All-assign P k v [] h a = (h, tt)
  All-assign P k v ((j, w) ∷ m) h a = elim (Bool-cases (same j k)) [
    | inl hit ↦ rw hit (subst (λ (i : K). P (i, v)) (sym ((e.same_iff j k).0 hit)) h, a.1)
    | inr miss ↦ rw miss (a.0, All-assign P k v m h a.1)
  ]

  pub All-erase {μ} : (P : K × V → Type μ) (k : K) (m : List (K × V)) → All P m → All P (erase k m)
  unfolding erase
  All-erase P k [] a = tt
  All-erase P k ((j, w) ∷ m) a = elim (Bool-cases (same j k)) [
    | inl hit ↦ rw hit (All-erase P k m a.1)
    | inr miss ↦ rw miss (a.0, All-erase P k m a.1)
  ]

  -- What is found stands among the entries.
  pub find-All {μ} :
      (P : K × V → Type μ) (k : K) {v : V} (m : List (K × V))
      → find k m ≡ some v
      → All P m
      → P (k, v)
  unfolding find
  find-All P k [] h a = cc
  find-All P k {v} ((j, w) ∷ m) h a = elim (Bool-cases (same j k)) [
    | inl hit ↦
        let entry : ◌≡◌ {A = K × V} (j, w) (k, v) = ground (arith, (e.same_iff j k).0 hit) in
        subst P entry a.0
    | inr miss ↦ find-All P k m (ground (arith, miss)) a.1
  ]
