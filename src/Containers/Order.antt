-- ===== src/Containers/Order.antt =====
-- Equality tests and strict orders: what the maps ask of their keys.
use zn_tunnel.Prelude.{
  ℕ, ◌≡◌, ◌↔◌, Bool, true, false, ltb, ◌==◌, ==_iff, arith, ◌∙◌, sym, refl, ◌≢◌,
}

-- `operator ==` of a type, which is its equality.
pub record Eq {ℓ} (A : Type ℓ) : Type ℓ where
  pub same : A → A → Bool
  pub same_iff : (a b : A) → (same a b ≡ true) ↔ (a ≡ b)

instance abbrev pub nat_eq : Eq ℕ
nat_eq = record { same = λ a b. a == b; same_iff = ==_iff }

-- The test that comes with the type.
abbrev pub same {ℓ} : {A : Type ℓ} ⦃e : Eq A⦄ → A → A → Bool
same ⦃e⦄ = e.same

-- What a `std::map` asks of its `operator <`.
pub record StrictOrder {ℓ} {K : Type ℓ} (less : K → K → Bool) : Type ℓ where
  pub irreflexive : (a : K) → less a a ≡ false
  pub transitive : (a b c : K) → less a b ≡ true → less b c ≡ true → less a c ≡ true
  pub total : (a b : K) → less a b ≡ false → less b a ≡ false → a ≡ b

pub ltb-StrictOrder : StrictOrder ltb
ltb-StrictOrder = record {
  irreflexive = λ a. ground arith;
  transitive = λ a b c p q. ground arith;
  total = λ a b p q. ground arith;
}

module _ {ℓ} {K : Type ℓ} {less : K → K → Bool} (o : StrictOrder less) where
  pub asymmetric : (a b : K) → less a b ≡ true → less b a ≡ false
  asymmetric a b h = go (less b a) refl
    where
      go : (t : Bool) → less b a ≡ t → t ≡ false
      go false e = refl
      go true e = sym (o.transitive a b a h e) ∙ o.irreflexive a

module _ {ℓ} {A : Type ℓ} ⦃e : Eq A⦄ where
  pub same_refl : (a : A) → same a a ≡ true
  same_refl a = (e.same_iff a a).1 refl

  pub same_ne : (a b : A) → a ≢ b → same a b ≡ false
  same_ne a b ne = go (same a b) refl
    where
      go : (t : Bool) → same a b ≡ t → t ≡ false
      go false q = refl
      go true q = absurd (ne ((e.same_iff a b).0 q))
