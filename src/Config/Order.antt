-- ===== src/Config/Order.antt =====
-- The order of `std::string`, by the first byte that differs.
use zn_tunnel.Prelude.{
  ◌↔◌, subst, not, ◌&&◌, ◌≡◌, refl, [], ◌∷◌, Bool, true, false, ltb, if◌then◌else◌, arith,
}
use zn_tunnel.Containers.Order.{StrictOrder, Eq}
use zn_tunnel.Config.Text.{String}

unfoldable pub string_less : String → String → Bool
string_less a [] = false
string_less [] (d ∷ b) = true
string_less (c ∷ a) (d ∷ b) = if ltb c d then true else if ltb d c then false else string_less a b

string_less_irreflexive : (a : String) → string_less a a ≡ false
unfolding string_less
string_less_irreflexive [] = refl
string_less_irreflexive (c ∷ a) = ground (arith, string_less_irreflexive a)

string_less_transitive :
    (a b c : String) → string_less a b ≡ true → string_less b c ≡ true → string_less a c ≡ true
unfolding string_less
string_less_transitive a [] c p q = absurd (ground arith)
string_less_transitive a (y ∷ b) [] p q = absurd (ground arith)
string_less_transitive [] (y ∷ b) (z ∷ c) p q = refl
string_less_transitive (x ∷ a) (y ∷ b) (z ∷ c) p q = ground (arith, string_less_transitive a b c)

string_less_total : (a b : String) → string_less a b ≡ false → string_less b a ≡ false → a ≡ b
unfolding string_less
string_less_total [] [] p q = refl
string_less_total [] (d ∷ b) p q = absurd (ground arith)
string_less_total (c ∷ a) [] p q = absurd (ground arith)
string_less_total (c ∷ a) (d ∷ b) p q = ground (arith, string_less_total a b)

pub string_less-StrictOrder : StrictOrder string_less
string_less-StrictOrder = record {
  irreflexive = string_less_irreflexive;
  transitive = string_less_transitive;
  total = string_less_total;
}

-- Strings of which neither is less are the same.
unfoldable pub string_same : String → String → Bool
string_same a b = not (string_less a b) && not (string_less b a)

pub string_same_iff : (a b : String) → (string_same a b ≡ true) ↔ (a ≡ b)
unfolding string_same
string_same_iff a b = (
  λ h. string_less_total a b (ground (arith, h)) (ground (arith, h)),
  λ h. subst (λ (c : String). string_same a c ≡ true) h (ground (arith, string_less_irreflexive a)),
)

instance abbrev pub string_eq : Eq String
string_eq = record { same = string_same; same_iff = string_same_iff }
