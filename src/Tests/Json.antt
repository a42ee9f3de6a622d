-- ===== src/Tests/Json.antt =====
-- A JSON library that keeps its values as their texts, to run the remote calls on: numbers, strings
-- and objects, with their lengths in front.
use zn_tunnel.Prelude.{
  ℕ, zero, suc, ◌≤◌, ◌≡◌, refl, ap, ◌∙◌, List, [], ◌∷◌, ◌++◌, Option, none, some, Bool, true, false,
  if◌then◌else◌, ◌==◌, arith, length, take, drop, length-append, u8,
}
use zn_tunnel.Containers.Order.{same, same_refl, same_ne}
use zn_tunnel.Config.Text.{take-append, drop-append}
use zn_tunnel.Config.Order.{string_eq}
use zn_tunnel.Transmission.Json.{Json, IsJson}

unfoldable pub pack : List (List ℕ × List ℕ) → List ℕ
pack [] = []
pack ((name, v) ∷ members) = length name ∷ (name ++ length v ∷ (v ++ pack members))

-- The value behind a name, or what comes later.
unfoldable pub take_value : Bool → (List ℕ → List ℕ) → List ℕ → List ℕ
take_value hit later [] = 0 ∷ []
take_value hit later (n ∷ s) = let rest = later (drop n s) in if hit then take n s else rest

unfoldable pub seek : ℕ → List ℕ → List ℕ → List ℕ
seek zero name s = 0 ∷ []
seek (suc fuel) name [] = 0 ∷ []
seek (suc fuel) name (n ∷ s) = take_value (same (take n s) name) (seek fuel name) (drop n s)

unfoldable pub find_member : List ℕ → List ℕ → List ℕ
find_member [] name = 0 ∷ []
find_member (kind ∷ s) name = if kind == 1 then seek (length s) name s else 0 ∷ []

length-drop : (n : ℕ) (s : List ℕ) → length (drop n s) ≤ length s
length-drop zero s = omega arith
length-drop (suc n) [] = omega arith
length-drop (suc n) (x ∷ s) = omega (arith, length-drop n s)

take_value_cong :
    (hit : Bool) (f g : List ℕ → List ℕ) (s : List ℕ)
    → ((t : List ℕ) → length t ≤ length s → f t ≡ g t)
    → take_value hit f s ≡ take_value hit g s
unfolding take_value
take_value_cong hit f g [] h = refl
take_value_cong true f g (n ∷ s) h = refl
take_value_cong false f g (n ∷ s) h = h (drop n s) (omega (arith, length-drop n s))

-- Fuel for the whole text is enough.
seek_enough :
    (fuel more : ℕ) (name s : List ℕ)
    → length s ≤ fuel
    → length s ≤ more
    → seek fuel name s ≡ seek more name s
unfolding seek
seek_enough zero zero name [] h k = refl
seek_enough zero (suc more) name [] h k = refl
seek_enough (suc fuel) zero name [] h k = refl
seek_enough (suc fuel) (suc more) name [] h k = refl
seek_enough zero more name (n ∷ s) h k = absurd (omega arith)
seek_enough (suc fuel) zero name (n ∷ s) h k = absurd (omega arith)
seek_enough (suc fuel) (suc more) name (n ∷ s) h k =
    take_value_cong (same (take n s) name) (seek fuel name) (seek more name) (drop n s) (λ t le.
      seek_enough fuel more name t (omega (arith, le, length-drop n s, h))
        (omega (arith, le, length-drop n s, k)))

seek-pack :
    (fuel : ℕ) (name other v : List ℕ) (members : List (List ℕ × List ℕ))
    → seek (suc fuel) name (pack ((other, v) ∷ members))
      ≡ (if same other name then v else seek fuel name (pack members))
unfolding seek pack take_value
seek-pack fuel name other v members =
    let tail = v ++ pack members in
    rw (take-append other (length v ∷ tail), drop-append other (length v ∷ tail))
      (rw (take-append v (pack members), drop-append v (pack members)) refl)

member_lem :
    (name other v : List ℕ) (members : List (List ℕ × List ℕ))
    → find_member (1 ∷ pack ((other, v) ∷ members)) name
      ≡ (if same other name then v else find_member (1 ∷ pack members) name)
unfolding find_member pack
member_lem name other v members =
    let tail = v ++ pack members in
    let fuel = length (other ++ length v ∷ tail) in
    let enough : length (pack members) ≤ fuel =
      omega (arith, length-append other (length v ∷ tail), length-append v (pack members)) in
    seek-pack fuel name other v members
    ∙ ap (λ (later : List ℕ). if same other name then v else later)
        (seek_enough fuel (length (pack members)) name (pack members) enough (omega arith))

-- Kinds: 1 is an object, 2 a number, 3 a string.
unfoldable pub is_kind : ℕ → List ℕ → Bool
is_kind kind [] = false
is_kind kind (k ∷ v) = k == kind

unfoldable pub number_of : List ℕ → Option ℕ
number_of (k ∷ n ∷ v) = if k == 2 then some (u8 n) else none
number_of v = none

unfoldable pub string_of : List ℕ → Option (List ℕ)
string_of [] = none
string_of (k ∷ v) = if k == 3 then some v else none

abbrev pub plain_json : Json (List ℕ)
plain_json = record {
  dump = λ v. some v;
  parse = λ text. text;
  is_object = is_kind 1;
  is_number_integer = is_kind 2;
  is_string = is_kind 3;
  member = find_member;
  get_uint8 = number_of;
  get_string = string_of;
  object = λ members. 1 ∷ pack members;
  of_number = λ n. 2 ∷ n ∷ [];
  of_string = λ s. 3 ∷ s;
}

pub plain_json-IsJson : IsJson plain_json
unfolding is_kind number_of string_of
plain_json-IsJson = record {
  parse_dump = λ v text h. ground (arith, h);
  object_object = λ members. refl;
  member_first = λ name v rest. member_lem name name v rest ∙ rw (same_refl name) refl;
  member_later =
      λ name other v rest ne. member_lem name other v rest ∙ rw (same_ne other name ne) refl;
  number_number = λ n. refl;
  uint8_number = λ n. refl;
  string_string = λ s. refl;
  get_string_string = λ s. refl;
}
