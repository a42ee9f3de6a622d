-- ===== src/Transmission/Json.antt =====
-- The JSON library, nlohmann::json, as the remote calls use it: its values are of any type, its
-- functions a parameter, with what is documented of them. Strings are lists of bytes.
use zn_tunnel.Prelude.{ℕ, ◌≡◌, List, [], ◌∷◌, Option, some, Bool, true, u8}

pub record Json (J : Type 0) : Type 0 where
  -- `dump()`, which throws for a string that is not UTF-8: none.
  pub dump : J → Option (List ℕ)
  -- `json::parse(text, nullptr, false)`: a discarded value for what is no JSON.
  pub parse : List ℕ → J
  pub is_object : J → Bool
  pub is_number_integer : J → Bool
  pub is_string : J → Bool
  -- `value[name]` of an object, null where there is no such member.
  pub member : J → List ℕ → J
  -- `get<uint8_t>()` and `get<std::string>()`, which throw for a value of another type: none.
  pub get_uint8 : J → Option ℕ
  pub get_string : J → Option (List ℕ)
  pub object : List (List ℕ × J) → J
  pub of_number : ℕ → J
  pub of_string : List ℕ → J

-- Names of members: "type", "username", "password", "error", "key", "iv".
pub data Name : Type 0 where
  type_name username password error key iv : Name

unfoldable pub name_bytes : Name → List ℕ
name_bytes type_name = 116 ∷ 121 ∷ 112 ∷ 101 ∷ []
name_bytes username = 117 ∷ 115 ∷ 101 ∷ 114 ∷ 110 ∷ 97 ∷ 109 ∷ 101 ∷ []
name_bytes password = 112 ∷ 97 ∷ 115 ∷ 115 ∷ 119 ∷ 111 ∷ 114 ∷ 100 ∷ []
name_bytes error = 101 ∷ 114 ∷ 114 ∷ 111 ∷ 114 ∷ []
name_bytes key = 107 ∷ 101 ∷ 121 ∷ []
name_bytes iv = 105 ∷ 118 ∷ []

module _ {J : Type 0} (json : Json J) where
  abbrev pub field : J → Name → J
  field v name = json.member v (name_bytes name)

  -- The objects that the remote calls make: of one number, of a number and two strings.
  abbrev pub number_object : Name → ℕ → J
  number_object name n = json.object ((name_bytes name, json.of_number n) ∷ [])

  abbrev pub call_object : Name → ℕ → Name → List ℕ → Name → List ℕ → J
  call_object a n b s c t = json.object (
      (name_bytes a, json.of_number n)
      ∷ (name_bytes b, json.of_string s)
      ∷ (name_bytes c, json.of_string t)
      ∷ [])

  -- What the library documents: a text that `dump` gives is parsed to the same value, and an
  -- object has the members that it is made of.
  pub record IsJson : Type 0 where
    pub parse_dump : (v : J) (text : List ℕ) → json.dump v ≡ some text → json.parse text ≡ v
    pub object_object : (members : List (List ℕ × J)) → json.is_object (json.object members) ≡ true
    pub member_first :
        (name : List ℕ) (v : J) (rest : List (List ℕ × J))
        → json.member (json.object ((name, v) ∷ rest)) name ≡ v
    pub member_later :
        (name other : List ℕ) (v : J) (rest : List (List ℕ × J))
        → (other ≡ name → ⊥)
        → json.member (json.object ((other, v) ∷ rest)) name ≡ json.member (json.object rest) name
    pub number_number : (n : ℕ) → json.is_number_integer (json.of_number n) ≡ true
    pub uint8_number : (n : ℕ) → json.get_uint8 (json.of_number n) ≡ some (u8 n)
    pub string_string : (s : List ℕ) → json.is_string (json.of_string s) ≡ true
    pub get_string_string : (s : List ℕ) → json.get_string (json.of_string s) ≡ some s
