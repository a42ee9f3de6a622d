-- ===== src/Config/File.antt =====
-- `ParseConfig::ReadConfig` and the lookups.
use Prim.Native.Nat.{◌*◌}
use zn_tunnel.Prelude.{
  ℕ, ◌+◌, ◌-◌, ◌^◌, List, [], ◌∷◌, Option, none, some, if◌then◌else◌, ◌==◌, leb, ◌>>=◌, Bool, true,
  false, ◌&&◌, ◌||◌, ℤ, pos, neg_ℤ, leb_ℤ, negsuc,
}
use zn_tunnel.Containers.OrderedMap.{find, assign}
use zn_tunnel.Config.Text.{String}
use zn_tunnel.Config.Order.{string_less}
use zn_tunnel.Config.Line.{Analysed, analyse_line, newline}

-- The lines that `getline` takes from a text, one after the other.
unfoldable pub add_character : ℕ → List String → List String
add_character c [] = (c ∷ []) ∷ []
add_character c (line ∷ lines) = (c ∷ line) ∷ lines

unfoldable pub get_lines : String → List String
get_lines [] = []
get_lines (c ∷ text) =
    let rest = get_lines text in if c == newline then [] ∷ rest else add_character c rest

abbrev pub Items : Type 0
Items = List (String × String)

abbrev pub Settings : Type 0
Settings = List (String × Items)

-- The member `settings_`, and the variables that live through the loop of ReadConfig.
pub record ReadState : Type 0 where
  pub settings : Settings
  pub section : String
  pub key : String
  pub value : String
  pub k_v : Items

-- What ReadConfig does with a line that AnalyseLine accepts.
unfoldable pub store_entry : String → String → String → Settings → Items → ReadState
store_entry section key value settings k_v = elim (find string_less section settings) [
  | some known ↦
      let items = assign string_less key value k_v in
      record {
        settings = assign string_less section items settings;
        section = section;
        key = [];
        value = [];
        k_v = items;
      }
  | none ↦ record {
    settings = assign string_less section [] settings;
    section = section;
    key = [];
    value = [];
    k_v = [];
  }
]

-- One turn of the loop, from the answer of AnalyseLine on.
unfoldable pub after_line : Analysed → ReadState → ReadState
after_line a r =
    if a.ok
    then store_entry a.section a.key a.value r.settings r.k_v
    else record { settings = r.settings; section = a.section; key = []; value = []; k_v = r.k_v }

unfoldable pub read_line : String → ReadState → Option ReadState
read_line line r = do a ← analyse_line line r.section r.key r.value; some (after_line a r)

unfoldable pub read_lines : List String → ReadState → Option ReadState
read_lines [] r = some r
read_lines (line ∷ lines) r = read_line line r >>= read_lines lines

abbrev pub new_state : ReadState
new_state = record { settings = []; section = []; key = []; value = []; k_v = [] }

-- The file's text, none where it cannot be opened. The answer, and `settings_` after it.
unfoldable pub read_config : Option String → Option (Bool × Settings)
read_config none = some (false, [])
read_config (some text) = do r ← read_lines (get_lines text) new_state; some (true, r.settings)

-- The two searches that the lookups begin with.
unfoldable pub find_item : Settings → String → String → Option String
find_item settings section item = do
  k_v ← find string_less section settings
  find string_less item k_v

unfoldable pub read_string_item : Settings → String → String → String → String
read_string_item settings section item default_value = elim (find_item settings section item) [
  | none ↦ default_value
  | some value ↦ value
]

-- `atoi`: white space, a sign, digits. none is a number that no int holds.
unfoldable pub skip_white : String → String
skip_white [] = []
skip_white (c ∷ s) =
    let rest = skip_white s in if c == 32 || leb 9 c && leb c 13 then rest else c ∷ s

unfoldable pub digits : ℕ → String → ℕ
digits n [] = n
digits n (c ∷ s) =
    let more = digits (n * 10 + (c - 48)) s in if leb 48 c && leb c 57 then more else n

unfoldable pub in_int : ℤ → Option ℤ
in_int n = if leb_ℤ (negsuc (2 ^ 31 - 1)) n && leb_ℤ n (pos (2 ^ 31 - 1)) then some n else none

unfoldable pub signed_digits : String → ℤ
signed_digits [] = pos 0
signed_digits (c ∷ s) =
    if c == 45
    then neg_ℤ (pos (digits 0 s))
    else if c == 43
    then pos (digits 0 s)
    else pos (digits 0 (c ∷ s))

unfoldable pub atoi : String → Option ℤ
atoi s = in_int (signed_digits (skip_white s))

unfoldable pub read_int : Settings → String → String → ℤ → Option ℤ
read_int settings section item default_value = elim (find_item settings section item) [
  | none ↦ some default_value
  | some value ↦ atoi value
]

-- `atof`, which reads a float, is `parse`.
unfoldable pub read_float {ℓ} :
    {Float : Type ℓ} → (String → Float) → Settings → String → String → Float → Float
read_float parse settings section item default_value = elim (find_item settings section item) [
  | none ↦ default_value
  | some value ↦ parse value
]
