-- ===== src/Config/Written.antt =====
-- A configuration as it is written, section by section, and what ReadConfig makes of its lines.
use zn_tunnel.Prelude.{
  ℕ, ◌+◌, ◌^◌, ◌<◌, ◌≡◌, ◌≢◌, refl, ap, ◌∙◌, List, [], ◌∷◌, ◌++◌, none, some, length, length-append,
  take, All, false, arith,
}
use zn_tunnel.Containers.OrderedMap.{find, assign, find-assign_self, assign_twice}
use zn_tunnel.Config.Text.{String, Without, take-append}
use zn_tunnel.Config.Order.{string_less, string_less-StrictOrder, string_eq}
use zn_tunnel.Config.Trim.{strip}
use zn_tunnel.Config.Line.{
  accept_line, analyse_line, open_bracket, close_bracket, carriage_return, newline, remove_break,
}
use zn_tunnel.Config.Laws.{entry_line, IsEntryLine, analyse_line_entry, analyse_line_section}
use zn_tunnel.Config.File.{
  ReadState, Items, Settings, add_character, get_lines, store_entry, after_line, read_line,
}

-- The text that has these lines.
unfoldable pub text_of : List String → String
text_of [] = []
text_of (line ∷ lines) = line ++ newline ∷ text_of lines

get_lines_first :
    (line rest : String)
    → Without newline line
    → get_lines (line ++ newline ∷ rest) ≡ line ∷ get_lines rest
unfolding get_lines add_character Without
get_lines_first [] rest w = refl
get_lines_first (c ∷ line) rest w = ground (arith, get_lines_first line rest w.1, w.0)

pub get_lines-text_of :
    (lines : List String) → All (Without newline) lines → get_lines (text_of lines) ≡ lines
unfolding text_of get_lines
get_lines-text_of [] w = refl
get_lines-text_of (line ∷ lines) w =
    get_lines_first line (text_of lines) w.0
    ∙ ap (λ (ls : List String). line ∷ ls) (get_lines-text_of lines w.1)

-- A section with its name, and its items as they are written.
abbrev pub Block : Type 0
Block = String × List (String × String)

abbrev pub section_line : String → String
section_line name = open_bracket ∷ (name ++ close_bracket ∷ [])

unfoldable pub item_lines : List (String × String) → List String
item_lines [] = []
item_lines ((key, value) ∷ items) = entry_line key value none ∷ item_lines items

unfoldable pub block_lines : List Block → List String
block_lines [] = []
block_lines ((name, items) ∷ blocks) = section_line name ∷ (item_lines items ++ block_lines blocks)

-- What is kept of a value.
abbrev pub read_value : String → String
read_value value = remove_break newline (remove_break carriage_return (strip value))

unfoldable pub add_items : List (String × String) → Items → Items
add_items [] k_v = k_v
add_items ((key, value) ∷ items) k_v =
    add_items items (assign string_less (strip key) (read_value value) k_v)

unfoldable pub add_blocks : List Block → Settings → Settings
add_blocks [] settings = settings
add_blocks ((name, items) ∷ blocks) settings =
    add_blocks blocks (assign string_less name (add_items items []) settings)

pub record IsBlock (block : Block) : Type 0 where
  pub plain_name : Without close_bracket block.0
  pub short_name : length block.0 < 2 ^ 30
  pub entries : All (λ (item : String × String). IsEntryLine item.0 item.1 none) block.1

-- No two sections have the same name.
unfoldable pub Distinct : List Block → Type 0
Distinct [] = Unit
Distinct (block ∷ blocks) = All (λ (later : Block). block.0 ≢ later.0) blocks × Distinct blocks

unfoldable pub at_section : String → Items → Settings → ReadState
at_section section k_v settings = record {
  settings = settings;
  section = section;
  key = [];
  value = [];
  k_v = k_v;
}

pub less_self : (s : String) → string_less s s ≡ false
less_self s = string_less-StrictOrder.irreflexive s

pub read_line_entry :
    (key value section : String) (k_v : Items) (settings : Settings)
    → IsEntryLine key value none
    → read_line
        (entry_line key value none)
        (at_section section k_v (assign string_less section k_v settings))
      ≡ some (
          at_section section (assign string_less (strip key) (read_value value) k_v) (
            assign string_less section
              (assign string_less (strip key) (read_value value) k_v)
              settings))
unfolding read_line at_section after_line store_entry
read_line_entry key value section k_v settings e =
    rw (analyse_line_entry key value none section [] [] e) (
      rw
        (
          store_entry,
          find-assign_self string_less section k_v settings (less_self section),
          assign_twice string_less section (assign string_less (strip key) (read_value value) k_v)
              k_v settings (less_self section),
        )
        refl)

pub analyse_line-section_line :
    (name section key value : String)
    → Without close_bracket name
    → length name < 2 ^ 30
    → analyse_line (section_line name) section key value ≡ accept_line name key value
unfolding Without
analyse_line-section_line name section key value plain short =
    let size : 0 + length name ≡ length name = omega arith in
    let named : take (0 + length name) (name ++ close_bracket ∷ []) ≡ name =
      ap (λ (n : ℕ). take n (name ++ close_bracket ∷ [])) size
      ∙ take-append name (close_bracket ∷ []) in
    rw
      (
        analyse_line_section [] name [] section key value tt tt (refl, plain)
            (omega (arith, length-append name (close_bracket ∷ []), short)),
        named,
      )
      refl

pub read_line_name :
    (name section : String) (k_v : Items) (settings : Settings)
    → Without close_bracket name
    → length name < 2 ^ 30
    → find string_less name settings ≡ none
    → read_line (section_line name) (at_section section k_v settings)
      ≡ some (at_section name [] (assign string_less name [] settings))
unfolding read_line at_section after_line store_entry
read_line_name name section k_v settings plain short fresh =
    rw (analyse_line-section_line name section [] [] plain short) (rw (store_entry, fresh) refl)
