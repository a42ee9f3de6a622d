-- ===== src/Tests/Configs.antt =====
-- ParseConfig.cc: a configuration of two sections.
use zn_tunnel.Config.File.{in_int, signed_digits, skip_white, digits}
use zn_tunnel.Config.Line.{analyse_content, brackets}
use zn_tunnel.Config.Line.{analyse_content, brackets, analyse_entry, split_entry, trim_entry}
use zn_tunnel.Prelude.{◌≡◌, refl, List, [], ◌∷◌, none, some, true, arith, All, negsuc}
use zn_tunnel.Config.Text.{String, Without, find_char, substr}
use zn_tunnel.Config.Trim.{
  trim, trim_short, strip, trim-strip, drop_front, drop_back, keep_back, is_space, scan_front,
  scan_back,
}
use zn_tunnel.Config.Line.{analyse_line, analyse_short, accept_line, remove_break}
use zn_tunnel.Config.Entry.{read_entry}
use zn_tunnel.Config.Laws.{entry_line, IsEntryLine, analyse_line_entry}
use zn_tunnel.Config.File.{Settings, get_lines, add_character, read_config, read_string_item, atoi}
use zn_tunnel.Config.Total.{is_open, read_config_returns}
use zn_tunnel.Config.Written.{Block, IsBlock, Distinct, block_lines, item_lines, text_of}
use zn_tunnel.Config.RoundTrip.{written_value, read_string_item-read_config}

-- " k " and " 7".
abbrev key_text : String
key_text = 32 ∷ 107 ∷ 32 ∷ []

abbrev value_text : String
value_text = 32 ∷ 55 ∷ []

key_trimmed : trim key_text ≡ some (107 ∷ [])
unfolding trim trim_short scan_front is_space substr scan_back
key_trimmed = refl

trim-strip_example : trim key_text ≡ some (strip key_text)
trim-strip_example = trim-strip key_text (omega arith)

line-IsEntryLine : IsEntryLine key_text value_text none
unfolding Without drop_front drop_back keep_back is_space
line-IsEntryLine = record {
  named = λ e. ground (arith, e);
  no_equals = (refl, (refl, (refl, tt)));
  no_comment_key = (refl, (refl, (refl, tt)));
  no_comment_value = (refl, (refl, tt));
  no_bracket = (refl, (refl, (refl, (refl, (refl, (refl, tt))))));
  long = omega arith;
  short = omega arith;
}

analyse_line_entry_example :
    analyse_line (entry_line key_text value_text none) [] [] [] ≡ read_entry [] key_text value_text
analyse_line_entry_example = analyse_line_entry key_text value_text none [] [] [] line-IsEntryLine

-- "k=1#x" in a line that has a value and a comment, and "abc#k=1", whose entry is in its comment.
commented_line :
    analyse_line (107 ∷ 61 ∷ 49 ∷ 35 ∷ 120 ∷ []) [] [] [] ≡ accept_line [] (107 ∷ []) (49 ∷ [])
unfolding analyse_line analyse_short find_char analyse_content brackets analyse_entry substr
    split_entry trim_entry trim trim_short scan_front is_space scan_back remove_break
commented_line = refl

-- "a:1" is no section; "  [ab]" gets the name "ab]".
section_beyond : analyse_line (32 ∷ 91 ∷ 97 ∷ 93 ∷ []) [] [] [] ≡ accept_line (97 ∷ 93 ∷ []) [] []
unfolding analyse_line analyse_short find_char analyse_content brackets substr
section_beyond = refl

-- "[a]" with " k = 7" twice over, behind "[b]".
abbrev items : List (String × String)
items = (key_text, value_text) ∷ []

abbrev blocks : List Block
blocks = (98 ∷ [], []) ∷ (97 ∷ [], items) ∷ []

blocks-IsBlock : All IsBlock blocks
unfolding Without
blocks-IsBlock = (
  record { plain_name = (refl, tt); short_name = omega arith; entries = tt },
  (
    record { plain_name = (refl, tt); short_name = omega arith; entries = (line-IsEntryLine, tt) },
    tt,
  ),
)

blocks-Distinct : Distinct blocks
unfolding Distinct
blocks-Distinct = ((λ e. ground (arith, e), tt), ((tt, tt)))

lines : All (Without 10) (block_lines blocks)
unfolding block_lines item_lines Without
lines = (
  (refl, (refl, (refl, tt))),
  ((refl, (refl, (refl, tt))), ((refl, (refl, (refl, (refl, (refl, (refl, tt)))))), tt)),
)

read_string_item-read_config_example :
    (settings : Settings) × (read_config (some (text_of (block_lines blocks)))
      ≡ some (true, settings))
    × (read_string_item settings (97 ∷ []) (107 ∷ []) [] ≡ written_value (107 ∷ []) items [])
read_string_item-read_config_example =
    read_string_item-read_config ((98 ∷ [], []) ∷ []) (97 ∷ []) items [] (107 ∷ []) []
      blocks-IsBlock blocks-Distinct lines

read_config_returns_example :
    (settings : Settings) × (read_config (some (91 ∷ 97 ∷ 10 ∷ 61 ∷ 10 ∷ []))
      ≡ some (is_open (some (91 ∷ 97 ∷ 10 ∷ 61 ∷ 10 ∷ [])), settings))
unfolding get_lines add_character
read_config_returns_example =
    read_config_returns (some (91 ∷ 97 ∷ 10 ∷ 61 ∷ 10 ∷ [])) (omega arith, (omega arith, tt))

-- " -12x", and a number that no int holds.
numbers :
    (atoi (32 ∷ 45 ∷ 49 ∷ 50 ∷ 120 ∷ []) ≡ some (negsuc 11))
    × (atoi (57 ∷ 57 ∷ 57 ∷ 57 ∷ 57 ∷ 57 ∷ 57 ∷ 57 ∷ 57 ∷ 57 ∷ []) ≡ none)
unfolding atoi in_int signed_digits skip_white digits
numbers = (refl, refl)
