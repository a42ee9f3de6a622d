-- ===== src/Config/Line.antt =====
-- `ParseConfig::AnalyseLine`. Positions are ints there, and a line of 2 ^ 31 characters or more is left
-- undefined; a count of `substr` that comes out negative wraps at 64 bits.
use zn_tunnel.Prelude.{
  ℕ, suc, ◌+◌, ◌-◌, ◌^◌, ◌++◌, Option, none, some, if◌then◌else◌, ◌==◌, ltb, u64, ◌>>=◌, length,
  take, drop, Bool, true, false,
}
use zn_tunnel.Config.Text.{String, find_char, substr}
use zn_tunnel.Config.Trim.{trim}

-- '#', '[', ']', '=', '\r' and '\n'.
abbrev pub comment_char : ℕ
comment_char = 35

abbrev pub open_bracket : ℕ
open_bracket = 91

abbrev pub close_bracket : ℕ
close_bracket = 93

abbrev pub equals_sign : ℕ
equals_sign = 61

abbrev pub carriage_return : ℕ
carriage_return = 13

abbrev pub newline : ℕ
newline = 10

-- What AnalyseLine returns, and leaves in its reference arguments.
pub record Analysed : Type 0 where
  pub ok : Bool
  pub section : String
  pub key : String
  pub value : String

abbrev pub accept_line : String → String → String → Option Analysed
accept_line section key value =
    some (record { ok = true; section = section; key = key; value = value })

abbrev pub refuse_line : String → String → String → Option Analysed
refuse_line section key value =
    some (record { ok = false; section = section; key = key; value = value })

-- The first such character is taken out, unless the value begins with it.
unfoldable pub remove_break : ℕ → String → String
remove_break c value = elim (find_char c value) [
  | none ↦ value
  | some pos ↦ if ltb 0 pos then take pos value ++ drop (suc pos) value else value
]

-- From `Trim(key)` on.
unfoldable pub trim_entry : String → String → String → Option Analysed
trim_entry section key value = do
  trimmed_key ← trim key
  if length trimmed_key == 0 then refuse_line section trimmed_key value else do
    trimmed_value ← trim value
    accept_line section trimmed_key
        (remove_break newline (remove_break carriage_return trimmed_value))

-- From the search for '=' on.
unfoldable pub split_entry : String → ℕ → String → String → String → Option Analysed
split_entry new_line end_pos section key value = elim (find_char equals_sign new_line) [
  | none ↦ refuse_line section key value
  | some pos ↦ do
    left ← substr new_line 0 pos
    right ← substr new_line (suc pos) (u64 (2 ^ 64 + end_pos - pos))
    trim_entry section left right
]

-- From `new_line` on.
unfoldable pub analyse_entry : String → ℕ → String → String → String → Option Analysed
analyse_entry line end_pos section key value = do
  new_line ← substr line 0 (u64 (2 ^ 64 + 1 - end_pos))
  split_entry new_line end_pos section key value

-- The first '[' and the first ']' of a line that has both.
unfoldable pub brackets : String → Option (ℕ × ℕ)
brackets line = do
  s_startpos ← find_char open_bracket line
  s_endpos ← find_char close_bracket line
  some (s_startpos, s_endpos)

-- From the test for a section on.
unfoldable pub analyse_content : String → ℕ → String → String → String → Option Analysed
analyse_content line end_pos section key value = elim (brackets line) [
  | none ↦ analyse_entry line end_pos section key value
  | some found ↦ do
    name ← substr line (suc found.0) (u64 (2 ^ 64 + found.1 - 1))
    accept_line name key value
]

-- The body, on a line whose positions are ints.
unfoldable pub analyse_short : String → String → String → String → Option Analysed
analyse_short line section key value =
    if length line == 0 then refuse_line section key value else elim (find_char comment_char line) [
      | none ↦ analyse_content line (length line - 1) section key value
      | some pos ↦
          if pos == 0
          then refuse_line section key value
          else analyse_content line (pos - 1) section key value
    ]

unfoldable pub analyse_line : String → String → String → String → Option Analysed
unfolding analyse_short
analyse_line line section key value =
    if ltb (length line) (2 ^ 31) then analyse_short line section key value else none
