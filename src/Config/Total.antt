-- ===== src/Config/Total.antt =====
-- No line and no file makes the reader throw.
use zn_tunnel.Prelude.{
  ℕ, All, zero, suc, ◌+◌, ◌-◌, ◌<◌, ◌≤◌, ◌≡◌, refl, List, [], ◌∷◌, Option, none, some, ◌==◌, length,
  take, drop, u64, ◌^◌, ◌≢◌, Bool, true, false, arith, inl, inr, Option-cases, Bool-cases,
}
use zn_tunnel.Config.Text.{String, find_char, substr}
use zn_tunnel.Config.Trim.{strip, trim-strip}
use zn_tunnel.Config.Line.{
  comment_char, open_bracket, close_bracket, equals_sign, brackets, trim_entry, split_entry,
  analyse_entry, analyse_content, analyse_short, analyse_line,
}
use zn_tunnel.Config.File.{
  ReadState, Settings, after_line, read_line, read_lines, read_config, get_lines, new_state,
}

find_char-lt : (c : ℕ) (s : String) {i : ℕ} → find_char c s ≡ some i → i < length s
unfolding find_char
find_char-lt c [] h = absurd (ground arith)
find_char-lt c (d ∷ s) {i} h = elim (Option-cases (find_char c s)) [
  | inl free ↦ ground (arith, h, free)
  | inr (j, at) ↦ ground (arith, h, at, find_char-lt c s at)
]

length-take : (n : ℕ) (s : String) → length (take n s) ≤ length s
length-take zero s = omega arith
length-take (suc n) [] = omega arith
length-take (suc n) (c ∷ s) = omega (arith, length-take n s)

length-drop : (n : ℕ) (s : String) → length (drop n s) ≤ length s
length-drop zero s = omega arith
length-drop (suc n) [] = omega arith
length-drop (suc n) (c ∷ s) = omega (arith, length-drop n s)

substr-some :
    (s : String) (pos count : ℕ)
    → pos ≤ length s
    → (part : String) × (substr s pos count ≡ some part) × (length part ≤ length s)
unfolding substr
substr-some s pos count h = (
  take count (drop pos s),
  ground (arith, h),
  omega (arith, length-take count (drop pos s), length-drop pos s),
)

trim_entry_returns :
    (section key value : String)
    → length key < 2 ^ 31
    → length value < 2 ^ 31
    → trim_entry section key value ≢ none
unfolding trim_entry
trim_entry_returns section key value short_key short_value =
    elim (Bool-cases (length (strip key) == 0)) [
      | inl blank ↦ rw (trim-strip key short_key, blank) (λ h. ground (arith, h))
      | inr named ↦
          rw (trim-strip key short_key, named, trim-strip value short_value)
            (λ h. ground (arith, h))
    ]

split_entry_returns :
    (new_line : String) (end_pos : ℕ) (section key value : String)
    → length new_line < 2 ^ 31
    → split_entry new_line end_pos section key value ≢ none
unfolding split_entry
split_entry_returns new_line end_pos section key value short =
    elim (Option-cases (find_char equals_sign new_line)) [
      | inl free ↦ rw (split_entry, free) (λ h. ground (arith, h))
      | inr (pos, at) ↦
          let inside : pos < length new_line = find_char-lt equals_sign new_line at in
          let left = substr-some new_line 0 pos (omega arith) in
          let right = substr-some new_line (suc pos) (u64 (2 ^ 64 + end_pos - pos)) inside in
          rw (split_entry, at)
            (rw (left.1, right.1)
              (trim_entry_returns section left.0 right.0 (omega (arith, left.2, short))
                (omega (arith, right.2, short))))
    ]

analyse_entry_returns :
    (line : String) (end_pos : ℕ) (section key value : String)
    → length line < 2 ^ 31
    → analyse_entry line end_pos section key value ≢ none
unfolding analyse_entry
analyse_entry_returns line end_pos section key value short =
    let cut = substr-some line 0 (u64 (2 ^ 64 + 1 - end_pos)) (omega arith) in
    rw cut.1 (split_entry_returns cut.0 end_pos section key value (omega (arith, cut.2, short)))

brackets-lt : (line : String) {found : ℕ × ℕ} → brackets line ≡ some found → found.0 < length line
unfolding brackets
brackets-lt line {found} h = elim (Option-cases (find_char open_bracket line)) [
  | inl free ↦ absurd (ground (arith, free, h))
  | inr (i, at) ↦ elim (Option-cases (find_char close_bracket line)) [
    | inl free ↦ absurd (ground (arith, at, free, h))
    | inr (j, closes) ↦
        let same : found.0 ≡ i = ground (arith, at, closes, h) in
        omega (arith, same, find_char-lt open_bracket line at)
  ]
]

analyse_content_returns :
    (line : String) (end_pos : ℕ) (section key value : String)
    → length line < 2 ^ 31
    → analyse_content line end_pos section key value ≢ none
unfolding analyse_content
analyse_content_returns line end_pos section key value short = elim (Option-cases (brackets line)) [
  | inl free ↦
      rw (analyse_content, free) (analyse_entry_returns line end_pos section key value short)
  | inr (found, at) ↦
      let cut = substr-some line (suc found.0) (u64 (2 ^ 64 + found.1 - 1)) (brackets-lt line at) in
      rw (analyse_content, at) (rw cut.1 (λ h. ground (arith, h)))
]

pub analyse_line_returns :
    (line section key value : String)
    → length line < 2 ^ 31
    → analyse_line line section key value ≢ none
unfolding analyse_line analyse_short
analyse_line_returns line section key value short h =
    elim (Option-cases (find_char comment_char line)) [
      | inl free ↦
          ground (
            arith,
            short,
            free,
            h,
            analyse_content_returns line (length line - 1) section key value,
          )
      | inr (pos, at) ↦
          ground (arith, short, at, h, analyse_content_returns line (pos - 1) section key value)
    ]

-- Positions in a line are ints.
abbrev pub IsShort : String → Type 0
IsShort line = length line < 2 ^ 31

read_lines_returns :
    (lines : List String) (r : ReadState) → All IsShort lines → read_lines lines r ≢ none
unfolding read_lines read_line
read_lines_returns [] r short h = ground (arith, h)
read_lines_returns (line ∷ lines) r short h =
    elim (Option-cases (analyse_line line r.section r.key r.value)) [
      | inl throws ↦ analyse_line_returns line r.section r.key r.value short.0 throws
      | inr (a, returned) ↦
          read_lines_returns lines (after_line a r) short.1 (ground (arith, returned, h))
    ]

abbrev pub is_open : Option String → Bool
is_open none = false
is_open (some text) = true

-- The lines of a file.
abbrev pub lines_of : Option String → List String
lines_of none = []
lines_of (some text) = get_lines text

-- ReadConfig returns for every file whose lines have less than 2 ^ 31 characters, never with an
-- exception from a position that is out of range, and answers whether the file could be opened.
pub read_config_returns :
    (file : Option String)
    → All IsShort (lines_of file)
    → (settings : Settings) × (read_config file ≡ some (is_open file, settings))
unfolding read_config
read_config_returns none short = ([], refl)
read_config_returns (some text) short =
    elim (Option-cases (read_lines (get_lines text) new_state)) [
      | inl throws ↦ absurd (read_lines_returns (get_lines text) new_state short throws)
      | inr (r, returned) ↦ (r.settings, rw returned refl)
    ]
