-- ===== src/Config/Entry.antt =====
-- What `AnalyseLine` makes of a line `key = value # comment`, and of a line with brackets.
use zn_tunnel.Prelude.{
  ℕ, suc, ◌+◌, ◌-◌, ◌^◌, ◌<◌, ◌≤◌, ◌≡◌, ◌≢◌, refl, [], ◌∷◌, ◌++◌, Option, some, if◌then◌else◌, ◌==◌,
  u64, length, length-append, arith,
}
use zn_tunnel.Config.Text.{
  String, substr, Without, find_char_behind, take-append, take_all, drop-append, drop_past,
}
use zn_tunnel.Config.Trim.{strip, trim-strip}
use zn_tunnel.Config.Line.{
  Analysed, accept_line, refuse_line, equals_sign, carriage_return, newline, remove_break,
  trim_entry, analyse_entry, split_entry,
}

accept_line_named :
    (section key value read : String)
    → key ≢ []
    → (if length key == 0 then refuse_line section key value else accept_line section key read)
      ≡ accept_line section key read
accept_line_named section [] value read named = absurd (named refl)
accept_line_named section (c ∷ key) value read named = ground arith

pub trim_entry-strip :
    (section key value : String)
    → strip key ≢ []
    → length key < 2 ^ 31
    → length value < 2 ^ 31
    → trim_entry section key value
      ≡ accept_line section
          (strip key)
          (remove_break newline (remove_break carriage_return (strip value)))
unfolding trim_entry
trim_entry-strip section key value named short_key short_value =
    rw (trim-strip key short_key, trim-strip value short_value)
      (accept_line_named section (strip key) value _ named)

-- A part behind a front.
substr_behind :
    (front back tail : String) (count : ℕ)
    → count ≡ length back
    → substr (front ++ (back ++ tail)) (length front) count ≡ some back
unfolding substr
substr_behind front back tail count h =
    let inside : length front ≤ length (front ++ (back ++ tail)) =
      omega (arith, length-append front (back ++ tail)) in
    rw (drop-append front (back ++ tail), h, take-append back tail) (ground (arith, inside))

pub substr_right :
    (key value tail : String) (count : ℕ)
    → count ≡ length value
    → substr (key ++ equals_sign ∷ (value ++ tail)) (suc (length key)) count ≡ some value
unfolding substr
substr_right key value tail count h =
    let inside : suc (length key) ≤ length (key ++ equals_sign ∷ (value ++ tail)) =
      omega (arith, length-append key (equals_sign ∷ (value ++ tail))) in
    rw (drop_past key equals_sign (value ++ tail), h, take-append value tail)
      (ground (arith, inside))

pub substr_whole : (s : String) (count : ℕ) → length s ≤ count → substr s 0 count ≡ some s
unfolding substr
substr_whole s count h = ground (arith, take_all s count h)

pub substr_front : (front tail : String) → substr (front ++ tail) 0 (length front) ≡ some front
unfolding substr
substr_front front tail = ground (arith, take-append front tail)

-- What AnalyseLine takes from a key and a value that stand with spaces around them.
abbrev pub read_entry : String → String → String → Option Analysed
read_entry section key value =
    accept_line section (strip key)
      (remove_break newline (remove_break carriage_return (strip value)))

split_entry_text :
    (key value tail section old_key old_value : String)
    → Without equals_sign key
    → strip key ≢ []
    → length key + length value < 2 ^ 31
    → split_entry
        (key ++ equals_sign ∷ (value ++ tail))
        (length key + length value)
        section
        old_key
        old_value
      ≡ read_entry section key value
unfolding split_entry
split_entry_text key value tail section old_key old_value no_equals named short =
    let behind : substr (key ++ equals_sign ∷ (value ++ tail)) (suc (length key))
          (u64 (2 ^ 64 + (length key + length value) - length key))
        ≡ some value =
      substr_right key value tail _ (omega arith) in
    rw (split_entry, find_char_behind equals_sign key (value ++ tail) no_equals)
      (rw (substr_front key (equals_sign ∷ (value ++ tail)), behind)
        (trim_entry-strip section key value named (omega (arith, short)) (omega (arith, short))))

pub analyse_entry_text :
    (key value tail section old_key old_value : String)
    → Without equals_sign key
    → strip key ≢ []
    → 2 ≤ length key + length value
    → length (key ++ equals_sign ∷ (value ++ tail)) < 2 ^ 31
    → analyse_entry
        (key ++ equals_sign ∷ (value ++ tail))
        (length key + length value)
        section
        old_key
        old_value
      ≡ read_entry section key value
unfolding analyse_entry
analyse_entry_text key value tail section old_key old_value no_equals named long short =
    let line = key ++ equals_sign ∷ (value ++ tail) in
    let end_pos = length key + length value in
    let size : length line ≡ length key + suc (length value + length tail) =
      omega (arith, length-append key (equals_sign ∷ (value ++ tail)), length-append value tail) in
    let whole : substr line 0 (u64 (2 ^ 64 + 1 - end_pos)) ≡ some line =
      substr_whole line _ (omega arith) in
    rw whole
      (split_entry_text key value tail section old_key old_value no_equals named (omega arith))
