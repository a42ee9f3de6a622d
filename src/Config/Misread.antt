-- ===== src/Config/Misread.antt =====
-- Lines that are read otherwise than they look: '=' in a comment, a section that comes twice, an
-- entry before any section.
use mathlib.Core.List.{append_assoc}
use zn_tunnel.Prelude.{
  ℕ, suc, ◌+◌, ◌-◌, ◌^◌, ◌<◌, ◌≤◌, ◌≡◌, ◌≢◌, refl, ap, sym, ◌∙◌, [], ◌∷◌, ◌++◌, none, some, u64,
  length, length-append, arith, inr,
}
use zn_tunnel.Containers.OrderedMap.{find, assign}
use zn_tunnel.Config.Text.{String, substr, Without, find_char_behind, take_all, drop_past}
use zn_tunnel.Config.Trim.{strip}
use zn_tunnel.Config.Order.{string_less}
use zn_tunnel.Config.Line.{
  analyse_line, analyse_entry, split_entry, comment_char, open_bracket, close_bracket, equals_sign,
}
use zn_tunnel.Config.Entry.{read_entry, substr_whole, substr_front, trim_entry-strip}
use zn_tunnel.Config.Laws.{
  entry_line, IsEntryLine, analyse_line_entry, analyse_line_to, brackets-none,
}
use zn_tunnel.Config.File.{Items, Settings, read_line, after_line, store_entry, new_state}
use zn_tunnel.Config.Written.{at_section, section_line, analyse_line-section_line}

substr_rest :
    (key value : String) (count : ℕ)
    → length value ≤ count
    → substr (key ++ equals_sign ∷ value) (suc (length key)) count ≡ some value
unfolding substr
substr_rest key value count h =
    let inside : suc (length key) ≤ length (key ++ equals_sign ∷ value) =
      omega (arith, length-append key (equals_sign ∷ value)) in
    rw (drop_past key equals_sign value, take_all value count h) (ground (arith, inside))

split_entry_beyond :
    (key value : String) (end_pos : ℕ) (section old_key old_value : String)
    → Without equals_sign key
    → strip key ≢ []
    → end_pos < length key
    → length key + length value < 2 ^ 31
    → split_entry (key ++ equals_sign ∷ value) end_pos section old_key old_value
      ≡ read_entry section key value
unfolding split_entry
split_entry_beyond key value end_pos section old_key old_value no_equals named beyond short =
    let right : substr (key ++ equals_sign ∷ value) (suc (length key))
          (u64 (2 ^ 64 + end_pos - length key))
        ≡ some value =
      substr_rest key value _ (omega arith) in
    rw (split_entry, find_char_behind equals_sign key value no_equals)
      (rw (substr_front key (equals_sign ∷ value), right)
        (trim_entry-strip section key value named (omega (arith, short)) (omega (arith, short))))

-- The comment begins in front of the '='.
analyse_entry_beyond :
    (text comment value section old_key old_value : String)
    → Without equals_sign (text ++ comment_char ∷ comment)
    → strip (text ++ comment_char ∷ comment) ≢ []
    → 3 ≤ length text
    → length (text ++ comment_char ∷ (comment ++ equals_sign ∷ value)) < 2 ^ 31
    → analyse_entry
        (text ++ comment_char ∷ (comment ++ equals_sign ∷ value))
        (length text - 1)
        section
        old_key
        old_value
      ≡ read_entry section (text ++ comment_char ∷ comment) value
unfolding analyse_entry
analyse_entry_beyond text comment value section old_key old_value no_equals named long short =
    let line = text ++ comment_char ∷ (comment ++ equals_sign ∷ value) in
    let key = text ++ comment_char ∷ comment in
    let end_pos = length text - 1 in
    let split : key ++ equals_sign ∷ value ≡ line =
      append_assoc text (comment_char ∷ comment) (equals_sign ∷ value) in
    let size : length line ≡ length key + suc (length value) =
      ap length (sym split) ∙ length-append key (equals_sign ∷ value) in
    let front : length key ≡ length text + suc (length comment) =
      length-append text (comment_char ∷ comment) in
    let whole : substr line 0 (u64 (2 ^ 64 + 1 - end_pos)) ≡ some line =
      substr_whole line _ (omega (arith, size, front, short)) in
    rw whole (
      ap (λ (l : String). split_entry l end_pos section old_key old_value) (sym split)
      ∙ split_entry_beyond key value end_pos section old_key old_value no_equals named
          (omega (arith, front, long)) (omega (arith, size, short)))

-- An '=' in a comment makes an entry of the line, with the comment in its key, where there is text
-- of at least three characters in front of '#' and no '=' in it.
pub analyse_line_commented :
    (text comment value section old_key old_value : String)
    → Without comment_char text
    → Without equals_sign (text ++ comment_char ∷ comment)
    → Without open_bracket (text ++ comment_char ∷ (comment ++ equals_sign ∷ value))
    → strip (text ++ comment_char ∷ comment) ≢ []
    → 3 ≤ length text
    → length (text ++ comment_char ∷ (comment ++ equals_sign ∷ value)) < 2 ^ 31
    → analyse_line
        (text ++ comment_char ∷ (comment ++ equals_sign ∷ value))
        section
        old_key
        old_value
      ≡ read_entry section (text ++ comment_char ∷ comment) value
analyse_line_commented text comment value section old_key old_value plain no_equals no_bracket named
      long short =
    let tail = comment ++ equals_sign ∷ value in
    let line = text ++ comment_char ∷ tail in
    let begins : length text ≡ suc (length text - 1) = omega arith in
    analyse_line_to line (length text - 1) section old_key old_value short
      (brackets-none line no_bracket)
      (inr (
        find_char_behind comment_char text tail plain ∙ ap some begins,
        omega (arith, length-append text (comment_char ∷ tail)),
      ))
    ∙ analyse_entry_beyond text comment value section old_key old_value no_equals named long short

-- The line of a section that is known already replaces the items of that section by those of the
-- section before it, with an item of an empty name.
pub read_line_again :
    (name section : String) (k_v known : Items) (settings : Settings)
    → Without close_bracket name
    → length name < 2 ^ 30
    → find string_less name settings ≡ some known
    → read_line (section_line name) (at_section section k_v settings)
      ≡ some (
          at_section name
            (assign string_less [] [] k_v)
            (assign string_less name (assign string_less [] [] k_v) settings))
unfolding read_line at_section after_line store_entry
read_line_again name section k_v known settings plain short h =
    rw (analyse_line-section_line name section [] [] plain short) (rw (store_entry, h) refl)

-- The entry of a first line is lost: it only begins a section of an empty name.
pub read_line_before :
    (key value : String)
    → IsEntryLine key value none
    → read_line (entry_line key value none) new_state ≡ some (at_section [] [] (([], []) ∷ []))
unfolding read_line at_section after_line store_entry find assign
read_line_before key value e = rw (analyse_line_entry key value none [] [] [] e) refl
