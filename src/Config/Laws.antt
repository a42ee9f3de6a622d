-- ===== src/Config/Laws.antt =====
-- What `AnalyseLine` takes from the lines of a configuration file.
use zn_tunnel.Prelude.{
  ℕ, suc, ◌+◌, ◌-◌, ◌^◌, ◌<◌, ◌≤◌, ◌≡◌, ◌≢◌, refl, ap, sym, ◌∙◌, [], ◌∷◌, ◌++◌, Option, none, some,
  ◌==◌, u64, length, length-append, take, All-append, false, arith, inl, inr, Option-cases, ◌⊎◌,
}
use mathlib.Core.List.{append-nil, append_assoc}
use zn_tunnel.Config.Text.{
  String, find_char, substr, Without, find_char-Without, find_char_behind, drop_past,
}
use zn_tunnel.Config.Trim.{strip}
use zn_tunnel.Config.Line.{
  accept_line, comment_char, open_bracket, close_bracket, equals_sign, brackets, analyse_content,
  analyse_entry, analyse_short, analyse_line,
}
use zn_tunnel.Config.Entry.{read_entry, analyse_entry_text}

-- A comment, with the character that begins it.
abbrev pub comment_text : Option String → String
comment_text none = []
comment_text (some comment) = comment_char ∷ comment

abbrev pub entry_line : String → String → Option String → String
entry_line key value comment = key ++ equals_sign ∷ (value ++ comment_text comment)

-- The key has a character that is no space, and the special characters stand where they do not
-- change what the line means.
pub record IsEntryLine (key value : String) (comment : Option String) : Type 0 where
  pub named : strip key ≢ []
  pub no_equals : Without equals_sign key
  pub no_comment_key : Without comment_char key
  pub no_comment_value : Without comment_char value
  pub no_bracket : Without open_bracket (entry_line key value comment)
  pub long : 2 ≤ length key + length value
  pub short : length (entry_line key value comment) < 2 ^ 31

pub brackets-none : (line : String) → Without open_bracket line → brackets line ≡ none
unfolding brackets
brackets-none line w = rw (find_char-Without open_bracket line w) refl

Without-entry :
    (key value : String)
    → Without comment_char key
    → Without comment_char value
    → Without comment_char (key ++ equals_sign ∷ value)
unfolding Without
Without-entry key value k v =
    All-append (λ (d : ℕ). (d == comment_char) ≡ false) key (equals_sign ∷ value) k (refl, v)

-- A line with no section, whose comment, if there is one, begins at `suc end_pos`.
pub analyse_line_to :
    (line : String) (end_pos : ℕ) (section key value : String)
    → length line < 2 ^ 31
    → brackets line ≡ none
    → (find_char comment_char line ≡ none) × (length line ≡ suc end_pos)
      ⊎ (find_char comment_char line ≡ some (suc end_pos)) × (length line ≢ 0)
    → analyse_line line section key value ≡ analyse_entry line end_pos section key value
unfolding analyse_line analyse_short analyse_content
analyse_line_to line end_pos section key value short b (inl (h, size)) =
    ground (arith, short, b, h, size)
analyse_line_to line end_pos section key value short b (inr (h, size)) =
    ground (arith, short, b, h, size)

-- Where the comment of an entry begins.
comment_place :
    (key value : String) (comment : Option String)
    → Without comment_char key
    → Without comment_char value
    → (find_char comment_char (entry_line key value comment) ≡ none)
        × (length (entry_line key value comment) ≡ suc (length key + length value))
      ⊎ (find_char comment_char (entry_line key value comment)
          ≡ some (suc (length key + length value)))
        × (length (entry_line key value comment) ≢ 0)
comment_place key value none k v = rw (append-nil value) (
    inl (
      find_char-Without comment_char (key ++ equals_sign ∷ value) (Without-entry key value k v),
      omega (arith, length-append key (equals_sign ∷ value)),
    ))
comment_place key value (some comment) k v =
    let text = key ++ equals_sign ∷ value in
    let tail = comment_char ∷ comment in
    let split : text ++ tail ≡ key ++ equals_sign ∷ (value ++ tail) =
      append_assoc key (equals_sign ∷ value) tail in
    let size : length text ≡ suc (length key + length value) =
      omega (arith, length-append key (equals_sign ∷ value)) in
    inr (
      ap (find_char comment_char) (sym split)
          ∙ find_char_behind comment_char text comment (Without-entry key value k v)
          ∙ ap some size,
      omega (arith, length-append key (equals_sign ∷ (value ++ tail))),
    )

-- A line `key = value`, with spaces and tabs around the two and a comment behind them, gives the key
-- and the value without them, for a line of at least three characters in front of the comment, with
-- no '[' anywhere.
pub analyse_line_entry :
    (key value : String) (comment : Option String) (section old_key old_value : String)
    → IsEntryLine key value comment
    → analyse_line (entry_line key value comment) section old_key old_value
      ≡ read_entry section key value
analyse_line_entry key value comment section old_key old_value e =
    let line = entry_line key value comment in
    analyse_line_to line (length key + length value) section old_key old_value e.short
      (brackets-none line e.no_bracket)
      (comment_place key value comment e.no_comment_key e.no_comment_value)
    ∙ analyse_entry_text key value (comment_text comment) section old_key old_value e.no_equals
        e.named e.long e.short

analyse_line_named :
    (line name : String) (s_startpos s_endpos : ℕ) (section key value : String)
    → length line < 2 ^ 31
    → brackets line ≡ some (s_startpos, s_endpos)
    → find_char comment_char line ≢ some 0
    → length line ≢ 0
    → substr line (suc s_startpos) (u64 (2 ^ 64 + s_endpos - 1)) ≡ some name
    → analyse_line line section key value ≡ accept_line name key value
unfolding analyse_line analyse_short analyse_content
analyse_line_named line name s_startpos s_endpos section key value short b first size cut =
    elim (Option-cases (find_char comment_char line)) [
      | inl free ↦ ground (arith, short, b, free, size, cut)
      | inr (pos, at) ↦ ground (arith, short, b, at, size, cut, first)
    ]

-- The first character is another.
find_char_later :
    (front : String) (x : ℕ) (back : String)
    → Without comment_char front
    → (x == comment_char) ≡ false
    → find_char comment_char (front ++ x ∷ back) ≢ some 0
unfolding find_char Without
find_char_later [] x back w ne h = ground (arith, ne, h)
find_char_later (d ∷ front) x back w ne h = ground (arith, w.0, h)

-- A line with a '[' and a ']' behind it gives a section, whatever else it has, unless it begins with
-- '#'. The name that it gets is as long as the text in front of '[' and the name together.
pub analyse_line_section :
    (front name back section old_key old_value : String)
    → Without comment_char front
    → Without open_bracket front
    → Without close_bracket (front ++ open_bracket ∷ name)
    → length (front ++ open_bracket ∷ (name ++ close_bracket ∷ back)) < 2 ^ 31
    → analyse_line
        (front ++ open_bracket ∷ (name ++ close_bracket ∷ back))
        section
        old_key
        old_value
      ≡ accept_line
          (take (length front + length name) (name ++ close_bracket ∷ back))
          old_key
          old_value
unfolding brackets substr
analyse_line_section front name back section old_key old_value no_comment no_open no_close short =
    let tail = close_bracket ∷ back in
    let line = front ++ open_bracket ∷ (name ++ tail) in
    let size : length (front ++ open_bracket ∷ name) ≡ length front + suc (length name) =
      length-append front (open_bracket ∷ name) in
    let opens : find_char open_bracket line ≡ some (length front) =
      find_char_behind open_bracket front (name ++ tail) no_open in
    let closes : find_char close_bracket line ≡ some (length front + suc (length name)) =
      ap (find_char close_bracket) (sym (append_assoc front (open_bracket ∷ name) tail))
      ∙ find_char_behind close_bracket (front ++ open_bracket ∷ name) back no_close
      ∙ ap some size in
    let total : length line ≡ length front + suc (length (name ++ tail)) =
      length-append front (open_bracket ∷ (name ++ tail)) in
    let count : u64 (2 ^ 64 + (length front + suc (length name)) - 1) ≡ length front + length name =
      omega (arith, total, length-append name tail, short) in
    analyse_line_named line _ (length front) (length front + suc (length name)) section old_key
      old_value short (ground (arith, opens, closes))
      (find_char_later front open_bracket (name ++ tail) no_comment refl) (omega (arith, total))
      (rw (drop_past front open_bracket (name ++ tail), count) (ground (arith, total)))
