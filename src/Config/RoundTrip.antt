-- ===== src/Config/RoundTrip.antt =====
-- A configuration that is written section by section is read again.
use zn_tunnel.Prelude.{
  ◌≡◌, ◌≢◌, refl, ap, sym, ◌∙◌, List, [], ◌∷◌, ◌++◌, Option, none, some, if◌then◌else◌, All, Bool,
  true, arith, inl, inr, Bool-cases, subst,
}
use zn_tunnel.Containers.Order.{same}
use zn_tunnel.Containers.OrderedMap.{find, assign, find-assign_self, find-assign_ne}
use zn_tunnel.Config.Text.{String, Without}
use zn_tunnel.Config.Order.{string_less, string_less-StrictOrder, string_eq}
use zn_tunnel.Config.Trim.{strip}
use zn_tunnel.Config.Line.{newline}
use zn_tunnel.Config.Laws.{IsEntryLine}
use zn_tunnel.Config.File.{
  ReadState, Items, Settings, read_lines, read_config, find_item, read_string_item,
}
use zn_tunnel.Config.Written.{
  Block, IsBlock, Distinct, text_of, item_lines, block_lines, read_value, add_items, add_blocks,
  at_section, less_self, get_lines-text_of, read_line_entry, read_line_name,
}

read_lines-item_lines :
    (items : List (String × String)) (rest : List String) (section : String) (k_v : Items)
    (settings : Settings)
    → All (λ (item : String × String). IsEntryLine item.0 item.1 none) items
    → read_lines
        (item_lines items ++ rest)
        (at_section section k_v (assign string_less section k_v settings))
      ≡ read_lines rest (
          at_section section
            (add_items items k_v)
            (assign string_less section (add_items items k_v) settings))
unfolding read_lines item_lines add_items
read_lines-item_lines [] rest section k_v settings e = refl
read_lines-item_lines ((key, value) ∷ items) rest section k_v settings e =
    rw (read_line_entry key value section k_v settings e.0) (
      read_lines-item_lines items rest section
        (assign string_less (strip key) (read_value value) k_v) settings e.1)

-- No section of these is known.
Unknown : List Block → Settings → Type 0
Unknown blocks settings = All (λ (block : Block). find string_less block.0 settings ≡ none) blocks

Unknown-assign :
    (name : String) (k_v : Items) (blocks : List Block) (settings : Settings)
    → All (λ (later : Block). name ≢ later.0) blocks
    → Unknown blocks settings
    → Unknown blocks (assign string_less name k_v settings)
unfolding Unknown
Unknown-assign name k_v [] settings d u = tt
Unknown-assign name k_v (block ∷ blocks) settings d u = (
  find-assign_ne string_less string_less-StrictOrder name block.0 k_v settings d.0 ∙ u.0,
  Unknown-assign name k_v blocks settings d.1 u.1,
)

read_lines-block_lines :
    (blocks : List Block) (section : String) (k_v : Items) (settings : Settings)
    → All IsBlock blocks
    → Distinct blocks
    → Unknown blocks settings
    → (last : ReadState) × (read_lines (block_lines blocks) (at_section section k_v settings)
        ≡ some last)
      × (last.settings ≡ add_blocks blocks settings)
unfolding read_lines block_lines add_blocks Distinct Unknown at_section
read_lines-block_lines [] section k_v settings b d u = (at_section section k_v settings, refl, refl)
read_lines-block_lines ((name, items) ∷ blocks) section k_v settings b d u =
    let block = b.0 in
    let after =
      read_lines-block_lines blocks name (add_items items [])
        (assign string_less name (add_items items []) settings) b.1 d.1
        (Unknown-assign name (add_items items []) blocks settings d.0 u.1) in
    (
      after.0,
      rw (read_line_name name section k_v settings block.plain_name block.short_name u.0) (
          read_lines-item_lines items (block_lines blocks) name [] settings block.entries
          ∙ after.1),
      after.2,
    )

-- The value that the text gives an item, its last one.
unfoldable pub written_value : String → List (String × String) → String → String
written_value item [] default_value = default_value
written_value item ((key, value) ∷ items) default_value =
    written_value item items (if same (strip key) item then read_value value else default_value)

abbrev pub value_or : Option String → String → String
value_or none default_value = default_value
value_or (some value) default_value = value

value_or-find :
    (items : List (String × String)) (item default_value : String) (k_v : Items)
    → value_or (find string_less item (add_items items k_v)) default_value
      ≡ written_value item items (value_or (find string_less item k_v) default_value)
unfolding add_items written_value
value_or-find [] item default_value k_v = refl
value_or-find ((key, value) ∷ items) item default_value k_v =
    let kept = assign string_less (strip key) (read_value value) k_v in
    value_or-find items item default_value kept
    ∙ ap (written_value item items) (elim (Bool-cases (same (strip key) item)) [
      | inl hit ↦
          let same_key : strip key ≡ item = (string_eq.same_iff (strip key) item).0 hit in
          let found : find string_less item kept ≡ some (read_value value) =
            subst (λ (i : String). find string_less i kept ≡ some (read_value value)) same_key
              (find-assign_self string_less (strip key) (read_value value) k_v
                (less_self (strip key))) in
          rw (hit, found) refl
      | inr miss ↦
          let other : strip key ≢ item =
            λ e. ground (arith, miss, (string_eq.same_iff (strip key) item).1 e) in
          rw
            (
              miss,
              find-assign_ne string_less string_less-StrictOrder (strip key) item (read_value value)
                  k_v other,
            )
            refl
    ])

find-add_blocks_kept :
    (blocks : List Block) (name : String) (k_v : Items) (settings : Settings)
    → All (λ (later : Block). name ≢ later.0) blocks
    → find string_less name settings ≡ some k_v
    → find string_less name (add_blocks blocks settings) ≡ some k_v
unfolding add_blocks
find-add_blocks_kept [] name k_v settings d h = h
find-add_blocks_kept (block ∷ blocks) name k_v settings d h =
    find-add_blocks_kept blocks name k_v
      (assign string_less block.0 (add_items block.1 []) settings) d.1
      (find-assign_ne string_less string_less-StrictOrder block.0 name (add_items block.1 [])
          settings (λ e. d.0 (sym e))
        ∙ h)

find-add_blocks :
    (front : List Block) (name : String) (items : List (String × String)) (back : List Block)
    (settings : Settings)
    → Distinct (front ++ (name, items) ∷ back)
    → find string_less name (add_blocks (front ++ (name, items) ∷ back) settings)
      ≡ some (add_items items [])
unfolding add_blocks Distinct
find-add_blocks [] name items back settings d =
    find-add_blocks_kept back name (add_items items [])
      (assign string_less name (add_items items []) settings) d.0
      (find-assign_self string_less name (add_items items []) settings (less_self name))
find-add_blocks (block ∷ front) name items back settings d =
    find-add_blocks front name items back
      (assign string_less block.0 (add_items block.1 []) settings) d.1

read_string_known :
    (settings : Settings) (name item default_value : String) (k_v : Items)
    → find string_less name settings ≡ some k_v
    → read_string_item settings name item default_value
      ≡ value_or (find string_less item k_v) default_value
unfolding read_string_item find_item
read_string_known settings name item default_value k_v h = ground (arith, h)

opened_with : Settings → Option (Bool × Settings)
opened_with settings = some (true, settings)

nothing_known : (blocks : List Block) → Unknown blocks []
unfolding Unknown find
nothing_known [] = tt
nothing_known (block ∷ blocks) = (refl, nothing_known blocks)

-- A configuration, sections of different names with their items, that is written line by line and
-- read with ReadConfig. The name of a section has no ']' and less than 2 ^ 30 characters. A key has a
-- character that is no space or tab, and neither '=' nor '#'; a value has no '#'; the line of an item
-- has no '[', three characters or more and less than 2 ^ 31; and none of the lines has a line break.
-- ReadString then answers the value that is written last for the item in its section, without the
-- spaces around it, and the default value where the section has no such item.
pub read_string_item-read_config :
    (front : List Block) (name : String) (items : List (String × String)) (back : List Block)
    (item default_value : String)
    → All IsBlock (front ++ (name, items) ∷ back)
    → Distinct (front ++ (name, items) ∷ back)
    → All (Without newline) (block_lines (front ++ (name, items) ∷ back))
    → (settings : Settings) × (read_config
          (some (text_of (block_lines (front ++ (name, items) ∷ back))))
        ≡ some (true, settings))
      × (read_string_item settings name item default_value ≡ written_value item items default_value)
unfolding read_config at_section find opened_with
read_string_item-read_config front name items back item default_value b d lines =
    let blocks = front ++ (name, items) ∷ back in
    let read = read_lines-block_lines blocks [] [] [] b d (nothing_known blocks) in
    let settings = add_blocks blocks [] in
    let known : find string_less name settings ≡ some (add_items items []) =
      find-add_blocks front name items back [] d in
    (
      settings,
      rw (get_lines-text_of (block_lines blocks) lines, read.1) (ap opened_with read.2),
      rw (read_string_known settings name item default_value (add_items items []) known)
          (value_or-find items item default_value []),
    )
