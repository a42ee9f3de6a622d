-- ===== src/Config/Trim.antt =====
-- `ParseConfig::IsSpace`, `IsCommentChar` and `Trim`.
use zn_tunnel.Prelude.{
  ℕ, zero, suc, ltb, ◌^◌, ◌-◌, ◌≤◌, ◌<◌, ◌≡◌, ◌≢◌, refl, ap, ◌∙◌, [], ◌∷◌, ◌++◌, Option, none, some,
  if◌then◌else◌, ◌==◌, length, take, drop, get_elem?, Bool, false, ◌||◌, arith, inl, inr,
  Bool-cases,
}
use zn_tunnel.Config.Text.{String, substr, take_all, take-drop}

-- ' ' and '\t'.
unfoldable pub is_space : ℕ → Bool
is_space c = c == 32 || c == 9

-- '#'.
unfoldable pub is_comment_char : ℕ → Bool
is_comment_char c = c == 35

-- Where the loop from the front stops: at the first character that is no space.
unfoldable pub scan_front : String → ℕ
scan_front [] = 0
scan_front (c ∷ str) = if is_space c then suc (scan_front str) else 0

abbrev pub is_space_at : String → ℕ → Bool
is_space_at str i = elim (get_elem? str i) [ none ↦ false | some c ↦ is_space c ]

-- The loop from the back, which has yet to look at the first `i` characters: one more than the
-- position that it stops at.
unfoldable pub scan_back : String → ℕ → ℕ
scan_back str zero = 0
scan_back str (suc i) = let rest = scan_back str i in if is_space_at str i then rest else suc i

-- The body, on a string whose positions are ints.
unfoldable pub trim_short : String → Option String
trim_short str =
    let start_pos = scan_front str in
    let end_pos = scan_back str (length str) in
    if length str == 0
    then some str
    else if start_pos == length str
    then some []
    else substr str start_pos (end_pos - start_pos)

-- Positions are ints: a string of 2 ^ 31 characters or more, which they do not reach to the end of, is
-- left undefined.
unfoldable pub trim : String → Option String
unfolding trim_short
trim str = if ltb (length str) (2 ^ 31) then trim_short str else none

-- Without the spaces in front.
unfoldable pub drop_front : String → String
drop_front [] = []
drop_front (c ∷ str) = if is_space c then drop_front str else c ∷ str

unfoldable pub keep_back : ℕ → String → String
keep_back c [] = if is_space c then [] else c ∷ []
keep_back c (d ∷ str) = c ∷ d ∷ str

-- Without the spaces at the back.
unfoldable pub drop_back : String → String
drop_back [] = []
drop_back (c ∷ str) = keep_back c (drop_back str)

keep_back_snoc : (y : ℕ) (xs : String) (x : ℕ) → keep_back y (xs ++ x ∷ []) ≡ y ∷ xs ++ x ∷ []
unfolding keep_back
keep_back_snoc y [] x = refl
keep_back_snoc y (z ∷ xs) x = refl

drop_back_snoc :
    (xs : String) (x : ℕ)
    → drop_back (xs ++ x ∷ []) ≡ (if is_space x then drop_back xs else xs ++ x ∷ [])
unfolding drop_back keep_back
drop_back_snoc [] x = ground arith
drop_back_snoc (y ∷ xs) x = elim (Bool-cases (is_space x)) [
  | inl space ↦ rw (drop_back_snoc xs x, space) refl
  | inr solid ↦ rw (drop_back_snoc xs x, solid) (keep_back_snoc y xs x)
]

take_one_more :
    (str : String) (i : ℕ) (c : ℕ)
    → get_elem? str i ≡ some c
    → take (suc i) str ≡ take i str ++ c ∷ []
take_one_more [] i c h = absurd (ground arith)
take_one_more (d ∷ str) zero c h = ground arith
take_one_more (d ∷ str) (suc i) c h = ap (λ (l : String). d ∷ l) (take_one_more str i c h)

get_elem?-lt : (str : String) (i : ℕ) → i < length str → (c : ℕ) × (get_elem? str i ≡ some c)
get_elem?-lt [] i h = absurd (omega arith)
get_elem?-lt (c ∷ str) zero h = (c, refl)
get_elem?-lt (c ∷ str) (suc i) h = get_elem?-lt str i (omega arith)

scan_back_at :
    (str : String) (i c : ℕ)
    → get_elem? str i ≡ some c
    → scan_back str (suc i) ≡ (if is_space c then scan_back str i else suc i)
unfolding scan_back
scan_back_at str i c at = ground (arith, at)

-- What stands in front of the position that the loop from the back stops at.
take-scan_back_step :
    (str : String) (i c : ℕ)
    → get_elem? str i ≡ some c
    → take (scan_back str i) str ≡ drop_back (take i str)
    → take (scan_back str (suc i)) str ≡ drop_back (take (suc i) str)
take-scan_back_step str i c at before =
    let stop : scan_back str (suc i) ≡ (if is_space c then scan_back str i else suc i) =
      scan_back_at str i c at in
    elim (Bool-cases (is_space c)) [
      | inl space ↦ rw (take_one_more str i c at, drop_back_snoc (take i str) c, stop, space) before
      | inr solid ↦
          rw (take_one_more str i c at, drop_back_snoc (take i str) c, stop, solid)
            (take_one_more str i c at)
    ]

take-scan_back :
    (str : String) (i : ℕ) → i ≤ length str → take (scan_back str i) str ≡ drop_back (take i str)
unfolding scan_back drop_back
take-scan_back str zero h = refl
take-scan_back str (suc i) h =
    let last = get_elem?-lt str i (omega arith) in
    take-scan_back_step str i last.0 last.1 (take-scan_back str i (omega arith))

keep_back_solid : (c : ℕ) (t : String) → is_space c ≡ false → keep_back c t ≡ c ∷ t
unfolding keep_back
keep_back_solid c [] h = ground (arith, h)
keep_back_solid c (d ∷ t) h = refl

keep_back_kept : (c : ℕ) (t : String) → t ≢ [] → keep_back c t ≡ c ∷ t
unfolding keep_back
keep_back_kept c [] h = absurd (h refl)
keep_back_kept c (d ∷ t) h = refl

drop_back_spaces : (str : String) → scan_front str ≡ length str → drop_back str ≡ []
unfolding scan_front drop_back keep_back
drop_back_spaces [] h = refl
drop_back_spaces (c ∷ str) h = ground (arith, drop_back_spaces str, h)

-- Only spaces leave nothing.
scan_front_end : (str : String) → drop_back str ≡ [] → scan_front str ≡ length str
unfolding scan_front drop_back keep_back
scan_front_end [] h = refl
scan_front_end (c ∷ str) h = ground (
  arith,
  scan_front_end str,
  keep_back_solid c (drop_back str),
  keep_back_kept c (drop_back str),
  h,
)

drop-scan_front :
    (str : String)
    → scan_front str ≢ length str
    → drop (scan_front str) (drop_back str) ≡ drop_front (drop_back str)
unfolding scan_front drop_front drop_back
drop-scan_front [] h = refl
drop-scan_front (c ∷ str) h = elim (Bool-cases (is_space c)) [
  | inl space ↦
      let more : scan_front str ≢ length str = ground (arith, space, h) in
      rw (keep_back_kept c (drop_back str) (λ e. more (scan_front_end str e)), space)
        (drop-scan_front str more)
  | inr solid ↦ rw (keep_back_solid c (drop_back str) solid, solid) refl
]

scan_front_le : (str : String) → scan_front str ≤ length str
unfolding scan_front
scan_front_le [] = omega arith
scan_front_le (c ∷ str) = ground (arith, scan_front_le str)

abbrev pub strip : String → String
strip str = drop_front (drop_back str)

trim_lem : (str : String) → trim_short str ≡ some (strip str)
unfolding trim_short substr drop_front drop_back
trim_lem [] = refl
trim_lem (c ∷ str) =
    let whole = c ∷ str in
    let kept : take (scan_back whole (length whole)) whole ≡ drop_back whole =
      take-scan_back whole (length whole) (omega arith)
      ∙ ap drop_back (take_all whole (length whole) (omega arith)) in
    elim (Bool-cases (scan_front whole == length whole)) [
      | inl blank ↦
          let nothing : drop_back whole ≡ [] = drop_back_spaces whole (ground (arith, blank)) in
          ground (arith, blank, nothing)
      | inr text ↦
          let front = scan_front whole in
          let back = scan_back whole (length whole) in
          let some_text : front ≢ length whole = ground (arith, text) in
          let cut : take (back - front) (drop front whole) ≡ drop_front (drop_back whole) =
            take-drop front back whole ∙ ap (drop front) kept ∙ drop-scan_front whole some_text in
          ground (arith, text, scan_front_le whole, cut)
    ]

-- Trim returns, never with an exception, for a string of less than 2 ^ 31 characters, and leaves it
-- without the spaces and tabs at its two ends.
pub trim-strip : (str : String) → length str < 2 ^ 31 → trim str ≡ some (strip str)
unfolding trim
trim-strip str short = ground (arith, short, trim_lem str)
