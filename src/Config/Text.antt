-- ===== src/Config/Text.antt =====
-- `std::string`, as the reader of configuration files uses it: a list of bytes.
use zn_tunnel.Prelude.{
  ℕ, zero, suc, ◌-◌, ◌≤◌, ◌≡◌, ◌∙◌, refl, ap, List, [], ◌∷◌, ◌++◌, Option, none, some,
  if◌then◌else◌, ◌==◌, leb, ◌>>=◌, length, take, drop, All, false, arith,
}

abbrev pub String : Type 0
String = List ℕ

-- `find` of one character: none is npos.
unfoldable pub find_char : ℕ → String → Option ℕ
find_char c [] = none
find_char c (d ∷ s) = if d == c then some 0 else find_char c s >>= λ i. some (suc i)

-- `substr (pos, count)`, which throws with `pos` behind the end.
unfoldable pub substr : String → ℕ → ℕ → Option String
substr s pos count = if leb pos (length s) then some (take count (drop pos s)) else none

-- The character does not occur.
unfoldable pub Without : ℕ → String → Type 0
Without c s = All (λ (d : ℕ). (d == c) ≡ false) s

pub find_char-Without : (c : ℕ) (s : String) → Without c s → find_char c s ≡ none
unfolding find_char Without
find_char-Without c [] w = refl
find_char-Without c (d ∷ s) w = ground (arith, find_char-Without c s w.1, w.0)

-- The first one is found behind a front that has none.
pub find_char_behind :
    (c : ℕ) (front back : String)
    → Without c front
    → find_char c (front ++ c ∷ back) ≡ some (length front)
unfolding find_char Without
find_char_behind c [] back w = ground arith
find_char_behind c (d ∷ front) back w = ground (arith, find_char_behind c front back w.1, w.0)

pub take-append : (xs ys : String) → take (length xs) (xs ++ ys) ≡ xs
take-append [] ys = refl
take-append (x ∷ xs) ys = ap (λ (l : String). x ∷ l) (take-append xs ys)

pub take_nil : (n : ℕ) → take {A = ℕ} n [] ≡ []
take_nil zero = refl
take_nil (suc n) = refl

pub take_all : (xs : String) (n : ℕ) → length xs ≤ n → take n xs ≡ xs
take_all [] n h = take_nil n
take_all (x ∷ xs) zero h = absurd (omega arith)
take_all (x ∷ xs) (suc n) h = ap (λ (l : String). x ∷ l) (take_all xs n (omega arith))

-- A part of a part.
pub take-drop : (m n : ℕ) (s : String) → take (n - m) (drop m s) ≡ drop m (take n s)
take-drop zero n s = let all : n - 0 ≡ n = omega arith in ap (λ (k : ℕ). take k s) all
take-drop (suc m) zero s =
    let none_left : 0 - suc m ≡ 0 = omega arith in ap (λ (k : ℕ). take k (drop (suc m) s)) none_left
take-drop (suc m) (suc n) [] = take_nil (suc n - suc m)
take-drop (suc m) (suc n) (x ∷ s) =
    let shift : suc n - suc m ≡ n - m = omega arith in
    ap (λ (k : ℕ). take k (drop m s)) shift ∙ take-drop m n s

pub drop-append : (xs ys : String) → drop (length xs) (xs ++ ys) ≡ ys
drop-append [] ys = refl
drop-append (x ∷ xs) ys = drop-append xs ys

pub drop_past : (xs : String) (x : ℕ) (ys : String) → drop (suc (length xs)) (xs ++ x ∷ ys) ≡ ys
drop_past [] x ys = refl
drop_past (y ∷ xs) x ys = drop_past xs x ys
