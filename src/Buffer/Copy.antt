-- ===== src/Buffer/Copy.antt =====
-- A string that was copied with its window reads the same.
use zn_tunnel.Prelude.{
  ℕ, ◌*◌, zero, suc, ◌+◌, ◌≤◌, ◌<◌, ◌^◌, ◌≡◌, refl, sym, ap, ap₂, ◌∙◌, List, [], ◌∷◌, arith, u32,
  inl, inr, Bool-cases, ltb, if◌then◌else◌,
}
use zn_tunnel.Memory.{Memory, load16, load_list}
use zn_tunnel.Memory.Laws.{IsBytes, load16-lt, load_list_split}
use zn_tunnel.Buffer.{Buffer, read_buffer, read_string}

load_list_at :
    (m m' : Memory) (a b n i : ℕ)
    → load_list m a n ≡ load_list m' b n
    → i < n
    → m (a + i) ≡ m' (b + i)
load_list_at m m' a b zero i e h = absurd (omega arith)
load_list_at m m' a b (suc n) zero e h =
    let (first, rest) = load_list_split m m' a b n e in
    let here : a + 0 ≡ a = omega arith in
    let there : b + 0 ≡ b = omega arith in rw (here, there) first
load_list_at m m' a b (suc n) (suc i) e h =
    let (first, rest) = load_list_split m m' a b n e in
    let here : a + suc i ≡ a + 1 + i = omega arith in
    let there : b + suc i ≡ b + 1 + i = omega arith in
    rw (here, there) (load_list_at m m' (a + 1) (b + 1) n i rest (omega arith))

load_list_same :
    (m m' : Memory) (a b n : ℕ)
    → ((i : ℕ) → i < n → m (a + i) ≡ m' (b + i))
    → load_list m a n ≡ load_list m' b n
unfolding load_list
load_list_same m m' a b zero h = refl
load_list_same m m' a b (suc n) h =
    let here : a + 0 ≡ a = omega arith in
    let there : b + 0 ≡ b = omega arith in
    ap₂ (λ (x : ℕ) (xs : List ℕ). x ∷ xs) (ap m (sym here) ∙ h 0 (omega arith) ∙ ap m' there)
      (load_list_same m m' (a + 1) (b + 1) n (λ i small.
        let left : a + 1 + i ≡ a + suc i = omega arith in
        let right : b + 1 + i ≡ b + suc i = omega arith in
        rw (left, right) (h (suc i) (omega arith))))

read_string_short : (m : Memory) (b : Buffer) → b.size < 2 → read_string m b 0 ≡ []
unfolding read_string read_buffer load_list
read_string_short m b h = ground (arith, h)

read_string_long :
    (m : Memory) (b : Buffer)
    → 2 ≤ b.size
    → read_string m b 0 ≡ (
        if ltb b.size (u32 (2 + load16 m b.start))
        then []
        else load_list m (b.start + 2) (load16 m b.start))
unfolding read_string read_buffer load_list
read_string_long m b h =
    let here : b.start + 0 ≡ b.start = omega arith in rw here (ground (arith, h))

copied_length :
    (m m' : Memory) (b b' : Buffer)
    → 2 ≤ b.size
    → ((i : ℕ) → i < b.size → m' (b'.start + i) ≡ m (b.start + i))
    → load16 m' b'.start ≡ load16 m b.start
unfolding load16
copied_length m m' b b' enough same =
    let here : b.start + 0 ≡ b.start = omega arith in
    let there : b'.start + 0 ≡ b'.start = omega arith in
    ap₂ (λ (p q : ℕ). p * 256 + q) (rw (here, there) at (same 0 (omega arith)))
      (same 1 (omega arith))

copied_content :
    (m m' : Memory) (b b' : Buffer)
    → IsBytes m
    → b'.size ≡ b.size
    → 2 ≤ b.size
    → ((i : ℕ) → i < b.size → m' (b'.start + i) ≡ m (b.start + i))
    → (if ltb b'.size (u32 (2 + load16 m' b'.start))
        then []
        else load_list m' (b'.start + 2) (load16 m' b'.start))
      ≡ (if ltb b.size (u32 (2 + load16 m b.start))
          then []
          else load_list m (b.start + 2) (load16 m b.start))
copied_content m m' b b' bytes size enough same =
    let short : load16 m b.start < 2 ^ 16 = load16-lt m b.start bytes in
    rw (copied_length m m' b b' enough same, size)
      (elim (Bool-cases (ltb b.size (u32 (2 + load16 m b.start)))) [
        | inl cut ↦ rw cut refl
        | inr whole ↦
            let fits : 2 + load16 m b.start ≤ b.size = ground (arith, whole, short) in
            rw whole (
              load_list_same m' m (b'.start + 2) (b.start + 2) (load16 m b.start) (λ i small.
                let left : b'.start + 2 + i ≡ b'.start + (2 + i) = omega arith in
                let right : b.start + 2 + i ≡ b.start + (2 + i) = omega arith in
                rw (left, right) (same (2 + i) (omega (arith, fits)))))
      ])

-- The length, and the bytes behind it.
pub read_string_copied :
    (m m' : Memory) (b b' : Buffer)
    → IsBytes m
    → b'.size ≡ b.size
    → load_list m' b'.start b'.size ≡ load_list m b.start b.size
    → read_string m' b' 0 ≡ read_string m b 0
read_string_copied m m' b b' bytes size same =
    let bytes_at : (i : ℕ) → i < b.size → m' (b'.start + i) ≡ m (b.start + i) = λ i small.
      load_list_at m' m b'.start b.start b.size i
        (ap (λ (n : ℕ). load_list m' b'.start n) (sym size) ∙ same) small in
    elim (Bool-cases (ltb b.size 2)) [
      | inl little ↦
          read_string_short m' b' (ground (arith, little, size))
          ∙ sym (read_string_short m b (ground (arith, little)))
      | inr enough ↦
          read_string_long m' b' (ground (arith, enough, size))
          ∙ copied_content m m' b b' bytes size (ground (arith, enough)) bytes_at
          ∙ sym (read_string_long m b (ground (arith, enough)))
    ]
