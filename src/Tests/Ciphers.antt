-- ===== src/Tests/Ciphers.antt =====
-- A cipher that shifts bytes and counts what it has processed: what is asked of Crypto++ holds.
use zn_tunnel.Prelude.{ℕ, ◌+◌, ◌-◌, ◌≡◌, refl, ap, ap₂, List, [], ◌∷◌, length, All, u8, suc, arith}
use zn_tunnel.Memory.Laws.{IsByte}
use zn_tunnel.Transmission.Cryptor.{Cipher, IsCipher, Cryptor}
use zn_tunnel.Transmission.Cryptor.Laws.{IsSynchronized}

pub record Shift : Type 0 where
  pub offset : ℕ
  pub processed : ℕ

abbrev first_byte : List ℕ → ℕ
first_byte [] = 0
first_byte (k ∷ ks) = u8 k

abbrev shift_all : ℕ → List ℕ → List ℕ
shift_all k [] = []
shift_all k (x ∷ xs) = u8 (x + k) ∷ shift_all k xs

abbrev pub shifting : Cipher Shift
shifting = record {
  set_key_encrypt = λ key iv. record { offset = first_byte key; processed = 0 };
  set_key_decrypt = λ key iv. record { offset = 256 - first_byte key; processed = 0 };
  process = λ s xs. (shift_all s.offset xs, record s { processed = s.processed + length xs });
  resynchronize = λ s iv. record s { processed = 0 };
}

length-shift_all : (k : ℕ) (xs : List ℕ) → length (shift_all k xs) ≡ length xs
length-shift_all k [] = refl
length-shift_all k (x ∷ xs) = ap suc (length-shift_all k xs)

shift_all-IsByte : (k : ℕ) (xs : List ℕ) → All IsByte (shift_all k xs)
shift_all-IsByte k [] = tt
shift_all-IsByte k (x ∷ xs) = (omega arith, shift_all-IsByte k xs)

shift_all-undone :
    (k : ℕ) (xs : List ℕ) → All IsByte xs → shift_all (256 - u8 k) (shift_all (u8 k) xs) ≡ xs
shift_all-undone k [] h = refl
shift_all-undone k (x ∷ xs) h = ap₂ ◌∷◌ (omega (arith, h.0)) (shift_all-undone k xs h.1)

shift_all-zero : (xs : List ℕ) → All IsByte xs → shift_all 256 (shift_all 0 xs) ≡ xs
shift_all-zero [] h = refl
shift_all-zero (x ∷ xs) h = ap₂ ◌∷◌ (omega (arith, h.0)) (shift_all-zero xs h.1)

undone :
    (key xs : List ℕ)
    → All IsByte xs
    → shift_all (256 - first_byte key) (shift_all (first_byte key) xs) ≡ xs
undone [] xs h = shift_all-zero xs h
undone (k ∷ ks) xs h = shift_all-undone k xs h

pub shifting-IsCipher : IsCipher shifting
shifting-IsCipher = record {
  same_length = λ s xs. length-shift_all s.offset xs;
  bytes = λ s xs. shift_all-IsByte s.offset xs;
  encrypt_again = λ key iv xs. refl;
  decrypt_again = λ key iv xs. refl;
  undone = λ key iv xs h. undone key xs h;
}

abbrev pub cryptor : Cryptor Shift
cryptor = record {
  key = 7 ∷ [];
  iv = [];
  encryption = record { offset = 7; processed = 0 };
  decryption = record { offset = 249; processed = 0 };
}

pub cryptor-IsSynchronized : IsSynchronized shifting shifting-IsCipher cryptor
cryptor-IsSynchronized = record { at_encrypt = refl; at_decrypt = refl }
