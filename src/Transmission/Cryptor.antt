-- ===== src/Transmission/Cryptor.antt =====
-- `class Cryptor` of libtun/include/libtun/transmission/Cryptor.h. Crypto++'s CFB mode is a
-- parameter: an object is a state that processing changes and that `Resynchronize` sets anew.
pub mod Laws
use zn_tunnel.Prelude.{ℕ, ◌≡◌, List, All, length}
use zn_tunnel.Memory.{Memory, load_list, store_list}
use zn_tunnel.Memory.Laws.{IsByte}

-- `SetKeyWithIV`, `ProcessData` and `Resynchronize`, of an encryption and of a decryption object.
pub record Cipher (State : Type 0) : Type 0 where
  pub set_key_encrypt : List ℕ → List ℕ → State
  pub set_key_decrypt : List ℕ → List ℕ → State
  pub process : State → List ℕ → List ℕ × State
  pub resynchronize : State → List ℕ → State

-- What the library documents: an output is as long as its input, a new initialization vector
-- forgets what was processed, and decryption undoes encryption under the same key and vector.
pub record IsCipher {State : Type 0} (cipher : Cipher State) : Type 0 where
  pub same_length : (s : State) (xs : List ℕ) → length (cipher.process s xs).0 ≡ length xs
  pub bytes : (s : State) (xs : List ℕ) → All IsByte (cipher.process s xs).0
  pub encrypt_again :
      (key iv xs : List ℕ)
      → cipher.resynchronize (cipher.process (cipher.set_key_encrypt key iv) xs).1 iv
        ≡ cipher.set_key_encrypt key iv
  pub decrypt_again :
      (key iv xs : List ℕ)
      → cipher.resynchronize (cipher.process (cipher.set_key_decrypt key iv) xs).1 iv
        ≡ cipher.set_key_decrypt key iv
  pub undone :
      (key iv xs : List ℕ)
      → All IsByte xs
      → (cipher.process
          (cipher.set_key_decrypt key iv)
          (cipher.process (cipher.set_key_encrypt key iv) xs).0).0
        ≡ xs

pub record Cryptor (State : Type 0) : Type 0 where
  pub key : List ℕ
  pub iv : List ℕ
  pub encryption : State
  pub decryption : State

module _ {State : Type 0} (cipher : Cipher State) where
  -- `Cryptor(key, iv)`; the default constructor calls it with random bytes.
  unfoldable pub new_cryptor : List ℕ → List ℕ → Cryptor State
  new_cryptor key iv = record {
    key = key;
    iv = iv;
    encryption = cipher.set_key_encrypt key iv;
    decryption = cipher.set_key_decrypt key iv;
  }

  unfoldable pub copy_cryptor : Cryptor State → Cryptor State
  unfolding new_cryptor
  copy_cryptor other = new_cryptor other.key other.iv

  -- `encrypt(src, dest, size)`.
  unfoldable pub encrypt_to : Memory → Cryptor State → ℕ → ℕ → ℕ → Memory × Cryptor State
  encrypt_to m c src dest size =
      let (out, s) = cipher.process c.encryption (load_list m src size) in
      (store_list m dest out, record c { encryption = cipher.resynchronize s c.iv })

  -- `encrypt(data, size)`, in place.
  unfoldable pub encrypt : Memory → Cryptor State → ℕ → ℕ → Memory × Cryptor State
  unfolding encrypt_to
  encrypt m c data_at size = encrypt_to m c data_at data_at size

  unfoldable pub decrypt_to : Memory → Cryptor State → ℕ → ℕ → ℕ → Memory × Cryptor State
  decrypt_to m c src dest size =
      let (out, s) = cipher.process c.decryption (load_list m src size) in
      (store_list m dest out, record c { decryption = cipher.resynchronize s c.iv })

  unfoldable pub decrypt : Memory → Cryptor State → ℕ → ℕ → Memory × Cryptor State
  unfolding decrypt_to
  decrypt m c data_at size = decrypt_to m c data_at data_at size
