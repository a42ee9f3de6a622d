-- ===== src/Transmission/Cryptor/Laws.antt =====
-- A packet decrypts whatever was processed before it, on either side.
use zn_tunnel.Prelude.{
  ℕ, ◌+◌, ◌≤◌, ◌<◌, ◌≡◌, refl, sym, ap, ap₂, ◌∙◌, ◌⊎◌, List, All, length, zero, suc, arith,
}
use zn_tunnel.Memory.{Memory, load_list, store_list}
use zn_tunnel.Memory.Laws.{
  IsByte, IsBytes, load_list-store_list, length-load_list, store_list_outside,
}
use zn_tunnel.Transmission.Cryptor.{
  Cipher, IsCipher, Cryptor, new_cryptor, copy_cryptor, encrypt, decrypt, encrypt_to, decrypt_to,
}

pub load_list-IsBytes : (m : Memory) (a n : ℕ) → IsBytes m → All IsByte (load_list m a n)
unfolding load_list
load_list-IsBytes m a zero h = tt
load_list-IsBytes m a (suc n) h = (h a, load_list-IsBytes m (a + 1) n h)

-- What was written to a place of its length is read back.
pub load_list-store_list_of :
    (m : Memory) (a n : ℕ) (vs : List ℕ)
    → length vs ≡ n
    → All IsByte vs
    → load_list (store_list m a vs) a n ≡ vs
load_list-store_list_of m a n vs e h =
    ap (load_list (store_list m a vs) a) (sym e) ∙ load_list-store_list m a vs h

module _ {State : Type 0} (cipher : Cipher State) (laws : IsCipher cipher) where
  -- Both objects stand at the key and the vector, as the constructor leaves them.
  pub record IsSynchronized (c : Cryptor State) : Type 0 where
    pub at_encrypt : c.encryption ≡ cipher.set_key_encrypt c.key c.iv
    pub at_decrypt : c.decryption ≡ cipher.set_key_decrypt c.key c.iv

  pub new_cryptor-IsSynchronized : (key iv : List ℕ) → IsSynchronized (new_cryptor cipher key iv)
  unfolding new_cryptor
  new_cryptor-IsSynchronized key iv = record { at_encrypt = refl; at_decrypt = refl }

  pub encrypt-IsSynchronized :
      (m : Memory) (c : Cryptor State) (src dest size : ℕ)
      → IsSynchronized c
      → IsSynchronized (encrypt_to cipher m c src dest size).1
  unfolding encrypt_to
  encrypt-IsSynchronized m c src dest size v = record {
    at_encrypt = rw v.at_encrypt (laws.encrypt_again c.key c.iv (load_list m src size));
    at_decrypt = v.at_decrypt;
  }

  pub decrypt-IsSynchronized :
      (m : Memory) (c : Cryptor State) (src dest size : ℕ)
      → IsSynchronized c
      → IsSynchronized (decrypt_to cipher m c src dest size).1
  unfolding decrypt_to
  decrypt-IsSynchronized m c src dest size v = record {
    at_encrypt = v.at_encrypt;
    at_decrypt = rw v.at_decrypt (laws.decrypt_again c.key c.iv (load_list m src size));
  }

  same_length_as :
      (s : State) (m : Memory) (a n : ℕ) → length (cipher.process s (load_list m a n)).0 ≡ n
  same_length_as s m a n = laws.same_length s (load_list m a n) ∙ length-load_list m a n

  pub load_list-encrypt_to :
      (m : Memory) (c : Cryptor State) (src dest n : ℕ)
      → IsSynchronized c
      → load_list (encrypt_to cipher m c src dest n).0 dest n
        ≡ (cipher.process (cipher.set_key_encrypt c.key c.iv) (load_list m src n)).0
  unfolding encrypt_to
  load_list-encrypt_to m c src dest n v =
      load_list-store_list_of m dest n _ (same_length_as c.encryption m src n)
        (laws.bytes c.encryption (load_list m src n))
      ∙ ap (λ (s : State). (cipher.process s (load_list m src n)).0) v.at_encrypt

  pub encrypt_to_outside :
      (m : Memory) (c : Cryptor State) (src dest n x : ℕ)
      → (x < dest) ⊎ (dest + n ≤ x)
      → (encrypt_to cipher m c src dest n).0 x ≡ m x
  unfolding encrypt_to
  encrypt_to_outside m c src dest n x h =
      store_list_outside m dest _ x (ground (arith, same_length_as c.encryption m src n))

  pub encrypt_outside :
      (m : Memory) (c : Cryptor State) (a n x : ℕ)
      → (x < a) ⊎ (a + n ≤ x)
      → (encrypt cipher m c a n).0 x ≡ m x
  unfolding encrypt
  encrypt_outside m c a n x h =
      store_list_outside m a _ x (ground (arith, same_length_as c.encryption m a n))

  pub decrypt_outside :
      (m : Memory) (c : Cryptor State) (a n x : ℕ)
      → (x < a) ⊎ (a + n ≤ x)
      → (decrypt cipher m c a n).0 x ≡ m x
  unfolding decrypt
  decrypt_outside m c a n x h =
      store_list_outside m a _ x (ground (arith, same_length_as c.decryption m a n))

  pub decrypt-encrypt_to :
      (m m' : Memory) (c d : Cryptor State) (src dest b n : ℕ)
      → IsBytes m
      → IsSynchronized c
      → IsSynchronized d
      → d.key ≡ c.key
      → d.iv ≡ c.iv
      → load_list m' b n ≡ load_list (encrypt_to cipher m c src dest n).0 dest n
      → load_list (decrypt cipher m' d b n).0 b n ≡ load_list m src n
  unfolding decrypt
  decrypt-encrypt_to m m' c d src dest b n bytes vc vd k i received =
      load_list-store_list_of m' b n _ (same_length_as d.decryption m' b n)
        (laws.bytes d.decryption (load_list m' b n))
      ∙ ap (λ (s : State). (cipher.process s (load_list m' b n)).0)
          (vd.at_decrypt ∙ ap₂ cipher.set_key_decrypt k i)
      ∙ ap (λ (xs : List ℕ). (cipher.process (cipher.set_key_decrypt c.key c.iv) xs).0)
          (received ∙ load_list-encrypt_to m c src dest n vc)
      ∙ laws.undone c.key c.iv (load_list m src n) (load_list-IsBytes m src n bytes)

  -- The cryptors that come of a key and a vector: those that a constructor makes, and what they
  -- become with each packet, of whatever memory, that they encrypt or decrypt.
  pub data Used (key iv : List ℕ) : Cryptor State → Type 0 where
    made : Used key iv (new_cryptor cipher key iv)
    copied : {c : Cryptor State} → Used key iv c → Used key iv (copy_cryptor cipher c)
    encrypts :
        {c : Cryptor State} (m : Memory) (src dest size : ℕ)
        → Used key iv c
        → Used key iv (encrypt_to cipher m c src dest size).1
    decrypts :
        {c : Cryptor State} (m : Memory) (src dest size : ℕ)
        → Used key iv c
        → Used key iv (decrypt_to cipher m c src dest size).1

  Used-key : {key iv : List ℕ} {c : Cryptor State} → Used key iv c → (c.key ≡ key) × (c.iv ≡ iv)
  unfolding new_cryptor copy_cryptor encrypt_to decrypt_to
  Used-key made = (refl, refl)
  Used-key (copied u) = Used-key u
  Used-key (encrypts m src dest size u) = Used-key u
  Used-key (decrypts m src dest size u) = Used-key u

  Used-IsSynchronized : {key iv : List ℕ} {c : Cryptor State} → Used key iv c → IsSynchronized c
  unfolding copy_cryptor
  Used-IsSynchronized {key} {iv} made = new_cryptor-IsSynchronized key iv
  Used-IsSynchronized (copied {c} u) = new_cryptor-IsSynchronized c.key c.iv
  Used-IsSynchronized (encrypts {c} m src dest size u) =
      encrypt-IsSynchronized m c src dest size (Used-IsSynchronized u)
  Used-IsSynchronized (decrypts {c} m src dest size u) =
      decrypt-IsSynchronized m c src dest size (Used-IsSynchronized u)

  -- What one side encrypts of a memory of bytes, another with the same key and vector decrypts to
  -- what it was, wherever it received it, and whatever packets either side has encrypted and decrypted
  -- before.
  pub decrypt-encrypt :
      {key iv : List ℕ} (m m' : Memory) (c d : Cryptor State) (a b n : ℕ)
      → IsBytes m
      → Used key iv c
      → Used key iv d
      → load_list m' b n ≡ load_list (encrypt cipher m c a n).0 a n
      → load_list (decrypt cipher m' d b n).0 b n ≡ load_list m a n
  unfolding encrypt
  decrypt-encrypt m m' c d a b n bytes uc ud =
      decrypt-encrypt_to m m' c d a a b n bytes (Used-IsSynchronized uc) (Used-IsSynchronized ud)
        ((Used-key ud).0 ∙ sym (Used-key uc).0) ((Used-key ud).1 ∙ sym (Used-key uc).1)
