-- ===== src/Brain/Datum.antt =====
-- bot/brain.go and bot/aescrypt.go: a memory on its way between the robot and the brain provider.
-- The provider is behind the interface robot.SimpleBrain, the cipher is AES-GCM of Go's library, and
-- the random bytes are those of crypto/rand: all three are fields of `Env`.
pub mod Secrets
use gopherbot.Prelude.{
  ℕ, ◌+◌, String, Bool, true, false, ◌&&◌, ◌||◌, Option, none, some, List, [], ◌∷◌, ◌++◌, ltb, ◌==◌,
  ◌=s◌, if◌then◌else◌, length, take, drop,
}
use gopherbot.Prelude.Bytes.{codes, contains, hex, is_word}
use gopherbot.RetVal.{RetVal, ok, brain_failed, invalid_datum_key}

abbrev pub Bytes : Type 0
Bytes = List ℕ

-- The results of SimpleBrain's methods: Retrieve gives bytes, nothing, or an error; Delete may fail
-- with "does not exist" or with another error.
pub data Retrieved : Type 0 where
  found : Bytes → Retrieved
  missing unreadable : Retrieved

pub data Deleted : Type 0 where
  deleted not_exist undeletable : Deleted

pub record Env : Type 1 where
  pub Store : Type 0
  pub retrieve : Store → String → Retrieved
  -- whether the write went well, and what the provider holds afterwards
  pub store : Store → String → Bytes → Bool × Store
  pub remove : Store → String → Deleted × Store
  -- aes.NewCipher and cipher.NewGCM accept the key
  pub key_ok : Bytes → Bool
  pub nonce_size : ℕ
  -- key, nonce, text
  pub seal : Bytes → Bytes → Bytes → Bytes
  pub unseal : Bytes → Bytes → Bytes → Option Bytes
  -- the n-th draw from crypto/rand, of so many bytes
  pub random : ℕ → ℕ → Bytes

-- `cryptKey`
pub record CryptKey : Type 0 where
  pub key : Bytes
  pub initializing : Bool
  pub initialized : Bool

-- `checkOutReply`
pub record CheckOutReply : Type 0 where
  pub token : Bytes
  pub bytes : Option Bytes
  pub exists : Bool
  pub ret : RetVal

abbrev pub bot_encryption_key : String
bot_encryption_key = "bot:encryptionKey"

-- `keyRe`, ^[\w:-]+$: one character at least, and each a word character, `:` or `-`
key_chars : List ℕ → Bool
key_chars [] = true
key_chars (c ∷ cs) = (is_word c || c == b':' || c == b'-') && key_chars cs

unfoldable pub key_valid : String → Bool
unfolding key_chars
key_valid k = ltb 0 (length (codes k)) && key_chars (codes k)

-- The refusal of a key that holds `\` or `..`
unfoldable pub key_unsafe : String → Bool
key_unsafe k = contains (codes k) (b'\\' ∷ []) || contains (codes k) (b'.' ∷ b'.' ∷ [])

abbrev pub failure : RetVal → CheckOutReply
failure r = record { token = []; bytes = none; exists = false; ret = r }

module _ (env : Env) where
  open env use {Store, retrieve, store, key_ok, nonce_size, seal, unseal, random}

  -- What the brain functions read and write: the provider (`none` for nil), the key, and how many
  -- draws of random bytes were made.
  pub record Vault : Type 0 where
    pub brain : Option Store
    pub crypt : CryptKey
    pub draws : ℕ

  pub encrypt : Bytes → Bytes → ℕ → Option Bytes
  encrypt plaintext key draw =
      if key_ok key
      then some (random draw nonce_size ++ seal key (random draw nonce_size) plaintext)
      else none

  pub decrypt : Bytes → Bytes → Option Bytes
  decrypt ciphertext key =
      if key_ok key
      then (if ltb (length ciphertext) nonce_size
          then none
          else unseal key (take nonce_size ciphertext) (drop nonce_size ciphertext))
      else none

  write_through : Vault → String → Bytes → Option Store → RetVal × Vault
  write_through v dkey encrypted none = (brain_failed, v)
  write_through v dkey encrypted (some s) =
      let (done, s') = store s dkey encrypted in
      (if done then ok else brain_failed, record v { brain = some s'; draws = v.draws + 1 })

  unfoldable pub store_datum : Vault → String → Bytes → RetVal × Vault
  unfolding write_through encrypt
  store_datum v dkey datum = if key_unsafe dkey then (invalid_datum_key, v) else elim v.brain [
    | none ↦ (brain_failed, v)
    | some s ↦
        if v.crypt.initialized || (v.crypt.initializing && dkey =s bot_encryption_key)
        then elim (encrypt datum v.crypt.key v.draws) [
          | none ↦ (brain_failed, v)
          | some encrypted ↦ write_through v dkey encrypted (some s)
        ]
        else (brain_failed, v)
  ]

  -- Eight random bytes in hexadecimal, or no token for a read.
  abbrev pub draw_token : Vault → Bool → Bytes × Vault
  draw_token v true = (hex (random v.draws 8), record v { draws = v.draws + 1 })
  draw_token v false = ([], v)

  -- A memory that is there, once it is known what the key is good for.
  decrypted : Vault → String → Bytes → Bytes → CheckOutReply × Vault
  unfolding decrypt store_datum
  decrypted v dkey token db =
      if v.crypt.initializing
      then (if dkey =s bot_encryption_key
          then elim (decrypt db v.crypt.key) [
            | none ↦ (failure brain_failed, v)
            | some d ↦ (record { token = token; bytes = some d; exists = true; ret = ok }, v)
          ]
          else (failure brain_failed, v))
      else if v.crypt.initialized
      then elim (decrypt db v.crypt.key) [
        | some d ↦ (record { token = token; bytes = some d; exists = true; ret = ok }, v)
        | none ↦ (
          record { token = token; bytes = some db; exists = true; ret = ok },
          if dkey =s bot_encryption_key then v else (store_datum v dkey db).1,
        )
      ]
      else (failure brain_failed, v)

  unfoldable pub get_datum : Vault → String → Bool → CheckOutReply × Vault
  unfolding decrypted
  get_datum v dkey rw =
      if key_valid dkey
      then elim v.brain [
        | none ↦ (failure brain_failed, v)
        | some s ↦
            let (token, v') = draw_token v rw in
            elim (retrieve s dkey) [
              | unreadable ↦ (failure brain_failed, v')
              | missing ↦ (record { token = token; bytes = none; exists = false; ret = ok }, v')
              | found db ↦ decrypted v' dkey token db
            ]
      ]
      else (failure invalid_datum_key, v)
