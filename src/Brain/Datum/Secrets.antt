-- ===== src/Brain/Datum/Secrets.antt =====
-- About `storeDatum` and `getDatum` together, through the cipher and the provider.
use gopherbot.Prelude.{
  ℕ, ◌+◌, ◌≡◌, refl, sym, ap, ◌∙◌, String, Bool, true, false, Option, none, some, [], ◌++◌, arith,
  length, length-append, drop, take-append_le, drop-append_le, take_all, drop_all, if_true,
  if_false, ltb, if◌then◌else◌, subst,
}
use gopherbot.Prelude.Bytes.{hex}
use gopherbot.RetVal.{RetVal, ok, brain_failed}
use gopherbot.Brain.Datum.{
  Bytes, Env, found, Vault, CheckOutReply, key_valid, key_unsafe, encrypt, decrypt, write_through,
  store_datum, decrypted, get_datum,
}

module _ (env : Env)
    (reads : (s : env.Store) (k : String) (d : Bytes)
      → (env.store s k d).0 ≡ true
      → env.retrieve (env.store s k d).1 k ≡ found d)
    (opens : (key nonce text : Bytes) → env.unseal key nonce (env.seal key nonce text) ≡ some text)
    (sized : (n size : ℕ) → length (env.random n size) ≡ size) where
  -- A vault whose encryption is initialized, over a provider.
  abbrev pub ready : env.Store → Bytes → ℕ → Vault env
  ready s key draws = record {
    brain = some s;
    crypt = record { key = key; initializing = false; initialized = true };
    draws = draws;
  }

  abbrev pub sealed : Bytes → ℕ → Bytes → Bytes
  sealed key draws d =
      env.random draws env.nonce_size ++ env.seal key (env.random draws env.nonce_size) d

  decrypt-sealed :
      (key : Bytes) (draws : ℕ) (d : Bytes)
      → env.key_ok key ≡ true
      → decrypt env (sealed key draws d) key ≡ some d
  unfolding decrypt
  decrypt-sealed key draws d good =
      let nonce = env.random draws env.nonce_size in
      let rest = env.seal key nonce d in
      let size = sized draws env.nonce_size in
      if_true (env.key_ok key) _ _ good
      ∙ if_false (ltb (length (sealed key draws d)) env.nonce_size) _ _
          (ground (arith, size, length-append nonce rest))
      ∙ ap (λ n. env.unseal key n (drop env.nonce_size (sealed key draws d)))
          (take-append_le env.nonce_size nonce rest (omega (arith, size))
            ∙ take_all env.nonce_size nonce (omega (arith, size)))
      ∙ ap (env.unseal key nonce) (
          drop-append_le env.nonce_size nonce rest (omega (arith, size))
          ∙ ap (λ l. l ++ rest) (drop_all env.nonce_size nonce (omega (arith, size))))
      ∙ opens key nonce d

  stored :
      (s : env.Store) (key : Bytes) (draws : ℕ) (k : String) (d : Bytes)
      → key_unsafe k ≡ false
      → env.key_ok key ≡ true
      → (env.store s k (sealed key draws d)).0 ≡ true
      → store_datum env (ready s key draws) k d
        ≡ (ok, ready (env.store s k (sealed key draws d)).1 key (draws + 1))
  unfolding store_datum encrypt write_through
  stored s key draws k d safe good done =
      let v = ready s key draws in
      if_false (key_unsafe k) _ _ safe
      ∙ ap
          (λ (o : Option Bytes). elim o as (λ _. RetVal × Vault env) [
            | none ↦ (brain_failed, v)
            | some e ↦ write_through env v k e (some s)
          ])
          (if_true (env.key_ok key) _ _ good)
      ∙ ap
          (λ b. (
            if b then ok else brain_failed,
            ready (env.store s k (sealed key draws d)).1 key (draws + 1),
          ))
          done

  decrypted-sealed :
      (s : env.Store) (key : Bytes) (m n : ℕ) (k : String) (d token : Bytes)
      → env.key_ok key ≡ true
      → decrypted env (ready s key m) k token (sealed key n d)
        ≡ (record { token = token; bytes = some d; exists = true; ret = ok }, ready s key m)
  unfolding decrypted
  decrypted-sealed s key m n k d token good = rw (decrypt-sealed key n d good) refl

  abbrev pub Reads : CheckOutReply × Vault env → Bytes → Type 0
  Reads r d = (r.0.bytes ≡ some d) × (r.0.exists ≡ true) × (r.0.ret ≡ ok)

  got :
      (s : env.Store) (key : Bytes) (draws n : ℕ) (k : String) (d : Bytes) (rw : Bool)
      → key_valid k ≡ true
      → env.key_ok key ≡ true
      → env.retrieve s k ≡ found (sealed key n d)
      → Reads (get_datum env (ready s key draws) k rw) d
  unfolding get_datum
  got s key draws n k d true valid good there =
      rw (valid, there)
        (let e = decrypted-sealed s key (draws + 1) n k d (hex (env.random draws 8)) good in
          (ap (λ r. r.0.bytes) e, ap (λ r. r.0.exists) e, ap (λ r. r.0.ret) e))
  got s key draws n k d false valid good there =
      rw (valid, there)
        (let e = decrypted-sealed s key draws n k d [] good in
          (ap (λ r. r.0.bytes) e, ap (λ r. r.0.exists) e, ap (λ r. r.0.ret) e))

  -- With initialized encryption, a provider that reads back what it stored, and a cipher that
  -- opens what it sealed under nonces of the right size: where the name is a legal one, the cipher
  -- takes the key, and the provider's write goes well, storeDatum answers Ok, and getDatum then
  -- gives the datum.
  pub get_datum-store_datum :
      (s : env.Store) (key : Bytes) (draws : ℕ) (k : String) (d : Bytes) (rw : Bool)
      → key_valid k ≡ true
      → key_unsafe k ≡ false
      → env.key_ok key ≡ true
      → (env.store s k (sealed key draws d)).0 ≡ true
      → ((store_datum env (ready s key draws) k d).0 ≡ ok)
        × Reads (get_datum env (store_datum env (ready s key draws) k d).1 k rw) d
  get_datum-store_datum s key draws k d rw valid safe good done =
      let e = stored s key draws k d safe good done in
      (
        ap (λ r. r.0) e,
        subst (λ (r : RetVal × Vault env). Reads (get_datum env r.1 k rw) d) (sym e)
            (got (env.store s k (sealed key draws d)).1 key (draws + 1) draws k d rw valid good
              (reads s k (sealed key draws d) done)),
      )
