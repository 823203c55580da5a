-- ===== src/BrainLock.antt =====
-- bot/brain_lock.go: the lock in the brain that keeps a second instance of a robot from starting. The
-- brain is a cached brain (BrainCache) with a remote; `answer` is what Get of the remote answers for
-- the lock's key. The fields of a lock that only identify an instance to a person are in `info`.
pub mod Holds
pub mod Starts
use gopherbot.Prelude.{
  ℕ, Bool, true, false, not, ◌&&◌, Option, none, some, List, [], ◌∷◌, ltb, if◌then◌else◌,
}
use gopherbot.Prelude.Bytes.{codes}
use gopherbot.BrainCache.{
  Text, is_empty, bytes_eq, brain_lock_key, RemoteRecord, Cache, Steps, Outcome, done, failed,
  latest_database_version, set_active_lock_id,
}
use gopherbot.BrainCache.Write.{store}
use gopherbot.BrainCache.Loops.{Rounds, flush}
use gopherbot.BrainCache.Import.{
  ℤ, Answer, error, missing, present, verify_last_cloud_write, and_then,
}

-- `brainLockHeld` and `brainLockReleased`
abbrev pub brain_lock_held : Text
brain_lock_held = codes "held"

abbrev pub brain_lock_released : Text
brain_lock_released = codes "released"

-- `instanceLockData`
pub record Lock : Type 0 where
  pub state : Text
  pub lock_id : Text
  pub cache_nonce_hash : Text
  pub info : Text
  pub database_version : ℕ

-- What `readBrainLockForStartup` returns.
pub data Reading : Type 0 where
  unreadable absent : Reading
  found : Lock → Reading

-- The calls are over `checksumBytes`, and over the writing of a lock as an encrypted payload, `encode`,
-- and its reading, `decode`.
module _ (checksum_bytes : Text → Text) (encode : Lock → Text) (decode : Text → Option Lock) where
  abbrev pub decoded : Option Lock → Reading
  decoded none = unreadable
  decoded (some l) = found l

  -- `readBrainLockForStartup` with a remote
  unfoldable pub read_brain_lock : Answer → Reading
  read_brain_lock error = unreadable
  read_brain_lock missing = absent
  read_brain_lock (present format r) = if r.deleted then absent else decoded (decode r.payload)

  -- `hashBrainCacheNonce`
  abbrev pub hash_nonce : Text → Text
  hash_nonce nonce = if is_empty nonce then [] else checksum_bytes nonce

  -- `canReclaimHeldBrainLock`
  unfoldable pub can_reclaim : Lock → Cache → Bool
  can_reclaim l c =
      if is_empty c.control.active_lock_id
      then false
      else if is_empty l.lock_id
      then false
      else if not (bytes_eq l.lock_id c.control.active_lock_id)
      then false
      else not (is_empty (hash_nonce c.control.cache_nonce))
        && bytes_eq l.cache_nonce_hash (hash_nonce c.control.cache_nonce)

  -- `newInstanceLockData`
  abbrev pub new_lock : Text → Text → Text → Cache → Lock
  new_lock state id info c = record {
    state = state;
    lock_id = id;
    cache_nonce_hash = hash_nonce c.control.cache_nonce;
    info = info;
    database_version = latest_database_version c;
  }

  -- An instance's random lock id and its information, the time and the steps of a call, and the
  -- answers of the remote to the verification of the last write.
  module _ (id info : Text) (now today : ℕ) (ok ok' : Steps) where
    abbrev pub store_lock : Text → Text → Cache → Outcome
    store_lock state lock_id c =
        store checksum_bytes now today ok ok' brain_lock_key
          (encode (new_lock state lock_id info c)) c

    -- `writeBrainLock` of a held lock, with the steps `ok_id` of `setActiveLockID`
    unfoldable pub write_held : Steps → Cache → Outcome
    write_held ok_id c = and_then (set_active_lock_id ok_id id c) (store_lock brain_lock_held id)

    -- `writeBrainLock` of a released lock, in `releaseBrainLock`
    unfoldable pub release_brain_lock : Cache → Outcome
    release_brain_lock c = store_lock brain_lock_released c.control.active_lock_id c

    abbrev pub verified : Steps → ℤ → (ℕ → Answer) → Cache → Outcome
    verified ok_id retries answers c =
        if verify_last_cloud_write retries answers c then write_held ok_id c else failed c

    -- `lock.State`, with its default
    abbrev pub state_of : Lock → Text
    state_of l = if is_empty l.state then brain_lock_held else l.state

    abbrev pub admit : Steps → ℤ → (ℕ → Answer) → Cache → Reading → Outcome
    admit ok_id retries answers c unreadable = failed c
    admit ok_id retries answers c absent = verified ok_id retries answers c
    admit ok_id retries answers c (found l) =
        if bytes_eq (state_of l) brain_lock_held
        then (if can_reclaim l c then verified ok_id retries answers c else failed c)
        else if bytes_eq (state_of l) brain_lock_released
        then (if ltb (latest_database_version c) l.database_version
            then failed c
            else verified ok_id retries answers c)
        else failed c

    -- `acquireBrainLock` up to the replay of the outbox; it fails where the source logs a fatal error,
    -- which ends the process.
    unfoldable pub acquire_brain_lock : Steps → ℤ → (ℕ → Answer) → Answer → Cache → Outcome
    acquire_brain_lock ok_id retries answers answer c =
        admit ok_id retries answers c (read_brain_lock answer)

  abbrev pub is_drained {ℓ} : {A : Type ℓ} → List A → Bool
  is_drained [] = true
  is_drained (x ∷ l) = false

  -- `replayBrainCacheOutboxOnStartup`
  unfoldable pub replay_outbox : ℕ → Rounds → Cache → Option Cache
  replay_outbox fuel rounds c =
      if is_drained c.outbox then some c else flush checksum_bytes fuel rounds c
