-- ===== src/BrainCache/Write.antt =====
-- bot/brain_cache.go: Store and Delete. The lock of the robot's instance is sent at once, with the
-- steps of `ok'`; the other memories wait in the outbox for `syncLoop`.
use gopherbot.Prelude.{ℕ, true, false, none, [], if◌then◌else◌}
use gopherbot.BrainCache.{
  Text, bytes_eq, brain_lock_key, Meta, OutboxEntry, Cache, Steps, payload_write, payload_remove,
  meta_write, outbox_write, Outcome, done, failed, need, put_payload, remove_payload, put_meta,
  put_outbox, reserved_version, reserve_version,
}
use gopherbot.BrainCache.Sync.{sync_key}

module _ (checksum_bytes : Text → Text) (now today : ℕ) (ok ok' : Steps) (k : Text) where
  -- The memory goes into the outbox of a cache with a remote.
  abbrev pub enqueue : OutboxEntry → Cache → Outcome
  enqueue e c =
      if c.has_remote
      then need (ok outbox_write) c (
          if bytes_eq k brain_lock_key
          then sync_key checksum_bytes now today ok' k false (put_outbox k e c)
          else done (put_outbox k e c))
      else done c

  abbrev pub write_meta : Meta → Cache → Outcome
  write_meta m c =
      need (ok meta_write) c
        (enqueue (record { version = m.version; is_delete = m.deleted }) (put_meta k m c))

  abbrev pub stored_meta : ℕ → Text → Meta
  stored_meta version blob = record {
    version = version;
    checksum = checksum_bytes blob;
    deleted = false;
    updated_at = now;
    synced_at = none;
  }

  abbrev pub deleted_meta : ℕ → Meta
  deleted_meta version = record {
    version = version;
    checksum = [];
    deleted = true;
    updated_at = now;
    synced_at = none;
  }

  -- `Store`; the blob of a nil pointer is empty.
  unfoldable pub store : Text → Cache → Outcome
  store blob c =
      if c.stopped
      then failed c
      else let c' = reserve_version ok c in
        need (ok payload_write) c'
          (write_meta (stored_meta (reserved_version c) blob) (put_payload k blob c'))

  -- A payload that cannot be removed stays.
  abbrev pub without_payload : Cache → Cache
  without_payload c = if ok payload_remove then remove_payload k c else c

  -- `Delete`
  unfoldable pub delete_memory : Cache → Outcome
  delete_memory c =
      write_meta (deleted_meta (reserved_version c)) (without_payload (reserve_version ok c))
