-- ===== src/BrainCache/Import.antt =====
-- bot/brain_cache.go: the records that an import writes into the cache, and the verification of a
-- record that the remote has. The calls are over `checksumBytes`. A record's format is a number here,
-- 3 for the cache's own.
use gopherbot.Prelude.{
  ℕ, zero, suc, ◌+◌, ◌%◌, Bool, true, false, not, ◌&&◌, ◌||◌, Option, none, some, leb, ◌==◌,
  if◌then◌else◌,
}
use gopherbot.BrainCache.{
  Text, is_empty, bytes_eq, uint64_size, Meta, CloudWrite, Control, RemoteRecord, Cache, Steps,
  control_write, payload_write, payload_remove, meta_write, Outcome, done, failed, need,
  put_payload, remove_payload, put_meta, reserved_version, reserve_version,
}

-- `writeControl` whose error the caller returns.
abbrev pub save_control : Steps → Cache → Outcome
save_control ok c = need (ok control_write) c (done (record c { saved = c.control }))

-- `finalizeImport`
unfoldable pub finalize_import : Steps → Text → Cache → Outcome
finalize_import ok imported_from c =
    save_control ok
      (record c { control = record c.control { complete = true; imported_from = imported_from } })

abbrev pub raise_checkpoint : Text → ℕ → Text → Control → Control
raise_checkpoint k version sum t =
    if leb t.checkpoint_vers version
    then record t { checkpoint_key = k; checkpoint_vers = version; checkpoint_sum = sum }
    else t

abbrev pub raise_version : ℕ → Control → Control
raise_version version t =
    if leb t.next_version version
    then record t { next_version = (version + 1) % uint64_size }
    else t

-- The payload's file of an imported record: a failed removal is dropped.
abbrev pub import_payload : Steps → Text → Bool → Text → Cache → Outcome
import_payload ok k deleted payload c =
    if deleted
    then done (if ok payload_remove then remove_payload k c else c)
    else need (ok payload_write) c (done (put_payload k payload c))

abbrev pub and_then : Outcome → (Cache → Outcome) → Outcome
and_then (done c) next = next c
and_then (failed c) next = failed c

abbrev pub import_meta : Steps → Text → Meta → (Control → Control) → Cache → Outcome
import_meta ok k m change c =
    need (ok meta_write) c
      (save_control ok (record (put_meta k m c) { control = change c.control }))

module _ (checksum_bytes : Text → Text) (now : ℕ) (ok : Steps) where
  -- `importRaw`
  unfoldable pub import_raw : Text → Text → Bool → Cache → Outcome
  import_raw k payload deleted c =
      let version = reserved_version c in
      let m : Meta = record {
        version = version;
        checksum = checksum_bytes payload;
        deleted = deleted;
        updated_at = now;
        synced_at = none;
      } in
      and_then (import_payload ok k deleted payload (reserve_version ok c))
        (import_meta ok k m (raise_checkpoint k version m.checksum))

  -- The checksum that `importV3Record` fills in.
  abbrev pub import_checksum : RemoteRecord → Text
  import_checksum r =
      if is_empty r.checksum && not r.deleted then checksum_bytes r.payload else r.checksum

  -- An `updated_at` of 0 is Go's zero time.
  abbrev pub imported_meta : RemoteRecord → Meta
  imported_meta r = record {
    version = r.version;
    checksum = import_checksum r;
    deleted = r.deleted;
    updated_at = if r.updated_at == 0 then now else r.updated_at;
    synced_at = some now;
  }

  abbrev pub imported_control : RemoteRecord → Control → Control
  imported_control r t =
      raise_checkpoint r.key r.version (import_checksum r) (raise_version r.version t)

  -- `importV3Record`
  unfoldable pub import_v3_record : ℕ → RemoteRecord → Cache → Outcome
  import_v3_record format r c =
      if not (format == 3)
      then failed c
      else if not r.deleted && not (bytes_eq (checksum_bytes r.payload) (import_checksum r))
      then failed c
      else and_then (import_payload ok r.key r.deleted r.payload c)
          (import_meta ok r.key (imported_meta r) (imported_control r))

-- What Get of the remote answers: an error, no record, or a record with its format.
pub data Answer : Type 0 where
  error missing : Answer
  present : ℕ → RemoteRecord → Answer

abbrev pub same_mark : Bool → Bool → Bool
same_mark true b = b
same_mark false b = not b

-- The record is the one that was written.
unfoldable pub is_verified : ℕ → Text → Bool → Bool → Answer → Bool
is_verified version checksum deleted check_deleted error = false
is_verified version checksum deleted check_deleted missing = false
is_verified version checksum deleted check_deleted (present format r) =
    format == 3
    && (r.version == version
        && (bytes_eq r.checksum checksum && (not check_deleted || same_mark r.deleted deleted)))

abbrev pub attempt : (Answer → Bool) → ℕ → (ℕ → Answer) → Bool
attempt good zero answers = false
attempt good (suc n) answers =
    let rest = attempt good n (λ i. answers (suc i)) in if good (answers 0) then true else rest

-- An int of Go: `negsuc n` is -(n + 1).
pub data ℤ : Type 0 where
  pos negsuc : ℕ → ℤ

-- One attempt more than the retries, and at least one.
abbrev pub attempts_of : ℤ → ℕ
attempts_of (pos n) = n + 1
attempts_of (negsuc n) = 1

-- `verifyRemoteRecord` returns no error: attempt `i` has the answer `answers i`.
unfoldable pub verify_remote_record : ℤ → (ℕ → Answer) → ℕ → Text → Bool → Bool → Bool
verify_remote_record retries answers version checksum deleted check_deleted =
    attempt (is_verified version checksum deleted check_deleted) (attempts_of retries) answers

-- `verifyLastCloudWrite`
unfoldable pub verify_last_cloud_write : ℤ → (ℕ → Answer) → Cache → Bool
verify_last_cloud_write retries answers c =
    if c.has_remote then checked c.control.last_cloud_write else true
  where
    checked : Option CloudWrite → Bool
    checked none = true
    checked (some w) =
        if is_empty w.key
        then true
        else verify_remote_record retries answers w.version w.checksum w.deleted true
