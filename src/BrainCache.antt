-- ===== src/BrainCache.antt =====
-- bot/brain_cache.go: the local cache in front of a cloud brain. This file has the state, Store,
-- Delete, Retrieve and List; the children have the synchronisation with the remote, the import of
-- records and the verification of a remote record. A version is a uint64, with its wrap-around.
--
-- The files of the cache directory are the fields of `Cache`: data, meta and outbox are maps by key,
-- control.json is `saved`. A step that can fail, a file operation or a call of the remote, succeeds
-- as the argument `ok` says; a file is replaced whole or not at all (`writeAtomicFile`). The remote
-- is seen by the records that it accepted, in `sent`, the newest first.
pub mod Sync
pub mod Write
pub mod Calls
pub mod Loops
pub mod Import
pub mod Effects
pub mod Mirror
pub mod Runs
pub mod Growth
pub mod Busy
pub mod Queue
pub mod Pending
pub mod Memories
pub mod Flushes
pub mod Contents
pub mod Versions
pub mod Local
pub mod Budget
pub mod Spending
pub mod Faults
pub mod Verified
pub mod Imports
pub mod Hydrate
pub mod Hydration
use gopherbot.Prelude.{
  ℕ, suc, ◌+◌, ◌-◌, ◌%◌, ◌≡◌, Bool, true, false, not, ◌&&◌, Option, none, some, List, [], ◌∷◌, ltb,
  ◌==◌, if◌then◌else◌,
}
use gopherbot.Prelude.Assoc.{lookup, insert, delete}
pub use gopherbot.Prelude.Bytes.{Text, is_empty, bytes_eq, Bytes_discrete}
use gopherbot.Prelude.Bytes.{codes}

-- The number of values of a uint64.
abbrev pub uint64_size : ℕ
uint64_size = 18446744073709551616

-- `brainLockKey`
abbrev pub brain_lock_key : Text
brain_lock_key = codes "bot:instance-lock"

-- `brainCacheMeta`, less its key, by which it is filed, and its constant format.
pub record Meta : Type 0 where
  pub version : ℕ
  pub checksum : Text
  pub deleted : Bool
  pub updated_at : ℕ
  pub synced_at : Option ℕ

-- `brainCacheOutboxEntry`, less its key
pub record OutboxEntry : Type 0 where
  pub version : ℕ
  pub is_delete : Bool

-- `brainCacheCloudWrite`
pub record CloudWrite : Type 0 where
  pub key : Text
  pub version : ℕ
  pub checksum : Text
  pub deleted : Bool
  pub updated_at : ℕ
  pub synced_at : ℕ

-- `brainCacheControl`, less its constant format and the time of its last change
pub record Control : Type 0 where
  pub complete : Bool
  pub next_version : ℕ
  pub checkpoint_key : Text
  pub checkpoint_vers : ℕ
  pub checkpoint_sum : Text
  pub imported_from : Text
  pub cache_nonce : Text
  pub active_lock_id : Text
  pub last_cloud_write : Option CloudWrite

-- `brainCacheWriteBudget`; a day is a number
pub record WriteBudget : Type 0 where
  pub date : ℕ
  pub writes : ℕ

-- `RemoteBrainRecord` of robot/brain.go, less its format
pub record RemoteRecord : Type 0 where
  pub key : Text
  pub version : ℕ
  pub checksum : Text
  pub deleted : Bool
  pub updated_at : ℕ
  pub payload : Text

-- `cachedBrain` with its directory. `write_budget_per_day` is the policy's, 0 for no budget.
pub record Cache : Type 0 where
  pub payloads : List (Text × Text)
  pub metas : List (Text × Meta)
  pub outbox : List (Text × OutboxEntry)
  pub control : Control
  pub saved : Control
  pub budget : Option WriteBudget
  pub sent : List RemoteRecord
  pub has_remote : Bool
  pub write_budget_per_day : ℕ
  pub stopped : Bool

-- The steps of a call that can fail.
pub data Step : Type 0 where
  control_write payload_write payload_remove meta_write outbox_write : Step
  outbox_read entry_read meta_read payload_read budget_check remote_call : Step
  budget_read budget_write meta_mark control_mark outbox_remove : Step

-- Which steps of a call succeed.
abbrev pub Steps : Type 0
Steps = Step → Bool

-- A call that returns no error, and one that returns an error with what it has changed.
pub data Outcome : Type 0 where
  done failed : Cache → Outcome

abbrev pub after : Outcome → Cache
after (done c) = c
after (failed c) = c

-- `if err != nil { return err }` behind a step on the state
abbrev pub need : Bool → Cache → Outcome → Outcome
need b c rest = if b then rest else failed c

abbrev pub payload_at : Text → Cache → Option Text
payload_at k c = lookup Bytes_discrete k c.payloads

abbrev pub meta_at : Text → Cache → Option Meta
meta_at k c = lookup Bytes_discrete k c.metas

abbrev pub queued_at : Text → Cache → Option OutboxEntry
queued_at k c = lookup Bytes_discrete k c.outbox

-- `writePayload`, `writeMeta`, `writeOutbox`, `removeOutbox` and the removal of a payload
abbrev pub put_payload : Text → Text → Cache → Cache
put_payload k p c = record c { payloads = insert Bytes_discrete k p c.payloads }

abbrev pub remove_payload : Text → Cache → Cache
remove_payload k c = record c { payloads = delete Bytes_discrete k c.payloads }

abbrev pub put_meta : Text → Meta → Cache → Cache
put_meta k m c = record c { metas = insert Bytes_discrete k m c.metas }

abbrev pub put_outbox : Text → OutboxEntry → Cache → Cache
put_outbox k e c = record c { outbox = insert Bytes_discrete k e c.outbox }

abbrev pub remove_outbox : Text → Cache → Cache
remove_outbox k c = record c { outbox = delete Bytes_discrete k c.outbox }

-- `writeControl`
abbrev pub write_control : Bool → Cache → Cache
write_control written c = if written then record c { saved = c.control } else c

-- `reserveVersionLocked`: the version, and the state with the next one. An error of `writeControl` is
-- dropped.
unfoldable pub reserved_version : Cache → ℕ
reserved_version c = if c.control.next_version == 0 then 1 else c.control.next_version

unfoldable pub reserve_version : Steps → Cache → Cache
reserve_version ok c = write_control (ok control_write) (record c {
  control = record c.control { next_version = (reserved_version c + 1) % uint64_size };
})

-- `latestDatabaseVersionLocked`
unfoldable pub latest_database_version : Cache → ℕ
latest_database_version c = if c.control.next_version == 0 then 0 else c.control.next_version - 1

-- `loadControl` of a cache that is opened again, with the nonce that is made where there is none; the
-- error is that of `writeControl`
unfoldable pub load_control : Steps → Text → Cache → Outcome
load_control ok nonce c =
    if is_empty versioned.cache_nonce
    then need (ok control_write) named (done (record named { saved = named.control }))
    else done (record c { control = versioned })
  where
    versioned : Control
    versioned = if c.saved.next_version == 0 then record c.saved { next_version = 1 } else c.saved

    named : Cache
    named = record c { control = record versioned { cache_nonce = nonce } }

-- `setActiveLockID`
unfoldable pub set_active_lock_id : Steps → Text → Cache → Outcome
set_active_lock_id ok id c =
    let c' = record c { control = record c.control { active_lock_id = id } } in
    need (ok control_write) c' (done (record c' { saved = c'.control }))

abbrev pub undeleted : Option Text → Option Meta → Option Text
undeleted payload none = none
undeleted payload (some m) = if m.deleted then none else payload

-- `Retrieve`, where no file fails, over the key's pattern `keyRe`: nothing for a key that is not valid,
-- which is an error, for one without a memory, and for one whose memory was deleted
unfoldable pub retrieve : (Text → Bool) → Text → Cache → Option Text
retrieve valid_key k c = if valid_key k then undeleted (payload_at k c) (meta_at k c) else none
