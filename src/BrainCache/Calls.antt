-- ===== src/BrainCache/Calls.antt =====
-- bot/brain_cache.go: the calls that other goroutines make of a cache. Each is one step under the
-- cache's lock; one that returns an error leaves the cache as it then is.
use gopherbot.Prelude.{ℕ, Bool, true, List, [], ◌∷◌, ◌≡◌}
use gopherbot.BrainCache.{
  Text, OutboxEntry, Cache, Steps, after, set_active_lock_id, payload_write, meta_write,
  outbox_write,
}
use gopherbot.BrainCache.Sync.{sync_outbox_entry}
use gopherbot.BrainCache.Write.{store, delete_memory}

-- Store, Delete, the sending of an entry by another loop, `setActiveLockID`, and Shutdown's mark.
pub data Call : Type 0 where
  store_call : (now today : ℕ) (ok ok' : Steps) (k blob : Text) → Call
  delete_call : (now today : ℕ) (ok ok' : Steps) (k : Text) → Call
  sync_call : (now today : ℕ) (ok : Steps) (k : Text) (enforce : Bool) (e : OutboxEntry) → Call
  lock_call : (ok : Steps) (id : Text) → Call
  stop_call : Call

module _ (checksum_bytes : Text → Text) where
  abbrev pub run_call : Call → Cache → Cache
  run_call (store_call now today ok ok' k blob) c =
      after (store checksum_bytes now today ok ok' k blob c)
  run_call (delete_call now today ok ok' k) c =
      after (delete_memory checksum_bytes now today ok ok' k c)
  run_call (sync_call now today ok k enforce e) c =
      after (sync_outbox_entry checksum_bytes now today ok k enforce e c)
  run_call (lock_call ok id) c = after (set_active_lock_id ok id c)
  run_call stop_call c = record c { stopped = true }

  abbrev pub run_calls : List Call → Cache → Cache
  run_calls [] c = c
  run_calls (x ∷ xs) c = run_calls xs (run_call x c)

-- A Store or Delete can write the contents, the meta record and the outbox entry.
abbrev pub Writes : Call → Type 0
Writes (store_call now today ok ok' k blob) =
    (ok payload_write ≡ true) × (ok meta_write ≡ true) × (ok outbox_write ≡ true)
Writes (delete_call now today ok ok' k) = (ok meta_write ≡ true) × (ok outbox_write ≡ true)
Writes _ = Unit

abbrev pub AllWrite : List Call → Type 0
AllWrite [] = Unit {0}
AllWrite (x ∷ xs) = Writes x × AllWrite xs

-- The calls that come in a round of a loop: before the outbox is listed, and between that and the
-- sending of the entry.
pub record Between : Type 0 where
  pub before : List Call
  pub during : List Call

abbrev pub quiet : Between
quiet = record { before = []; during = [] }
