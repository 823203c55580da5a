-- ===== src/BrainCache/Sync.antt =====
-- bot/brain_cache.go, from `syncPending` to `recordCloudWriteLocked`: a memory of the outbox is sent to
-- the remote. The calls are over `checksumBytes`; `now` is the time and `today` its day.
use gopherbot.Prelude.{
  ℕ, suc, Bool, true, false, not, ◌&&◌, ◌||◌, Option, none, some, List, [], ◌∷◌, ltb, leb, ◌==◌,
  if◌then◌else◌,
}
use gopherbot.BrainCache.{
  Text, is_empty, bytes_eq, brain_lock_key, Meta, OutboxEntry, WriteBudget, Control, RemoteRecord,
  Cache, Steps, outbox_read, entry_read, meta_read, payload_read, budget_check, remote_call,
  budget_read, budget_write, meta_mark, control_mark, outbox_remove, Outcome, done, failed, need,
  payload_at, meta_at, queued_at, put_meta, remove_outbox,
}

abbrev pub budget_of_day : ℕ → Option WriteBudget → WriteBudget
budget_of_day today none = record { date = today; writes = 0 }
budget_of_day today (some b) = if b.date == today then b else record { date = today; writes = 0 }

-- `readWriteBudget`
unfoldable pub read_budget : ℕ → Cache → WriteBudget
read_budget today c = budget_of_day today c.budget

-- `checkCloudWriteBudgetLocked` returns no error.
unfoldable pub within_budget : Steps → ℕ → Cache → Bool
within_budget ok today c =
    if c.write_budget_per_day == 0
    then true
    else ok budget_check && ltb (read_budget today c).writes c.write_budget_per_day

-- The budget with one more write.
unfoldable pub count_write : ℕ → Cache → Cache
count_write today c =
    let b = read_budget today c in record c { budget = some (record b { writes = suc b.writes }) }

-- The order of Go strings.
unfoldable pub text_less : Text → Text → Bool
text_less s [] = false
text_less [] (y ∷ t) = true
text_less (x ∷ s) (y ∷ t) = let rest = text_less s t in if ltb x y then true else (x == y) && rest

-- The order of `outboxEntries`.
unfoldable pub entry_less : Text × OutboxEntry → Text × OutboxEntry → Bool
entry_less (k, e) (j, f) = if e.version == f.version then text_less k j else ltb e.version f.version

abbrev pub earlier : Text × OutboxEntry → Option (Text × OutboxEntry) → Text × OutboxEntry
earlier e none = e
earlier e (some f) = if entry_less f e then f else e

-- `nextOutboxEntry`: the first of the entries in their order
unfoldable pub next_outbox_entry : List (Text × OutboxEntry) → Option (Text × OutboxEntry)
next_outbox_entry [] = none
next_outbox_entry (e ∷ l) = some (earlier e (next_outbox_entry l))

module _ (checksum_bytes : Text → Text) where
  -- The record that goes to the remote.
  unfoldable pub record_of : Text → Meta → Text → RemoteRecord
  record_of k m payload = record {
    key = k;
    version = m.version;
    checksum = if is_empty m.checksum && not m.deleted then checksum_bytes payload else m.checksum;
    deleted = m.deleted;
    updated_at = m.updated_at;
    payload = payload;
  }

  module _ (now today : ℕ) (ok : Steps) (k : Text) where
    abbrev pub finish : Cache → Outcome
    finish c = need (ok outbox_remove) c (done (remove_outbox k c))

    -- The control record after a write of `m`.
    abbrev pub cloud_write : Meta → Control → Control
    cloud_write m t = if bytes_eq k brain_lock_key then t else record t {
      last_cloud_write = some (record {
        key = k;
        version = m.version;
        checksum = m.checksum;
        deleted = m.deleted;
        updated_at = m.updated_at;
        synced_at = now;
      });
    }

    abbrev pub checkpoint : Meta → Control → Control
    checkpoint m t =
        if leb t.checkpoint_vers m.version
        then record t {
          checkpoint_key = k;
          checkpoint_vers = m.version;
          checkpoint_sum = m.checksum;
        }
        else t

    abbrev pub is_dirty : Meta → Control → Bool
    is_dirty m t = not (bytes_eq k brain_lock_key) || leb t.checkpoint_vers m.version

    abbrev pub mark_control : Meta → Cache → Outcome
    mark_control m c =
        let c' = record c { control = checkpoint m (cloud_write m c.control) } in
        if is_dirty m c.control
        then need (ok control_mark) c' (finish (record c' { saved = c'.control }))
        else finish c

    abbrev pub mark_synced : Meta → Cache → Outcome
    mark_synced m c =
        need (ok meta_mark) c (mark_control m (put_meta k (record m { synced_at = some now }) c))

    -- `recordCloudWriteLocked` and the rest
    abbrev pub account : Meta → Cache → Outcome
    account m c =
        if c.write_budget_per_day == 0
        then mark_synced m c
        else need (ok budget_read) c
            (need (ok budget_write) c (mark_synced m (count_write today c)))

    -- Put or Delete of the remote
    abbrev pub offer : Meta → Text → Cache → Outcome
    offer m payload c =
        need (ok remote_call) c (account m (record c { sent = record_of k m payload ∷ c.sent }))

    abbrev pub send_payload : Meta → Cache → Option Text → Outcome
    send_payload m c none = failed c
    send_payload m c (some payload) = offer m payload c

    abbrev pub send : Meta → Cache → Outcome
    send m c =
        if m.deleted
        then offer m [] c
        else need (ok payload_read) c (send_payload m c (payload_at k c))

    abbrev pub send_meta : Bool → Cache → Option Meta → Outcome
    send_meta enforce c none = finish c
    send_meta enforce c (some m) =
        if enforce && not (within_budget ok today c) then failed c else send m c

    abbrev pub send_current : Bool → ℕ → Cache → Option OutboxEntry → Outcome
    send_current enforce version c none = done c
    send_current enforce version c (some current) =
        if current.version == version
        then need (ok meta_read) c (send_meta enforce c (meta_at k c))
        else done c

    unfoldable pub sync_outbox_entry : Bool → OutboxEntry → Cache → Outcome
    sync_outbox_entry enforce e c =
        if c.has_remote
        then need (ok outbox_read) c (send_current enforce e.version c (queued_at k c))
        else done c

    abbrev pub sync_queued : Bool → Cache → Option OutboxEntry → Outcome
    sync_queued enforce c none = done c
    sync_queued enforce c (some e) = sync_outbox_entry enforce e c

    -- `syncKeyLocked`
    unfoldable pub sync_key : Bool → Cache → Outcome
    sync_key enforce c = need (ok entry_read) c (sync_queued enforce c (queued_at k c))
