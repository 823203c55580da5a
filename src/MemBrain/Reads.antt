-- ===== src/MemBrain/Reads.antt =====
-- About bot/membrain.go as a provider.
use gopherbot.Prelude.{◌≡◌, ap, String, true, ◌≢◌, String_discrete}
use gopherbot.Prelude.Assoc.{
  lookup-insert_here, lookup-insert_other, lookup-delete_here, lookup-delete_other,
}
use gopherbot.Brain.Datum.{Bytes, found, missing}
use gopherbot.MemBrain.{MemBrain, retrieved, retrieve, store, remove}

-- What the brain loop relies on: the memory that is stored is read back.
pub retrieve-store :
    (m : MemBrain) (k : String) (d : Bytes)
    → (store m k d).0 ≡ true
    → retrieve (store m k d).1 k ≡ found d
unfolding retrieve store
retrieve-store m k d _ = ap retrieved (lookup-insert_here String_discrete k d m)

-- The memories of the other keys stay.
pub retrieve-store_other :
    (m : MemBrain) (k j : String) (d : Bytes) → k ≢ j → retrieve (store m k d).1 j ≡ retrieve m j
unfolding retrieve store
retrieve-store_other m k j d h = ap retrieved (lookup-insert_other String_discrete k j d m h)

-- A memory that is deleted is missing.
pub retrieve-remove : (m : MemBrain) (k : String) → retrieve (remove m k).1 k ≡ missing
unfolding retrieve remove
retrieve-remove m k = ap retrieved (lookup-delete_here String_discrete k m)

pub retrieve-remove_other :
    (m : MemBrain) (k j : String) → k ≢ j → retrieve (remove m k).1 j ≡ retrieve m j
unfolding retrieve remove
retrieve-remove_other m k j h = ap retrieved (lookup-delete_other String_discrete k j m h)
