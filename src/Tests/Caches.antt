-- ===== src/Tests/Caches.antt =====
-- The brain cache: a memory that is stored and sent, and caches whose files fail.
use gopherbot.Prelude.{
  List, sym, ap, ℕ, ◌≡◌, ◌≢◌, refl, ◌⊎◌, Bool, true, false, Option, none, some, [], ◌∷◌, arith, suc,
  zero, subst, ◌+◌, ◌-◌, ◌≤◌,
}
use mathlib.Core.Bool.{false≢true}
use gopherbot.Prelude.Assoc.{lookup, insert, delete}
use gopherbot.Prelude.Bytes.{codes, bytes_eq, bytes_eq_iff}
use gopherbot.BrainCache.{
  Text, CloudWrite, Meta, Control, RemoteRecord, Cache, Steps, meta_write, Outcome, after, done,
  failed, brain_lock_key, meta_at, reserved_version, reserve_version, latest_database_version,
  retrieve,
}
use gopherbot.BrainCache.Sync.{
  sync_outbox_entry, next_outbox_entry, within_budget, read_budget, count_write, record_of,
}
use gopherbot.BrainCache.Write.{store, delete_memory}
use gopherbot.BrainCache.Loops.{Rounds, Others, nobody, sync_pending, flush, flush_among}
use gopherbot.BrainCache.Hydrate.{Page, hydrate}
use gopherbot.BrainCache.Hydration.{Keyed, Hydrates, hydrate-Hydrates}
use gopherbot.BrainCache.Verified.{IsMade, Confirms, verify_last_cloud_write-Confirms}
use gopherbot.BrainCache.Import.{
  missing, pos, verify_last_cloud_write, Answer, present, import_v3_record, import_checksum,
}
use gopherbot.BrainCache.Mirror.{Mirrored}
use gopherbot.BrainCache.Runs.{run_calls-Mirrored}
use gopherbot.BrainCache.Calls.{Call, store_call, stop_call, run_calls, quiet}
use gopherbot.BrainCache.Busy.{OthersWrite, sync_pending-ends, flush_among-ends}
use gopherbot.BrainCache.Flushes.{flush-ends, cloud}
use gopherbot.BrainCache.Memories.{SameMemories}
use gopherbot.BrainCache.Budget.{spent}
use gopherbot.BrainCache.Spending.{sync_pending-budget}
use gopherbot.BrainCache.Versions.{Numbered, store-Numbers}
use gopherbot.BrainCache.Contents.{store-Puts}
use gopherbot.BrainCache.Imports.{Imports, import_v3_record-Imports}
use gopherbot.BrainCache.Faults.{
  Tears, store-Tears, flush-stuck, delete_memory-stopped, QueuesDelete,
}

abbrev same : Text → Text
same t = t

abbrev any_key : Text → Bool
any_key k = true

abbrev works : Steps
works s = true

abbrev no_meta : Steps
no_meta s = elim s [ meta_write ↦ false | _ ↦ true ]

abbrev fresh : Control
fresh = record {
  complete = true;
  next_version = 1;
  checkpoint_key = [];
  checkpoint_vers = 0;
  checkpoint_sum = [];
  imported_from = [];
  cache_nonce = codes "n";
  active_lock_id = [];
  last_cloud_write = none;
}

abbrev empty : Cache
empty = record {
  payloads = [];
  metas = [];
  outbox = [];
  control = fresh;
  saved = fresh;
  budget = none;
  sent = [];
  has_remote = true;
  write_budget_per_day = 1;
  stopped = false;
}

empty-Mirrored : Mirrored empty
unfolding lookup
empty-Mirrored = record {
  copies = λ k m e. cc;
  whole = λ k m e. cc;
  unique = tt;
  has_remote = refl;
}

abbrev colour : Text
colour = codes "c"

abbrev red : Text
red = codes "r"

abbrev numbered : Control
numbered = record fresh { next_version = 2 }

abbrev colour_meta : Meta
colour_meta = record {
  version = 1;
  checksum = red;
  deleted = false;
  updated_at = 5;
  synced_at = none;
}

abbrev with_colour : Cache
with_colour = record empty {
  payloads = (colour, red) ∷ [];
  metas = (colour, colour_meta) ∷ [];
  outbox = (colour, record { version = 1; is_delete = false }) ∷ [];
  control = numbered;
  saved = numbered;
}

stored_colour : store same 5 0 works works colour red empty ≡ done with_colour
unfolding store reserve_version reserved_version insert bytes_eq
stored_colour = refl

abbrev store_colour : Call
store_colour = store_call 5 0 works works colour red

run_calls-Mirrored_example : Mirrored (run_calls same (store_colour ∷ stop_call ∷ []) empty)
run_calls-Mirrored_example =
    run_calls-Mirrored same (store_colour ∷ stop_call ∷ []) empty empty-Mirrored
      ((refl, refl, refl), (tt, tt))

abbrev good : Rounds
good i = record { now = 9; today = 0; listed = true; ok = works; interrupted = false }

with_colour-Mirrored : Mirrored with_colour
with_colour-Mirrored =
    subst (λ (o : Outcome). Mirrored (after o)) stored_colour
      (run_calls-Mirrored same (store_colour ∷ []) empty empty-Mirrored ((refl, refl, refl), tt))

flush-ends_example :
    (c' : Cache) × (flush same 2 good with_colour ≡ some c')
    × (c'.outbox ≡ [])
    × SameMemories any_key with_colour c'
    × ((k : Text)
        → (any_key k ≡ false)
          ⊎ (meta_at k c' ≡ none)
          ⊎ (cloud same any_key k c' ≡ retrieve any_key k c'))
flush-ends_example =
    flush-ends same any_key 0 2 good with_colour with_colour-Mirrored (λ i h. (refl, λ s. refl))
      (omega arith)

-- In the first round another memory is stored while the entry of the first is sent.
abbrev taste : Text
taste = codes "t"

abbrev store_taste : Call
store_taste = store_call 6 0 works works taste red

abbrev crowded : Others
crowded zero = record { before = []; during = store_taste ∷ [] }
crowded (suc i) = quiet

crowded-OthersWrite : OthersWrite crowded
crowded-OthersWrite zero = (tt, ((refl, refl, refl), tt))
crowded-OthersWrite (suc i) = (tt, tt)

crowded-quiet : (i : ℕ) → 1 ≤ i → crowded i ≡ quiet
crowded-quiet zero h = absurd (omega arith)
crowded-quiet (suc i) h = refl

sync_pending-ends_example :
    (c' : Cache) × (sync_pending same 4 good crowded with_colour ≡ some c') × Mirrored c'
sync_pending-ends_example =
    sync_pending-ends same 1 4 good crowded with_colour with_colour-Mirrored crowded-OthersWrite
      crowded-quiet (omega arith)

flush_among-ends_example :
    (c' : Cache) × (flush_among same 4 good crowded with_colour ≡ some c')
    × (c'.outbox ≡ [])
    × Mirrored c'
    × ((k : Text)
        → (any_key k ≡ false)
          ⊎ (meta_at k c' ≡ none)
          ⊎ (cloud same any_key k c' ≡ retrieve any_key k c'))
flush_among-ends_example =
    flush_among-ends same any_key 1 4 good crowded with_colour with_colour-Mirrored
      crowded-OthersWrite (λ i h. ((refl, λ s. refl), crowded-quiet i h)) (omega arith)

abbrev sent_colour : Option Cache
sent_colour = sync_pending same 2 good nobody with_colour

abbrev marked : Control
marked = record numbered {
  checkpoint_key = colour;
  checkpoint_vers = 1;
  checkpoint_sum = red;
  last_cloud_write = some (record {
    key = colour;
    version = 1;
    checksum = red;
    deleted = false;
    updated_at = 5;
    synced_at = 9;
  });
}

abbrev cloud_colour : Cache
cloud_colour = record with_colour {
  metas = (colour, record colour_meta { synced_at = some 9 }) ∷ [];
  outbox = [];
  control = marked;
  saved = marked;
  budget = some (record { date = 0; writes = 1 });
  sent =
      record {
        key = colour;
        version = 1;
        checksum = red;
        deleted = false;
        updated_at = 5;
        payload = red;
      }
      ∷ [];
}

sync_pending-budget_example :
    (1 ≤ 0 + (1 - spent 0 with_colour)) × (1 + spent 0 with_colour ≡ 0 + spent 0 cloud_colour)
unfolding sync_pending next_outbox_entry sync_outbox_entry lookup bytes_eq within_budget read_budget
    delete count_write insert record_of
sync_pending-budget_example =
    sync_pending-budget same 0 2 good nobody with_colour cloud_colour (λ i. (refl, refl, refl))
      (λ i. (tt, tt)) (λ e. omega (arith, e)) refl

store-Numbers_example :
    (latest_database_version with_colour ≡ suc (latest_database_version empty))
    × Numbered with_colour
    × (m : Meta) × (meta_at colour with_colour ≡ some m)
    × (m.version ≡ latest_database_version with_colour)
unfolding store lookup reserve_version bytes_eq insert reserved_version
store-Numbers_example = store-Numbers same 5 0 works works colour red empty (λ k. tt) (omega arith)

store-Puts_example :
    (retrieve any_key colour with_colour ≡ some red)
    × ((j : Text) → (colour ≡ j) ⊎ (retrieve any_key j with_colour ≡ retrieve any_key j empty))
unfolding store reserve_version bytes_eq insert reserved_version
store-Puts_example = store-Puts any_key same 5 0 works works colour red empty refl

abbrev sent_record : RemoteRecord
sent_record = record {
  key = colour;
  version = 1;
  checksum = red;
  deleted = false;
  updated_at = 5;
  payload = red;
}

abbrev late : ℕ → Answer
late zero = missing
late (suc i) = present 3 sent_record

abbrev last_write : CloudWrite
last_write = record {
  key = colour;
  version = 1;
  checksum = red;
  deleted = false;
  updated_at = 5;
  synced_at = 9;
}

verify_last_cloud_write-Confirms_example :
    ((verify_last_cloud_write (pos 1) late cloud_colour ≡ true)
      × (i : ℕ) × IsMade (pos 1) i
      × Confirms last_write (late i))
    ⊎ ((verify_last_cloud_write (pos 1) late cloud_colour ≡ false)
        × ((i : ℕ) → ¬ (IsMade (pos 1) i × Confirms last_write (late i))))
verify_last_cloud_write-Confirms_example =
    verify_last_cloud_write-Confirms (pos 1) late cloud_colour last_write refl refl (λ e. absurd cc)

abbrev blue_record : RemoteRecord
blue_record = record {
  key = codes "d";
  version = 7;
  checksum = codes "b";
  deleted = false;
  updated_at = 3;
  payload = codes "b";
}

import_v3_record-Imports_example :
    Imports any_key blue_record with_colour
      (import_v3_record same 5 works 3 blue_record with_colour)
    × ((true ≡ true)
        ⊎ (import_v3_record same 5 works 3 blue_record with_colour ≡ failed with_colour))
    × ((false ≡ true)
        ⊎ (bytes_eq (codes "b") (import_checksum same 5 works blue_record) ≡ true)
        ⊎ (import_v3_record same 5 works 3 blue_record with_colour ≡ failed with_colour))
import_v3_record-Imports_example =
    import_v3_record-Imports any_key works blue_record same 5 3 with_colour refl (omega arith)

store-Tears_example :
    Tears same 5 0 no_meta works colour any_key
      (codes "g")
      with_colour
      (store same 5 0 no_meta works colour (codes "g") with_colour)
unfolding lookup bytes_eq
store-Tears_example =
    store-Tears same 5 0 no_meta works colour any_key (codes "g") colour_meta with_colour refl refl
      refl refl refl refl

flush-stuck_example : flush same 9 good (record with_colour { payloads = [] }) ≡ none
unfolding lookup bytes_eq
flush-stuck_example =
    flush-stuck same 9 good colour (record { version = 1; is_delete = false }) colour_meta
      (record with_colour { payloads = [] }) refl refl refl refl refl

other_key : colour ≢ brain_lock_key
unfolding bytes_eq
other_key e = false≢true ((bytes_eq_iff colour brain_lock_key).1 e)

delete_memory-stopped_example :
    (store same 5 0 works works colour red (record with_colour { stopped = true })
      ≡ failed (record with_colour { stopped = true }))
    × QueuesDelete same 5 0 works works colour
        (delete_memory same 5 0 works works colour (record with_colour { stopped = true }))
delete_memory-stopped_example =
    delete_memory-stopped same 5 0 works works colour red (record with_colour { stopped = true })
      refl refl refl refl other_key

abbrev remote : Text → Answer
remote k = present 3 (record blue_record { key = k })

remote-Keyed : Keyed any_key same 5 remote
remote-Keyed k format r e = ap (λ a. elim a [ present f x ↦ x.key | _ ↦ r.key ]) (sym e)

abbrev pages : List Page
pages = some ((3, blue_record) ∷ []) ∷ []

hydrate-Hydrates_example :
    Hydrates any_key same 5 remote pages
      (hydrate same 5 (codes "n") (λ i. works) works works remote pages empty)
hydrate-Hydrates_example =
    hydrate-Hydrates any_key same 5 remote (codes "n") (λ i. works) works works pages empty
      remote-Keyed refl
