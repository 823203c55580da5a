-- ===== src/BrainCache/Hydrate.antt =====
-- bot/brain_cache.go: a cache that is made from the records of the remote (`hydrateFromV3Remote`), and
-- List. A page of the listing is the formats and records that it has, or nothing where the listing
-- fails; `get` is what Get of the remote answers for a key, and record `i` has the steps `ok i`.
use gopherbot.Prelude.{
  ℕ, suc, Bool, true, false, not, Option, none, some, List, [], ◌∷◌, ◌++◌, ltb, ◌==◌, if◌then◌else◌,
}
use gopherbot.BrainCache.{
  Text, bytes_eq, Meta, Control, RemoteRecord, Cache, Steps, payload_write, meta_write, Outcome,
  done, failed, need, put_payload, put_meta,
}
use gopherbot.BrainCache.Sync.{text_less}
use gopherbot.BrainCache.Import.{
  Answer, error, missing, present, and_then, raise_version, raise_checkpoint, save_control,
}

abbrev pub Page : Type 0
Page = Option (List (ℕ × RemoteRecord))

abbrev pub page_records : List (ℕ × RemoteRecord) → Option (List RemoteRecord)
page_records [] = some []
page_records ((format, r) ∷ l) =
    let rest = page_records l in if format == 3 then with_record r rest else none
  where
    with_record : RemoteRecord → Option (List RemoteRecord) → Option (List RemoteRecord)
    with_record r none = none
    with_record r (some l) = some (r ∷ l)

abbrev pub both :
    Option (List RemoteRecord) → Option (List RemoteRecord) → Option (List RemoteRecord)
both none rest = none
both (some l) none = none
both (some l) (some rest) = some (l ++ rest)

-- The records of all pages, or nothing where the listing fails or a record has another format.
unfoldable pub collect : List Page → Option (List RemoteRecord)
collect [] = some []
collect (none ∷ pages) = none
collect (some l ∷ pages) = both (page_records l) (collect pages)

-- The order of the records' versions, and of their keys.
abbrev pub record_less : RemoteRecord → RemoteRecord → Bool
record_less r s = if r.version == s.version then text_less r.key s.key else ltb r.version s.version

unfoldable pub put_in_order : RemoteRecord → List RemoteRecord → List RemoteRecord
put_in_order r [] = r ∷ []
put_in_order r (s ∷ l) =
    let rest = put_in_order r l in if record_less s r then s ∷ rest else r ∷ s ∷ l

unfoldable pub sort_records : List RemoteRecord → List RemoteRecord
sort_records [] = []
sort_records (r ∷ l) = put_in_order r (sort_records l)

module _ (checksum_bytes : Text → Text) (now : ℕ) where
  abbrev pub hydrated_meta : RemoteRecord → Meta
  hydrated_meta r = record {
    version = r.version;
    checksum = r.checksum;
    deleted = r.deleted;
    updated_at = if r.updated_at == 0 then now else r.updated_at;
    synced_at = some now;
  }

  abbrev pub hydrate_payload : Steps → RemoteRecord → Cache → Outcome
  hydrate_payload ok r c =
      if r.deleted
      then done c
      else if not (bytes_eq (checksum_bytes r.payload) r.checksum)
      then failed c
      else need (ok payload_write) c (done (put_payload r.key r.payload c))

  abbrev pub hydrate_meta : Steps → RemoteRecord → Cache → Outcome
  hydrate_meta ok r c = need (ok meta_write) c (
      done (record (put_meta r.key (hydrated_meta r) c) {
        control = raise_checkpoint r.key r.version r.checksum (raise_version r.version c.control);
      }))

  unfoldable pub hydrate_one : Steps → Answer → Cache → Outcome
  hydrate_one ok error c = failed c
  hydrate_one ok missing c = done c
  hydrate_one ok (present format r) c =
      if not (format == 3) then failed c else and_then (hydrate_payload ok r c) (hydrate_meta ok r)

  unfoldable pub hydrate_all : (ℕ → Steps) → (Text → Answer) → List RemoteRecord → Cache → Outcome
  hydrate_all ok get [] c = done c
  hydrate_all ok get (x ∷ l) c =
      and_then (hydrate_one (ok 0) (get x.key) c) (hydrate_all (λ i. ok (suc i)) get l)

  abbrev pub complete_cache : Cache → Cache
  complete_cache c = record c {
    control = record c.control {
      next_version = if c.control.next_version == 0 then 1 else c.control.next_version;
      complete = true;
    };
  }

  -- The state of a cache directory that is new.
  abbrev pub new_control : Text → Control
  new_control nonce = record {
    complete = false;
    next_version = 1;
    checkpoint_key = [];
    checkpoint_vers = 0;
    checkpoint_sum = [];
    imported_from = [];
    cache_nonce = nonce;
    active_lock_id = [];
    last_cloud_write = none;
  }

  abbrev pub hydrate_records :
      (ℕ → Steps) → Steps → (Text → Answer) → Option (List RemoteRecord) → Cache → Outcome
  hydrate_records ok last get none c = failed c
  hydrate_records ok last get (some l) c =
      and_then (hydrate_all ok get (sort_records l) c) (λ x. save_control last (complete_cache x))

  -- `hydrateFromV3Remote`, with the steps `first` and `last` of its writes of the control record
  unfoldable pub hydrate :
      Text → (ℕ → Steps) → Steps → Steps → (Text → Answer) → List Page → Cache → Outcome
  hydrate nonce ok first last get pages c =
      and_then (save_control first (record c { control = new_control nonce }))
        (hydrate_records ok last get (collect pages))

-- List, where no file fails: the keys of the memories that are not deleted, sorted.
abbrev pub put_key : Text → List Text → List Text
put_key k [] = k ∷ []
put_key k (j ∷ l) = let rest = put_key k l in if text_less j k then j ∷ rest else k ∷ j ∷ l

unfoldable pub list_keys : List (Text × Meta) → List Text
list_keys [] = []
list_keys ((k, m) ∷ l) = let rest = list_keys l in if m.deleted then rest else put_key k rest
