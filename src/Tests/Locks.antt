-- ===== src/Tests/Locks.antt =====
-- The brain's lock: one instance starts, and another one, with a cache of its own, meets its lock.
use gopherbot.Prelude.{
  ℕ, ◌≡◌, ◌≢◌, refl, ap, ◌∙◌, ◌++◌, length, take, drop, take-append_le, take_all, drop-append_le,
  drop_all, ◌⊎◌, arith, true, false, Option, none, some, [], ◌∷◌, inr,
}
use mathlib.Core.Bool.{false≢true}
use gopherbot.Prelude.Bytes.{codes, bytes_eq, bytes_eq_iff}
use gopherbot.BrainCache.{
  Text, Control, RemoteRecord, Cache, Steps, brain_lock_key, done, failed, after,
  latest_database_version, set_active_lock_id, reserve_version, reserved_version,
}
use gopherbot.Prelude.Assoc.{lookup, insert}
use gopherbot.BrainCache.Write.{store}
use gopherbot.BrainCache.Sync.{sync_key, sync_outbox_entry}
use gopherbot.BrainCache.Import.{pos, missing, present, verify_last_cloud_write}
use gopherbot.BrainCache.Mirror.{last_sent}
use gopherbot.BrainLock.{
  Lock, brain_lock_held, new_lock, write_held, read_brain_lock, acquire_brain_lock,
  release_brain_lock,
}
use gopherbot.BrainLock.Holds.{Holds}
use gopherbot.BrainLock.Starts.{
  Start, start_by, acquire_brain_lock-exclusive, acquire_brain_lock-Holds, release_brain_lock-next,
}

abbrev works : Steps
works s = true

abbrev checksum : Text → Text
checksum t = t

-- A lock as numbers: each of its texts behind its length.
abbrev put : Text → Text → Text
put t rest = length t ∷ (t ++ rest)

abbrev got : Text → Text × Text
got [] = ([], [])
got (n ∷ t) = (take n t, drop n t)

abbrev number : Text → ℕ
number [] = 0
number (n ∷ t) = n

abbrev encode : Lock → Text
encode l =
    put l.state (put l.lock_id (put l.cache_nonce_hash (put l.info (l.database_version ∷ []))))

abbrev with_info : Text → Text → Text → Text × Text → Option Lock
with_info state id hash (info, rest) = some (record {
  state = state;
  lock_id = id;
  cache_nonce_hash = hash;
  info = info;
  database_version = number rest;
})

abbrev with_hash : Text → Text → Text × Text → Option Lock
with_hash state id (hash, rest) = with_info state id hash (got rest)

abbrev with_id : Text → Text × Text → Option Lock
with_id state (id, rest) = with_hash state id (got rest)

abbrev with_state : Text × Text → Option Lock
with_state (state, rest) = with_id state (got rest)

abbrev decode : Text → Option Lock
decode t = with_state (got t)

got-put : (t rest : Text) → got (put t rest) ≡ (t, rest)
got-put t rest = λ i. (front i, back i)
  where
    front : take (length t) (t ++ rest) ≡ t
    front = take-append_le (length t) t rest (omega arith) ∙ take_all (length t) t (omega arith)

    back : drop (length t) (t ++ rest) ≡ rest
    back =
        drop-append_le (length t) t rest (omega arith)
        ∙ ap (λ x. x ++ rest) (drop_all (length t) t (omega arith))

decode-encode : (l : Lock) → decode (encode l) ≡ some l
decode-encode l =
    ap with_state (got-put l.state (put l.lock_id (put l.cache_nonce_hash (put l.info version))))
    ∙ ap (with_id l.state) (got-put l.lock_id (put l.cache_nonce_hash (put l.info version)))
    ∙ ap (with_hash l.state l.lock_id) (got-put l.cache_nonce_hash (put l.info version))
    ∙ ap (with_info l.state l.lock_id l.cache_nonce_hash) (got-put l.info version)
  where
    version : Text
    version = l.database_version ∷ []

abbrev control_of : Text → Control
control_of nonce = record {
  complete = true;
  next_version = 1;
  checkpoint_key = [];
  checkpoint_vers = 0;
  checkpoint_sum = [];
  imported_from = [];
  cache_nonce = nonce;
  active_lock_id = [];
  last_cloud_write = none;
}

abbrev cache_of : Text → Cache
cache_of nonce = record {
  payloads = [];
  metas = [];
  outbox = [];
  control = control_of nonce;
  saved = control_of nonce;
  budget = none;
  sent = [];
  has_remote = true;
  write_budget_per_day = 0;
  stopped = false;
}

abbrev one_start : Text → Start
one_start id = record {
  id = id;
  info = codes "x";
  now = 3;
  today = 0;
  ok = works;
  ok' = works;
  ok_id = works;
  retries = pos 0;
  answers = λ i. missing;
}

abbrev first : Cache
first =
    after (start_by checksum encode decode (one_start (codes "1")) missing (cache_of (codes "n")))

first-started :
    start_by checksum encode decode (one_start (codes "1")) missing (cache_of (codes "n"))
    ≡ done first
unfolding acquire_brain_lock read_brain_lock verify_last_cloud_write write_held set_active_lock_id
    store reserve_version bytes_eq sync_key lookup insert sync_outbox_entry reserved_version
first-started = refl

other_nonce : codes "n" ≢ codes "m"
unfolding bytes_eq
other_nonce e = false≢true ((bytes_eq_iff (codes "n") (codes "m")).1 e)

acquire_brain_lock-exclusive_example :
    (r : RemoteRecord) × (last_sent brain_lock_key first.sent ≡ some r)
    × (start_by checksum encode decode (one_start (codes "2")) (present 3 r) (cache_of (codes "m"))
        ≡ failed (cache_of (codes "m")))
unfolding bytes_eq
acquire_brain_lock-exclusive_example =
    acquire_brain_lock-exclusive checksum encode decode (one_start (codes "1"))
      (one_start (codes "2")) missing (cache_of (codes "n")) first (cache_of (codes "m"))
      decode-encode refl first-started (inr other_nonce)

acquire_brain_lock-Holds_example :
    Holds
      (encode (
        new_lock checksum encode decode brain_lock_held
          (codes "1")
          (codes "x")
          (cache_of (codes "n"))))
      (start_by checksum encode decode (one_start (codes "1")) missing (cache_of (codes "n")))
    × ((start_by checksum encode decode (one_start (codes "1")) missing (cache_of (codes "n"))
          ≡ failed (cache_of (codes "n")))
        ⊎ (verify_last_cloud_write (pos 0) (λ i. missing) (cache_of (codes "n")) ≡ true))
acquire_brain_lock-Holds_example =
    acquire_brain_lock-Holds checksum encode decode (codes "1") (codes "x") 3 0 works works works
      (pos 0) (λ i. missing) (cache_of (codes "n")) missing refl

abbrev released : Cache
released = after (
    release_brain_lock checksum encode decode (codes "1") (codes "x") 3 0 works works
      (cache_of (codes "n")))

first-released :
    release_brain_lock checksum encode decode
      (codes "1")
      (codes "x")
      3
      0
      works
      works
      (cache_of (codes "n"))
    ≡ done released
unfolding release_brain_lock store reserve_version bytes_eq sync_key lookup insert sync_outbox_entry
    reserved_version
first-released = refl

release_brain_lock-next_example :
    (r : RemoteRecord) × (last_sent brain_lock_key released.sent ≡ some r)
    × (start_by checksum encode decode (one_start (codes "2")) (present 3 r) (cache_of (codes "m"))
        ≡ write_held checksum encode decode
            (codes "2")
            (codes "x")
            3
            0
            works
            works
            works
            (cache_of (codes "m")))
unfolding latest_database_version verify_last_cloud_write
release_brain_lock-next_example =
    release_brain_lock-next checksum encode decode (one_start (codes "1")) (one_start (codes "2"))
      (cache_of (codes "n")) released (cache_of (codes "m")) decode-encode refl first-released
      (omega arith) refl
