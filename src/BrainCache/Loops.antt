-- ===== src/BrainCache/Loops.antt =====
-- bot/brain_cache.go: the loops over the outbox, `syncPending`, Flush and Shutdown. They run on fuel;
-- round `i` of a loop has the time, the day and the steps of `rounds i`. A sleep changes nothing. The
-- source locks the cache for each sending alone: the other calls of round `i` are those of `others i`,
-- before the outbox is listed and between that and the sending. `flush` and `shutdown` are the run
-- without any.
use gopherbot.Prelude.{ℕ, zero, suc, Bool, true, false, Option, none, some, List, if◌then◌else◌}
use gopherbot.BrainCache.{Text, OutboxEntry, Cache, Steps, Outcome, done, failed, after}
use gopherbot.BrainCache.Calls.{Call, Between, quiet, run_calls}
use gopherbot.BrainCache.Sync.{sync_key, sync_outbox_entry, next_outbox_entry}

pub record Round : Type 0 where
  pub now : ℕ
  pub today : ℕ
  pub listed : Bool
  pub ok : Steps
  pub interrupted : Bool

abbrev pub Rounds : Type 0
Rounds = ℕ → Round

abbrev pub later : Rounds → Rounds
later rounds i = rounds (suc i)

abbrev pub Others : Type 0
Others = ℕ → Between

abbrev pub later_others : Others → Others
later_others others i = others (suc i)

abbrev pub nobody : Others
nobody i = quiet

-- What a round of a loop ends with.
pub data Turn : Type 0 where
  finished again : Cache → Turn

abbrev pub run_turn : (Cache → Option Cache) → Turn → Option Cache
run_turn loop (finished c) = some c
run_turn loop (again c) = loop c

module _ (checksum_bytes : Text → Text) where
  abbrev pub pending_next : Round → Outcome → Turn
  pending_next r (failed c) = finished c
  pending_next r (done c) = if r.interrupted then finished c else again c

  abbrev pub pending_entry : Round → List Call → Cache → Option (Text × OutboxEntry) → Turn
  pending_entry r during c none = finished c
  pending_entry r during c (some (k, e)) = pending_next r (
      sync_outbox_entry checksum_bytes r.now r.today r.ok k true e
        (run_calls checksum_bytes during c))

  abbrev pub pending_turn : Round → List Call → Cache → Turn
  pending_turn r during c =
      if r.listed then pending_entry r during c (next_outbox_entry c.outbox) else finished c

  -- `syncPending`
  unfoldable pub sync_pending : ℕ → Rounds → Others → Cache → Option Cache
  sync_pending zero rounds others c = none
  sync_pending (suc fuel) rounds others c =
      run_turn (sync_pending fuel (later rounds) (later_others others))
        (pending_turn (rounds 0) (others 0).during (run_calls checksum_bytes (others 0).before c))

  abbrev pub flush_entry : Round → List Call → Cache → Option (Text × OutboxEntry) → Turn
  flush_entry r during c none = finished c
  flush_entry r during c (some (k, e)) = again (
      after
        (sync_key checksum_bytes r.now r.today r.ok k false (run_calls checksum_bytes during c)))

  abbrev pub flush_turn : Round → List Call → Cache → Turn
  flush_turn r during c =
      if r.listed then flush_entry r during c (next_outbox_entry c.outbox) else again c

  abbrev pub flush_loop : ℕ → Rounds → Others → Cache → Option Cache
  flush_loop zero rounds others c = none
  flush_loop (suc fuel) rounds others c =
      run_turn (flush_loop fuel (later rounds) (later_others others))
        (flush_turn (rounds 0) (others 0).during (run_calls checksum_bytes (others 0).before c))

  -- Flush, among other calls
  unfoldable pub flush_among : ℕ → Rounds → Others → Cache → Option Cache
  flush_among fuel rounds others c =
      if c.has_remote then flush_loop fuel rounds others c else some c

  -- Flush
  abbrev pub flush : ℕ → Rounds → Cache → Option Cache
  flush fuel rounds c = flush_among fuel rounds nobody c

  abbrev pub stop : Option Cache → Option Cache
  stop none = none
  stop (some c) = some (record c { stopped = true })

  -- Shutdown
  unfoldable pub shutdown : ℕ → Rounds → Cache → Option Cache
  shutdown fuel rounds c = stop (flush fuel rounds c)
