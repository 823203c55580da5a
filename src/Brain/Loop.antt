-- ===== src/Brain/Loop.antt =====
-- bot/brain.go: `runBrain`, the loop that serialises access to the memories and leases them out.
-- Each event of its `select` is a function of the loop's state. Answers on reply channels go to a
-- log, oldest first, with the requests that they answer.
use gopherbot.Prelude.{
  ℕ, String, Bool, true, false, none, some, List, [], ◌∷◌, ◌++◌, if◌then◌else◌, String_discrete,
}
use gopherbot.Prelude.Bytes.{bytes_eq}
use gopherbot.Prelude.Assoc.{lookup, insert, delete}
use gopherbot.RetVal.{RetVal, ok, datum_not_found, datum_lock_expired}
use gopherbot.Brain.Datum.{Bytes, Env, Vault, CheckOutReply, get_datum, store_datum}

pub data MemState : Type 0 where
  new_memory seen available : MemState

-- The reply channel is the number of the client that waits on it.
pub record CheckOutRequest : Type 0 where
  pub key : String
  pub rw : Bool
  pub reply : ℕ

pub record MemStatus : Type 0 where
  pub state : MemState
  pub token : Bytes
  pub waiters : List CheckOutRequest

pub record CheckInRequest : Type 0 where
  pub key : String
  pub token : Bytes

pub record UpdateRequest : Type 0 where
  pub key : String
  pub token : Bytes
  pub datum : Bytes
  pub reply : ℕ

-- An answer of the loop.
pub data Answer : Type 0 where
  checked_out : CheckOutRequest → CheckOutReply → Answer
  updated : UpdateRequest → RetVal → Answer

pub data Event : Type 0 where
  check_out : CheckOutRequest → Event
  check_in : CheckInRequest → Event
  update : UpdateRequest → Event
  tick : Event

unfoldable pub is_ok : RetVal → Bool
is_ok ok = true
is_ok _ = false

abbrev pub Memories : Type 0
Memories = List (String × MemStatus)

module _ (env : Env) where
  pub record Loop : Type 0 where
    pub vault : Vault env
    pub memories : Memories
    pub log : List Answer

  -- A checkout answered at once, with no lease involved.
  unfoldable pub answer_check_out : Loop → CheckOutRequest → CheckOutReply × Vault env → Loop
  answer_check_out s creq (rep, v) = record s {
    vault = v;
    log = s.log ++ checked_out creq rep ∷ [];
  }

  -- A checkout answered with the lease on its key: the memory is new again.
  unfoldable pub grant :
      Loop → CheckOutRequest → List CheckOutRequest → CheckOutReply × Vault env → Loop
  grant s creq waiters (rep, v) = record s {
    vault = v;
    memories =
        insert String_discrete creq.key
          (record { state = new_memory; token = rep.token; waiters = waiters }) s.memories;
    log = s.log ++ checked_out creq rep ∷ [];
  }

  -- `replyToWaiter`: the longest waiter is answered and holds the lease. The callers see to it that
  -- there is one.
  unfoldable pub reply_to_waiter : Loop → MemStatus → Loop
  unfolding grant
  reply_to_waiter s m = elim m.waiters [
    | [] ↦ s
    | creq ∷ rest ↦ grant s creq rest (get_datum env s.vault creq.key true)
  ]

  -- The lease on a key is given up: to the next waiter if there is one.
  unfoldable pub release : Loop → String → MemStatus → Loop
  unfolding reply_to_waiter
  release s key m = elim m.waiters [
    | [] ↦ record s { memories = delete String_discrete key s.memories }
    | creq ∷ rest ↦ reply_to_waiter s m
  ]

  -- A checkout of a memory that has no status: only a good read-write one gets a lease.
  unfoldable pub check_out_free : Loop → CheckOutRequest → CheckOutReply × Vault env → Loop
  unfolding answer_check_out grant
  check_out_free s creq (rep, v) =
      if is_ok rep.ret
      then (if creq.rw then grant s creq [] (rep, v) else answer_check_out s creq (rep, v))
      else answer_check_out s creq (rep, v)

  unfoldable pub enqueue : Loop → CheckOutRequest → MemStatus → Loop
  enqueue s creq m = record s {
    memories =
        insert String_discrete creq.key (record m { waiters = m.waiters ++ creq ∷ [] }) s.memories;
  }

  unfoldable pub check_out_rw : Loop → CheckOutRequest → MemStatus → Loop
  unfolding grant enqueue
  check_out_rw s creq m = elim m.state [
    | available ↦ grant s creq m.waiters (get_datum env s.vault creq.key true)
    | new_memory ↦ enqueue s creq m
    | seen ↦ enqueue s creq m
  ]

  unfoldable pub do_check_out : Loop → CheckOutRequest → Loop
  unfolding check_out_free answer_check_out check_out_rw
  do_check_out s creq = elim (lookup String_discrete creq.key s.memories) [
    | none ↦ check_out_free s creq (get_datum env s.vault creq.key creq.rw)
    | some m ↦
        if creq.rw
        then check_out_rw s creq m
        else answer_check_out s creq (get_datum env s.vault creq.key creq.rw)
  ]

  unfoldable pub do_check_in : Loop → CheckInRequest → Loop
  unfolding release
  do_check_in s ci = elim (lookup String_discrete ci.key s.memories) [
    | none ↦ s
    | some m ↦ if bytes_eq ci.token m.token then release s ci.key m else s
  ]

  unfoldable pub answer_update : Loop → UpdateRequest → RetVal × Vault env → Loop
  answer_update s ur (r, v) = record s { vault = v; log = s.log ++ updated ur r ∷ [] }

  unfoldable pub do_update : Loop → UpdateRequest → Loop
  unfolding release answer_update
  do_update s ur = elim (lookup String_discrete ur.key s.memories) [
    | none ↦ answer_update s ur (datum_not_found, s.vault)
    | some m ↦
        if bytes_eq ur.token m.token
        then release (answer_update s ur (store_datum env s.vault ur.key ur.datum)) ur.key m
        else answer_update s ur (datum_lock_expired, s.vault)
  ]

  -- One memory at a tick of `brainTicker`: new, then seen, then handed on or available.
  unfoldable pub age : Vault env → MemStatus → MemStatus × Vault env × List Answer
  age v m = elim m.state [
    | new_memory ↦ (record m { state = seen }, v, [])
    | seen ↦ elim m.waiters [
      | [] ↦ (record m { state = available }, v, [])
      | creq ∷ rest ↦
          let (rep, v') = get_datum env v creq.key true in
          (
            record { state = new_memory; token = rep.token; waiters = rest },
            v',
            checked_out creq rep ∷ [],
          )
    ]
    | available ↦ (m, v, [])
  ]

  -- The loop over the map, in the order of the list: Go's order is not specified, and is that of
  -- some list.
  unfoldable pub age_all : Vault env → Memories → Memories × Vault env × List Answer
  unfolding age
  age_all v [] = ([], v, [])
  age_all v ((k, m) ∷ ms) =
      let (m', v', sent) = age v m in
      let (ms', v'', sent') = age_all v' ms in ((k, m') ∷ ms', v'', sent ++ sent')

  unfoldable pub do_tick : Loop → Loop
  unfolding age_all
  do_tick s =
      let (ms, v, sent) = age_all s.vault s.memories in
      record { vault = v; memories = ms; log = s.log ++ sent }

  unfoldable pub step : Loop → Event → Loop
  unfolding do_check_out do_check_in do_update do_tick
  step s (check_out creq) = do_check_out s creq
  step s (check_in ci) = do_check_in s ci
  step s (update ur) = do_update s ur
  step s tick = do_tick s

  unfoldable pub run : Loop → List Event → Loop
  unfolding step
  run s [] = s
  run s (e ∷ es) = run (step s e) es

  unfoldable pub init : Vault env → Loop
  init v = record { vault = v; memories = []; log = [] }
