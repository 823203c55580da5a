-- ===== src/Brain/View.antt =====
-- The loop seen from one key: the status of its memory, and the leases granted on it so far.
use gopherbot.Prelude.{
  ◌≡◌, refl, sym, ap, ◌∙◌, String, true, false, Option, none, some, List, [], ◌∷◌, ◌++◌, ◌≢◌, arith,
  if◌then◌else◌, String_discrete, ite, ◌⊎◌, append_assoc, append-nil, map,
}
use mathlib.Core.Logic.{if_pos, if_neg}
use gopherbot.Prelude.Assoc.{lookup}
use gopherbot.Brain.Datum.{Bytes, Env}
use gopherbot.Brain.Loop.{
  MemState, new_memory, seen, available, CheckOutRequest, MemStatus, Answer, checked_out, updated,
  Event, check_out, check_in, update, tick, Loop,
}

-- A read-write checkout that was answered, with the token that it got.
abbrev pub Grant : Type 0
Grant = CheckOutRequest × Bytes

-- `[creq]` where the request is to write under the key.
abbrev pub writes : String → CheckOutRequest → List CheckOutRequest
writes k creq = ite (String_discrete creq.key k) (if creq.rw then creq ∷ [] else []) []

pub writes-ne : (k : String) (creq : CheckOutRequest) → creq.key ≢ k → writes k creq ≡ []
writes-ne k creq h = if_neg (String_discrete creq.key k) h _ _

if-rw :
    (c : CheckOutRequest)
    → c.rw ≡ true
    → ◌≡◌ {A = List CheckOutRequest} (if c.rw then c ∷ [] else []) (c ∷ [])
if-rw c h = ground arith

pub writes-rw :
    (k : String) (creq : CheckOutRequest)
    → creq.key ≡ k
    → creq.rw ≡ true
    → writes k creq ≡ creq ∷ []
writes-rw k creq e w = if_pos (String_discrete creq.key k) e _ _ ∙ if-rw creq w

pub writes-ro : (k : String) (creq : CheckOutRequest) → creq.rw ≡ false → writes k creq ≡ []
writes-ro k creq w = ground arith

abbrev pub grants_of : String → Answer → List Grant
grants_of k (checked_out creq rep) = map (λ c. (c, rep.token)) (writes k creq)
grants_of k (updated ur r) = []

unfoldable pub grants : String → List Answer → List Grant
grants k [] = []
grants k (a ∷ log) = grants_of k a ++ grants k log

pub grants-append :
    (k : String) (xs ys : List Answer) → grants k (xs ++ ys) ≡ grants k xs ++ grants k ys
unfolding grants
grants-append k [] ys = refl
grants-append k (a ∷ xs) ys =
    ap (◌++◌ (grants_of k a)) (grants-append k xs ys)
    ∙ sym (append_assoc (grants_of k a) (grants k xs) (grants k ys))

pub grants-one :
    (k : String) (log : List Answer) (a : Answer)
    → grants k (log ++ a ∷ []) ≡ grants k log ++ grants_of k a
unfolding grants
grants-one k log a =
    grants-append k log (a ∷ []) ∙ ap (◌++◌ (grants k log)) (append-nil (grants_of k a))

-- The requests to write under the key, as they arrive.
abbrev pub arrived : String → Event → List CheckOutRequest
arrived k (check_out creq) = writes k creq
arrived k (check_in ci) = []
arrived k (update ur) = []
arrived k tick = []

unfoldable pub arrivals : String → List Event → List CheckOutRequest
arrivals k [] = []
arrivals k (e ∷ es) = arrived k e ++ arrivals k es

pub record View : Type 0 where
  pub status : Option MemStatus
  pub granted : List Grant

abbrev pub waiting : View → List CheckOutRequest
waiting v = elim v.status [ none ↦ [] | some m ↦ m.waiters ]

abbrev pub view : {env : Env} → String → Loop env → View
view k s = record { status = lookup String_discrete k s.memories; granted = grants k s.log }

abbrev pub leased : Bytes → List CheckOutRequest → Option MemStatus
leased token waiters = some (record { state = new_memory; token = token; waiters = waiters })

-- Time makes a new lease seen, and a lease that nobody waits for available.
abbrev pub Older : MemStatus → MemState → Type 0
Older m state = ((m.state ≡ new_memory) × (state ≡ seen)) ⊎ ((state ≡ available) × (m.waiters ≡ []))

-- What an event may do to the lease on a key, the arrived requests being answered or queued.
pub data Move (k : String) (new : List CheckOutRequest) (v w : View) : Type 0 where
  -- nothing
  keep : new ≡ [] → w ≡ v → Move k new v w
  -- a free memory cannot be read: the request is answered without a lease
  refuse :
      (creq : CheckOutRequest) (token : Bytes)
      → new ≡ creq ∷ []
      → v.status ≡ none
      → w ≡ record { status = none; granted = v.granted ++ (creq, token) ∷ [] }
      → Move k new v w
  -- a memory that is free or available is leased
  lease :
      (creq : CheckOutRequest) (token : Bytes)
      → new ≡ creq ∷ []
      → waiting v ≡ []
      → w ≡ record { status = leased token []; granted = v.granted ++ (creq, token) ∷ [] }
      → Move k new v w
  -- a leased memory makes the request wait
  queue :
      (creq : CheckOutRequest) (m : MemStatus)
      → new ≡ creq ∷ []
      → creq.key ≡ k
      → creq.rw ≡ true
      → v.status ≡ some m
      → m.state ≢ available
      → w ≡ record {
        status = some (record m { waiters = m.waiters ++ creq ∷ [] });
        granted = v.granted;
      }
      → Move k new v w
  -- the lease passes to the longest waiter
  hand_over :
      (m : MemStatus) (creq : CheckOutRequest) (rest : List CheckOutRequest) (token : Bytes)
      → new ≡ []
      → v.status ≡ some m
      → m.waiters ≡ creq ∷ rest
      → w ≡ record { status = leased token rest; granted = v.granted ++ (creq, token) ∷ [] }
      → Move k new v w
  -- a lease that nobody waits for ends
  free :
      (m : MemStatus)
      → new ≡ []
      → v.status ≡ some m
      → m.waiters ≡ []
      → w ≡ record { status = none; granted = v.granted }
      → Move k new v w
  -- a lease grows old
  grow_old :
      (m : MemStatus) (state : MemState)
      → new ≡ []
      → v.status ≡ some m
      → Older m state
      → w ≡ record { status = some (record m { state = state }); granted = v.granted }
      → Move k new v w
