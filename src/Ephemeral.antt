-- ===== src/Ephemeral.antt =====
-- bot/ephemeral.go, bot/brain.go (Remember to DeleteMemory, and the sweep in `runBrain`) and
-- `makeMemoryContext` of bot/robot.go: the memories that a robot keeps for a while. Texts are byte
-- lists; times and durations are numbers of nanoseconds.
pub mod Recalls
pub mod Sweep
use gopherbot.Prelude.{
  ℕ, ◌-◌, ◌≡◌, ap, Bool, true, false, ◌&&◌, ◌||◌, Option, none, some, List, [], ◌∷◌, ◌++◌, ltb,
  if◌then◌else◌,
}
use gopherbot.Prelude.Assoc.{lookup, insert, delete}
pub use gopherbot.Prelude.Bytes.{Text, is_empty}
use gopherbot.Prelude.Bytes.{bytes_eq, Bytes_discrete, codes}

-- `ephemeralMemory`
pub record Memory : Type 0 where
  pub memory : Text
  pub timestamp : ℕ

-- `memoryContext`
pub record Context : Type 0 where
  pub key : Text
  pub user : Text
  pub channel : Text
  pub thread : Text
  pub protocol : Text

abbrev pub Context_discrete : Discrete Context
Context_discrete a b = elim (Bytes_discrete a.key b.key) [
  | no h ↦ no (λ e. h (ap (λ (x : Context). x.key) e))
  | yes p ↦ elim (Bytes_discrete a.user b.user) [
    | no h ↦ no (λ e. h (ap (λ (x : Context). x.user) e))
    | yes q ↦ elim (Bytes_discrete a.channel b.channel) [
      | no h ↦ no (λ e. h (ap (λ (x : Context). x.channel) e))
      | yes r ↦ elim (Bytes_discrete a.thread b.thread) [
        | no h ↦ no (λ e. h (ap (λ (x : Context). x.thread) e))
        | yes s ↦ elim (Bytes_discrete a.protocol b.protocol) [
          | no h ↦ no (λ e. h (ap (λ (x : Context). x.protocol) e))
          | yes t ↦
              yes
                (λ i. record { key = p i; user = q i; channel = r i; thread = s i; protocol = t i })
        ]
      ]
    ]
  ]
]

abbrev pub Table : Type 0
Table = List (Context × Memory)

-- `eMemories`
pub record Memories : Type 0 where
  pub m : Table
  pub dirty : Bool

abbrev pub find : Context → Table → Option Memory
find k m = lookup Context_discrete k m

-- The fields of the incoming message and of the robot that a context is made of. `fallback` is the
-- name of the robot's protocol.
pub record Incoming : Type 0 where
  pub threaded : Bool
  pub thread : Text
  pub user : Text
  pub protocol : Text

pub record Robot : Type 0 where
  pub incoming : Option Incoming
  pub user : Text
  pub channel : Text
  pub fallback : Text

-- The calls are over strings.ToLower and strings.TrimSpace.
module _ (to_lower trim_space : Text → Text) where
  abbrev pub normalize : Text → Text
  normalize t = to_lower (trim_space t)

  -- `protocolFromIncoming`
  abbrev pub protocol_from_incoming : Option Incoming → Text → Text
  protocol_from_incoming none fallback = fallback
  protocol_from_incoming (some i) fallback =
      if is_empty (normalize i.protocol) then fallback else normalize i.protocol

  abbrev pub thread_of : Option Incoming → Bool → Text
  thread_of none force = []
  thread_of (some i) force = if i.threaded || force then i.thread else []

  abbrev pub incoming_user : Option Incoming → Text
  incoming_user none = []
  incoming_user (some i) = normalize i.user

  abbrev pub user_of : Robot → Text
  user_of r = if is_empty (normalize r.user) then incoming_user r.incoming else normalize r.user

  unfoldable pub make_memory_context : Robot → Text → Bool → Bool → Context
  make_memory_context r key force shared =
      let thread = thread_of r.incoming force in
      record {
        key = key;
        user = if shared && not_dm then [] else user_of r;
        channel = r.channel;
        thread = thread;
        protocol = if is_empty thread then [] else protocol_from_incoming r.incoming r.fallback;
      }
    where
      not_dm : Bool
      not_dm = if is_empty r.channel then false else true

  -- An empty value deletes.
  store : ℕ → Context → Text → Table → Table
  store now k value m =
      if is_empty value
      then delete Context_discrete k m
      else insert Context_discrete k (record { memory = value; timestamp = now }) m

  unfoldable pub remember : Robot → ℕ → Text → Text → Bool → Memories → Memories
  unfolding make_memory_context store
  remember r now key value shared s =
      let k = make_memory_context r key false shared in
      record { m = store now k value s.m; dirty = if is_empty k.thread then s.dirty else true }

  unfoldable pub remember_thread : Robot → ℕ → Text → Text → Bool → Memories → Memories
  unfolding make_memory_context store
  remember_thread r now key value shared s = record {
    m = store now (make_memory_context r key true shared) value s.m;
    dirty = true;
  }

  unfoldable pub remember_context : Robot → ℕ → Text → Text → Memories → Memories
  unfolding remember
  remember_context r now context value s =
      remember r now (codes "context:" ++ context) value false s

  unfoldable pub remember_context_thread : Robot → ℕ → Text → Text → Memories → Memories
  unfolding remember_thread
  remember_context_thread r now context value s =
      remember_thread r now (codes "context:" ++ context) value false s

  unfoldable pub recall : Robot → Text → Bool → Memories → Text
  unfolding make_memory_context
  recall r key shared s = elim (find (make_memory_context r key false shared) s.m) [
    | none ↦ []
    | some x ↦ x.memory
  ]

  unfoldable pub delete_memory : Robot → Text → Bool → Memories → Memories
  unfolding make_memory_context
  delete_memory r key shared s =
      let k = make_memory_context r key false shared in
      record {
        m = delete Context_discrete k s.m;
        dirty = if is_empty k.thread then s.dirty else true;
      }

-- seven days, and fourteen minutes
abbrev pub thread_memory_duration : ℕ
thread_memory_duration = 604800000000000

abbrev pub channel_memory_duration : ℕ
channel_memory_duration = 840000000000

-- Threads and direct messages are remembered longer.
abbrev pub limit_of : Context → ℕ
limit_of k =
    if (if is_empty k.thread then is_empty k.channel else true)
    then thread_memory_duration
    else channel_memory_duration

abbrev pub is_stale : ℕ → Context → Memory → Bool
is_stale now k x = ltb (limit_of k) (now - x.timestamp)

-- The sweep at each tick: the memories that stay, and whether any goes.
unfoldable pub sweep : ℕ → Table → Table × Bool
sweep now [] = ([], false)
sweep now ((k, x) ∷ m) =
    let (kept, some_gone) = sweep now m in
    if is_stale now k x then (kept, true) else ((k, x) ∷ kept, some_gone)

-- The memories after a tick; they are saved if they are dirty.
unfoldable pub expire_memories : ℕ → Memories → Memories
unfolding sweep
expire_memories now s =
    let (kept, some_gone) = sweep now s.m in
    record { m = kept; dirty = if some_gone then true else s.dirty }

abbrev pub last_msg_key : Text
last_msg_key = codes "lastMsg"

-- The entries that `MarshalJSON` saves.
unfoldable pub saved : Table → Table
saved [] = []
saved ((k, x) ∷ m) =
    let rest = saved m in if bytes_eq k.key last_msg_key then rest else (k, x) ∷ rest
