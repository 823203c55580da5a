-- ===== src/Subscriptions.antt =====
-- bot/subscribe_thread.go: which plugin a thread's messages go to. Texts are byte lists; times and
-- durations are numbers of nanoseconds.
pub mod Keys
pub mod Calls
pub mod Expiry
use gopherbot.Prelude.{
  ℕ, ◌-◌, ◌≡◌, sym, ap, Bool, true, false, Option, none, some, List, [], ◌∷◌, ◌++◌, ltb,
  if◌then◌else◌, drop,
}
use gopherbot.Prelude.Assoc.{lookup, insert, delete}
pub use gopherbot.Prelude.Bytes.{Text, is_empty}
use gopherbot.Prelude.Bytes.{bytes_eq, Bytes_discrete, codes, has_prefix}

-- `subscriptionMatcher`
pub record Matcher : Type 0 where
  pub protocol : Text
  pub channel : Text
  pub thread : Text

abbrev pub Matcher_discrete : Discrete Matcher
Matcher_discrete a b = elim (Bytes_discrete a.protocol b.protocol) [
  | no h ↦ no (λ e. h (ap (λ (x : Matcher). x.protocol) e))
  | yes p ↦ elim (Bytes_discrete a.channel b.channel) [
    | no h ↦ no (λ e. h (ap (λ (x : Matcher). x.channel) e))
    | yes q ↦ elim (Bytes_discrete a.thread b.thread) [
      | no h ↦ no (λ e. h (ap (λ (x : Matcher). x.thread) e))
      | yes r ↦ yes (λ i. record { protocol = p i; channel = q i; thread = r i })
    ]
  ]
]

pub record Subscriber : Type 0 where
  pub plugin : Text
  pub timestamp : ℕ

-- `expiredSubscription`
pub record Expired : Type 0 where
  pub protocol : Text
  pub channel : Text
  pub thread : Text
  pub plugin : Text

abbrev pub Table : Type 0
Table = List (Matcher × Subscriber)

-- `tSubs`
pub record Subs : Type 0 where
  pub m : Table
  pub dirty : Bool

-- What Subscribe and Unsubscribe learn from the worker and from the current task.
pub record Caller : Type 0 where
  pub protocol : Text
  pub channel : Text
  pub thread : Text
  pub task : Text
  pub is_plugin : Bool

abbrev pub spec_of : Caller → Matcher
spec_of c = record { protocol = c.protocol; channel = c.channel; thread = c.thread }

abbrev pub legacy_of : Caller → Matcher
legacy_of c = record { protocol = []; channel = c.channel; thread = c.thread }

abbrev pub find : Matcher → Table → Option Subscriber
find k m = lookup Matcher_discrete k m

add : ℕ → Caller → Table → Subs
add now c m = record {
  m = insert Matcher_discrete (spec_of c) (record { plugin = c.task; timestamp = now }) m;
  dirty = true;
}

subscribe_new : ℕ → Caller → Subs → Bool × Subs
unfolding add
subscribe_new now c s = (true, add now c s.m)

-- The entries of the time before protocols were part of the key.
subscribe_legacy : ℕ → Caller → Subs → Bool × Subs
unfolding add subscribe_new
subscribe_legacy now c s =
    if bytes_eq c.protocol [] then subscribe_new now c s else elim (find (legacy_of c) s.m) [
      | none ↦ subscribe_new now c s
      | some x ↦
          if bytes_eq c.task x.plugin
          then (true, add now c (delete Matcher_discrete (legacy_of c) s.m))
          else (false, s)
    ]

unfoldable pub subscribe : ℕ → Caller → Subs → Bool × Subs
unfolding subscribe_legacy
subscribe now c s =
    if c.is_plugin
    then elim (find (spec_of c) s.m) [
      | none ↦ subscribe_legacy now c s
      | some x ↦ if bytes_eq c.task x.plugin then (true, s) else (false, s)
    ]
    else (false, s)

-- An entry that was found goes, if it is the caller's.
remove_own : Caller → Matcher → Subscriber → Subs → Bool × Subs
remove_own c k x s =
    if bytes_eq c.task x.plugin
    then (true, record { m = delete Matcher_discrete k s.m; dirty = true })
    else (false, s)

unsubscribe_legacy : Caller → Subs → Bool × Subs
unfolding remove_own
unsubscribe_legacy c s =
    if bytes_eq c.protocol [] then (true, s) else elim (find (legacy_of c) s.m) [
      | none ↦ (true, s)
      | some x ↦ remove_own c (legacy_of c) x s
    ]

unfoldable pub unsubscribe : Caller → Subs → Bool × Subs
unfolding remove_own unsubscribe_legacy
unsubscribe c s =
    if c.is_plugin
    then elim (find (spec_of c) s.m) [
      | none ↦ unsubscribe_legacy c s
      | some x ↦ remove_own c (spec_of c) x s
    ]
    else (false, s)

-- `normalizeProtocolName` and `lookupSubscriptionLocked`, over strings.ToLower and strings.TrimSpace.
module _ (to_lower trim_space : Text → Text) where
  abbrev pub normalize : Text → Text
  normalize protocol = to_lower (trim_space protocol)

  abbrev pub legacy_entry : Matcher → Table → Option (Matcher × Subscriber)
  legacy_entry k m =
      if bytes_eq k.protocol [] then none else elim (find (record k { protocol = [] }) m) [
        | none ↦ none
        | some x ↦ some (record k { protocol = [] }, x)
      ]

  unfoldable pub lookup_subscription : Text → Text → Text → Table → Option (Matcher × Subscriber)
  lookup_subscription protocol channel thread m =
      let k : Matcher = record {
        protocol = normalize protocol;
        channel = channel;
        thread = thread;
      } in
      elim (find k m) [ some x ↦ some (k, x) | none ↦ legacy_entry k m ]

-- seven days
abbrev pub thread_memory_duration : ℕ
thread_memory_duration = 604800000000000

abbrev pub is_stale : ℕ → Subscriber → Bool
is_stale now x = ltb thread_memory_duration (now - x.timestamp)

abbrev pub expired_of : Matcher → Subscriber → Expired
expired_of k x = record {
  protocol = if bytes_eq k.protocol [] then codes "unknown" else k.protocol;
  channel = k.channel;
  thread = k.thread;
  plugin = x.plugin;
}

-- The loop of `expireSubscriptions`: the entries that stay, those that go, and whether any goes.
unfoldable pub sweep : ℕ → Table → Table × List Expired × Bool
sweep now [] = ([], [], false)
sweep now ((k, x) ∷ m) =
    let (kept, gone, some_gone) = sweep now m in
    if is_stale now x then (kept, expired_of k x ∷ gone, true) else ((k, x) ∷ kept, gone, some_gone)

-- The expired subscriptions, whether the table is to be saved, and the table.
unfoldable pub expire_subscriptions : ℕ → Subs → List Expired × Bool × Subs
unfolding sweep
expire_subscriptions now s =
    let (kept, gone, some_gone) = sweep now s.m in
    let dirty = if some_gone then true else s.dirty in
    (gone, dirty, record { m = kept; dirty = dirty })

abbrev pub separator : Text
separator = codes "{|}"

-- The key of `MarshalJSON`
unfoldable pub marshal_key : Matcher → Text
marshal_key k = k.protocol ++ (separator ++ (k.channel ++ (separator ++ k.thread)))

-- What is before the first separator and what is behind it.
unfoldable pub cut : Text → Option (Text × Text)
cut [] = none
cut (c ∷ s) =
    let rest = cut s in
    if has_prefix (c ∷ s) separator
    then some ([], drop 3 (c ∷ s))
    else elim rest [ none ↦ none | some (a, b) ↦ some (c ∷ a, b) ]

abbrev pub two_parts : Text → Option (Text × Text) → List Text
two_parts s none = s ∷ []
two_parts s (some (a, rest)) = a ∷ rest ∷ []

abbrev pub three_parts : Text → Option (Text × Text) → List Text
three_parts s none = s ∷ []
three_parts s (some (a, rest)) = a ∷ two_parts rest (cut rest)

-- strings.SplitN(k, "{|}", 3), as one to three parts
unfoldable pub split_key : Text → List Text
split_key k = three_parts k (cut k)

module _ (to_lower trim_space : Text → Text) where
  abbrev pub key_of_parts : List Text → Option Matcher
  key_of_parts (c ∷ t ∷ []) = some (record { protocol = []; channel = c; thread = t })
  key_of_parts (p ∷ c ∷ t ∷ []) =
      some (record { protocol = normalize to_lower trim_space p; channel = c; thread = t })
  key_of_parts _ = none

  -- The keys of `UnmarshalJSON`: one that cannot be read is an error.
  unfoldable pub unmarshal_key : Text → Option Matcher
  unfolding split_key
  unmarshal_key k = key_of_parts (split_key k)
