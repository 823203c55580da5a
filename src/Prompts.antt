-- ===== src/Prompts.antt =====
-- bot/replyprompt.go, and the start of `handleMessage` in bot/dispatch.go: the prompts that wait for a
-- user's reply. A waiter's reply channel, which holds one reply, is known by its number; `channels` has
-- the replies that wait in them. A regular expression is the test of the texts that it matches.

pub mod Replies
pub mod Waits
pub mod Entries
pub mod Stranding
pub mod Interrupts
use gopherbot.Prelude.{
  ℕ, zero, suc, ◌+◌, ◌≡◌, ap, Bool, true, false, ◌||◌, Option, none, some, List, [], ◌∷◌, ◌++◌,
  is_some, ◌==◌, if◌then◌else◌, ℕ_discrete,
}
use gopherbot.Prelude.Assoc.{lookup, insert, delete}
use gopherbot.Prelude.Bytes.{Text, bytes_eq, Bytes_discrete, codes}
use gopherbot.RetVal.{RetVal}

-- `replyDisposition`
pub data Disposition : Type 0 where
  replied reply_interrupted retry : Disposition

-- `reply`
pub record Reply : Type 0 where
  pub matched : Bool
  pub disposition : Disposition
  pub rep : Text

-- `replyMatcher`
pub record Matcher : Type 0 where
  pub protocol : Text
  pub user : Text
  pub channel : Text
  pub thread : Text

abbrev pub Matcher_discrete : Discrete Matcher
Matcher_discrete a b = elim (Bytes_discrete a.protocol b.protocol) [
  | no h ↦ no (λ e. h (ap (λ (x : Matcher). x.protocol) e))
  | yes p ↦ elim (Bytes_discrete a.user b.user) [
    | no h ↦ no (λ e. h (ap (λ (x : Matcher). x.user) e))
    | yes q ↦ elim (Bytes_discrete a.channel b.channel) [
      | no h ↦ no (λ e. h (ap (λ (x : Matcher). x.channel) e))
      | yes r ↦ elim (Bytes_discrete a.thread b.thread) [
        | no h ↦ no (λ e. h (ap (λ (x : Matcher). x.thread) e))
        | yes s ↦ yes (λ i. record { protocol = p i; user = q i; channel = r i; thread = s i })
      ]
    ]
  ]
]

-- `replyWaiter`
pub record Waiter : Type 0 where
  pub re : Text → Bool
  pub reply_channel : ℕ
  pub tid : ℕ

abbrev pub Channels : Type 0
Channels = List (ℕ × Reply)

-- `replies`, the reply channels, and the number of the next channel
pub record Prompts : Type 0 where
  pub m : List (Matcher × List Waiter)
  pub channels : Channels
  pub next : ℕ

abbrev pub waiters_at : Matcher → Prompts → Option (List Waiter)
waiters_at k s = lookup Matcher_discrete k s.m

abbrev pub reply_at : ℕ → Channels → Option Reply
reply_at n c = lookup ℕ_discrete n c

abbrev pub retry_prompt_reply : Reply
retry_prompt_reply = record { matched = false; disposition = retry; rep = [] }

-- `rep.replyChannel <- reply`: nothing where the channel is full, since the send would block.
unfoldable pub send : ℕ → Reply → Channels → Option Channels
send n r c = if is_some (reply_at n c) then none else some (insert ℕ_discrete n r c)

abbrev pub then_send : (Channels → Option Channels) → Option Channels → Option Channels
then_send next none = none
then_send next (some c) = next c

-- The loop that sends a retry to each waiter.
unfoldable pub send_retries : List Waiter → Channels → Option Channels
send_retries [] c = some c
send_retries (w ∷ ws) c = then_send (send_retries ws) (send w.reply_channel retry_prompt_reply c)

abbrev pub with_channels : Prompts → Option Channels → Option Prompts
with_channels s none = none
with_channels s (some c) = some (record s { channels = c })

abbrev pub forget : Matcher → Prompts → Prompts
forget k s = record s { m = delete Matcher_discrete k s.m }

abbrev pub rest_of : List Waiter → List Waiter
rest_of [] = []
rest_of (w ∷ ws) = ws

-- The reply that the first waiter gets; `squeezed` is the message with `spaceRe` replaced.
abbrev pub reply_to : Waiter → Text → Text → Reply
reply_to w fmsg squeezed =
    if w.re fmsg
    then record { matched = true; disposition = replied; rep = fmsg }
    else record { matched = w.re squeezed; disposition = replied; rep = squeezed }

abbrev pub deliver_to : Text → Text → List Waiter → Channels → Option Channels
deliver_to fmsg squeezed [] c = some c
deliver_to fmsg squeezed (w ∷ ws) c =
    then_send (send_retries ws) (send w.reply_channel (reply_to w fmsg squeezed) c)

abbrev pub answer : Option Prompts → Option (Bool × Prompts)
answer none = none
answer (some s) = some (true, s)

abbrev pub deliver_list :
    Matcher → Text → Text → Prompts → Option (List Waiter) → Option (Bool × Prompts)
deliver_list k fmsg squeezed s none = some (false, s)
deliver_list k fmsg squeezed s (some ws) =
    answer (with_channels (forget k s) (deliver_to fmsg squeezed ws s.channels))

-- `handleMessage` down to the replies: whether the message was one, and nothing where a send blocks
unfoldable pub deliver : Matcher → Text → Text → Prompts → Option (Bool × Prompts)
deliver k fmsg squeezed s = deliver_list k fmsg squeezed s (waiters_at k s)

-- What `promptInternal` comes to before it waits: it waits, or it returns without a waiter.
pub data Entered : Type 0 where
  waits : Prompts → Entered
  returns : RetVal → Prompts → Entered

-- `ret == robot.Ok`
abbrev pub is_ok : RetVal → Bool
is_ok RetVal.ok = true
is_ok _ = false

abbrev pub enter_list :
    Matcher → (Text → Bool) → ℕ → RetVal → Prompts → Option (List Waiter) → Entered
enter_list k re tid sent s none =
    if is_ok sent
    then waits (record {
      m =
          insert Matcher_discrete k (record { re = re; reply_channel = s.next; tid = tid } ∷ [])
            s.m;
      channels = s.channels;
      next = suc s.next;
    })
    else returns sent (record s { next = suc s.next })
enter_list k re tid sent s (some ws) = waits (record {
  m =
      insert Matcher_discrete k (ws ++ record { re = re; reply_channel = s.next; tid = tid } ∷ [])
        s.m;
  channels = s.channels;
  next = suc s.next;
})

-- `promptInternal` before it waits; `shut` is the closed shutdown signal, and `sent` what the sending
-- of the prompt would return.
unfoldable pub enter : Bool → Matcher → Option (Text → Bool) → ℕ → RetVal → Prompts → Entered
enter true k re tid sent s = returns RetVal.interrupted s
enter false k none tid sent s = returns RetVal.matcher_not_found s
enter false k (some re) tid sent s = enter_list k re tid sent s (waiters_at k s)

-- What a waiter that has timed out does: it returns, or reads its channel, or its sends block.
pub data Expired : Type 0 where
  expired : Prompts → Expired
  reads : Prompts → Expired
  blocked : Expired

abbrev pub expire_with : Option Prompts → Expired
expire_with none = blocked
expire_with (some s) = expired s

abbrev pub expire_list : Matcher → Prompts → Option (List Waiter) → Expired
expire_list k s none = reads s
expire_list k s (some ws) =
    expire_with (with_channels (forget k s) (send_retries (rest_of ws) s.channels))

-- `promptInternal` at its timeout
unfoldable pub expire : Matcher → Prompts → Expired
expire k s = expire_list k s (waiters_at k s)

-- `promptInternal` behind a reply
unfoldable pub outcome : Reply → Text × RetVal
outcome r = elim r.disposition [
  | reply_interrupted ↦ ([], RetVal.interrupted)
  | retry ↦ ([], RetVal.retry_prompt)
  | replied ↦
      if r.matched
      then (r.rep, RetVal.ok)
      else if bytes_eq r.rep (codes "=")
      then ([], RetVal.use_default_value)
      else if bytes_eq r.rep (codes "-")
      then ([], RetVal.interrupted)
      else ([], RetVal.reply_not_matched)
]

abbrev pub is_retry : RetVal → Bool
is_retry RetVal.retry_prompt = true
is_retry _ = false

-- The loop of PromptForReply and its kin, with what the attempts of `promptInternal` return.
unfoldable pub prompt_loop : ℕ → (ℕ → Text × RetVal) → Text × RetVal → Text × RetVal
prompt_loop zero attempts last = if is_retry last.1 then (last.0, RetVal.interrupted) else last
prompt_loop (suc n) attempts last =
    let rest = prompt_loop n (λ i. attempts (suc i)) (attempts 0) in
    if is_retry (attempts 0).1 then rest else attempts 0

unfoldable pub prompt_for_reply : (ℕ → Text × RetVal) → Text × RetVal
prompt_for_reply attempts = prompt_loop 3 attempts ([], RetVal.ok)

-- The send in a `select` with a default: a full channel drops the reply.
unfoldable pub offer : ℕ → Reply → Channels → Channels
offer n r c = if is_some (reply_at n c) then c else insert ℕ_discrete n r c

unfoldable pub has_task : ℕ → List Waiter → Bool
has_task tid [] = false
has_task tid (w ∷ ws) = w.tid == tid || has_task tid ws

abbrev pub interrupted_reply : Reply
interrupted_reply = record { matched = false; disposition = reply_interrupted; rep = [] }

unfoldable pub offer_all : ℕ → List Waiter → Channels → Channels
offer_all tid [] c = c
offer_all tid (w ∷ ws) c =
    offer_all tid ws
      (offer w.reply_channel (if w.tid == tid then interrupted_reply else retry_prompt_reply) c)

-- Whether a list was interrupted, the entries that stay, and the channels.
unfoldable pub interrupt_entries :
    ℕ → List (Matcher × List Waiter) → Channels → Bool × List (Matcher × List Waiter) × Channels
interrupt_entries tid [] c = (false, [], c)
interrupt_entries tid ((k, ws) ∷ m) c =
    let hit = interrupt_entries tid m (offer_all tid ws c) in
    let missed = interrupt_entries tid m c in
    if has_task tid ws then (true, hit.1, hit.2) else (missed.0, (k, ws) ∷ missed.1, missed.2)

-- `interruptReplyWaitersForTask`, over the entries in the order of the table
unfoldable pub interrupt_reply_waiters_for_task : ℕ → Prompts → Bool × Prompts
interrupt_reply_waiters_for_task tid s =
    if tid == 0
    then (false, s)
    else let r = interrupt_entries tid s.m s.channels in (r.0, record s { m = r.1; channels = r.2 })

-- `promptInternal` at the shutdown signal, where it returns Interrupted
unfoldable pub shut_down : Matcher → Prompts → Prompts
shut_down k s = forget k s
