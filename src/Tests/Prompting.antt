-- ===== src/Tests/Prompting.antt =====
-- Prompts: two waiters of one user, the first with a longer timeout.
use gopherbot.Prelude.{ℕ, ◌≡◌, refl, Bool, true, false, none, some, List, [], ◌∷◌, ◌⊎◌}
use gopherbot.Prelude.Assoc.{lookup, insert, delete}
use gopherbot.Prelude.Bytes.{Text, codes, bytes_eq}
use gopherbot.RetVal.{RetVal}
use gopherbot.Prompts.{
  Matcher, Waiter, Prompts, retry_prompt_reply, send, send_retries, enter, deliver, expire,
  waiters_at, reply_at, reply_to, is_retry, prompt_for_reply,
}
use gopherbot.Prompts.Waits.{Valid, Retried, NotIn}
use gopherbot.Prompts.Replies.{deliver-Valid, prompt_for_reply-attempts, Tried}
use gopherbot.Prompts.Entries.{enter-Valid, EntersOk, list_of}
use gopherbot.Prompts.Stranding.{start, expire-forever}

abbrev any : Text → Bool
any t = true

abbrev alice : Matcher
alice = record { protocol = codes "s"; user = codes "a"; channel = codes "g"; thread = [] }

abbrev nobody : Prompts
nobody = record { m = []; channels = []; next = 0 }

abbrev waiter : ℕ → Waiter
waiter n = record { re = any; reply_channel = n; tid = 4 }

abbrev one : Prompts
one = record { m = (alice, waiter 0 ∷ []) ∷ []; channels = []; next = 1 }

abbrev two : Prompts
two = record { m = (alice, waiter 0 ∷ waiter 1 ∷ []) ∷ []; channels = []; next = 2 }

nobody-Valid : Valid nobody
unfolding lookup
nobody-Valid = record {
  own = λ n. none;
  owned = λ k ws e. cc;
  idle = λ k ws e. cc;
  manned = λ k e. cc;
  fresh = λ n h. refl;
}

enter-Valid_example :
    EntersOk false alice
      (some any)
      4
      RetVal.ok
      nobody
      (waiters_at alice nobody)
      (enter false alice (some any) 4 RetVal.ok nobody)
enter-Valid_example = enter-Valid false alice (some any) 4 RetVal.ok nobody nobody-Valid

one-Valid : Valid one
unfolding enter lookup insert
one-Valid = (enter-Valid false alice (some any) 4 RetVal.ok nobody nobody-Valid).0

two-Valid : Valid two
unfolding enter lookup insert bytes_eq
two-Valid = (enter-Valid false alice (some any) 4 RetVal.ok one one-Valid).0

deliver-Valid_example :
    ((waiters_at alice two ≡ none)
      × (deliver alice (codes "y") (codes "y") two ≡ some (false, two)))
    ⊎ ((w : Waiter) × (ws : List Waiter) × (s' : Prompts) × (waiters_at alice two ≡ some (w ∷ ws))
        × (deliver alice (codes "y") (codes "y") two ≡ some (true, s'))
        × (reply_at w.reply_channel s'.channels ≡ some (reply_to w (codes "y") (codes "y")))
        × Retried s'.channels ws
        × (waiters_at alice s' ≡ none)
        × Valid s')
deliver-Valid_example = deliver-Valid alice (codes "y") (codes "y") two two-Valid

abbrev timed : Prompts
timed = record { m = []; channels = (1, retry_prompt_reply) ∷ []; next = 2 }

expire-forever_example :
    (reply_at 0 timed.channels ≡ none) × ((j : Matcher) → NotIn 0 (list_of (waiters_at j timed)))
unfolding expire lookup bytes_eq send_retries send delete insert
expire-forever_example =
    expire-forever alice (waiter 0) (waiter 1 ∷ []) two timed timed two-Valid refl refl start

prompt_for_reply-attempts_example :
    (is_retry (prompt_for_reply (λ i. ([], RetVal.retry_prompt))).1 ≡ false)
    × Tried (λ i. ([], RetVal.retry_prompt)) (prompt_for_reply (λ i. ([], RetVal.retry_prompt)))
prompt_for_reply-attempts_example = prompt_for_reply-attempts (λ i. ([], RetVal.retry_prompt))
