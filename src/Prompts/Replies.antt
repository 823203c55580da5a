-- ===== src/Prompts/Replies.antt =====
-- About a reply, a timeout and a new prompt in bot/replyprompt.go and bot/dispatch.go.
use gopherbot.Prelude.{
  ℕ, ◌<◌, ◌≡◌, refl, sym, ap, ◌∙◌, true, false, Option, none, some, List, [], ◌∷◌, is_some,
  if_cases, ◌⊎◌, inl, inr,
}
use mathlib.Core.Bool.{true≢false}
use gopherbot.Prelude.Assoc.{lookup, delete, lookup-delete_here, lookup-delete_other}
use gopherbot.Prelude.Bytes.{Text}
use gopherbot.RetVal.{RetVal}
use gopherbot.Prompts.{
  Matcher, Matcher_discrete, Waiter, Prompts, waiters_at, reply_at, with_channels, forget, reply_to,
  deliver, deliver_list, answer, expired, expire, expire_list, expire_with, is_retry, prompt_loop,
  prompt_for_reply,
}
use gopherbot.Prompts.Waits.{
  NotIn, Idle, Retried, send_retries-Sends, deliver_to-Sends, Owned, Owned-NotIn, Valid,
  forget-Valid,
}

-- A user's message where waiters are listed for its matcher: it is a reply, no send blocks, the first
-- waiter has the message and whether it matched, every other one has a retry, the matcher's entry is
-- gone, and the lists of waiters are valid again. Without waiters it is no reply, and nothing changes.
pub deliver-Valid :
    (k : Matcher) (fmsg squeezed : Text) (s : Prompts)
    → Valid s
    → ((waiters_at k s ≡ none) × (deliver k fmsg squeezed s ≡ some (false, s)))
      ⊎ ((w : Waiter) × (ws : List Waiter) × (s' : Prompts) × (waiters_at k s ≡ some (w ∷ ws))
          × (deliver k fmsg squeezed s ≡ some (true, s'))
          × (reply_at w.reply_channel s'.channels ≡ some (reply_to w fmsg squeezed))
          × Retried s'.channels ws
          × (waiters_at k s' ≡ none)
          × Valid s')
unfolding deliver
deliver-Valid k fmsg squeezed s v = by_list (waiters_at k s) refl
  where
    by_list :
        (o : Option (List Waiter))
        → waiters_at k s ≡ o
        → ((waiters_at k s ≡ none)
            × (deliver_list k fmsg squeezed s (waiters_at k s) ≡ some (false, s)))
          ⊎ ((w : Waiter) × (ws : List Waiter) × (s' : Prompts) × (waiters_at k s ≡ some (w ∷ ws))
              × (deliver_list k fmsg squeezed s (waiters_at k s) ≡ some (true, s'))
              × (reply_at w.reply_channel s'.channels ≡ some (reply_to w fmsg squeezed))
              × Retried s'.channels ws
              × (waiters_at k s' ≡ none)
              × Valid s')
    by_list none e = inl (e, ap (deliver_list k fmsg squeezed s) e)
    by_list (some []) e = absurd (v.manned k e)
    by_list (some (w ∷ ws)) e =
        let (c', sent, first, others, same) =
          deliver_to-Sends fmsg squeezed w ws s.channels (v.idle k (w ∷ ws) e) in
        inr (
          w,
          ws,
          record (forget k s) { channels = c' },
          e,
          ap (deliver_list k fmsg squeezed s) e
              ∙ ap (λ o. answer (with_channels (forget k s) o)) sent,
          first,
          others,
          lookup-delete_here Matcher_discrete k s.m,
          forget-Valid k s (w ∷ ws) c' v (v.owned k (w ∷ ws) e) same,
        )

-- The channel of a waiter that has no reply and is in no list.
pub record Stranded (n : ℕ) (s : Prompts) : Type 0 where
  pub silent : reply_at n s.channels ≡ none
  pub unlisted : (k : Matcher) (ws : List Waiter) → waiters_at k s ≡ some ws → NotIn n ws
  pub old : n < s.next

-- A waiter of a valid list times out: no send blocks, the matcher's entry is gone, every waiter behind
-- the first has a retry, and the first one has none and is in no list any more, whether it is the one
-- that has timed out or not.
pub expire-Stranded :
    (k : Matcher) (w : Waiter) (ws : List Waiter) (s : Prompts)
    → Valid s
    → waiters_at k s ≡ some (w ∷ ws)
    → (s' : Prompts) × (expire k s ≡ expired s')
      × (waiters_at k s' ≡ none)
      × Retried s'.channels ws
      × Stranded w.reply_channel s'
      × Valid s'
unfolding expire
expire-Stranded k w ws s v e =
    let (c', sent, sends) = send_retries-Sends ws s.channels idle.2 in
    (
      record (forget k s) { channels = c' },
      ap (expire_list k s) e ∙ ap (λ o. expire_with (with_channels (forget k s) o)) sent,
      lookup-delete_here Matcher_discrete k s.m,
      sends.retried,
      record {
        silent = sends.others w.reply_channel idle.1 ∙ idle.0;
        unlisted = λ j l f. elim (Matcher_discrete k j) [
          | yes h ↦ absurd (gone j l h f)
          | no h ↦
              Owned-NotIn v.own s.next k j l w.reply_channel
                (v.owned j l (sym (lookup-delete_other Matcher_discrete k j s.m h) ∙ f)) owned.1 h
        ];
        old = owned.0;
      },
      forget-Valid k s ws c' v owned.2 sends.others,
    )
  where
    idle : Idle s.channels (w ∷ ws)
    idle = v.idle k (w ∷ ws) e

    owned : Owned v.own s.next k (w ∷ ws)
    owned = v.owned k (w ∷ ws) e

    gone :
        (j : Matcher) (l : List Waiter)
        → k ≡ j
        → lookup Matcher_discrete j (delete Matcher_discrete k s.m) ≡ some l
        → ⊥
    gone j l h f = true≢false (
        sym (ap is_some f)
        ∙ sym (ap (λ x. is_some (lookup Matcher_discrete x (delete Matcher_discrete k s.m))) h)
        ∙ ap is_some (lookup-delete_here Matcher_discrete k s.m))

abbrev pub Tried : (ℕ → Text × RetVal) → Text × RetVal → Type 0
Tried attempts o =
    (o ≡ attempts 0)
    ⊎ ((is_retry (attempts 0).1 ≡ true) × (o ≡ attempts 1))
    ⊎ ((is_retry (attempts 0).1 ≡ true) × (is_retry (attempts 1).1 ≡ true) × (o ≡ attempts 2))
    ⊎ ((is_retry (attempts 0).1 ≡ true)
        × (is_retry (attempts 1).1 ≡ true)
        × (is_retry (attempts 2).1 ≡ true)
        × (o.1 ≡ RetVal.interrupted))

-- The loop over the attempts returns what the first of the three returns that is not a retry, and
-- Interrupted where all three are retries: it never returns RetryPrompt.
pub prompt_for_reply-attempts :
    (attempts : ℕ → Text × RetVal)
    → (is_retry (prompt_for_reply attempts).1 ≡ false) × Tried attempts (prompt_for_reply attempts)
unfolding prompt_for_reply prompt_loop
prompt_for_reply-attempts attempts =
    if_cases Good (is_retry (attempts 0).1) _ _
      (λ r.
        if_cases Good (is_retry (attempts 1).1) _ _
          (λ q.
            if_cases Good (is_retry (attempts 2).1) _ _
              (λ p.
                if_cases Good (is_retry (attempts 2).1) _ _
                  (λ _. (refl, inr (inr (inr (r, q, p, refl)))))
                  (λ f. absurd (true≢false (sym p ∙ f))))
              (λ f. (f, inr (inr (inl (r, q, refl))))))
          (λ f. (f, inr (inl (r, refl)))))
      (λ f. (f, inl refl))
  where
    Good : Text × RetVal → Type 0
    Good o = (is_retry o.1 ≡ false) × Tried attempts o
