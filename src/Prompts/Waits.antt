-- ===== src/Prompts/Waits.antt =====
-- About the waiters of bot/replyprompt.go and their reply channels.
use gopherbot.Prelude.{
  ℕ, ◌<◌, ◌≤◌, ◌≡◌, ◌≢◌, refl, sym, ap, ◌∙◌, Option, none, some, List, [], ◌∷◌, is_some, if_false,
  some-injective, arith, ℕ_discrete,
}
use mathlib.Core.Bool.{true≢false}
use gopherbot.Prelude.Assoc.{
  lookup, insert, delete, lookup-insert_here, lookup-insert_other, lookup-delete_here,
  lookup-delete_other,
}
use gopherbot.Prelude.Bytes.{Text}
use gopherbot.Prompts.{
  Reply, Matcher, Matcher_discrete, Waiter, Channels, Prompts, waiters_at, reply_at,
  retry_prompt_reply, send, then_send, send_retries, forget, reply_to, deliver_to,
}

-- Every waiter of the list has an empty channel, of its own.
abbrev pub NotIn : ℕ → List Waiter → Type 0
NotIn n [] = Unit
NotIn n (w ∷ ws) = (n ≢ w.reply_channel) × NotIn n ws

abbrev pub Idle : Channels → List Waiter → Type 0
Idle c [] = Unit
Idle c (w ∷ ws) = (reply_at w.reply_channel c ≡ none) × NotIn w.reply_channel ws × Idle c ws

-- Each waiter of the list has the retry.
abbrev pub Retried : Channels → List Waiter → Type 0
Retried c [] = Unit
Retried c (w ∷ ws) = (reply_at w.reply_channel c ≡ some retry_prompt_reply) × Retried c ws

send-empty :
    (n : ℕ) (r : Reply) (c : Channels)
    → reply_at n c ≡ none
    → send n r c ≡ some (insert ℕ_discrete n r c)
unfolding send
send-empty n r c e = if_false (is_some (reply_at n c)) _ _ (ap is_some e)

Idle-insert :
    (n : ℕ) (r : Reply) (c : Channels) (ws : List Waiter)
    → NotIn n ws
    → Idle c ws
    → Idle (insert ℕ_discrete n r c) ws
Idle-insert n r c [] out idle = tt
Idle-insert n r c (w ∷ ws) out idle = (
  lookup-insert_other ℕ_discrete n w.reply_channel r c out.0 ∙ idle.0,
  idle.1,
  Idle-insert n r c ws out.1 idle.2,
)

-- The sends to idle waiters do not block: each has its retry, and no other channel changes.
pub record Sends (ws : List Waiter) (c c' : Channels) : Type 0 where
  pub retried : Retried c' ws
  pub others : (n : ℕ) → NotIn n ws → reply_at n c' ≡ reply_at n c

pub send_retries-Sends :
    (ws : List Waiter) (c : Channels)
    → Idle c ws
    → (c' : Channels) × (send_retries ws c ≡ some c') × Sends ws c c'
unfolding send_retries
send_retries-Sends [] c idle = (c, refl, record { retried = tt; others = λ n o. refl })
send_retries-Sends (w ∷ ws) c idle =
    let (c', e, s) =
      send_retries-Sends ws (insert ℕ_discrete w.reply_channel retry_prompt_reply c)
        (Idle-insert w.reply_channel retry_prompt_reply c ws idle.1 idle.2) in
    (
      c',
      ap (then_send (send_retries ws)) (send-empty w.reply_channel retry_prompt_reply c idle.0) ∙ e,
      record {
        retried = (
          s.others w.reply_channel idle.1
              ∙ lookup-insert_here ℕ_discrete w.reply_channel retry_prompt_reply c,
          s.retried,
        );
        others = λ n o.
            s.others n o.1
            ∙ lookup-insert_other ℕ_discrete w.reply_channel n retry_prompt_reply c
                (λ h. o.0 (sym h));
      },
    )

-- The first waiter has the reply, the others have the retry.
pub deliver_to-Sends :
    (fmsg squeezed : Text) (w : Waiter) (ws : List Waiter) (c : Channels)
    → Idle c (w ∷ ws)
    → (c' : Channels) × (deliver_to fmsg squeezed (w ∷ ws) c ≡ some c')
      × (reply_at w.reply_channel c' ≡ some (reply_to w fmsg squeezed))
      × Retried c' ws
      × ((n : ℕ) → NotIn n (w ∷ ws) → reply_at n c' ≡ reply_at n c)
deliver_to-Sends fmsg squeezed w ws c idle =
    let r : Reply = reply_to w fmsg squeezed in
    let (c', e, s) =
      send_retries-Sends ws (insert ℕ_discrete w.reply_channel r c)
        (Idle-insert w.reply_channel r c ws idle.1 idle.2) in
    (
      c',
      ap (then_send (send_retries ws)) (send-empty w.reply_channel r c idle.0) ∙ e,
      s.others w.reply_channel idle.1 ∙ lookup-insert_here ℕ_discrete w.reply_channel r c,
      s.retried,
      λ n o.
          s.others n o.1 ∙ lookup-insert_other ℕ_discrete w.reply_channel n r c (λ h. o.0 (sym h)),
    )

-- The waiters of a matcher: their channels are numbered below the next one and belong to the matcher.
abbrev pub Owned : (ℕ → Option Matcher) → ℕ → Matcher → List Waiter → Type 0
Owned own next k [] = Unit
Owned own next k (w ∷ ws) =
    (w.reply_channel < next) × (own w.reply_channel ≡ some k) × Owned own next k ws

-- The lists of waiters: every waiter has an empty channel of its own, over all lists.
pub record Valid (s : Prompts) : Type 0 where
  pub own : ℕ → Option Matcher
  pub owned : (k : Matcher) (ws : List Waiter) → waiters_at k s ≡ some ws → Owned own s.next k ws
  pub idle : (k : Matcher) (ws : List Waiter) → waiters_at k s ≡ some ws → Idle s.channels ws
  pub manned : (k : Matcher) → waiters_at k s ≢ some []
  pub fresh : (n : ℕ) → s.next ≤ n → reply_at n s.channels ≡ none

pub Owned-fresh :
    (own : ℕ → Option Matcher) (next : ℕ) (k : Matcher) (ws : List Waiter) (n : ℕ)
    → Owned own next k ws
    → next ≤ n
    → NotIn n ws
Owned-fresh own next k [] n o h = tt
Owned-fresh own next k (w ∷ ws) n o h =
    (λ p. absurd (omega (arith, p, o.0)), Owned-fresh own next k ws n o.2 h)

pub Owned-NotIn :
    (own : ℕ → Option Matcher) (next : ℕ) (j k : Matcher) (ws : List Waiter) (n : ℕ)
    → Owned own next k ws
    → own n ≡ some j
    → j ≢ k
    → NotIn n ws
Owned-NotIn own next j k [] n o e h = tt
Owned-NotIn own next j k (w ∷ ws) n o e h =
    (λ p. h (some-injective j k (sym e ∙ ap own p ∙ o.1)), Owned-NotIn own next j k ws n o.2 e h)

-- Another matcher's waiters stay idle where only channels of `k` change.
Idle-kept :
    (own : ℕ → Option Matcher) (next : ℕ) (j k : Matcher) (ws sent : List Waiter) (c c' : Channels)
    → Owned own next k sent
    → Owned own next j ws
    → j ≢ k
    → ((n : ℕ) → NotIn n sent → reply_at n c' ≡ reply_at n c)
    → Idle c ws
    → Idle c' ws
Idle-kept own next j k [] sent c c' o q h same idle = tt
Idle-kept own next j k (w ∷ ws) sent c c' o q h same idle = (
  same w.reply_channel (Owned-NotIn own next j k sent w.reply_channel o q.1 h) ∙ idle.0,
  idle.1,
  Idle-kept own next j k ws sent c c' o q.2 h same idle.2,
)

-- The matcher's entry goes, and only channels of its waiters change.
pub forget-Valid :
    (k : Matcher) (s : Prompts) (sent : List Waiter) (c' : Channels) (v : Valid s)
    → Owned v.own s.next k sent
    → ((n : ℕ) → NotIn n sent → reply_at n c' ≡ reply_at n s.channels)
    → Valid (record (forget k s) { channels = c' })
forget-Valid k s sent c' v o same = record {
  own = v.own;
  owned = λ j ws e. elim (Matcher_discrete k j) [
    | yes h ↦ absurd (gone j ws h e)
    | no h ↦ v.owned j ws (sym (lookup-delete_other Matcher_discrete k j s.m h) ∙ e)
  ];
  idle = λ j ws e. elim (Matcher_discrete k j) [
    | yes h ↦ absurd (gone j ws h e)
    | no h ↦
        let e' : waiters_at j s ≡ some ws =
          sym (lookup-delete_other Matcher_discrete k j s.m h) ∙ e in
        Idle-kept v.own s.next j k ws sent s.channels c' o (v.owned j ws e') (λ p. h (sym p)) same
          (v.idle j ws e')
  ];
  manned = λ j e. elim (Matcher_discrete k j) [
    | yes h ↦ gone j [] h e
    | no h ↦ v.manned j (sym (lookup-delete_other Matcher_discrete k j s.m h) ∙ e)
  ];
  fresh = λ n h. same n (Owned-fresh v.own s.next k sent n o h) ∙ v.fresh n h;
}
  where
    gone :
        (j : Matcher) (ws : List Waiter)
        → k ≡ j
        → lookup Matcher_discrete j (delete Matcher_discrete k s.m) ≡ some ws
        → ⊥
    gone j ws h e = true≢false (
        sym (ap is_some e)
        ∙ sym (ap (λ x. is_some (lookup Matcher_discrete x (delete Matcher_discrete k s.m))) h)
        ∙ ap is_some (lookup-delete_here Matcher_discrete k s.m))
