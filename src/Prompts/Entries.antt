-- ===== src/Prompts/Entries.antt =====
-- About a new prompt of bot/replyprompt.go, and the lists of waiters over time.
use gopherbot.Prelude.{
  ℕ, suc, ◌≡◌, ◌≢◌, refl, sym, ap, subst, ◌∙◌, Bool, true, false, Option, none, some, List, [], ◌∷◌,
  ◌++◌, is_some, if◌then◌else◌, if_cases, if_true, if_false, some-injective, ◌⊎◌, inl, inr, arith,
  ◌==◌,
}
use mathlib.Core.Bool.{true≢false}
use gopherbot.Prelude.Assoc.{lookup, insert, lookup-insert_here, lookup-insert_other}
use gopherbot.Prelude.Bytes.{Text}
use gopherbot.RetVal.{RetVal}
use gopherbot.Prompts.{
  Matcher, Matcher_discrete, Waiter, Channels, Prompts, waiters_at, reply_at, Entered, waits,
  returns, enter, enter_list, is_ok,
}
use gopherbot.Prompts.Waits.{NotIn, Idle, Owned, Owned-fresh, Valid}

new_waiter : (Text → Bool) → ℕ → ℕ → Waiter
new_waiter re tid n = record { re = re; reply_channel = n; tid = tid }

module _ (own : ℕ → Option Matcher) (next : ℕ) (k : Matcher) where
  abbrev owned_next : ℕ → Option Matcher
  owned_next n = if n == next then some k else own n

  Owned-next :
      (j : Matcher) (ws : List Waiter) → Owned own next j ws → Owned owned_next (suc next) j ws
  Owned-next j [] o = tt
  Owned-next j (w ∷ ws) o = (
    omega (arith, o.0),
    if_false (w.reply_channel == next) _ _ (ground (arith, o.0)) ∙ o.1,
    Owned-next j ws o.2,
  )

  Owned-append :
      (w : Waiter) (ws : List Waiter)
      → w.reply_channel ≡ next
      → Owned own next k ws
      → Owned owned_next (suc next) k (ws ++ w ∷ [])
  Owned-append w [] e o =
      (omega (arith, e), if_true (w.reply_channel == next) _ _ (ground (arith, e)), tt)
  Owned-append w (x ∷ ws) e o = (
    omega (arith, o.0),
    if_false (x.reply_channel == next) _ _ (ground (arith, o.0)) ∙ o.1,
    Owned-append w ws e o.2,
  )

pub NotIn-append :
    (n : ℕ) (ws : List Waiter) (w : Waiter)
    → NotIn n ws
    → n ≢ w.reply_channel
    → NotIn n (ws ++ w ∷ [])
NotIn-append n [] w o h = (h, tt)
NotIn-append n (x ∷ ws) w o h = (o.0, NotIn-append n ws w o.1 h)

Idle-append :
    (c : Channels) (ws : List Waiter) (w : Waiter)
    → reply_at w.reply_channel c ≡ none
    → NotIn w.reply_channel ws
    → Idle c ws
    → Idle c (ws ++ w ∷ [])
Idle-append c [] w e o idle = (e, tt, tt)
Idle-append c (x ∷ ws) w e o idle = (
  idle.0,
  NotIn-append x.reply_channel ws w idle.1 (λ h. o.0 (sym h)),
  Idle-append c ws w e o.1 idle.2,
)

append-nonempty : (ws : List Waiter) (w : Waiter) → (ws ++ w ∷ []) ≢ []
append-nonempty [] w e = cc
append-nonempty (x ∷ ws) w e = cc

abbrev pub list_of : Option (List Waiter) → List Waiter
list_of none = []
list_of (some ws) = ws

-- A new waiter at the end of its matcher's list keeps the lists valid.
append-Valid :
    (k : Matcher) (re : Text → Bool) (tid : ℕ) (s : Prompts) (ws : List Waiter) (v : Valid s)
    → Owned v.own s.next k ws
    → Idle s.channels ws
    → Valid (record {
      m =
          insert Matcher_discrete k
            (ws ++ record { re = re; reply_channel = s.next; tid = tid } ∷ [])
            s.m;
      channels = s.channels;
      next = suc s.next;
    })
append-Valid k re tid s ws v o idle = record {
  own = owned_next v.own s.next k;
  owned = λ j l e. elim (Matcher_discrete k j) [
    | no h ↦ Owned-next v.own s.next k j l (v.owned j l (sym (other j h) ∙ e))
    | yes h ↦ subst (Owned (owned_next v.own s.next k) (suc s.next) j) (here j l h e) (
        subst (λ x. Owned (owned_next v.own s.next k) (suc s.next) x all) h
          (Owned-append v.own s.next k new ws refl o))
  ];
  idle = λ j l e. elim (Matcher_discrete k j) [
    | no h ↦ v.idle j l (sym (other j h) ∙ e)
    | yes h ↦ subst (Idle s.channels) (here j l h e) (
        Idle-append s.channels ws new (v.fresh s.next (omega arith))
          (Owned-fresh v.own s.next k ws s.next o (omega arith)) idle)
  ];
  manned = λ j e. elim (Matcher_discrete k j) [
    | no h ↦ v.manned j (sym (other j h) ∙ e)
    | yes h ↦ append-nonempty ws new (here j [] h e)
  ];
  fresh = λ n h. v.fresh n (omega arith);
}
  where
    new : Waiter
    new = record { re = re; reply_channel = s.next; tid = tid }

    all : List Waiter
    all = ws ++ new ∷ []

    other :
        (j : Matcher)
        → k ≢ j
        → lookup Matcher_discrete j (insert Matcher_discrete k all s.m)
          ≡ lookup Matcher_discrete j s.m
    other j h = lookup-insert_other Matcher_discrete k j all s.m h

    here :
        (j : Matcher) (l : List Waiter)
        → k ≡ j
        → lookup Matcher_discrete j (insert Matcher_discrete k all s.m) ≡ some l
        → all ≡ l
    here j l h e = some-injective all l (
        sym (lookup-insert_here Matcher_discrete k all s.m)
        ∙ ap (λ x. lookup Matcher_discrete x (insert Matcher_discrete k all s.m)) h
        ∙ e)

is_ok-eq : (ret : RetVal) → is_ok ret ≡ true → ret ≡ RetVal.ok
is_ok-eq RetVal.ok e = refl
is_ok-eq _ e = absurd (true≢false (sym e))

Owned-later :
    (own : ℕ → Option Matcher) (next : ℕ) (k : Matcher) (ws : List Waiter)
    → Owned own next k ws
    → Owned own (suc next) k ws
Owned-later own next k [] o = tt
Owned-later own next k (w ∷ ws) o = (omega (arith, o.0), o.1, Owned-later own next k ws o.2)

later-Valid : (s : Prompts) → Valid s → Valid (record s { next = suc s.next })
later-Valid s v = record {
  own = v.own;
  owned = λ k ws e. Owned-later v.own s.next k ws (v.owned k ws e);
  idle = v.idle;
  manned = v.manned;
  fresh = λ n h. v.fresh n (omega arith);
}

-- What a new prompt comes to, where its matcher's list is `o`.
abbrev pub EntersOk :
    Bool
    → Matcher
    → Option (Text → Bool)
    → ℕ
    → RetVal
    → Prompts
    → Option (List Waiter)
    → Entered
    → Type 0
EntersOk shut k re tid sent s o (returns ret s') =
    (s'.m ≡ s.m)
    × (s'.channels ≡ s.channels)
    × Valid s'
    × (((shut ≡ true) × (ret ≡ RetVal.interrupted))
        ⊎ ((re ≡ none) × (ret ≡ RetVal.matcher_not_found))
        ⊎ ((o ≡ none) × (sent ≢ RetVal.ok) × (ret ≡ sent)))
EntersOk shut k re tid sent s o (waits s') =
    Valid s'
    × (shut ≡ false)
    × (match_reply : Text → Bool) × (re ≡ some match_reply)
    × (waiters_at k s'
        ≡ some (list_of o ++ record { re = match_reply; reply_channel = s.next; tid = tid } ∷ []))
    × ((j : Matcher) → (k ≡ j) ⊎ (waiters_at j s' ≡ waiters_at j s))
    × (s'.channels ≡ s.channels)
    × (s'.next ≡ suc s.next)
    × ((is_some o ≡ true) ⊎ (sent ≡ RetVal.ok))

others_kept :
    (k : Matcher) (ws : List Waiter) (s : Prompts) (j : Matcher)
    → (k ≡ j) ⊎ (lookup Matcher_discrete j (insert Matcher_discrete k ws s.m) ≡ waiters_at j s)
others_kept k ws s j = elim (Matcher_discrete k j) [
  | yes h ↦ inl h
  | no h ↦ inr (lookup-insert_other Matcher_discrete k j ws s.m h)
]

-- From valid lists: a new prompt that returns at once leaves the lists and the replies as they were,
-- and does so with Interrupted at the shutdown, with MatcherNotFound without a regular expression, or
-- with the error of sending its own prompt, where its matcher has no list. One that waits is the last of its matcher's list, with its regular
-- expression, its task and a channel that is new; the waiters before it, the lists of the other
-- matchers and the replies are as they were, and the list was there before or the prompt was sent
-- without an error. The lists stay valid.
pub enter-Valid :
    (shut : Bool) (k : Matcher) (re : Option (Text → Bool)) (tid : ℕ) (sent : RetVal) (s : Prompts)
    → Valid s
    → EntersOk shut k re tid sent s (waiters_at k s) (enter shut k re tid sent s)
unfolding enter
enter-Valid true k re tid sent s v = (refl, refl, v, inl (refl, refl))
enter-Valid false k none tid sent s v = (refl, refl, v, inr (inl (refl, refl)))
enter-Valid false k (some re) tid sent s v = by_list (waiters_at k s) refl
  where
    new : Waiter
    new = record { re = re; reply_channel = s.next; tid = tid }

    by_list :
        (o : Option (List Waiter))
        → waiters_at k s ≡ o
        → EntersOk false k (some re) tid sent s o (enter_list k re tid sent s o)
    by_list none e =
        if_cases (EntersOk false k (some re) tid sent s none) (is_ok sent) _ _
          (λ h. (
            append-Valid k re tid s [] v tt tt,
            refl,
            re,
            refl,
            lookup-insert_here Matcher_discrete k (new ∷ []) s.m,
            others_kept k (new ∷ []) s,
            refl,
            refl,
            inr (is_ok-eq sent h),
          ))
          (λ f. (
            refl,
            refl,
            later-Valid s v,
            inr (inr (refl, λ h. true≢false (sym (ap is_ok h) ∙ f), refl)),
          ))
    by_list (some ws) e = (
      append-Valid k re tid s ws v (v.owned k ws e) (v.idle k ws e),
      refl,
      re,
      refl,
      lookup-insert_here Matcher_discrete k (ws ++ new ∷ []) s.m,
      others_kept k (ws ++ new ∷ []) s,
      refl,
      refl,
      inl refl,
    )
