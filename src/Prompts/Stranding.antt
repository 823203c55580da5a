-- ===== src/Prompts/Stranding.antt =====
-- About waiters of bot/replyprompt.go that nothing will answer.
use gopherbot.Prelude.{
  ℕ, suc, ◌≡◌, refl, sym, ap, subst, ◌∙◌, Bool, true, false, Option, none, some, List, [], ◌∷◌,
  ◌++◌, is_some, if_cases, some-injective, inl, inr, arith,
}
use mathlib.Core.Bool.{true≢false}
use gopherbot.Prelude.Assoc.{
  lookup, insert, delete, lookup-insert_here, lookup-insert_other, lookup-delete_here,
  lookup-delete_other,
}
use gopherbot.Prelude.Bytes.{Text}
use gopherbot.RetVal.{RetVal}
use gopherbot.Prompts.{
  Matcher, Matcher_discrete, Waiter, Channels, Prompts, waiters_at, reply_at, with_channels, forget,
  answer, deliver, deliver_list, expire, expire_list, expire_with, Expired, expired, reads, blocked,
  enter, enter_list, Entered, waits, returns, is_ok,
}
use gopherbot.Prompts.Waits.{NotIn, Valid, deliver_to-Sends, send_retries-Sends}
use gopherbot.Prompts.Replies.{Stranded, deliver-Valid, expire-Stranded}
use gopherbot.Prompts.Entries.{enter-Valid, NotIn-append, list_of, EntersOk}

forget-Stranded :
    (n : ℕ) (k : Matcher) (s : Prompts) (c' : Channels)
    → Stranded n s
    → reply_at n c' ≡ reply_at n s.channels
    → Stranded n (record (forget k s) { channels = c' })
forget-Stranded n k s c' t e = record {
  silent = e ∙ t.silent;
  unlisted = λ j l f. elim (Matcher_discrete k j) [
    | yes h ↦ absurd (
        true≢false (
          sym (ap is_some f)
          ∙ sym (ap (λ x. is_some (lookup Matcher_discrete x (delete Matcher_discrete k s.m))) h)
          ∙ ap is_some (lookup-delete_here Matcher_discrete k s.m)))
    | no h ↦ t.unlisted j l (sym (lookup-delete_other Matcher_discrete k j s.m h) ∙ f)
  ];
  old = t.old;
}

abbrev Delivers {ℓ} : (Prompts → Type ℓ) → Option (Bool × Prompts) → Type ℓ
Delivers P none = Unit
Delivers P (some (b, s)) = P s

deliver-stays :
    (n : ℕ) (k : Matcher) (fmsg squeezed : Text) (s : Prompts)
    → Valid s
    → Stranded n s
    → Delivers (Stranded n) (deliver k fmsg squeezed s)
unfolding deliver
deliver-stays n k fmsg squeezed s v t = by_list (waiters_at k s) refl
  where
    by_list :
        (o : Option (List Waiter))
        → waiters_at k s ≡ o
        → Delivers (Stranded n) (deliver_list k fmsg squeezed s o)
    by_list none e = t
    by_list (some []) e = absurd (v.manned k e)
    by_list (some (w ∷ ws)) e =
        let (c', sent, _, _, same) =
          deliver_to-Sends fmsg squeezed w ws s.channels (v.idle k (w ∷ ws) e) in
        subst (λ o. Delivers (Stranded n) (answer (with_channels (forget k s) o))) (sym sent)
          (forget-Stranded n k s c' t (same n (t.unlisted k (w ∷ ws) e)))

abbrev Expires {ℓ} : (Prompts → Type ℓ) → Expired → Type ℓ
Expires P blocked = Unit
Expires P (reads s) = P s
Expires P (expired s) = P s

expire-stays :
    (n : ℕ) (k : Matcher) (s : Prompts) → Valid s → Stranded n s → Expires (Stranded n) (expire k s)
unfolding expire
expire-stays n k s v t = by_list (waiters_at k s) refl
  where
    by_list :
        (o : Option (List Waiter)) → waiters_at k s ≡ o → Expires (Stranded n) (expire_list k s o)
    by_list none e = t
    by_list (some []) e = absurd (v.manned k e)
    by_list (some (w ∷ ws)) e =
        let (c', sent, sends) = send_retries-Sends ws s.channels (v.idle k (w ∷ ws) e).2 in
        subst (λ o. Expires (Stranded n) (expire_with (with_channels (forget k s) o))) (sym sent)
          (forget-Stranded n k s c' t (sends.others n (t.unlisted k (w ∷ ws) e).1))

abbrev Enters {ℓ} : (Prompts → Type ℓ) → Entered → Type ℓ
Enters P (waits s) = P s
Enters P (returns ret s) = P s

NotIn-list :
    (n : ℕ) (o : Option (List Waiter))
    → ((ws : List Waiter) → o ≡ some ws → NotIn n ws)
    → NotIn n (list_of o)
NotIn-list n none h = tt
NotIn-list n (some ws) h = h ws refl

append-stays :
    (n : ℕ) (k : Matcher) (w : Waiter) (s : Prompts)
    → w.reply_channel ≡ s.next
    → Stranded n s
    → Stranded n (record {
      m = insert Matcher_discrete k (list_of (waiters_at k s) ++ w ∷ []) s.m;
      channels = s.channels;
      next = suc s.next;
    })
append-stays n k w s e t = record {
  silent = t.silent;
  unlisted = λ j l f. elim (Matcher_discrete k j) [
    | yes h ↦
        subst (NotIn n)
          (some-injective all l (
            sym (lookup-insert_here Matcher_discrete k all s.m)
            ∙ ap (λ x. lookup Matcher_discrete x (insert Matcher_discrete k all s.m)) h
            ∙ f))
          (NotIn-append n (list_of (waiters_at k s)) w
            (NotIn-list n (waiters_at k s) (t.unlisted k)) (λ p. omega (arith, t.old, p, e)))
    | no h ↦ t.unlisted j l (sym (lookup-insert_other Matcher_discrete k j all s.m h) ∙ f)
  ];
  old = omega (arith, t.old);
}
  where
    all : List Waiter
    all = list_of (waiters_at k s) ++ w ∷ []

enter-stays :
    (n : ℕ) (shut : Bool) (k : Matcher) (re : Option (Text → Bool)) (tid : ℕ) (sent : RetVal)
    (s : Prompts)
    → Stranded n s
    → Enters (Stranded n) (enter shut k re tid sent s)
unfolding enter
enter-stays n true k re tid sent s t = t
enter-stays n false k none tid sent s t = t
enter-stays n false k (some re) tid sent s t =
    by_list (waiters_at k s) (append-stays n k new s refl t)
  where
    new : Waiter
    new = record { re = re; reply_channel = s.next; tid = tid }

    by_list :
        (o : Option (List Waiter))
        → Stranded n (record {
          m = insert Matcher_discrete k (list_of o ++ new ∷ []) s.m;
          channels = s.channels;
          next = suc s.next;
        })
        → Enters (Stranded n) (enter_list k re tid sent s o)
    by_list none u =
        if_cases (Enters (Stranded n)) (is_ok sent) _ _ (λ _. u)
          (λ _. record { silent = t.silent; unlisted = t.unlisted; old = omega (arith, t.old) })
    by_list (some ws) u = u

abbrev pub entered_state : Entered → Prompts
entered_state (waits s) = s
entered_state (returns ret s) = s

-- What follows a state: new prompts, users' messages and timeouts that do not block.
pub data Follows (s : Prompts) : Prompts → Type 0 where
  start : Follows s s
  entered :
      {s' : Prompts} (shut : Bool) (k : Matcher) (re : Option (Text → Bool)) (tid : ℕ)
      (sent : RetVal)
      → Follows s s'
      → Follows s (entered_state (enter shut k re tid sent s'))
  delivered :
      {s' s'' : Prompts} (b : Bool) (k : Matcher) (fmsg squeezed : Text)
      → Follows s s'
      → deliver k fmsg squeezed s' ≡ some (b, s'')
      → Follows s s''
  timed_out :
      {s' s'' : Prompts} (k : Matcher) → Follows s s' → expire k s' ≡ expired s'' → Follows s s''

deliver-keeps :
    (k : Matcher) (fmsg squeezed : Text) (s : Prompts)
    → Valid s
    → Delivers Valid (deliver k fmsg squeezed s)
deliver-keeps k fmsg squeezed s v = elim (deliver-Valid k fmsg squeezed s v) [
  | inl (_, d) ↦ subst (Delivers Valid) (sym d) v
  | inr (_, _, s', _, d, _, _, _, v') ↦ subst (Delivers Valid) (sym d) v'
]

expire-none : (k : Matcher) (s : Prompts) → waiters_at k s ≡ none → expire k s ≡ reads s
unfolding expire
expire-none k s e = ap (expire_list k s) e

expire-keeps : (k : Matcher) (s : Prompts) → Valid s → Expires Valid (expire k s)
expire-keeps k s v = by_list (waiters_at k s) refl
  where
    by_list : (o : Option (List Waiter)) → waiters_at k s ≡ o → Expires Valid (expire k s)
    by_list none e = subst (Expires Valid) (sym (expire-none k s e)) v
    by_list (some []) e = absurd (v.manned k e)
    by_list (some (w ∷ ws)) e =
        let (s', d, _, _, _, v') = expire-Stranded k w ws s v e in subst (Expires Valid) (sym d) v'

enter-keeps :
    (shut : Bool) (k : Matcher) (re : Option (Text → Bool)) (tid : ℕ) (sent : RetVal) (s : Prompts)
    → Valid s
    → Valid (entered_state (enter shut k re tid sent s))
enter-keeps shut k re tid sent s v =
    by_result (enter shut k re tid sent s) (enter-Valid shut k re tid sent s v)
  where
    by_result :
        (x : Entered) → EntersOk shut k re tid sent s (waiters_at k s) x → Valid (entered_state x)
    by_result (waits s') h = h.0
    by_result (returns ret s') (_, _, v', _) = v'

enters-state : (P : Prompts → Type 0) (x : Entered) → Enters P x → P (entered_state x)
enters-state P (waits s) h = h
enters-state P (returns ret s) h = h

Follows-stays :
    (n : ℕ) (s s' : Prompts) → Valid s → Stranded n s → Follows s s' → Valid s' × Stranded n s'
Follows-stays n s s' v t start = (v, t)
Follows-stays n s _ v t (entered {s'} shut k re tid sent f) =
    let (v', t') = Follows-stays n s s' v t f in
    (
      enter-keeps shut k re tid sent s' v',
      enters-state (Stranded n) _ (enter-stays n shut k re tid sent s' t'),
    )
Follows-stays n s s'' v t (delivered {s'} b k fmsg squeezed f e) =
    let (v', t') = Follows-stays n s s' v t f in
    (
      subst (Delivers Valid) e (deliver-keeps k fmsg squeezed s' v'),
      subst (Delivers (Stranded n)) e (deliver-stays n k fmsg squeezed s' v' t'),
    )
Follows-stays n s s'' v t (timed_out {s'} k f e) =
    let (v', t') = Follows-stays n s s' v t f in
    (
      subst (Expires Valid) e (expire-keeps k s' v'),
      subst (Expires (Stranded n)) e (expire-stays n k s' v' t'),
    )

-- A waiter of a valid list has timed out: the first waiter of the list, whether it was that one or not,
-- has no reply then, and gets none in any sequence of new prompts, users' messages and timeouts.
pub expire-forever :
    (k : Matcher) (w : Waiter) (ws : List Waiter) (s s' s'' : Prompts)
    → Valid s
    → waiters_at k s ≡ some (w ∷ ws)
    → expire k s ≡ expired s'
    → Follows s' s''
    → (reply_at w.reply_channel s''.channels ≡ none)
      × ((j : Matcher) → NotIn w.reply_channel (list_of (waiters_at j s'')))
expire-forever k w ws s s' s'' v e x f =
    let (s0, d, _, _, t, v0) = expire-Stranded k w ws s v e in
    let t' : Stranded w.reply_channel s' =
      subst (Expires (Stranded w.reply_channel)) (sym d ∙ x) t in
    let v' : Valid s' = subst (Expires Valid) (sym d ∙ x) v0 in
    let t'' = (Follows-stays w.reply_channel s' s'' v' t' f).1 in
    (t''.silent, λ j. NotIn-list w.reply_channel (waiters_at j s'') (t''.unlisted j))
