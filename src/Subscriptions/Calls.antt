-- ===== src/Subscriptions/Calls.antt =====
-- About Subscribe and Unsubscribe: the entries of the caller, and those of others.
use gopherbot.Prelude.{
  ℕ, ◌≡◌, refl, sym, ap, ◌∙◌, Bool, true, false, Option, none, some, [], ◌≢◌, inl, inr, Bool-cases,
  Option-cases, if_cases,
}
use mathlib.Core.Logic.{if_pos, if_neg}
use mathlib.Core.Bool.{false≢true}
use gopherbot.Prelude.Assoc.{insert, delete, lookup-insert, lookup-delete}
use gopherbot.Prelude.Bytes.{bytes_eq, bytes_eq_iff}
use gopherbot.Subscriptions.{
  Text, Matcher, Matcher_discrete, Subscriber, Table, Subs, Caller, spec_of, legacy_of, find,
  subscribe, unsubscribe, normalize, legacy_entry, lookup_subscription, subscribe_new,
  subscribe_legacy, remove_own, unsubscribe_legacy, add,
}

bytes_ne : (a b : Text) → a ≢ b → bytes_eq a b ≡ false
bytes_ne a b h = elim (Bool-cases (bytes_eq a b)) [
  | inl t ↦ absurd (h ((bytes_eq_iff a b).0 t))
  | inr f ↦ f
]

insert_here :
    (k : Matcher) (x : Subscriber) (m : Table) → find k (insert Matcher_discrete k x m) ≡ some x
insert_here k x m = lookup-insert Matcher_discrete k k x m ∙ if_pos (Matcher_discrete k k) refl _ _

insert_other :
    (k j : Matcher) (x : Subscriber) (m : Table)
    → k ≢ j
    → find j (insert Matcher_discrete k x m) ≡ find j m
insert_other k j x m h =
    lookup-insert Matcher_discrete k j x m ∙ if_neg (Matcher_discrete k j) h _ _

delete_other : (k j : Matcher) (m : Table) → k ≢ j → find j (delete Matcher_discrete k m) ≡ find j m
delete_other k j m h = lookup-delete Matcher_discrete k j m ∙ if_neg (Matcher_discrete k j) h _ _

delete_here : (k : Matcher) (m : Table) → find k (delete Matcher_discrete k m) ≡ none
delete_here k m = lookup-delete Matcher_discrete k k m ∙ if_pos (Matcher_discrete k k) refl _ _

-- Another plugin's entry at some key.
abbrev pub Keeps : Matcher → Subscriber → Table → Type 0
Keeps k x m = find k m ≡ some x

module _ (c : Caller) (s : Subs) (k : Matcher) (x : Subscriber) (held : find k s.m ≡ some x)
    (other : c.task ≢ x.plugin) where
  abbrev Kept : Bool × Subs → Type 0
  Kept r = find k r.1.m ≡ some x

  not_at : (j : Matcher) → find j s.m ≡ none → j ≢ k
  not_at j e p = cc (ap (λ l. find l s.m) p)

  own_at : (j : Matcher) (y : Subscriber) → find j s.m ≡ some y → c.task ≡ y.plugin → j ≢ k
  own_at j y e own p = other (own ∙ ap plugin_of (sym e ∙ ap (λ l. find l s.m) p ∙ held))
    where
      plugin_of : Option Subscriber → Text
      plugin_of none = []
      plugin_of (some z) = z.plugin

  add-keeps :
      (now : ℕ) (m : Table) → spec_of c ≢ k → find k m ≡ some x → find k (add now c m).m ≡ some x
  unfolding add
  add-keeps now m h e = insert_other (spec_of c) k _ m h ∙ e

  subscribe_legacy-keeps : (now : ℕ) → find (spec_of c) s.m ≡ none → Kept (subscribe_legacy now c s)
  unfolding subscribe_legacy subscribe_new
  subscribe_legacy-keeps now free =
      if_cases Kept (bytes_eq c.protocol []) _ _
        (λ _. add-keeps now s.m (not_at (spec_of c) free) held)
        (λ _. elim (Option-cases (find (legacy_of c) s.m)) [
          | inl e ↦ rw (e) (add-keeps now s.m (not_at (spec_of c) free) held)
          | inr (y, e) ↦ rw (e) (
              if_cases Kept (bytes_eq c.task y.plugin) _ _
                (λ t. add-keeps now _ (not_at (spec_of c) free) (
                  delete_other (legacy_of c) k s.m
                    (own_at (legacy_of c) y e ((bytes_eq_iff _ _).0 t))
                  ∙ held))
                (λ _. held))
        ])

  -- No call of Subscribe takes away or changes a subscription that another plugin holds.
  pub subscribe_keeps : (now : ℕ) → find k (subscribe now c s).1.m ≡ some x
  unfolding subscribe
  subscribe_keeps now =
      if_cases Kept c.is_plugin _ _
        (λ _. elim (Option-cases (find (spec_of c) s.m)) [
          | inl e ↦ rw (e) (subscribe_legacy-keeps now e)
          | inr (y, e) ↦
              rw (e) (if_cases Kept (bytes_eq c.task y.plugin) _ _ (λ _. held) (λ _. held))
        ])
        (λ _. held)

  remove_own-keeps :
      (j : Matcher) (y : Subscriber) → find j s.m ≡ some y → Kept (remove_own c j y s)
  unfolding remove_own
  remove_own-keeps j y e =
      if_cases Kept (bytes_eq c.task y.plugin) _ _
        (λ t. delete_other j k s.m (own_at j y e ((bytes_eq_iff _ _).0 t)) ∙ held) (λ _. held)

  unsubscribe_legacy-keeps : Kept (unsubscribe_legacy c s)
  unfolding unsubscribe_legacy
  unsubscribe_legacy-keeps =
      if_cases Kept (bytes_eq c.protocol []) _ _ (λ _. held)
        (λ _. elim (Option-cases (find (legacy_of c) s.m)) [
          | inl e ↦ rw (e) held
          | inr (y, e) ↦ rw (e) (remove_own-keeps (legacy_of c) y e)
        ])

  -- No call of Unsubscribe takes away or changes a subscription that another plugin holds.
  pub unsubscribe_keeps : find k (unsubscribe c s).1.m ≡ some x
  unfolding unsubscribe
  unsubscribe_keeps =
      if_cases Kept c.is_plugin _ _
        (λ _. elim (Option-cases (find (spec_of c) s.m)) [
          | inl e ↦ rw (e) unsubscribe_legacy-keeps
          | inr (y, e) ↦ rw (e) (remove_own-keeps (spec_of c) y e)
        ])
        (λ _. held)

-- A subscription as Subscribe and Unsubscribe look for it, and as the dispatcher does.
module _ (to_lower trim_space : Text → Text) (c : Caller) (s : Subs)
    (normal : normalize to_lower trim_space c.protocol ≡ c.protocol) where
  abbrev pub holder : Subs → Option (Matcher × Subscriber)
  holder t = lookup_subscription to_lower trim_space c.protocol c.channel c.thread t.m

  holder_of :
      (t : Subs) (x : Subscriber) → find (spec_of c) t.m ≡ some x → holder t ≡ some (spec_of c, x)
  unfolding lookup_subscription
  holder_of t x e =
      ap (λ p. looked (record { protocol = p; channel = c.channel; thread = c.thread }) t.m) normal
      ∙ ap (answer (spec_of c) t.m) e
    where
      answer : Matcher → Table → Option Subscriber → Option (Matcher × Subscriber)
      answer k m o = elim o [ some x ↦ some (k, x) | none ↦ legacy_entry to_lower trim_space k m ]

      looked : Matcher → Table → Option (Matcher × Subscriber)
      looked k m = answer k m (find k m)

  abbrev Obtains : Bool × Subs → Type 0
  Obtains r =
      r.0 ≡ true → (x : Subscriber) × (x.plugin ≡ c.task) × (holder r.1 ≡ some (spec_of c, x))

  new-Obtains : (now : ℕ) (m : Table) → Obtains (true, add now c m)
  unfolding add
  new-Obtains now m e = (
    record { plugin = c.task; timestamp = now },
    refl,
    holder_of (add now c m) _ (insert_here (spec_of c) _ m),
  )

  legacy-Obtains : (now : ℕ) → Obtains (subscribe_legacy now c s)
  unfolding subscribe_legacy subscribe_new
  legacy-Obtains now =
      if_cases Obtains (bytes_eq c.protocol []) _ _ (λ _. new-Obtains now s.m)
        (λ _. elim (Option-cases (find (legacy_of c) s.m)) [
          | inl e ↦ rw (e) (new-Obtains now s.m)
          | inr (y, e) ↦ rw (e) (
              if_cases Obtains (bytes_eq c.task y.plugin) _ _ (λ _. new-Obtains now _)
                (λ _ h. absurd (false≢true h)))
        ])

  -- Where the protocol is in its normal form: after Subscribe answers true, the dispatcher's lookup
  -- of the caller's thread finds an entry under the thread's own key, and it is the caller's.
  pub subscribe_obtains :
      (now : ℕ)
      → (subscribe now c s).0 ≡ true
      → (x : Subscriber) × (x.plugin ≡ c.task)
        × (holder (subscribe now c s).1 ≡ some (spec_of c, x))
  unfolding subscribe
  subscribe_obtains now =
      if_cases Obtains c.is_plugin _ _
        (λ _. elim (Option-cases (find (spec_of c) s.m)) [
          | inl e ↦ rw (e) (legacy-Obtains now)
          | inr (y, e) ↦ rw (e) (
              if_cases Obtains (bytes_eq c.task y.plugin) _ _
                (λ t h. (y, sym ((bytes_eq_iff _ _).0 t), holder_of s y e))
                (λ _ h. absurd (false≢true h)))
        ])
        (λ _ h. absurd (false≢true h))
