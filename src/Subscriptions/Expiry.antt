-- ===== src/Subscriptions/Expiry.antt =====
-- About `expireSubscriptions`: the table before and after.
use gopherbot.Prelude.{
  ℕ, ◌≡◌, refl, sym, ap, ◌∙◌, Bool, true, false, Option, none, some, List, [], ◌∷◌, ◌≢◌, inl, inr,
  if◌then◌else◌, Bool-cases, if_cases, subst, ◌+◌, ◌≤◌, ◌<◌, ◌⊎◌, arith,
}
use mathlib.Core.Logic.{if_pos, if_neg}
use mathlib.Core.Bool.{true≢false}
use gopherbot.Prelude.Assoc.{lookup, IsUnique}
use gopherbot.Subscriptions.{
  Matcher, Matcher_discrete, Subscriber, Table, Subs, Expired, find, is_stale, expired_of, sweep,
  expire_subscriptions,
}

-- What an entry is after the sweep.
abbrev pub fresh : ℕ → Option Subscriber → Option Subscriber
fresh now none = none
fresh now (some x) = if is_stale now x then none else some x

fresh-stale : (now : ℕ) (x : Subscriber) → is_stale now x ≡ true → fresh now (some x) ≡ none
fresh-stale now x e = ap (λ b. if b then none else some x) e

fresh-young : (now : ℕ) (x : Subscriber) → is_stale now x ≡ false → fresh now (some x) ≡ some x
fresh-young now x e = ap (λ b. if b then none else some x) e

find-here : (j k : Matcher) (x : Subscriber) (m : Table) → j ≡ k → find k ((j, x) ∷ m) ≡ some x
unfolding lookup
find-here j k x m e = if_pos (Matcher_discrete j k) e _ _

find-there : (j k : Matcher) (x : Subscriber) (m : Table) → j ≢ k → find k ((j, x) ∷ m) ≡ find k m
unfolding lookup
find-there j k x m h = if_neg (Matcher_discrete j k) h _ _

sweep-find :
    (now : ℕ) (m : Table) (k : Matcher)
    → IsUnique Matcher_discrete m
    → find k (sweep now m).0 ≡ fresh now (find k m)
unfolding sweep
sweep-find now [] k u = unfold lookup in refl
sweep-find now ((j, x) ∷ m) k u =
    if_cases (λ (t : Table × List Expired × Bool). find k t.0 ≡ fresh now (find k ((j, x) ∷ m)))
      (is_stale now x) _ _ (λ old. sweep-find now m k u.1 ∙ gone old (Matcher_discrete j k))
      (λ young. left (sweep-find now m k u.1) young (Matcher_discrete j k))
  where
    gone :
        is_stale now x ≡ true → Dec (j ≡ k) → fresh now (find k m) ≡ fresh now (find k ((j, x) ∷ m))
    gone old (yes e) =
        ap (fresh now) (ap (λ l. find l m) (sym e) ∙ u.0)
        ∙ sym (ap (fresh now) (find-here j k x m e) ∙ fresh-stale now x old)
    gone old (no h) = ap (fresh now) (sym (find-there j k x m h))

    left :
        find k (sweep now m).0 ≡ fresh now (find k m)
        → is_stale now x ≡ false
        → Dec (j ≡ k)
        → find k ((j, x) ∷ (sweep now m).0) ≡ fresh now (find k ((j, x) ∷ m))
    left ih young (yes e) =
        find-here j k x _ e ∙ sym (ap (fresh now) (find-here j k x m e) ∙ fresh-young now x young)
    left ih young (no h) = find-there j k x _ h ∙ ih ∙ ap (fresh now) (sym (find-there j k x m h))

sweep-clean : (now : ℕ) (m : Table) → (sweep now m).2 ≡ false → (sweep now m).0 ≡ m
unfolding sweep
sweep-clean now [] e = refl
sweep-clean now ((j, x) ∷ m) e = elim (Bool-cases (is_stale now x)) [
  | inl old ↦ absurd (true≢false (sym (ap (λ b. (if b then one else other).2) old) ∙ e))
  | inr young ↦
      ap (λ b. (if b then one else other).0) young
      ∙ ap (◌∷◌ (j, x)) (sweep-clean now m (sym (ap (λ b. (if b then one else other).2) young) ∙ e))
]
  where
    one : Table × List Expired × Bool
    one = ((sweep now m).0, expired_of j x ∷ (sweep now m).1, true)

    other : Table × List Expired × Bool
    other = ((j, x) ∷ (sweep now m).0, (sweep now m).1, (sweep now m).2)

-- The table is reported as changed whenever expireSubscriptions changed it, or it was before.
pub expire_subscriptions-clean :
    (now : ℕ) (s : Subs)
    → (expire_subscriptions now s).1 ≡ false
    → (s.dirty ≡ false) × ((expire_subscriptions now s).2.m ≡ s.m)
unfolding expire_subscriptions
expire_subscriptions-clean now s e = elim (Bool-cases (sweep now s.m).2) [
  | inl t ↦ absurd (true≢false (sym (ap (λ b. if b then true else s.dirty) t) ∙ e))
  | inr f ↦ (sym (ap (λ b. if b then true else s.dirty) f) ∙ e, sweep-clean now s.m f)
]

-- What the sweep leaves of an entry, in nanoseconds: seven days are 604800000000000.
abbrev pub Kept : ℕ → Option Subscriber → Option Subscriber → Type 0
Kept now none o = o ≡ none
Kept now (some x) o =
    ((now ≤ x.timestamp + 604800000000000) × (o ≡ some x))
    ⊎ ((x.timestamp + 604800000000000 < now) × (o ≡ none))

fresh-Kept : (now : ℕ) (o : Option Subscriber) → Kept now o (fresh now o)
fresh-Kept now none = refl
fresh-Kept now (some x) =
    if_cases (Kept now (some x)) (is_stale now x) _ _ (λ e. inr (ground arith, refl))
      (λ e. inl (ground arith, refl))

-- Where each thread stands once in the table: after expireSubscriptions, a thread has the
-- subscription that it had, if that is no older than seven days, and none, if it is older.
pub expire_subscriptions-find :
    (now : ℕ) (s : Subs) (k : Matcher)
    → IsUnique Matcher_discrete s.m
    → Kept now (find k s.m) (find k (expire_subscriptions now s).2.m)
unfolding expire_subscriptions
expire_subscriptions-find now s k u =
    subst (Kept now (find k s.m)) (sym (sweep-find now s.m k u)) (fresh-Kept now (find k s.m))
