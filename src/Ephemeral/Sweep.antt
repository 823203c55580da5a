-- ===== src/Ephemeral/Sweep.antt =====
-- About the sweep of the ephemeral memories at each tick.
use gopherbot.Prelude.{
  ℕ, ◌≡◌, refl, sym, ap, ◌∙◌, Bool, true, false, Option, none, some, [], ◌∷◌, ◌≢◌, if◌then◌else◌,
  if_cases, subst, ◌+◌, ◌-◌, ◌≤◌, ◌<◌, ◌⊎◌, inl, inr, ltb, arith,
}
use mathlib.Core.Logic.{if_pos, if_neg}
use gopherbot.Prelude.Assoc.{lookup, IsUnique}
use gopherbot.Prelude.Bytes.{bytes_eq}
use gopherbot.Ephemeral.{
  Text, Memory, Context, Context_discrete, Memories, Table, find, is_stale, sweep, expire_memories,
}

-- What a memory is after the sweep.
abbrev pub fresh : ℕ → Context → Option Memory → Option Memory
fresh now k none = none
fresh now k (some x) = if is_stale now k x then none else some x

fresh_if :
    (now : ℕ) (k : Context) (x : Memory) (b : Bool)
    → is_stale now k x ≡ b
    → fresh now k (some x) ≡ (if b then none else some x)
fresh_if now k x b e = ap (λ b. if b then none else some x) e

find-here : (j k : Context) (x : Memory) (m : Table) → j ≡ k → find k ((j, x) ∷ m) ≡ some x
unfolding lookup
find-here j k x m e = if_pos (Context_discrete j k) e _ _

find-there : (j k : Context) (x : Memory) (m : Table) → j ≢ k → find k ((j, x) ∷ m) ≡ find k m
unfolding lookup
find-there j k x m h = if_neg (Context_discrete j k) h _ _

sweep-find :
    (now : ℕ) (m : Table) (k : Context)
    → IsUnique Context_discrete m
    → find k (sweep now m).0 ≡ fresh now k (find k m)
unfolding sweep
sweep-find now [] k u = unfold lookup in refl
sweep-find now ((j, x) ∷ m) k u =
    if_cases (λ (t : Table × Bool). find k t.0 ≡ fresh now k (find k ((j, x) ∷ m)))
      (is_stale now j x) _ _ (λ old. sweep-find now m k u.1 ∙ gone old (Context_discrete j k))
      (λ young. left (sweep-find now m k u.1) young (Context_discrete j k))
  where
    gone :
        is_stale now j x ≡ true
        → Dec (j ≡ k)
        → fresh now k (find k m) ≡ fresh now k (find k ((j, x) ∷ m))
    gone old (yes e) =
        ap (fresh now k) (ap (λ l. find l m) (sym e) ∙ u.0)
        ∙ sym (
            ap (fresh now k) (find-here j k x m e)
            ∙ fresh_if now k x true (ap (λ l. is_stale now l x) (sym e) ∙ old))
    gone old (no h) = ap (fresh now k) (sym (find-there j k x m h))

    left :
        find k (sweep now m).0 ≡ fresh now k (find k m)
        → is_stale now j x ≡ false
        → Dec (j ≡ k)
        → find k ((j, x) ∷ (sweep now m).0) ≡ fresh now k (find k ((j, x) ∷ m))
    left ih young (yes e) =
        find-here j k x _ e
        ∙ sym (
            ap (fresh now k) (find-here j k x m e)
            ∙ fresh_if now k x false (ap (λ l. is_stale now l x) (sym e) ∙ young))
    left ih young (no h) = find-there j k x _ h ∙ ih ∙ ap (fresh now k) (sym (find-there j k x m h))

-- What the sweep leaves of a memory that may be as old as `limit`.
abbrev KeptFor : ℕ → ℕ → Memory → Option Memory → Type 0
KeptFor limit now x o =
    ((now ≤ x.timestamp + limit) × (o ≡ some x)) ⊎ ((x.timestamp + limit < now) × (o ≡ none))

-- In nanoseconds: fourteen minutes are 840000000000, seven days 604800000000000.
abbrev pub Kept : ℕ → Context → Option Memory → Option Memory → Type 0
Kept now k none o = o ≡ none
Kept now k (some x) o =
    ((k.thread ≡ []) × (k.channel ≢ []) × KeptFor 840000000000 now x o)
    ⊎ (((k.thread ≢ []) ⊎ (k.channel ≡ [])) × KeptFor 604800000000000 now x o)

by_limit :
    (limit now : ℕ) (x : Memory)
    → KeptFor limit now x (if ltb limit (now - x.timestamp) then none else some x)
by_limit limit now x =
    if_cases (KeptFor limit now x) (ltb limit (now - x.timestamp)) _ _
      (λ e. inr (ground arith, refl)) (λ e. inl (ground arith, refl))

fresh-Kept : (now : ℕ) (k : Context) (o : Option Memory) → Kept now k o (fresh now k o)
unfolding bytes_eq
fresh-Kept now k none = refl
fresh-Kept now k (some x) = by_place k.thread k.channel refl refl
  where
    by_place :
        (thread channel : Text)
        → k.thread ≡ thread
        → k.channel ≡ channel
        → Kept now k (some x) (fresh now k (some x))
    by_place [] [] t c = rw (t, c) (inr (inr refl, by_limit _ now x))
    by_place [] (b ∷ channel) t c = rw (t, c) (inl (refl, λ e. absurd cc, by_limit _ now x))
    by_place (b ∷ thread) channel t c = rw (t) (inr (inl (λ e. absurd cc), by_limit _ now x))

-- Where each context stands once in the table: after the sweep of a tick, a memory is as it was, if
-- it is no older than its limit, and gone, if it is older. The limit is fourteen minutes for a memory
-- of a channel outside a thread, and seven days for one of a thread or of a direct message, which has
-- no channel.
pub expire_memories-find :
    (now : ℕ) (s : Memories) (k : Context)
    → IsUnique Context_discrete s.m
    → Kept now k (find k s.m) (find k (expire_memories now s).m)
unfolding expire_memories
expire_memories-find now s k u =
    subst (Kept now k (find k s.m)) (sym (sweep-find now s.m k u)) (fresh-Kept now k (find k s.m))
