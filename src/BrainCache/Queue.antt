-- ===== src/BrainCache/Queue.antt =====
-- About the outbox of bot/brain_cache.go as a queue.
use gopherbot.Prelude.{
  ℕ, ◌≤◌, ◌≡◌, refl, sym, subst, true, false, Option, none, some, List, [], ◌∷◌, some-injective,
  if_cases, Option-cases, ◌⊎◌, inl, inr, arith,
}
use gopherbot.Prelude.Assoc.{lookup, lookup-here, lookup-there, IsUnique}
use gopherbot.BrainCache.{Text, Bytes_discrete, OutboxEntry}
use gopherbot.BrainCache.Sync.{entry_less, earlier, next_outbox_entry}

abbrev Found : List (Text × OutboxEntry) → Text × OutboxEntry → Type 0
Found l (k, e) = lookup Bytes_discrete k l ≡ some e

Found-there :
    (j : Text) (f : OutboxEntry) (l : List (Text × OutboxEntry)) (x : Text × OutboxEntry)
    → lookup Bytes_discrete j l ≡ none
    → Found l x
    → Found ((j, f) ∷ l) x
Found-there j f l (k, e) a b = lookup-there Bytes_discrete j k f e l a b

pub next_outbox_entry-Found :
    (l : List (Text × OutboxEntry)) (x : Text × OutboxEntry)
    → IsUnique Bytes_discrete l
    → next_outbox_entry l ≡ some x
    → Found l x
unfolding next_outbox_entry
next_outbox_entry-Found [] x u e = absurd cc
next_outbox_entry-Found ((j, f) ∷ l) x u e =
    subst (Found ((j, f) ∷ l)) (some-injective _ _ e) (elim (Option-cases (next_outbox_entry l)) [
      | inl p ↦ rw (p) (lookup-here Bytes_discrete j f l)
      | inr (y, p) ↦ rw (p) (
          if_cases (Found ((j, f) ∷ l)) (entry_less y (j, f)) _ _
            (λ _. Found-there j f l y u.0 (next_outbox_entry-Found l y u.1 p))
            (λ _. lookup-here Bytes_discrete j f l))
    ])

pub next_outbox_entry-none : (l : List (Text × OutboxEntry)) → next_outbox_entry l ≡ none → l ≡ []
unfolding next_outbox_entry
next_outbox_entry-none [] e = refl
next_outbox_entry-none (x ∷ l) e = absurd cc

-- No entry has an earlier version.
abbrev pub NoneBefore : ℕ → List (Text × OutboxEntry) → Type 0
NoneBefore v [] = Unit
NoneBefore v ((k, e) ∷ l) = (v ≤ e.version) × NoneBefore v l

NoneBefore-le : (v w : ℕ) (l : List (Text × OutboxEntry)) → v ≤ w → NoneBefore w l → NoneBefore v l
NoneBefore-le v w [] h n = tt
NoneBefore-le v w ((k, e) ∷ l) h n = (omega (arith, n.0), NoneBefore-le v w l h n.1)

entry_less-version :
    (k j : Text) (e f : OutboxEntry) → entry_less (k, e) (j, f) ≡ true → e.version ≤ f.version
unfolding entry_less
entry_less-version k j e f h = ground arith

entry_less-false :
    (k j : Text) (e f : OutboxEntry) → entry_less (k, e) (j, f) ≡ false → f.version ≤ e.version
unfolding entry_less
entry_less-false k j e f h = ground arith

next_outbox_entry-NoneBefore :
    (l : List (Text × OutboxEntry)) (x : Text × OutboxEntry)
    → next_outbox_entry l ≡ some x
    → NoneBefore x.1.version l
unfolding next_outbox_entry
next_outbox_entry-NoneBefore [] x e = tt
next_outbox_entry-NoneBefore ((j, f) ∷ l) x e =
    subst (λ (z : Text × OutboxEntry). NoneBefore z.1.version ((j, f) ∷ l)) (some-injective _ _ e)
      (step (next_outbox_entry l) refl (next_outbox_entry-NoneBefore l))
  where
    step :
        (o : Option (Text × OutboxEntry))
        → next_outbox_entry l ≡ o
        → ((y : Text × OutboxEntry) → next_outbox_entry l ≡ some y → NoneBefore y.1.version l)
        → NoneBefore (earlier (j, f) o).1.version ((j, f) ∷ l)
    step none p rest =
        (omega arith, subst (NoneBefore f.version) (sym (next_outbox_entry-none l p)) tt)
    step (some (k, g)) p rest =
        if_cases (λ (z : Text × OutboxEntry). NoneBefore z.1.version ((j, f) ∷ l))
          (entry_less (k, g) (j, f)) _ _ (λ h. (entry_less-version k j g f h, rest (k, g) p))
          (λ h. (
            omega arith,
            NoneBefore-le f.version g.version l (entry_less-false k j g f h) (rest (k, g) p),
          ))

-- Where the outbox has each key once: the entry that is sent next is the outbox's entry of its key, and
-- no entry has an earlier version. There is one unless the outbox is empty.
pub next_outbox_entry_lem :
    (l : List (Text × OutboxEntry))
    → IsUnique Bytes_discrete l
    → (l ≡ [])
      ⊎ ((k : Text) × (e : OutboxEntry) × (next_outbox_entry l ≡ some (k, e))
          × (lookup Bytes_discrete k l ≡ some e)
          × NoneBefore e.version l)
next_outbox_entry_lem l u = elim (Option-cases (next_outbox_entry l)) [
  | inl p ↦ inl (next_outbox_entry-none l p)
  | inr ((k, e), p) ↦
      inr (k, e, p, next_outbox_entry-Found l (k, e) u p, next_outbox_entry-NoneBefore l (k, e) p)
]
