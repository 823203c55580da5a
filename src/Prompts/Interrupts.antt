-- ===== src/Prompts/Interrupts.antt =====
-- About the interruption of a task's prompts in bot/replyprompt.go.
use gopherbot.Prelude.{
  ℕ, ◌≡◌, refl, ap, Bool, true, false, List, [], ◌∷◌, if_cases, ◌⊎◌, inl, inr, arith, ◌==◌,
}
use gopherbot.Prompts.{
  Matcher, Waiter, Channels, Prompts, has_task, interrupt_entries, interrupt_reply_waiters_for_task,
}

-- No list has a waiter of the task.
abbrev pub NoneOf : ℕ → List (Matcher × List Waiter) → Type 0
NoneOf tid [] = Unit
NoneOf tid ((k, ws) ∷ m) = (has_task tid ws ≡ false) × NoneOf tid m

interrupt_entries-NoneOf :
    (tid : ℕ) (m : List (Matcher × List Waiter)) (c : Channels)
    → NoneOf tid (interrupt_entries tid m c).1
      × (((interrupt_entries tid m c).0 ≡ true)
          ⊎ (((interrupt_entries tid m c).1 ≡ m) × ((interrupt_entries tid m c).2 ≡ c)))
unfolding interrupt_entries
interrupt_entries-NoneOf tid [] c = (tt, inr (refl, refl))
interrupt_entries-NoneOf tid ((k, ws) ∷ m) c =
    if_cases
      (λ (r : Bool × List (Matcher × List Waiter) × Channels).
        NoneOf tid r.1 × ((r.0 ≡ true) ⊎ ((r.1 ≡ (k, ws) ∷ m) × (r.2 ≡ c))))
      (has_task tid ws) _ _ (λ _. ((interrupt_entries-NoneOf tid m _).0, inl refl))
      (λ f. (
        (f, (interrupt_entries-NoneOf tid m c).0),
        elim (interrupt_entries-NoneOf tid m c).1 [
          | inl e ↦ inl e
          | inr (e, g) ↦ inr (ap (◌∷◌ (k, ws)) e, g)
        ],
      ))

-- Behind the interruption of a task other than 0, no list has a waiter of the task, and where it
-- interrupts nothing, nothing has changed. Task 0 interrupts nothing.
pub interrupt_reply_waiters_for_task-NoneOf :
    (tid : ℕ) (s : Prompts)
    → ((tid ≡ 0) × (interrupt_reply_waiters_for_task tid s ≡ (false, s)))
      ⊎ (NoneOf tid (interrupt_reply_waiters_for_task tid s).1.m
          × (((interrupt_reply_waiters_for_task tid s).0 ≡ true)
              ⊎ ((interrupt_reply_waiters_for_task tid s).1 ≡ s)))
unfolding interrupt_reply_waiters_for_task
interrupt_reply_waiters_for_task-NoneOf tid s =
    if_cases
      (λ (r : Bool × Prompts).
        ((tid ≡ 0) × (r ≡ (false, s))) ⊎ (NoneOf tid r.1.m × ((r.0 ≡ true) ⊎ (r.1 ≡ s))))
      (tid == 0) _ _ (λ e. inl (ground arith, refl))
      (λ _.
        let (none_left, found) = interrupt_entries-NoneOf tid s.m s.channels in
        inr (none_left, unchanged found))
  where
    unchanged :
        ((interrupt_entries tid s.m s.channels).0 ≡ true)
          ⊎ (((interrupt_entries tid s.m s.channels).1 ≡ s.m)
              × ((interrupt_entries tid s.m s.channels).2 ≡ s.channels))
        → ((interrupt_entries tid s.m s.channels).0 ≡ true)
          ⊎ (record s {
            m = (interrupt_entries tid s.m s.channels).1;
            channels = (interrupt_entries tid s.m s.channels).2;
          }
              ≡ s)
    unchanged (inl e) = inl e
    unchanged (inr (e, g)) = inr (λ i. record s { m = e i; channels = g i })
