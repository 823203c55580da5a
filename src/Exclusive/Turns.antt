-- ===== src/Exclusive/Turns.antt =====
-- About the queues of bot/exclusive.go: who holds a tag, and who is next.
use gopherbot.Prelude.{
  ℕ, ◌≡◌, refl, sym, ap, ◌∙◌, Bool, true, false, not, ◌&&◌, Option, none, some, List, [], ◌∷◌, ◌++◌,
  if◌then◌else◌, if_cases, if_true, if_false, ◌==◌, append-nil, append_assoc,
}
use mathlib.Core.Logic.{if_pos}
use mathlib.Core.Bool.{false≢true}
use gopherbot.Prelude.Assoc.{insert, delete, lookup-insert, lookup-delete}
use gopherbot.Prelude.Bytes.{Text, Bytes_discrete, is_empty}
use gopherbot.Exclusive.{
  Queues, Pipeline, Call, waiters, lock_tag, take_tag, request, join_queue, queue_up, pass_on,
  finish, remove_first, leave_queue, remove_waiter, abort_wait,
}

waiters-insert :
    (tag : Text) (ws : List ℕ) (q : Queues) → waiters tag (insert Bytes_discrete tag ws q) ≡ some ws
waiters-insert tag ws q =
    lookup-insert Bytes_discrete tag tag ws q ∙ if_pos (Bytes_discrete tag tag) refl _ _

waiters-delete : (tag : Text) (q : Queues) → waiters tag (delete Bytes_discrete tag q) ≡ none
waiters-delete tag q =
    lookup-delete Bytes_discrete tag tag q ∙ if_pos (Bytes_discrete tag tag) refl _ _

module _ (c : Call) (p : Pipeline) (q : Queues) where
  -- What a success means to a pipeline that held no tag.
  abbrev Takes : Bool × Pipeline × Queues → Type 0
  Takes r =
      r.0 ≡ true
      → (waiters (lock_tag c) q ≡ none)
        × (waiters (lock_tag c) r.2 ≡ some [])
        × (r.1.exclusive ≡ true)
        × (r.1.exclusive_tag ≡ lock_tag c)

  take-Takes : (o : Option (List ℕ)) → waiters (lock_tag c) q ≡ o → Takes (take_tag c p q o)
  take-Takes none e _ = (e, waiters-insert (lock_tag c) [] q, refl, refl)
  take-Takes (some ws) e h' =
      if_cases Takes c.queue_task _ _ (λ _ h. absurd (false≢true h))
        (λ _.
          if_cases Takes c.is_plugin _ _ (λ _ h. absurd (false≢true h))
            (λ _ h. absurd (false≢true h)))
        h'

  -- A pipeline that held no tag gets one from Exclusive only if nobody held it; then it is held, with
  -- nobody waiting, and the pipeline is the holder.
  pub request-takes :
      p.exclusive ≡ false
      → (request c p q).0 ≡ true
      → (waiters (lock_tag c) q ≡ none)
        × (waiters (lock_tag c) (request c p q).2 ≡ some [])
        × ((request c p q).1.exclusive ≡ true)
        × ((request c p q).1.exclusive_tag ≡ lock_tag c)
  unfolding request
  request-takes free =
      if_cases Takes (not c.active) _ _ (λ _ h. absurd (false≢true h))
        (λ _.
          if_cases Takes (is_empty c.tag) _ _ (λ _ h. absurd (false≢true h))
            (λ _.
              if_cases Takes
                (not c.is_plugin && not c.is_job && c.queue_task && is_empty c.name_space) _ _
                (λ _ h. absurd (false≢true h))
                (λ _.
                  if_cases Takes p.exclusive _ _ (λ held _. absurd (false≢true (sym free ∙ held)))
                    (λ _. take-Takes (waiters (lock_tag c) q) refl))))

-- Pipelines that hold the tag finish one after the other: whom each wakes.
abbrev pub finish_in_turn : List Pipeline → Queues → List (Option ℕ) × Queues
finish_in_turn [] q = ([], q)
finish_in_turn (p ∷ ps) q =
    let (woken, q') = finish p q in let (rest, q'') = finish_in_turn ps q' in (woken ∷ rest, q'')

-- They all hold the tag, and are as many as wait on it.
abbrev pub Holders : Text → List ℕ → List Pipeline → Type 0
Holders tag [] [] = Unit {0}
Holders tag [] (p ∷ ps) = ⊥
Holders tag (w ∷ ws) [] = ⊥
Holders tag (w ∷ ws) (p ∷ ps) = (p.exclusive ≡ true) × (p.exclusive_tag ≡ tag) × Holders tag ws ps

-- Whom a holder and those that wait wake, as each comes to its end: the last one wakes nobody.
abbrev pub woken : List ℕ → List (Option ℕ)
woken [] = none ∷ []
woken (w ∷ ws) = some w ∷ woken ws

finish-pass_on :
    (p : Pipeline) (q : Queues) (o : Option (List ℕ)) (tag : Text)
    → p.exclusive ≡ true
    → p.exclusive_tag ≡ tag
    → waiters tag q ≡ o
    → finish p q ≡ pass_on tag q o
unfolding finish
finish-pass_on p q o tag e t h =
    if_true p.exclusive _ _ e ∙ ap (λ a. pass_on a q (waiters a q)) t ∙ ap (pass_on tag q) h

finish_in_turn-woken :
    (tag : Text) (ws : List ℕ) (p : Pipeline) (ps : List Pipeline) (q : Queues)
    → p.exclusive ≡ true
    → p.exclusive_tag ≡ tag
    → waiters tag q ≡ some ws
    → Holders tag ws ps
    → ((finish_in_turn (p ∷ ps) q).0 ≡ woken ws)
      × (waiters tag (finish_in_turn (p ∷ ps) q).1 ≡ none)
finish_in_turn-woken tag [] p [] q held t e h =
    let f = finish-pass_on p q (some []) tag held t e in
    (ap (λ r. r.0 ∷ []) f, ap (λ r. waiters tag r.1) f ∙ waiters-delete tag q)
finish_in_turn-woken tag [] p (p' ∷ ps) q held t e h = absurd h
finish_in_turn-woken tag (w ∷ ws) p [] q held t e h = absurd h
finish_in_turn-woken tag (w ∷ ws) p (p' ∷ ps) q held t e (held', t', rest) =
    let f = finish-pass_on p q (some (w ∷ ws)) tag held t e in
    let q' : Queues = insert Bytes_discrete tag ws q in
    let (order, left) =
      finish_in_turn-woken tag ws p' ps q' held' t' (waiters-insert tag ws q) rest in
    (
      ap (λ r. r.0 ∷ (finish_in_turn (p' ∷ ps) r.1).0) f ∙ ap (◌∷◌ (some w)) order,
      ap (λ r. waiters tag (finish_in_turn (p' ∷ ps) r.1).1) f ∙ left,
    )

-- Where a tag is held, a pipeline that is to be queued on it must wait, and joins the queue behind
-- the others.
queue_up-waiters :
    (w : ℕ) (p : Pipeline) (q : Queues) (ws : List ℕ)
    → waiters p.exclusive_tag q ≡ some ws
    → ((queue_up w p q).0 ≡ true)
      × (waiters p.exclusive_tag (queue_up w p q).2 ≡ some (ws ++ w ∷ []))
unfolding queue_up
queue_up-waiters w p q ws e = (
  ap (λ o. (join_queue w p q o).0) e,
  ap (λ o. waiters p.exclusive_tag (join_queue w p q o).2) e
      ∙ waiters-insert p.exclusive_tag (ws ++ w ∷ []) q,
)

-- Pipelines are queued one after the other, each with its channel: what they become.
abbrev pub queue_in_turn : List (ℕ × Pipeline) → Queues → List Pipeline × Queues
queue_in_turn [] q = ([], q)
queue_in_turn ((w, p) ∷ js) q =
    let (must_wait, p', q') = queue_up w p q in
    let (ps, q'') = queue_in_turn js q' in (p' ∷ ps, q'')

abbrev pub channels : List (ℕ × Pipeline) → List ℕ
channels [] = []
channels ((w, p) ∷ js) = w ∷ channels js

abbrev pub OfTag : Text → List (ℕ × Pipeline) → Type 0
OfTag tag [] = Unit {0}
OfTag tag ((w, p) ∷ js) = (p.exclusive_tag ≡ tag) × OfTag tag js

queue_up-holds :
    (w : ℕ) (p : Pipeline) (q : Queues)
    → ((queue_up w p q).1.exclusive ≡ true) × ((queue_up w p q).1.exclusive_tag ≡ p.exclusive_tag)
unfolding queue_up
queue_up-holds w p q = by_list (waiters p.exclusive_tag q)
  where
    by_list :
        (o : Option (List ℕ))
        → ((join_queue w p q o).1.exclusive ≡ true)
          × ((join_queue w p q o).1.exclusive_tag ≡ p.exclusive_tag)
    by_list none = (refl, refl)
    by_list (some ws) = (refl, refl)

queue_in_turn-waiters :
    (tag : Text) (js : List (ℕ × Pipeline)) (ws : List ℕ) (q : Queues)
    → waiters tag q ≡ some ws
    → OfTag tag js
    → (waiters tag (queue_in_turn js q).1 ≡ some (ws ++ channels js))
      × Holders tag (channels js) (queue_in_turn js q).0
queue_in_turn-waiters tag [] ws q e h = (e ∙ ap some (sym (append-nil ws)), tt)
queue_in_turn-waiters tag ((w, p) ∷ js) ws q e (t, h) =
    let joined = (queue_up-waiters w p q ws (ap (λ l. waiters l q) t ∙ e)).1 in
    let (last, holders) =
      queue_in_turn-waiters tag js (ws ++ w ∷ []) (queue_up w p q).2
        (ap (λ l. waiters l (queue_up w p q).2) (sym t) ∙ joined) h in
    let (held, same) = queue_up-holds w p q in
    (last ∙ ap some (append_assoc ws (w ∷ []) (channels js)), (held, same ∙ t, holders))

-- Where a pipeline holds a tag and nobody waits on it, and others are queued on it one after the
-- other: as the holder and then each of the others comes to its end, the others are woken in the
-- order in which they were queued, one at each end, and the last one frees the tag.
pub queue_in_turn-finish_in_turn :
    (tag : Text) (p : Pipeline) (js : List (ℕ × Pipeline)) (q : Queues)
    → p.exclusive ≡ true
    → p.exclusive_tag ≡ tag
    → waiters tag q ≡ some []
    → OfTag tag js
    → ((finish_in_turn (p ∷ (queue_in_turn js q).0) (queue_in_turn js q).1).0 ≡ woken (channels js))
      × (waiters tag (finish_in_turn (p ∷ (queue_in_turn js q).0) (queue_in_turn js q).1).1 ≡ none)
queue_in_turn-finish_in_turn tag p js q held t e h =
    let (all, holders) = queue_in_turn-waiters tag js [] q e h in
    finish_in_turn-woken tag (channels js) p (queue_in_turn js q).0 (queue_in_turn js q).1 held t
      all holders

-- The channel is not in the queue.
abbrev pub Absent : ℕ → List ℕ → Type 0
Absent w [] = Unit {0}
Absent w (x ∷ ws) = ((x == w) ≡ false) × Absent w ws

remove_first-Absent : (w : ℕ) (ws : List ℕ) → Absent w ws → remove_first w ws ≡ ws
unfolding remove_first
remove_first-Absent w [] h = refl
remove_first-Absent w (x ∷ ws) h =
    if_false (x == w) _ _ h.0 ∙ ap (◌∷◌ x) (remove_first-Absent w ws h.1)

-- Where a holder has finished and woken a pipeline, whose channel was in the queue once, and that
-- pipeline's wait turns out to be aborted, nobody is woken in its place: the tag is still held,
-- the others still wait, and the pipeline that was woken holds nothing.
pub finish-abort_wait :
    (p w : Pipeline) (n : ℕ) (ws : List ℕ) (q : Queues)
    → p.exclusive ≡ true
    → waiters p.exclusive_tag q ≡ some (n ∷ ws)
    → w.exclusive_tag ≡ p.exclusive_tag
    → Absent n ws
    → ((finish p q).0 ≡ some n)
      × ((abort_wait n w (finish p q).1).0.exclusive ≡ false)
      × (waiters p.exclusive_tag (abort_wait n w (finish p q).1).1 ≡ some ws)
unfolding abort_wait remove_waiter
finish-abort_wait p w n ws q held e same absent = (
  ap (λ r. r.0) passed,
  refl,
  ap (λ r. waiters p.exclusive_tag (left w.exclusive_tag r.1)) passed
      ∙ ap (λ t. waiters p.exclusive_tag (left t q')) same
      ∙ if_cases (λ l. waiters p.exclusive_tag l ≡ some ws) (is_empty p.exclusive_tag) _ _
          (λ _. waiters-insert p.exclusive_tag ws q)
          (λ _.
            ap (λ o. waiters p.exclusive_tag (leave_queue p.exclusive_tag n q' o))
              (waiters-insert p.exclusive_tag ws q)
            ∙ waiters-insert p.exclusive_tag (remove_first n ws) q'
            ∙ ap some (remove_first-Absent n ws absent)),
)
  where
    q' : Queues
    q' = insert Bytes_discrete p.exclusive_tag ws q

    left : Text → Queues → Queues
    left t l = if is_empty t then l else leave_queue t n l (waiters t l)

    passed : finish p q ≡ (some n, q')
    passed = finish-pass_on p q (some (n ∷ ws)) p.exclusive_tag held refl e
