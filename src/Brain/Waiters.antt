-- ===== src/Brain/Waiters.antt =====
-- About the requests that wait for a lease, and the ticks that pass.
use gopherbot.Prelude.{
  ℕ, suc, ◌≤◌, ◌<◌, ◌≡◌, refl, sym, ap, ◌∙◌, String, true, none, some, List, [], ◌∷◌, ◌++◌, ◌≢◌,
  arith, map, inl, inr, ◌⊎◌, length, length-append, subst, Option-cases,
}
use gopherbot.Brain.Datum.{Env, Vault, CheckOutReply, get_datum}
use gopherbot.Brain.Loop.{
  MemState, new_memory, seen, available, CheckOutRequest, MemStatus, checked_out, Event, check_out,
  check_in, update, tick, Loop, age, step, run, do_tick,
}
use gopherbot.Brain.View.{
  Grant, writes-rw, grants, arrived, arrivals, View, waiting, view, Move, keep, refuse, lease,
  queue, hand_over, free, grow_old,
}
use gopherbot.Brain.Answers.{Waits, IsSound}
use gopherbot.Brain.Moves.{served}
use gopherbot.Brain.Tick.{tick-view}
use gopherbot.Brain.Leases.{Inv, step-Move, step-Inv, run-in_order}

abbrev pub ticks : List Event → ℕ
ticks [] = 0
ticks (tick ∷ es) = suc (ticks es)
ticks (check_out c ∷ es) = ticks es
ticks (check_in c ∷ es) = ticks es
ticks (update u ∷ es) = ticks es

-- How many ticks a lease in this state can last while others wait.
abbrev rank : MemState → ℕ
rank new_memory = 2
rank seen = 1
rank available = 0

abbrev granted_count : View → ℕ
granted_count v = length v.granted

Move-grants :
    (k : String) (new : List CheckOutRequest) (v w : View)
    → Move k new v w
    → granted_count v ≤ granted_count w
Move-grants k new v w (keep _ e) = omega (arith, ap granted_count e)
Move-grants k new v w (refuse creq t _ _ e) =
    omega (arith, ap granted_count e, length-append v.granted ((creq, t) ∷ []))
Move-grants k new v w (lease creq t _ _ e) =
    omega (arith, ap granted_count e, length-append v.granted ((creq, t) ∷ []))
Move-grants k new v w (queue creq m _ _ _ _ _ e) = omega (arith, ap granted_count e)
Move-grants k new v w (hand_over m creq rest t _ _ _ e) =
    omega (arith, ap granted_count e, length-append v.granted ((creq, t) ∷ []))
Move-grants k new v w (free m _ _ _ e) = omega (arith, ap granted_count e)
Move-grants k new v w (grow_old m st _ _ _ e) = omega (arith, ap granted_count e)

-- After a move, the first waiter is served, or it still waits and the lease is no younger.
abbrev Progress : View → View → MemStatus → Type 0
Progress v w m =
    (granted_count v < granted_count w)
    ⊎ ((m' : MemStatus) × (w.status ≡ some m') × (m'.waiters ≢ []) × (rank m'.state ≤ rank m.state))

same_status : (v : View) (m m' : MemStatus) → v.status ≡ some m → v.status ≡ some m' → m ≡ m'
same_status v m m' a b = cc

Move-Progress :
    (k : String) (new : List CheckOutRequest) (v w : View) (m : MemStatus)
    → v.status ≡ some m
    → m.waiters ≢ []
    → Move k new v w
    → Progress v w m
Move-Progress k new v w m h n (keep _ e) =
    inr (m, ap (λ (x : View). x.status) e ∙ h, n, omega arith)
Move-Progress k new v w m h n (refuse creq t _ held e) = cc
Move-Progress k new v w m h n (lease creq t _ idle e) = absurd (n (ground arith))
Move-Progress k new v w m h n (queue creq m' _ _ _ held busy e) = inr (
  record m' { waiters = m'.waiters ++ creq ∷ [] },
  ap (λ (x : View). x.status) e,
  λ c. omega (arith, ap length c, length-append m'.waiters (creq ∷ [])),
  omega (arith, ap (λ (x : MemStatus). rank x.state) (same_status v m' m held h)),
)
Move-Progress k new v w m h n (hand_over m' creq rest t _ _ _ e) =
    inl (omega (arith, ap granted_count e, length-append v.granted ((creq, t) ∷ [])))
Move-Progress k new v w m h n (free m' _ held ws e) = absurd (n (ground arith))
Move-Progress k new v w m h n (grow_old m' st _ held (inl (young, old)) e) = inr (
  record m' { state = st },
  ap (λ (x : View). x.status) e,
  λ c. n (ap (λ (x : MemStatus). x.waiters) (sym (same_status v m' m held h)) ∙ c),
  omega (
    arith,
    ap rank old,
    ap rank young,
    ap (λ (x : MemStatus). rank x.state) (same_status v m' m held h),
  ),
)
Move-Progress k new v w m h n (grow_old m' st _ held (inr (_, ws)) e) = absurd (n (ground arith))

granted_one :
    (k : String) (creq : CheckOutRequest) (rep : CheckOutReply) (g : List Grant)
    → creq.key ≡ k
    → creq.rw ≡ true
    → length g < length (g ++ grants k (checked_out creq rep ∷ []))
unfolding grants
granted_one k creq rep g e w =
    let one =
      ap (λ l. length (g ++ (map (λ (c : CheckOutRequest). (c, rep.token)) l ++ [])))
        (writes-rw k creq e w) in
    omega (arith, one, length-append g ((creq, rep.token) ∷ []))

age-seen :
    (env : Env) (v : Vault env) (m : MemStatus) (creq : CheckOutRequest)
    (rest : List CheckOutRequest)
    → m.state ≡ seen
    → m.waiters ≡ creq ∷ rest
    → (age env v m).2 ≡ checked_out creq (get_datum env v creq.key true).0 ∷ []
unfolding age
age-seen env v m creq rest e w = rw (e, w) refl

-- A tick serves the first waiter of a seen lease, and makes a new lease seen.
age-Progress :
    (env : Env) (k : String) (v : Vault env) (m : MemStatus) (g : List Grant) (st : MemState)
    (ws : List CheckOutRequest)
    → m.state ≡ st
    → m.waiters ≡ ws
    → ws ≢ []
    → IsSound k m
    → (length g < length (g ++ grants k (age env v m).2))
      ⊎ ((m' : MemStatus) × (some (age env v m).0 ≡ some m')
          × (m'.waiters ≢ [])
          × (rank m'.state < rank m.state))
unfolding age grants
age-Progress env k v m g st [] e w n sound = absurd (n refl)
age-Progress env k v m g available (creq ∷ rest) e w n sound = absurd (n (sym w ∙ sound.idle e))
age-Progress env k v m g new_memory (creq ∷ rest) e w n sound =
    inr (record m { state = seen }, ground arith, λ c. n (sym w ∙ c), omega (arith, ap rank e))
age-Progress env k v m g seen (creq ∷ rest) e w n sound = inl (
    subst (λ l. length g < length (g ++ grants k l)) (sym (age-seen env v m creq rest e w))
      (granted_one k creq (get_datum env v creq.key true).0 g (subst (Waits k) w sound.waits).0
        (subst (Waits k) w sound.waits).1))

tick-Progress :
    (env : Env) (s : Loop env) (k : String) (m : MemStatus)
    → Inv env s
    → (view k s).status ≡ some m
    → m.waiters ≢ []
    → (granted_count (view k s) < granted_count (view k (do_tick env s)))
      ⊎ ((m' : MemStatus) × ((view k (do_tick env s)).status ≡ some m')
          × (m'.waiters ≢ [])
          × (rank m'.state < rank m.state))
tick-Progress env s k m v h n =
    let (v', e) = tick-view k env s m v.sound v.unique h in
    subst
      (λ w.
        (granted_count (view k s) < granted_count w)
        ⊎ ((m' : MemStatus) × (w.status ≡ some m')
            × (m'.waiters ≢ [])
            × (rank m'.state < rank m.state)))
      (sym e)
      (age-Progress env k v' m (grants k s.log) m.state m.waiters refl refl n (v.sound k m h))

run-grants :
    (env : Env) (es : List Event) (s : Loop env) (k : String)
    → Inv env s
    → granted_count (view k s) ≤ granted_count (view k (run env s es))
unfolding run
run-grants env [] s k v = omega arith
run-grants env (e ∷ es) s k v = omega (
  arith,
  Move-grants k (arrived k e) _ _ (step-Move env s e k v),
  run-grants env es (step env s e) k (step-Inv env s e v),
)

-- What is left to show once the first waiter has been served, or still waits.
run-rest :
    (env : Env) (es : List Event) (s : Loop env) (e : Event) (k : String) (r : ℕ)
    → Inv env s
    → (granted_count (view k s) < granted_count (view k (step env s e)))
      ⊎ ((m' : MemStatus) × ((view k (step env s e)).status ≡ some m')
          × (m'.waiters ≢ [])
          × (rank m'.state ≤ r))
    → ((m : MemStatus)
        → (view k (step env s e)).status ≡ some m
        → m.waiters ≢ []
        → rank m.state ≤ r
        → granted_count (view k (step env s e))
          < granted_count (view k (run env (step env s e) es)))
    → granted_count (view k s) < granted_count (view k (run env (step env s e) es))
run-rest env es s e k r v (inl lt) ih =
    omega (arith, lt, run-grants env es (step env s e) k (step-Inv env s e v))
run-rest env es s e k r v (inr (m', h, n, le)) ih =
    omega (arith, Move-grants k (arrived k e) _ _ (step-Move env s e k v), ih m' h n le)

sharper :
    (v w : View) (r q : ℕ)
    → (granted_count v < granted_count w)
      ⊎ ((m' : MemStatus) × (w.status ≡ some m') × (m'.waiters ≢ []) × (rank m'.state < r))
    → r ≤ suc q
    → (granted_count v < granted_count w)
      ⊎ ((m' : MemStatus) × (w.status ≡ some m') × (m'.waiters ≢ []) × (rank m'.state ≤ q))
sharper v w r q (inl lt) le = inl lt
sharper v w r q (inr (m', h, n, lt)) le = inr (m', h, n, omega arith)

run-serves_move :
    (env : Env) (es : List Event) (s : Loop env) (e : Event) (k : String) (m : MemStatus)
    → Inv env s
    → (view k s).status ≡ some m
    → m.waiters ≢ []
    → rank m.state ≤ ticks es
    → ((m : MemStatus)
        → (view k (step env s e)).status ≡ some m
        → m.waiters ≢ []
        → rank m.state ≤ ticks es
        → granted_count (view k (step env s e))
          < granted_count (view k (run env (step env s e) es)))
    → granted_count (view k s) < granted_count (view k (run env (step env s e) es))
run-serves_move env es s e k m v h n r ih =
    run-rest env es s e k (rank m.state) v
      (Move-Progress k (arrived k e) _ _ m h n (step-Move env s e k v))
      (λ m' h' n' r'. ih m' h' n' (omega arith))

idle_rank :
    (k : String) (m : MemStatus) (st : MemState)
    → m.state ≡ st
    → IsSound k m
    → rank m.state ≤ 0
    → m.waiters ≡ []
idle_rank k m available e sound r = sound.idle e
idle_rank k m seen e sound r = absurd (omega (arith, ap rank e))
idle_rank k m new_memory e sound r = absurd (omega (arith, ap rank e))

-- With as many ticks as the lease can last, the first waiter is served.
run-serves :
    (env : Env) (es : List Event) (s : Loop env) (k : String) (m : MemStatus)
    → Inv env s
    → (view k s).status ≡ some m
    → m.waiters ≢ []
    → rank m.state ≤ ticks es
    → granted_count (view k s) < granted_count (view k (run env s es))
unfolding run step
run-serves env [] s k m v h n r = absurd (n (idle_rank k m m.state refl (v.sound k m h) r))
run-serves env (tick ∷ es) s k m v h n r =
    run-rest env es s tick k (ticks es) v
      (sharper (view k s) (view k (do_tick env s)) (rank m.state) (ticks es)
        (tick-Progress env s k m v h n) r)
      (λ m' h' n' r'. run-serves env es (step env s tick) k m' (step-Inv env s tick v) h' n' r')
run-serves env (check_out c ∷ es) s k m v h n r =
    run-serves_move env es s (check_out c) k m v h n r
      (λ m' h' n' r'. run-serves env es _ k m' (step-Inv env s (check_out c) v) h' n' r')
run-serves env (check_in c ∷ es) s k m v h n r =
    run-serves_move env es s (check_in c) k m v h n r
      (λ m' h' n' r'. run-serves env es _ k m' (step-Inv env s (check_in c) v) h' n' r')
run-serves env (update c ∷ es) s k m v h n r =
    run-serves_move env es s (update c) k m v h n r
      (λ m' h' n' r'. run-serves env es _ k m' (step-Inv env s (update c) v) h' n' r')

map-length {ℓ κ} : {A : Type ℓ} {B : Type κ} (f : A → B) (l : List A) → length (map f l) ≡ length l
map-length f [] = refl
map-length f (x ∷ l) = ap suc (map-length f l)

-- The first of a list's rest is in what a longer part of the list holds.
longer_part {ℓ} :
    {A : Type ℓ} (c : A) (a r z xs ys : List A)
    → xs ++ ys ≡ (a ++ c ∷ r) ++ z
    → length a < length xs
    → (more : List A) × (xs ≡ a ++ c ∷ more)
longer_part c [] r z [] ys e lt = absurd (omega arith)
longer_part c [] r z (x ∷ xs) ys e lt = (xs, cc)
longer_part c (b ∷ a) r z [] ys e lt = absurd (omega arith)
longer_part c (b ∷ a) r z (x ∷ xs) ys e lt =
    let (more, p) = longer_part c a r z xs ys (cc) (omega arith) in (more, cc)

-- Where the loop's invariant holds and a request to write is the first that waits for the lease on
-- a key, any later events with at least two ticks among them have it answered, and it is the next
-- that is answered on that key.
pub waiter_served :
    (env : Env) (es : List Event) (s : Loop env) (k : String) (creq : CheckOutRequest)
    (rest : List CheckOutRequest)
    → Inv env s
    → waiting (view k s) ≡ creq ∷ rest
    → 2 ≤ ticks es
    → (more : List CheckOutRequest) × (served (view k (run env s es))
        ≡ served (view k s) ++ creq ∷ more)
waiter_served env es s k creq rest v w two =
    longer_part creq (served (view k s)) rest (arrivals k es) (served (view k (run env s es)))
      (waiting (view k (run env s es)))
      (run-in_order env es s k v ∙ ap (λ l. (served (view k s) ++ l) ++ arrivals k es) w)
      (later (Option-cases (view k s).status))
  where
    bound : (st : MemState) → rank st ≤ 2
    bound new_memory = omega arith
    bound seen = omega arith
    bound available = omega arith

    later :
        ((view k s).status ≡ none) ⊎ ((m : MemStatus) × ((view k s).status ≡ some m))
        → length (served (view k s)) < length (served (view k (run env s es)))
    later (inl e) = absurd (ground arith)
    later (inr (m, e)) = omega (
      arith,
      map-length (λ (g : Grant). g.0) (view k s).granted,
      map-length (λ (g : Grant). g.0) (view k (run env s es)).granted,
      run-serves env es s k m v e (λ n. ground arith) (omega (arith, bound m.state)),
    )
