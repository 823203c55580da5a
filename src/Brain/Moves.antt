-- ===== src/Brain/Moves.antt =====
-- About the moves of one key's lease: soundness, the order of the requests, and the token in force.
use gopherbot.Prelude.{
  ◌≡◌, refl, sym, ap, ◌∙◌, String, true, none, some, List, [], ◌∷◌, ◌++◌, arith, append_assoc,
  append-nil, map, inl, inr, subst,
}
use mathlib.Core.List.{map-append}
use gopherbot.Brain.Datum.{Bytes}
use gopherbot.Brain.Loop.{MemState, available, CheckOutRequest, MemStatus}
use gopherbot.Brain.View.{
  Grant, View, waiting, Older, Move, keep, refuse, lease, queue, hand_over, free, grow_old,
}
use gopherbot.Brain.Answers.{Waits, IsSound, Sound}

Waits-append :
    (k : String) (ws : List CheckOutRequest) (creq : CheckOutRequest)
    → Waits k ws
    → creq.key ≡ k
    → creq.rw ≡ true
    → Waits k (ws ++ creq ∷ [])
Waits-append k [] creq w e r = (e, r, tt)
Waits-append k (x ∷ ws) creq w e r = (w.0, w.1, Waits-append k ws creq w.2 e r)

-- The moves keep what is sound.
status_is :
    (w v : View) (m m' : MemStatus) → w ≡ v → v.status ≡ some m' → w.status ≡ some m → m' ≡ m
status_is w v m m' e f h = cc (ap (λ (x : View). x.status) e)

Older-idle : (m : MemStatus) (st : MemState) → Older m st → st ≡ available → m.waiters ≡ []
Older-idle m st (inl (_, e)) a = cc
Older-idle m st (inr (_, w)) a = w

pub Move-Sound :
    (k : String) (new : List CheckOutRequest) (v w : View) → Move k new v w → Sound k v → Sound k w
Move-Sound k new v w (keep _ e) sound m h = sound m (ap (λ (x : View). x.status) (sym e) ∙ h)
Move-Sound k new v w (refuse creq token _ _ e) sound m h =
    cc (sym (ap (λ (x : View). x.status) e) ∙ h)
Move-Sound k new v w (lease creq token _ _ e) sound m h =
    subst (IsSound k) (status_is w _ m _ e refl h) (record { waits = tt; idle = λ _. refl })
Move-Sound k new v w (queue creq m' _ key rw held busy e) sound m h =
    subst (IsSound k) (status_is w _ m _ e refl h) (record {
      waits = Waits-append k m'.waiters creq (sound m' held).waits key rw;
      idle = λ a. absurd (busy a);
    })
Move-Sound k new v w (hand_over m' creq rest token _ held ws e) sound m h =
    subst (IsSound k) (status_is w _ m _ e refl h)
      (record { waits = (subst (Waits k) ws (sound m' held).waits).2; idle = λ a. cc })
Move-Sound k new v w (free m' _ _ _ e) sound m h = cc (sym (ap (λ (x : View). x.status) e) ∙ h)
Move-Sound k new v w (grow_old m' st _ held older e) sound m h =
    subst (IsSound k) (status_is w _ m _ e refl h)
      (record { waits = (sound m' held).waits; idle = λ a. Older-idle m' st older a })

-- The requests answered, in order, and those that wait.
abbrev pub served : View → List CheckOutRequest
served v = map (λ g. g.0) v.granted

abbrev pub in_order : View → List CheckOutRequest
in_order v = served v ++ waiting v

served-append :
    (g : List Grant) (creq : CheckOutRequest) (token : Bytes)
    → map (λ (x : Grant). x.0) (g ++ (creq, token) ∷ []) ≡ map (λ (x : Grant). x.0) g ++ creq ∷ []
served-append g creq token = map-append _ g ((creq, token) ∷ [])

waiting_of : (v : View) (m : MemStatus) → v.status ≡ some m → waiting v ≡ m.waiters
waiting_of v m e = ground arith

waiting-none : (v : View) → v.status ≡ none → waiting v ≡ []
waiting-none v e = ground arith

-- An answer to a request that finds nobody waiting, and one to the first that waits.
in_order-first :
    (v : View) (creq : CheckOutRequest) (new : List CheckOutRequest)
    → waiting v ≡ []
    → new ≡ creq ∷ []
    → served v ++ creq ∷ [] ≡ in_order v ++ new
in_order-first v creq new wv n =
    ap (λ l. l ++ creq ∷ []) (sym (append-nil (served v)) ∙ ap (◌++◌ (served v)) (sym wv))
    ∙ ap (◌++◌ (in_order v)) (sym n)

in_order-none :
    (v : View) (ws new : List CheckOutRequest)
    → waiting v ≡ ws
    → new ≡ []
    → served v ++ ws ≡ in_order v ++ new
in_order-none v ws new wv n =
    ap (◌++◌ (served v)) (sym wv) ∙ sym (append-nil (in_order v)) ∙ ap (◌++◌ (in_order v)) (sym n)

-- A move answers or queues what arrives, behind all that came before.
pub Move-in_order :
    (k : String) (new : List CheckOutRequest) (v w : View)
    → Move k new v w
    → in_order w ≡ in_order v ++ new
Move-in_order k new v w (keep n e) = ap in_order e ∙ in_order-none v (waiting v) new refl n
Move-in_order k new v w (refuse creq token n held e) =
    ap in_order e
    ∙ append-nil _
    ∙ served-append v.granted creq token
    ∙ in_order-first v creq new (waiting-none v held) n
Move-in_order k new v w (lease creq token n idle e) =
    ap in_order e
    ∙ append-nil _
    ∙ served-append v.granted creq token
    ∙ in_order-first v creq new idle n
Move-in_order k new v w (queue creq m n _ _ held busy e) =
    ap in_order e
    ∙ sym (append_assoc (served v) m.waiters (creq ∷ []))
    ∙ ap (λ l. (served v ++ l) ++ creq ∷ []) (sym (waiting_of v m held))
    ∙ ap (◌++◌ (in_order v)) (sym n)
Move-in_order k new v w (hand_over m creq rest token n held ws e) =
    ap in_order e
    ∙ ap (λ l. l ++ rest) (served-append v.granted creq token)
    ∙ append_assoc (served v) (creq ∷ []) rest
    ∙ in_order-none v (creq ∷ rest) new (waiting_of v m held ∙ ws) n
Move-in_order k new v w (free m n held ws e) =
    ap in_order e ∙ in_order-none v [] new (waiting_of v m held ∙ ws) n
Move-in_order k new v w (grow_old m st n held idle e) =
    ap in_order e ∙ in_order-none v m.waiters new (waiting_of v m held) n

-- The token in force is the one that was granted last.
abbrev pub Holds : View → Type 0
Holds v =
    (m : MemStatus)
    → v.status ≡ some m
    → (before : List Grant) × (creq : CheckOutRequest) × (v.granted
        ≡ before ++ (creq, m.token) ∷ [])

pub Move-Holds :
    (k : String) (new : List CheckOutRequest) (v w : View) → Move k new v w → Holds v → Holds w
Move-Holds k new v w (keep _ e) holds = subst Holds (sym e) holds
Move-Holds k new v w (refuse creq token _ _ e) holds = subst Holds (sym e) (λ m h. cc)
Move-Holds k new v w (lease creq token _ _ e) holds =
    subst Holds (sym e) (λ m h. (v.granted, creq, ap (λ t. v.granted ++ (creq, t) ∷ []) (cc)))
Move-Holds k new v w (queue creq m' _ _ _ held _ e) holds = subst Holds (sym e) (λ m h.
    let (before, c, g) = holds m' held in (before, c, g ∙ ap (λ t. before ++ (c, t) ∷ []) (cc)))
Move-Holds k new v w (hand_over m' creq rest token _ _ _ e) holds =
    subst Holds (sym e) (λ m h. (v.granted, creq, ap (λ t. v.granted ++ (creq, t) ∷ []) (cc)))
Move-Holds k new v w (free m' _ _ _ e) holds = subst Holds (sym e) (λ m h. cc)
Move-Holds k new v w (grow_old m' st _ held _ e) holds = subst Holds (sym e) (λ m h.
    let (before, c, g) = holds m' held in (before, c, g ∙ ap (λ t. before ++ (c, t) ∷ []) (cc)))
