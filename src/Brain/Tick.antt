-- ===== src/Brain/Tick.antt =====
-- About ticks as moves of a lease.
use mathlib.Core.Logic.{if_pos, if_neg}
use gopherbot.Prelude.{
  ◌≡◌, refl, sym, ap, ◌∙◌, String, true, Option, none, some, List, [], ◌∷◌, ◌++◌, ◌≢◌, arith,
  String_discrete, append-nil, map, inl, inr, Option-cases, ◌⊎◌, subst,
}
use gopherbot.Prelude.Assoc.{lookup, IsUnique, AllEntries, AllEntries-of_lookup}
use gopherbot.Brain.Datum.{Env, Vault, CheckOutReply, get_datum}
use gopherbot.Brain.Loop.{
  MemState, new_memory, seen, available, CheckOutRequest, MemStatus, Answer, checked_out, Loop,
  Memories, age, age_all, do_tick,
}
use gopherbot.Brain.View.{
  writes-ne, writes-rw, Grant, writes, grants, grants-append, View, view, Older, Move, keep,
  hand_over, grow_old,
}
use gopherbot.Brain.Answers.{Waits, IsSound, Sound}

module _ (env : Env) (v : Vault env) (j : String) (m : MemStatus) where
  -- What one memory sends at a tick is a grant on its own key.
  abbrev Aged : Type 0
  Aged =
      ((st : MemState) × (age env v m ≡ (record m { state = st }, v, [])) × Older m st)
      ⊎ ((creq : CheckOutRequest) × (rest : List CheckOutRequest) × (rep : CheckOutReply)
          × (v' : Vault env) × (m.waiters ≡ creq ∷ rest)
          × (age env v m ≡ (
            record { state = new_memory; token = rep.token; waiters = rest },
            v',
            checked_out creq rep ∷ [],
          )))

  age_cases :
      (st : MemState) (ws : List CheckOutRequest)
      → IsSound j m
      → m.state ≡ st
      → m.waiters ≡ ws
      → Aged
  unfolding age
  age_cases new_memory ws sound e w = inl (seen, ground arith, inl (e, refl))
  age_cases available ws sound e w = inl (available, ground arith, inr (refl, sound.idle e))
  age_cases seen [] sound e w = inl (available, ground arith, inr (refl, w))
  age_cases seen (creq ∷ rest) sound e w =
      let (rep, v') = get_datum env v creq.key true in inr (creq, rest, rep, v', w, ground arith)

module _ (k : String) where
  abbrev seen_as : Option MemStatus → List Grant → View
  seen_as o g = record { status = o; granted = g }

  -- A memory under the key moves, and nothing that one under another key sends is granted here.
  aged-Move :
      (env : Env) (v : Vault env) (m : MemStatus) (g : List Grant)
      → IsSound k m
      → Aged env v k m
      → Move k []
          (seen_as (some m) g)
          (seen_as (some (age env v m).0) (g ++ grants k (age env v m).2))
  unfolding grants
  aged-Move env v m g sound (inl (st, e, h)) = grow_old m st refl refl h (λ i. record {
    status = some (e i).0;
    granted =
        (ap (λ (l : List Answer). g ++ grants k l)
              (ap (λ (t : MemStatus × Vault env × List Answer). t.2) e)
            ∙ append-nil g)
          i;
  })
  aged-Move env v m g sound (inr (creq, rest, rep, v', w, e)) =
      let own = subst (Waits k) w sound.waits in
      hand_over m creq rest rep.token refl refl w (λ i. record {
        status = some (e i).0;
        granted =
            (ap (λ (l : List Answer). g ++ grants k l)
                  (ap (λ (t : MemStatus × Vault env × List Answer). t.2) e)
                ∙ ap (λ l. g ++ (map (λ c. (c, rep.token)) l ++ [])) {x = writes k creq}
                    {y = creq ∷ []} (writes-rw k creq own.0 own.1))
              i;
      })

  aged_elsewhere :
      (env : Env) (v : Vault env) (j : String) (m : MemStatus)
      → j ≢ k
      → IsSound j m
      → Aged env v j m
      → grants k (age env v m).2 ≡ []
  unfolding grants
  aged_elsewhere env v j m h sound (inl (st, e, _)) =
      ap (λ (t : MemStatus × Vault env × List Answer). grants k t.2) e
  aged_elsewhere env v j m h sound (inr (creq, rest, rep, v', w, e)) =
      let own = subst (Waits j) w sound.waits in
      ap (λ (t : MemStatus × Vault env × List Answer). grants k t.2) e
      ∙ ap (λ l. map (λ c. (c, rep.token)) l ++ []) {x = writes k creq} {y = []}
          (writes-ne k creq (λ c. h (sym own.0 ∙ c)))

  elsewhere :
      (env : Env) (v : Vault env) (j : String) (m : MemStatus)
      → j ≢ k
      → IsSound j m
      → grants k (age env v m).2 ≡ []
  elsewhere env v j m n sound =
      aged_elsewhere env v j m n sound (age_cases env v j m m.state m.waiters sound refl refl)

  Move-path :
      {new : List CheckOutRequest} {v v' w w' : View}
      → v ≡ v'
      → w ≡ w'
      → Move k new v w
      → Move k new v' w'
  Move-path {new} {v} {v'} {w} {w'} p q m =
      subst (Move k new v') q (subst (λ x. Move k new x w) p m)

  module _ (env : Env) where
    -- A key that is not in the list is not granted and stays away.
    age_all_absent :
        (ms : Memories) (v : Vault env)
        → AllEntries String_discrete IsSound ms
        → lookup String_discrete k ms ≡ none
        → (lookup String_discrete k (age_all env v ms).0 ≡ none)
          × (grants k (age_all env v ms).2 ≡ [])
    unfolding age_all lookup grants
    age_all_absent [] v sound h = (refl, refl)
    age_all_absent ((j, m) ∷ ms) v sound h =
        let a = age env v m in
        elim (String_discrete j k) [
          | yes e ↦
              cc (sym (if_pos (String_discrete j k) e (some m) (lookup String_discrete k ms)) ∙ h)
          | no n ↦
              let rest =
                age_all_absent ms a.1 sound.1 (
                  sym (if_neg (String_discrete j k) n (some m) (lookup String_discrete k ms))
                  ∙ h) in
              (
                if_neg (String_discrete j k) n (some a.0) _ ∙ rest.0,
                grants-append k a.2 (age_all env a.1 ms).2
                    ∙ ap (λ l. l ++ grants k (age_all env a.1 ms).2) (elsewhere env v j m n sound.0)
                    ∙ rest.1,
              )
        ]

    -- A key that is in the list is aged once.
    age_all_present :
        (ms : Memories) (v : Vault env) (m : MemStatus)
        → AllEntries String_discrete IsSound ms
        → IsUnique String_discrete ms
        → lookup String_discrete k ms ≡ some m
        → (v' : Vault env) × (lookup String_discrete k (age_all env v ms).0 ≡ some (age env v' m).0)
          × (grants k (age_all env v ms).2 ≡ grants k (age env v' m).2)
    unfolding age_all lookup grants
    age_all_present [] v m sound u h = cc
    age_all_present ((j, m') ∷ ms) v m sound u h =
        let a = age env v m' in
        let rest = age_all env a.1 ms in
        elim (String_discrete j k) [
          | yes e ↦
              let same : m' ≡ m = cc (
                sym (if_pos (String_discrete j k) e (some m') (lookup String_discrete k ms)) ∙ h) in
              let absent =
                age_all_absent ms a.1 sound.1
                  (subst (λ x. lookup String_discrete x ms ≡ none) e u.0) in
              (
                v,
                if_pos (String_discrete j k) e (some a.0) _ ∙ ap (λ x. some (age env v x).0) same,
                grants-append k a.2 rest.2
                    ∙ ap (◌++◌ (grants k a.2)) absent.1
                    ∙ append-nil (grants k a.2)
                    ∙ ap (λ x. grants k (age env v x).2) same,
              )
          | no n ↦
              let (v', here, sent) = age_all_present ms a.1 m sound.1 u.1 (
                sym (if_neg (String_discrete j k) n (some m') (lookup String_discrete k ms)) ∙ h) in
              (
                v',
                if_neg (String_discrete j k) n (some a.0) _ ∙ here,
                grants-append k a.2 rest.2
                    ∙ ap (λ l. l ++ grants k rest.2) (elsewhere env v j m' n sound.0)
                    ∙ sent,
              )
        ]

  -- A tick ages each memory, and sends what that sends.
  pub tick-view :
      (env : Env) (s : Loop env) (m : MemStatus)
      → ((key : String) → Sound key (view key s))
      → IsUnique String_discrete s.memories
      → lookup String_discrete k s.memories ≡ some m
      → (v' : Vault env) × (view k (do_tick env s) ≡ record {
        status = some (age env v' m).0;
        granted = grants k s.log ++ grants k (age env v' m).2;
      })
  unfolding do_tick
  tick-view env s m sound u h =
      let (v', here, sent) =
        age_all_present env s.memories s.vault m
          (AllEntries-of_lookup String_discrete IsSound s.memories u sound) u h in
      (
        v',
        λ i. record {
          status = here i;
          granted =
              (grants-append k s.log (age_all env s.vault s.memories).2
                  ∙ ap (◌++◌ (grants k s.log)) sent)
                i;
        },
      )

  tick-view-none :
      (env : Env) (s : Loop env)
      → ((key : String) → Sound key (view key s))
      → IsUnique String_discrete s.memories
      → lookup String_discrete k s.memories ≡ none
      → view k (do_tick env s) ≡ view k s
  unfolding do_tick
  tick-view-none env s sound u h =
      let absent =
        age_all_absent env s.memories s.vault
          (AllEntries-of_lookup String_discrete IsSound s.memories u sound) h in
      λ i. record {
        status = (absent.0 ∙ sym h) i;
        granted =
            (grants-append k s.log (age_all env s.vault s.memories).2
                ∙ ap (◌++◌ (grants k s.log)) absent.1
                ∙ append-nil (grants k s.log))
              i;
      }

  pub tick-Move :
      (env : Env) (s : Loop env)
      → ((key : String) → Sound key (view key s))
      → IsUnique String_discrete s.memories
      → Move k [] (view k s) (view k (do_tick env s))
  tick-Move env s sound u = elim (Option-cases (lookup String_discrete k s.memories)) [
    | inl e ↦ keep refl (tick-view-none env s sound u e)
    | inr (m, e) ↦
        let (v', after) = tick-view env s m sound u e in
        let own = sound k m e in
        Move-path (ap (λ o. seen_as o (grants k s.log)) (sym e)) (sym after) (
          aged-Move env v' m (grants k s.log) own
            (age_cases env v' k m m.state m.waiters own refl refl))
  ]

age_all-IsUnique :
    (env : Env) (ms : Memories) (v : Vault env)
    → AllEntries String_discrete IsSound ms
    → IsUnique String_discrete ms
    → IsUnique String_discrete (age_all env v ms).0
unfolding age_all
age_all-IsUnique env [] v sound u = tt
age_all-IsUnique env ((j, m) ∷ ms) v sound u = (
  (age_all_absent j env ms (age env v m).1 sound.1 u.0).0,
  age_all-IsUnique env ms (age env v m).1 sound.1 u.1,
)

pub tick-IsUnique :
    (env : Env) (s : Loop env)
    → ((key : String) → Sound key (view key s))
    → IsUnique String_discrete s.memories
    → IsUnique String_discrete (do_tick env s).memories
unfolding do_tick
tick-IsUnique env s sound u =
    age_all-IsUnique env s.memories s.vault
      (AllEntries-of_lookup String_discrete IsSound s.memories u sound) u
