-- ===== src/Ephemeral/Recalls.antt =====
-- About Recall beside Remember and RememberThread.
use gopherbot.Prelude.{
  ℕ, ◌≡◌, refl, sym, ap, ◌∙◌, Bool, true, false, Option, none, some, [], ◌∷◌, ◌≢◌, ◌⊎◌, inl, inr,
  if_cases,
}
use mathlib.Core.Logic.{if_pos, if_neg}
use mathlib.Core.Bool.{true≢false}
use gopherbot.Prelude.Assoc.{lookup-insert, lookup-delete}
use gopherbot.Prelude.Bytes.{bytes_eq, bytes_eq_iff}
use gopherbot.Ephemeral.{
  Text, Memory, Context, Context_discrete, Memories, Table, find, Incoming, Robot, is_empty,
  user_of, thread_of, make_memory_context, remember, remember_thread, recall, store,
}

abbrev text_of : Option Memory → Text
text_of none = []
text_of (some x) = x.memory

module _ (to_lower trim_space : Text → Text) where
  abbrev context : Robot → Text → Bool → Bool → Context
  context r key force shared = make_memory_context to_lower trim_space r key force shared

  store-here :
      (now : ℕ) (k : Context) (value : Text) (m : Table)
      → text_of (find k (store to_lower trim_space now k value m)) ≡ value
  unfolding store
  store-here now k value m =
      if_cases (λ t. text_of (find k t) ≡ value) (is_empty value) _ _
        (λ e.
          ap text_of (lookup-delete Context_discrete k k m ∙ if_pos (Context_discrete k k) refl _ _)
          ∙ sym ((bytes_eq_iff value []).0 e))
        (λ _.
          ap text_of
            (lookup-insert Context_discrete k k _ m ∙ if_pos (Context_discrete k k) refl _ _))

  store-other :
      (now : ℕ) (j k : Context) (value : Text) (m : Table)
      → k ≢ j
      → find j (store to_lower trim_space now k value m) ≡ find j m
  unfolding store
  store-other now j k value m h =
      if_cases (λ t. find j t ≡ find j m) (is_empty value) _ _
        (λ _. lookup-delete Context_discrete k j m ∙ if_neg (Context_discrete k j) h _ _)
        (λ _. lookup-insert Context_discrete k j _ m ∙ if_neg (Context_discrete k j) h _ _)

  -- The robot of a message.
  abbrev pub on : Incoming → Robot → Robot
  on i r = record r { incoming = some i }

  same_context :
      (r : Robot) (i : Incoming) (key : Text) (shared threaded : Bool)
      → context (on (record i { threaded = true }) r) key false shared
        ≡ context (on (record i { threaded = threaded }) r) key true shared
  unfolding make_memory_context
  same_context r i key shared true = refl
  same_context r i key shared false = refl

  -- In a thread, Recall gives what RememberThread stored under the key, also where that was called on
  -- a message that was not in the thread yet.
  pub recall-remember_thread :
      (r : Robot) (i : Incoming) (now : ℕ) (key value : Text) (shared : Bool) (s : Memories)
      → recall to_lower trim_space
          (on (record i { threaded = true }) r)
          key
          shared
          (remember_thread to_lower trim_space (on i r) now key value shared s)
        ≡ value
  unfolding recall remember_thread
  recall-remember_thread r i now key value shared s =
      let k = context (on i r) key true shared in
      ap (λ j. text_of (find j (store to_lower trim_space now k value s.m)))
        (same_context r i key shared i.threaded)
      ∙ store-here now k value s.m

  -- Two robots' memories under two keys that are never the same one.
  abbrev pub Apart : Robot → Text → Bool → Robot → Text → Bool → Type 0
  Apart r key shared r' key' shared' =
      (key ≢ key')
      ⊎ (r.channel ≢ r'.channel)
      ⊎ ((shared ≡ false)
          × (shared' ≡ false)
          × (user_of to_lower trim_space r ≢ user_of to_lower trim_space r'))

  Apart-contexts :
      (r r' : Robot) (key key' : Text) (shared shared' : Bool)
      → Apart r key shared r' key' shared'
      → context r key false shared ≢ context r' key' false shared'
  unfolding make_memory_context
  Apart-contexts r r' key key' shared shared' (inl h) e = h (ap (λ (x : Context). x.key) e)
  Apart-contexts r r' key key' shared shared' (inr (inl h)) e =
      h (ap (λ (x : Context). x.channel) e)
  Apart-contexts r r' key key' shared shared' (inr (inr (f, f', h))) e =
      h (sym (own r shared f) ∙ ap (λ (x : Context). x.user) e ∙ own r' shared' f')
    where
      own :
          (x : Robot) (b : Bool)
          → b ≡ false
          → (context x key false b).user ≡ user_of to_lower trim_space x
      own x true f = absurd (true≢false f)
      own x false f = refl

  -- Remember under a key never changes what Recall gives for another key or in another channel, or,
  -- where neither call is for a shared memory, to a robot of another user. The user is the normalized
  -- one of the robot, or that of its message where the robot has none.
  pub recall-remember-Apart :
      (r r' : Robot) (now : ℕ) (key key' value : Text) (shared shared' : Bool) (s : Memories)
      → Apart r key shared r' key' shared'
      → recall to_lower trim_space r' key' shared'
          (remember to_lower trim_space r now key value shared s)
        ≡ recall to_lower trim_space r' key' shared' s
  unfolding recall remember
  recall-remember-Apart r r' now key key' value shared shared' s h = ap text_of (
      store-other now (context r' key' false shared') (context r key false shared) value s.m
        (Apart-contexts r r' key key' shared shared' h))

  -- What one robot remembers as shared in a channel, outside a thread, a robot of any other user recalls
  -- as shared in that channel, outside a thread; an empty value is recalled as nothing.
  pub recall-remember_shared :
      (r r' : Robot) (now : ℕ) (key value : Text) (s : Memories)
      → r.channel ≡ r'.channel
      → r.channel ≢ []
      → thread_of to_lower trim_space r.incoming false ≡ []
      → thread_of to_lower trim_space r'.incoming false ≡ []
      → recall to_lower trim_space r' key true (remember to_lower trim_space r now key value true s)
        ≡ value
  unfolding recall remember make_memory_context bytes_eq
  recall-remember_shared r r' now key value s same named t t' =
      ap
        (λ k. text_of (find k (store to_lower trim_space now (context r key false true) value s.m)))
        (sym one)
      ∙ store-here now (context r key false true) value s.m
    where
      place : Text → Context
      place channel = record { key = key; user = []; channel = channel; thread = []; protocol = [] }

      in_channel :
          (x : Robot)
          → x.channel ≢ []
          → thread_of to_lower trim_space x.incoming false ≡ []
          → context x key false true ≡ place x.channel
      in_channel x h e = by_name x.channel refl
        where
          by_name : (c : Text) → x.channel ≡ c → context x key false true ≡ place x.channel
          by_name [] f = absurd (h f)
          by_name (b ∷ c) f = rw (e, f) refl

      one : context r key false true ≡ context r' key false true
      one = in_channel r named t ∙ ap place same ∙ sym (in_channel r' (λ e. named (same ∙ e)) t')
