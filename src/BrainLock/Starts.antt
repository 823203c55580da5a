-- ===== src/BrainLock/Starts.antt =====
-- About bot/brain_lock.go: who may start beside a lock.
use gopherbot.Prelude.{
  ℕ, ◌≡◌, ◌≢◌, ◌≤◌, refl, sym, ap, subst, ◌∙◌, true, false, not, ◌&&◌, Option, some, ltb, if_cases,
  if_true, if_false, Bool-cases, ◌⊎◌, inl, inr, arith, and_false,
}
use mathlib.Core.Bool.{true≢false, false≢true}
use gopherbot.Prelude.Bytes.{bytes_eq, bytes_eq_iff}
use gopherbot.BrainCache.{
  Text, is_empty, brain_lock_key, RemoteRecord, Cache, Steps, Outcome, done, failed,
  latest_database_version, set_active_lock_id, control_write,
}
use gopherbot.BrainCache.Mirror.{last_sent}
use gopherbot.BrainCache.Import.{ℤ, Answer, error, present, verify_last_cloud_write, and_then}
use gopherbot.BrainLock.{
  Lock, Reading, unreadable, absent, found, brain_lock_held, brain_lock_released, read_brain_lock,
  hash_nonce, can_reclaim, new_lock, decoded, store_lock, write_held, release_brain_lock, verified,
  state_of, admit, acquire_brain_lock,
}
use gopherbot.BrainLock.Holds.{Holds, store-Holds}

bytes_released : brain_lock_released ≢ brain_lock_held
unfolding bytes_eq
bytes_released e = false≢true ((bytes_eq_iff brain_lock_released brain_lock_held).1 e)

module _ (checksum_bytes : Text → Text) (encode : Lock → Text) (decode : Text → Option Lock) where
  -- The instance holds the lock of another lock id, or of another cache.
  abbrev pub Foreign : Lock → Cache → Type 0
  Foreign l c =
      (l.lock_id ≢ c.control.active_lock_id)
      ⊎ (l.cache_nonce_hash ≢ hash_nonce checksum_bytes encode decode c.control.cache_nonce)

  Foreign-can_reclaim :
      (l : Lock) (c : Cache) → Foreign l c → can_reclaim checksum_bytes encode decode l c ≡ false
  unfolding can_reclaim
  Foreign-can_reclaim l c f =
      if_cases (λ b. b ≡ false) (is_empty c.control.active_lock_id) _ _ (λ _. refl)
        (λ _.
          if_cases (λ b. b ≡ false) (is_empty l.lock_id) _ _ (λ _. refl)
            (λ _.
              if_cases (λ b. b ≡ false) (not (bytes_eq l.lock_id c.control.active_lock_id)) _ _
                (λ _. refl) (λ e. nonce e f)))
    where
      hash : Text
      hash = hash_nonce checksum_bytes encode decode c.control.cache_nonce

      nonce :
          not (bytes_eq l.lock_id c.control.active_lock_id) ≡ false
          → Foreign l c
          → (not (is_empty hash) && bytes_eq l.cache_nonce_hash hash) ≡ false
      nonce e (inl h) = elim (Bool-cases (bytes_eq l.lock_id c.control.active_lock_id)) [
        | inl t ↦ absurd (h ((bytes_eq_iff l.lock_id c.control.active_lock_id).0 t))
        | inr t ↦ absurd (true≢false (sym (ap not t) ∙ e))
      ]
      nonce e (inr h) = elim (Bool-cases (bytes_eq l.cache_nonce_hash hash)) [
        | inl t ↦ absurd (h ((bytes_eq_iff l.cache_nonce_hash hash).0 t))
        | inr t ↦ rw (t) (and_false (not (is_empty hash)))
      ]

  module _ (id info : Text) (now today : ℕ) (ok ok' ok_id : Steps) (retries : ℤ)
      (answers : ℕ → Answer) where
    abbrev acquire : Answer → Cache → Outcome
    acquire a c =
        acquire_brain_lock checksum_bytes encode decode id info now today ok ok' ok_id retries
          answers a c

    -- A held lock of another lock id or of another cache refuses the start, whatever the rest, and
    -- nothing changes. So does a lock that is released at a later version than the cache's, one in an
    -- unknown state, and one that cannot be read.
    pub acquire_brain_lock-refused :
        (c : Cache) (format : ℕ) (r : RemoteRecord) (l : Lock)
        → r.deleted ≡ false
        → decode r.payload ≡ some l
        → ((state_of checksum_bytes encode decode id info now today ok ok' l ≡ brain_lock_held)
            × Foreign l c)
          ⊎ ((state_of checksum_bytes encode decode id info now today ok ok' l
                ≡ brain_lock_released)
              × (ltb (latest_database_version c) l.database_version ≡ true))
          ⊎ ((state_of checksum_bytes encode decode id info now today ok ok' l ≢ brain_lock_held)
              × (state_of checksum_bytes encode decode id info now today ok ok' l
                  ≢ brain_lock_released))
        → (acquire (present format r) c ≡ failed c) × (acquire error c ≡ failed c)
    unfolding acquire_brain_lock read_brain_lock
    acquire_brain_lock-refused c format r l d e why = (
      ap (admit checksum_bytes encode decode id info now today ok ok' ok_id retries answers c)
            (if_false r.deleted _ _ d ∙ ap (decoded checksum_bytes encode decode) e)
          ∙ refused_by why,
      refl,
    )
      where
        state : Text
        state = state_of checksum_bytes encode decode id info now today ok ok' l

        not_equal : (s t : Text) → s ≢ t → bytes_eq s t ≡ false
        not_equal s t h = elim (Bool-cases (bytes_eq s t)) [
          | inl e ↦ absurd (h ((bytes_eq_iff s t).0 e))
          | inr e ↦ e
        ]

        refused_by :
            ((state ≡ brain_lock_held) × Foreign l c)
              ⊎ ((state ≡ brain_lock_released)
                  × (ltb (latest_database_version c) l.database_version ≡ true))
              ⊎ ((state ≢ brain_lock_held) × (state ≢ brain_lock_released))
            → admit checksum_bytes encode decode id info now today ok ok' ok_id retries answers c
                (found l)
              ≡ failed c
        refused_by (inl (s, f)) =
            if_true (bytes_eq state brain_lock_held) _ _ ((bytes_eq_iff state brain_lock_held).1 s)
            ∙ if_false (can_reclaim checksum_bytes encode decode l c) _ _
                (Foreign-can_reclaim l c f)
        refused_by (inr (inl (s, v))) =
            if_false (bytes_eq state brain_lock_held) _ _
              (not_equal state brain_lock_held (λ h. bytes_released (sym s ∙ h)))
            ∙ if_true (bytes_eq state brain_lock_released) _ _
                ((bytes_eq_iff state brain_lock_released).1 s)
            ∙ if_true (ltb (latest_database_version c) l.database_version) _ _ v
        refused_by (inr (inr (h, g))) =
            if_false (bytes_eq state brain_lock_held) _ _ (not_equal state brain_lock_held h)
            ∙ if_false (bytes_eq state brain_lock_released) _ _
                (not_equal state brain_lock_released g)

    -- `acquireBrainLock` returns, with no fatal error, only where the last write is verified, and where the
    -- remote's newest record of the lock is then the held lock of this start: with its lock id, the
    -- hash of the cache's nonce and the version of the cache's database.
    pub acquire_brain_lock-Holds :
        (c : Cache) (a : Answer)
        → c.has_remote ≡ true
        → Holds
            (encode (new_lock checksum_bytes encode decode brain_lock_held id info c))
            (acquire a c)
          × ((acquire a c ≡ failed c) ⊎ (verify_last_cloud_write retries answers c ≡ true))
    unfolding acquire_brain_lock write_held set_active_lock_id latest_database_version
    acquire_brain_lock-Holds c a r = admitted (read_brain_lock checksum_bytes encode decode a)
      where
        Good : Outcome → Type 0
        Good o =
            Holds (encode (new_lock checksum_bytes encode decode brain_lock_held id info c)) o
            × ((o ≡ failed c) ⊎ (verify_last_cloud_write retries answers c ≡ true))

        refuses : Good (failed c)
        refuses = (tt, inl refl)

        verifies :
            Good (
              verified checksum_bytes encode decode id info now today ok ok' ok_id retries answers
                c)
        verifies =
            if_cases Good (verify_last_cloud_write retries answers c) _ _
              (λ v. (
                if_cases
                    (λ o.
                      Holds
                        (encode (new_lock checksum_bytes encode decode brain_lock_held id info c))
                        (and_then o (
                          store_lock checksum_bytes encode decode id info now today ok ok'
                            brain_lock_held id)))
                    (ok_id control_write) _ _
                    (λ _. store-Holds checksum_bytes now today ok ok' _ _ r) (λ _. tt),
                inr v,
              ))
              (λ _. refuses)

        admitted :
            (x : Reading)
            → Good (
                admit checksum_bytes encode decode id info now today ok ok' ok_id retries answers c
                  x)
        admitted unreadable = refuses
        admitted absent = verifies
        admitted (found l) =
            if_cases Good
              (bytes_eq (state_of checksum_bytes encode decode id info now today ok ok' l)
                brain_lock_held)
              _ _
              (λ _.
                if_cases Good (can_reclaim checksum_bytes encode decode l c) _ _ (λ _. verifies)
                  (λ _. refuses))
              (λ _.
                if_cases Good
                  (bytes_eq (state_of checksum_bytes encode decode id info now today ok ok' l)
                    brain_lock_released)
                  _ _
                  (λ _.
                    if_cases Good (ltb (latest_database_version c) l.database_version) _ _
                      (λ _. refuses) (λ _. verifies))
                  (λ _. refuses))

-- The start of one instance.
pub record Start : Type 0 where
  pub id : Text
  pub info : Text
  pub now : ℕ
  pub today : ℕ
  pub ok : Steps
  pub ok' : Steps
  pub ok_id : Steps
  pub retries : ℤ
  pub answers : ℕ → Answer

module _ (checksum_bytes : Text → Text) (encode : Lock → Text) (decode : Text → Option Lock) where
  abbrev pub start_by : Start → Answer → Cache → Outcome
  start_by s a c =
      acquire_brain_lock checksum_bytes encode decode s.id s.info s.now s.today s.ok s.ok' s.ok_id
        s.retries s.answers a c

  -- One instance has started: another one, which gets the newest record of the lock from the remote,
  -- and whose cache has another active lock id or another nonce's hash, is refused.
  pub acquire_brain_lock-exclusive :
      (s t : Start) (a : Answer) (c c' d : Cache)
      → ((l : Lock) → decode (encode l) ≡ some l)
      → c.has_remote ≡ true
      → start_by s a c ≡ done c'
      → (s.id ≢ d.control.active_lock_id)
        ⊎ (hash_nonce checksum_bytes encode decode c.control.cache_nonce
            ≢ hash_nonce checksum_bytes encode decode d.control.cache_nonce)
      → (r : RemoteRecord) × (last_sent brain_lock_key c'.sent ≡ some r)
        × (start_by t (present 3 r) d ≡ failed d)
  unfolding bytes_eq
  acquire_brain_lock-exclusive s t a c c' d round r e other =
      let (record_, newest, kept, payload) = held in
      (
        record_,
        newest,
        (acquire_brain_lock-refused checksum_bytes encode decode t.id t.info t.now t.today t.ok
            t.ok' t.ok_id t.retries t.answers d 3 record_
            (new_lock checksum_bytes encode decode brain_lock_held s.id s.info c) kept
            (ap decode payload ∙ round _) (inl (refl, other))).0,
      )
    where
      held :
          Holds
            (encode (new_lock checksum_bytes encode decode brain_lock_held s.id s.info c))
            (done c')
      held =
          subst
            (Holds (encode (new_lock checksum_bytes encode decode brain_lock_held s.id s.info c))) e
            (acquire_brain_lock-Holds checksum_bytes encode decode s.id s.info s.now s.today s.ok
              s.ok' s.ok_id s.retries s.answers c a r).0

  -- Behind the release of the lock, an instance that gets its newest record from the remote, whose
  -- cache knows the version at which it was released, and whose last write is verified, goes on to
  -- write its own held lock.
  pub release_brain_lock-next :
      (s t : Start) (c c' d : Cache)
      → ((l : Lock) → decode (encode l) ≡ some l)
      → c.has_remote ≡ true
      → release_brain_lock checksum_bytes encode decode s.id s.info s.now s.today s.ok s.ok' c
        ≡ done c'
      → latest_database_version c ≤ latest_database_version d
      → verify_last_cloud_write t.retries t.answers d ≡ true
      → (r : RemoteRecord) × (last_sent brain_lock_key c'.sent ≡ some r)
        × (start_by t (present 3 r) d
            ≡ write_held checksum_bytes encode decode t.id t.info t.now t.today t.ok t.ok' t.ok_id
                d)
  unfolding release_brain_lock acquire_brain_lock read_brain_lock bytes_eq
  release_brain_lock-next s t c c' d round r e known v =
      let (record_, newest, kept, payload) = held in
      (
        record_,
        newest,
        ap
              (admit checksum_bytes encode decode t.id t.info t.now t.today t.ok t.ok' t.ok_id
                t.retries t.answers d)
              (if_false record_.deleted _ _ kept
                ∙ ap (decoded checksum_bytes encode decode) (ap decode payload ∙ round lock))
            ∙ admitted,
      )
    where
      lock : Lock
      lock =
          new_lock checksum_bytes encode decode brain_lock_released c.control.active_lock_id s.info
            c

      held : Holds (encode lock) (done c')
      held =
          subst (Holds (encode lock)) e
            (store-Holds checksum_bytes s.now s.today s.ok s.ok' (encode lock) c r)

      known_version : ltb (latest_database_version d) lock.database_version ≡ false
      known_version = ground arith

      admitted :
          admit checksum_bytes encode decode t.id t.info t.now t.today t.ok t.ok' t.ok_id t.retries
            t.answers d
            (found lock)
          ≡ write_held checksum_bytes encode decode t.id t.info t.now t.today t.ok t.ok' t.ok_id d
      admitted =
          if_false (ltb (latest_database_version d) lock.database_version) (failed d)
            (verified checksum_bytes encode decode t.id t.info t.now t.today t.ok t.ok' t.ok_id
              t.retries t.answers d)
            known_version
          ∙ if_true (verify_last_cloud_write t.retries t.answers d)
              (write_held checksum_bytes encode decode t.id t.info t.now t.today t.ok t.ok' t.ok_id
                d)
              (failed d) v
