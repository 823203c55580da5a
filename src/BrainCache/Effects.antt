-- ===== src/BrainCache/Effects.antt =====
-- About `syncOutboxEntryLocked` of bot/brain_cache.go: what the sending of a memory changes.
use gopherbot.Prelude.{
  ℕ, ◌≡◌, refl, sym, ap, subst, ◌∙◌, Bool, true, not, ◌&&◌, Option, none, some, List, [], ◌∷◌, leb,
  ◌==◌, if_cases, arith, Option-cases, ◌⊎◌, inl, inr,
}
use mathlib.Core.Bool.{true≢false}
use gopherbot.Prelude.Assoc.{insert, delete}
use gopherbot.BrainCache.{
  Text, bytes_eq, Bytes_discrete, brain_lock_key, Meta, OutboxEntry, outbox_read, entry_read,
  queued_at, WriteBudget, Control, Cache, Steps, meta_read, payload_read, remote_call, budget_read,
  budget_write, meta_mark, control_mark, outbox_remove, Outcome, done, failed, payload_at, meta_at,
  put_meta,
}
use gopherbot.BrainCache.Sync.{
  record_of, within_budget, count_write, finish, send_current, sync_outbox_entry, sync_key,
  sync_queued, cloud_write, checkpoint, is_dirty, mark_control, mark_synced, account, offer,
  send_payload, send, send_meta,
}

module _ (checksum_bytes : Text → Text) (now today : ℕ) (ok : Steps) (k : Text) where
  -- From `c` to `c'` the memory was accepted by the remote, and the outbox is `o`.
  pub record Sent (c c' : Cache) (o : List (Text × OutboxEntry)) : Type 0 where
    pub memory : Meta
    pub payload : Text
    pub found : meta_at k c ≡ some memory
    pub held : (memory.deleted ≡ true) ⊎ (payload_at k c ≡ some payload)
    pub sent : c'.sent ≡ record_of checksum_bytes k memory payload ∷ c.sent
    pub payloads : c'.payloads ≡ c.payloads
    pub metas :
        (c'.metas ≡ c.metas)
        ⊎ (c'.metas ≡ insert Bytes_discrete k (record memory { synced_at = some now }) c.metas)
    pub outbox : c'.outbox ≡ o
    pub next_version : c'.control.next_version ≡ c.control.next_version
    pub has_remote : c'.has_remote ≡ c.has_remote
    pub stopped : c'.stopped ≡ c.stopped
    pub policy : c'.write_budget_per_day ≡ c.write_budget_per_day

  -- What the sending of a memory ends with.
  pub data Effect (c : Cache) : Outcome → Type 0 where
    dropped :
        meta_at k c ≡ none
        → Effect c (done (record c { outbox = delete Bytes_discrete k c.outbox }))
    refused : Effect c (failed c)
    broken : {c' : Cache} → Sent c c' c.outbox → Effect c (failed c')
    sent : {c' : Cache} → Sent c c' (delete Bytes_discrete k c.outbox) → Effect c (done c')

  -- The steps behind the remote's answer change the metas, the control record and the outbox alone.
  Sent-step :
      {c c' : Cache} {o : List (Text × OutboxEntry)} (s : Sent c c' o) (metas : List (Text × Meta))
      (outbox o' : List (Text × OutboxEntry)) (control saved : Control)
      (budget : Option WriteBudget)
      → ((metas ≡ c.metas)
          ⊎ (metas ≡ insert Bytes_discrete k (record s.memory { synced_at = some now }) c.metas))
      → outbox ≡ o'
      → control.next_version ≡ c.control.next_version
      → Sent c
          (record c' {
            metas = metas;
            outbox = outbox;
            control = control;
            saved = saved;
            budget = budget;
          })
          o'
  Sent-step s metas outbox o' control saved budget m o n = record {
    memory = s.memory;
    payload = s.payload;
    found = s.found;
    held = s.held;
    sent = s.sent;
    payloads = s.payloads;
    metas = m;
    outbox = o;
    next_version = n;
    has_remote = s.has_remote;
    stopped = s.stopped;
    policy = s.policy;
  }

  finish-Effect :
      (c c' : Cache) → Sent c c' c.outbox → Effect c (finish checksum_bytes now today ok k c')
  finish-Effect c c' s =
      if_cases (Effect c) (ok outbox_remove) _ _
        (λ _. sent (
          Sent-step s c'.metas (delete Bytes_discrete k c'.outbox) _ c'.control c'.saved c'.budget
            s.metas (ap (delete Bytes_discrete k) s.outbox) s.next_version))
        (λ _. broken s)

  checkpoint-next_version :
      (m : Meta) (t : Control)
      → (checkpoint checksum_bytes now today ok k m
          (cloud_write checksum_bytes now today ok k m t)).next_version
        ≡ t.next_version
  checkpoint-next_version m t =
      if_cases
        (λ (u : Control).
          (checkpoint checksum_bytes now today ok k m u).next_version ≡ t.next_version)
        (bytes_eq k brain_lock_key) _ _ (λ _. kept t refl) (λ _. kept _ refl)
    where
      kept :
          (u : Control)
          → u.next_version ≡ t.next_version
          → (checkpoint checksum_bytes now today ok k m u).next_version ≡ t.next_version
      kept u e =
          if_cases (λ (v : Control). v.next_version ≡ t.next_version)
            (leb u.checkpoint_vers m.version) _ _ (λ _. e) (λ _. e)

  mark_control-Effect :
      (c c' : Cache) (m : Meta)
      → Sent c c' c.outbox
      → Effect c (mark_control checksum_bytes now today ok k m c')
  mark_control-Effect c c' m s =
      if_cases (Effect c) (is_dirty checksum_bytes now today ok k m c'.control) _ _
        (λ _.
          if_cases (Effect c) (ok control_mark) _ _
            (λ _.
              finish-Effect c _ (
                Sent-step s c'.metas c'.outbox _ control control c'.budget s.metas s.outbox
                  changed))
            (λ _. broken (
              Sent-step s c'.metas c'.outbox _ control c'.saved c'.budget s.metas s.outbox
                changed)))
        (λ _. finish-Effect c c' s)
    where
      control : Control
      control =
          checkpoint checksum_bytes now today ok k m
            (cloud_write checksum_bytes now today ok k m c'.control)

      changed : control.next_version ≡ c.control.next_version
      changed = checkpoint-next_version m c'.control ∙ s.next_version

  -- The metas are not marked yet.
  mark_synced-Effect :
      (c c' : Cache) (s : Sent c c' c.outbox)
      → c'.metas ≡ c.metas
      → Effect c (mark_synced checksum_bytes now today ok k s.memory c')
  mark_synced-Effect c c' s e =
      if_cases (Effect c) (ok meta_mark) _ _
        (λ _.
          mark_control-Effect c (put_meta k (record s.memory { synced_at = some now }) c') s.memory
            (Sent-step s
              (insert Bytes_discrete k (record s.memory { synced_at = some now }) c'.metas)
              c'.outbox _ c'.control c'.saved c'.budget
              (inr (ap (insert Bytes_discrete k (record s.memory { synced_at = some now })) e))
              s.outbox s.next_version))
        (λ _. broken s)

  account-Effect :
      (c c' : Cache) (s : Sent c c' c.outbox)
      → c'.metas ≡ c.metas
      → Effect c (account checksum_bytes now today ok k s.memory c')
  unfolding count_write Sent-step
  account-Effect c c' s e =
      if_cases (Effect c) (c'.write_budget_per_day == 0) _ _ (λ _. mark_synced-Effect c c' s e)
        (λ _.
          if_cases (Effect c) (ok budget_read) _ _
            (λ _.
              if_cases (Effect c) (ok budget_write) _ _
                (λ _.
                  mark_synced-Effect c (count_write today c')
                    (Sent-step s c'.metas c'.outbox _ c'.control c'.saved _ s.metas s.outbox
                      s.next_version)
                    e)
                (λ _. broken s))
            (λ _. broken s))

  offer-Effect :
      (c : Cache) (m : Meta) (payload : Text)
      → meta_at k c ≡ some m
      → (m.deleted ≡ true) ⊎ (payload_at k c ≡ some payload)
      → Effect c (offer checksum_bytes now today ok k m payload c)
  offer-Effect c m payload found held =
      if_cases (Effect c) (ok remote_call) _ _
        (λ _.
          account-Effect c (record c { sent = record_of checksum_bytes k m payload ∷ c.sent })
            (record {
              memory = m;
              payload = payload;
              found = found;
              held = held;
              sent = refl;
              payloads = refl;
              metas = inl refl;
              outbox = refl;
              next_version = refl;
              has_remote = refl;
              stopped = refl;
              policy = refl;
            })
            refl)
        (λ _. refused)

  send-Effect :
      (c : Cache) (m : Meta)
      → meta_at k c ≡ some m
      → Effect c (send checksum_bytes now today ok k m c)
  send-Effect c m found =
      if_cases (Effect c) m.deleted _ _ (λ d. offer-Effect c m [] found (inl d))
        (λ _. if_cases (Effect c) (ok payload_read) _ _ (λ _. read) (λ _. refused))
    where
      read : Effect c (send_payload checksum_bytes now today ok k m c (payload_at k c))
      read = elim (Option-cases (payload_at k c)) [
        | inl e ↦ rw (e) refused
        | inr (p, e) ↦ rw (e) (offer-Effect c m p found (inr e))
      ]

  pub send_meta-Effect :
      (c : Cache) (enforce : Bool)
      → Effect c (send_meta checksum_bytes now today ok k enforce c (meta_at k c))
  send_meta-Effect c enforce = elim (Option-cases (meta_at k c)) [
    | inl e ↦ rw (e) (if_cases (Effect c) (ok outbox_remove) _ _ (λ _. dropped e) (λ _. refused))
    | inr (m, e) ↦ rw (e) (
        if_cases (Effect c) (enforce && not (within_budget ok today c)) _ _ (λ _. refused)
          (λ _. send-Effect c m e))
  ]

  -- The entry of the outbox is the one that is asked for.
  sync_current-Effect :
      (c : Cache) (enforce : Bool) (e : OutboxEntry)
      → queued_at k c ≡ some e
      → Effect c (send_current checksum_bytes now today ok k enforce e.version c (queued_at k c))
  sync_current-Effect c enforce e q = rw (q) (
      if_cases (Effect c) (e.version == e.version) _ _
        (λ _.
          if_cases (Effect c) (ok meta_read) _ _ (λ _. send_meta-Effect c enforce) (λ _. refused))
        (λ f. absurd (ground arith)))

  pub sync_outbox_entry-Effect :
      (c : Cache) (enforce : Bool) (e : OutboxEntry)
      → c.has_remote ≡ true
      → queued_at k c ≡ some e
      → Effect c (sync_outbox_entry checksum_bytes now today ok k enforce e c)
  unfolding sync_outbox_entry
  sync_outbox_entry-Effect c enforce e h q =
      if_cases (Effect c) c.has_remote _ _
        (λ _.
          if_cases (Effect c) (ok outbox_read) _ _ (λ _. sync_current-Effect c enforce e q)
            (λ _. refused))
        (λ f. absurd (true≢false (sym h ∙ f)))

  -- Any entry, also one that the outbox no longer has.
  pub sync_outbox_entry-cases :
      (c : Cache) (enforce : Bool) (e : OutboxEntry)
      → Effect c (sync_outbox_entry checksum_bytes now today ok k enforce e c)
        ⊎ (sync_outbox_entry checksum_bytes now today ok k enforce e c ≡ done c)
  unfolding sync_outbox_entry
  sync_outbox_entry-cases c enforce e =
      if_cases (λ o. Effect c o ⊎ (o ≡ done c)) c.has_remote _ _
        (λ _.
          if_cases (λ o. Effect c o ⊎ (o ≡ done c)) (ok outbox_read) _ _ (λ _. current)
            (λ _. inl refused))
        (λ _. inr refl)
    where
      current :
          Effect c (send_current checksum_bytes now today ok k enforce e.version c (queued_at k c))
          ⊎ (send_current checksum_bytes now today ok k enforce e.version c (queued_at k c)
              ≡ done c)
      current = elim (Option-cases (queued_at k c)) [
        | inl q ↦ rw (q) (inr refl)
        | inr (f, q) ↦ rw (q) (
            if_cases (λ o. Effect c o ⊎ (o ≡ done c)) (f.version == e.version) _ _
              (λ _.
                if_cases (λ o. Effect c o ⊎ (o ≡ done c)) (ok meta_read) _ _
                  (λ _. inl (send_meta-Effect c enforce)) (λ _. inl refused))
              (λ _. inr refl))
      ]

  pub sync_key-cases :
      (c : Cache) (enforce : Bool)
      → Effect c (sync_key checksum_bytes now today ok k enforce c)
        ⊎ (sync_key checksum_bytes now today ok k enforce c ≡ done c)
  unfolding sync_key
  sync_key-cases c enforce =
      if_cases (λ o. Effect c o ⊎ (o ≡ done c)) (ok entry_read) _ _ (λ _. queued) (λ _. inl refused)
    where
      queued :
          Effect c (sync_queued checksum_bytes now today ok k enforce c (queued_at k c))
          ⊎ (sync_queued checksum_bytes now today ok k enforce c (queued_at k c) ≡ done c)
      queued = elim (Option-cases (queued_at k c)) [
        | inl q ↦ rw (q) (inr refl)
        | inr (e, q) ↦ rw (q) (sync_outbox_entry-cases c enforce e)
      ]

  pub sync_key-Effect :
      (c : Cache) (enforce : Bool) (e : OutboxEntry)
      → c.has_remote ≡ true
      → queued_at k c ≡ some e
      → Effect c (sync_key checksum_bytes now today ok k enforce c)
  unfolding sync_key
  sync_key-Effect c enforce e h q =
      if_cases (Effect c) (ok entry_read) _ _
        (λ _.
          subst (λ o. Effect c (sync_queued checksum_bytes now today ok k enforce c o)) (sym q)
            (sync_outbox_entry-Effect c enforce e h q))
        (λ _. refused)
