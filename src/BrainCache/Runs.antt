-- ===== src/BrainCache/Runs.antt =====
-- About the calls of bot/brain_cache.go in any order.
use gopherbot.Prelude.{
  ℕ, ◌≡◌, ◌≢◌, refl, sym, ap, subst, ◌∙◌, Bool, true, false, Option, none, some, is_some, if_cases,
  List, [], ◌∷◌, ◌⊎◌, inl, inr,
}
use mathlib.Core.Bool.{true≢false}
use gopherbot.Prelude.Assoc.{
  lookup, lookup-insert_here, lookup-insert_other, lookup-delete_other, IsUnique, insert-IsUnique,
}
use gopherbot.BrainCache.{
  Text, bytes_eq, Bytes_discrete, brain_lock_key, Meta, OutboxEntry, Control, Cache, Steps, Outcome,
  need, after, payload_at, meta_at, queued_at, put_payload, put_meta, put_outbox, reserve_version,
  payload_write, payload_remove, meta_write, outbox_write, control_write, set_active_lock_id,
}
use gopherbot.BrainCache.Calls.{
  Call, store_call, delete_call, sync_call, lock_call, stop_call, run_call, run_calls, Writes,
  AllWrite,
}
use gopherbot.BrainCache.Write.{store, delete_memory, enqueue, without_payload}
use gopherbot.BrainCache.Mirror.{
  Mirrored, Alike, Alike-copies, Alike-whole, sync_outbox_entry-Mirrored, sync_key-Mirrored,
}

need-ok {ℓ} :
    (P : Outcome → Type ℓ) (b : Bool) (c : Cache) (rest : Outcome)
    → b ≡ true
    → P rest
    → P (need b c rest)
need-ok P b c rest e p = if_cases P b _ _ (λ _. p) (λ f. absurd (true≢false (sym e ∙ f)))

-- Between the two states only the memory of one key may differ, in what the remote sees.
record Beside (k : Text) (c c' : Cache) : Type 0 where
  alike : (j : Text) → k ≢ j → Alike c c' j
  has_remote : c'.has_remote ≡ c.has_remote
  outbox : c'.outbox ≡ c.outbox

module _ (checksum_bytes : Text → Text) (now today : ℕ) (ok ok' : Steps) (k : Text) where
  enqueue-Mirrored :
      (c c' : Cache) (m : Meta) (e : OutboxEntry)
      → Beside k c c'
      → (m.deleted ≡ true) ⊎ (is_some (payload_at k c') ≡ true)
      → Mirrored c
      → ok outbox_write ≡ true
      → Mirrored (after (enqueue checksum_bytes now today ok ok' k e (put_meta k m c')))
  enqueue-Mirrored c c' m e b held i w =
      if_cases (λ o. Mirrored (after o)) c'.has_remote _ _
        (λ _.
          need-ok (λ o. Mirrored (after o)) (ok outbox_write) _ _ w
            (if_cases (λ o. Mirrored (after o)) (bytes_eq k brain_lock_key) _ _
              (λ _. sync_key-Mirrored checksum_bytes now today ok' k queued false mirrored)
              (λ _. mirrored)))
        (λ f. absurd (true≢false (sym i.has_remote ∙ sym b.has_remote ∙ f)))
    where
      queued : Cache
      queued = put_outbox k e (put_meta k m c')

      other : (j : Text) → k ≢ j → Alike c queued j
      other j h = record {
        metas = lookup-insert_other Bytes_discrete k j m c'.metas h ∙ (b.alike j h).metas;
        payloads = (b.alike j h).payloads;
        queued =
            lookup-insert_other Bytes_discrete k j e c'.outbox h
            ∙ ap (lookup Bytes_discrete j) b.outbox;
        sent = (b.alike j h).sent;
      }

      deleted : (n : Meta) → meta_at k queued ≡ some n → m.deleted ≡ n.deleted
      deleted n f =
          ap (λ (o : Option Meta). elim o [ none ↦ n.deleted | some x ↦ x.deleted ])
            (sym (lookup-insert_here Bytes_discrete k m c'.metas) ∙ f)

      here :
          (n : Meta)
          → m.deleted ≡ n.deleted
          → (m.deleted ≡ true) ⊎ (is_some (payload_at k c') ≡ true)
          → (n.deleted ≡ true) ⊎ (is_some (payload_at k c') ≡ true)
      here n f (inl d) = inl (sym f ∙ d)
      here n f (inr p) = inr p

      mirrored : Mirrored queued
      mirrored = record {
        copies = λ j n f. elim (Bytes_discrete k j) [
          | no h ↦ Alike-copies n (other j h) i f
          | yes h ↦ inl (
              subst (λ x. is_some (queued_at x queued) ≡ true) h
                (ap is_some (lookup-insert_here Bytes_discrete k e c'.outbox)))
        ];
        whole = λ j n f. elim (Bytes_discrete k j) [
          | no h ↦ Alike-whole n (other j h) i f
          | yes h ↦
              subst (λ x. (n.deleted ≡ true) ⊎ (is_some (payload_at x c') ≡ true)) h
                (here n (deleted n (subst (λ x. meta_at x queued ≡ some n) (sym h) f)) held)
        ];
        unique =
            insert-IsUnique Bytes_discrete k e c'.outbox
              (subst (IsUnique Bytes_discrete) (sym b.outbox) i.unique);
        has_remote = b.has_remote ∙ i.has_remote;
      }

  reserve-Beside : (c : Cache) → Beside k c (reserve_version ok c)
  unfolding reserve_version
  reserve-Beside c =
      if_cases (Beside k c) (ok control_write) _ _
        (λ _. record {
          alike = λ j h. record { metas = refl; payloads = refl; queued = refl; sent = refl };
          has_remote = refl;
          outbox = refl;
        })
        (λ _. record {
          alike = λ j h. record { metas = refl; payloads = refl; queued = refl; sent = refl };
          has_remote = refl;
          outbox = refl;
        })

  store-Mirrored :
      (blob : Text) (c : Cache)
      → Mirrored c
      → ok payload_write ≡ true
      → ok meta_write ≡ true
      → ok outbox_write ≡ true
      → Mirrored (after (store checksum_bytes now today ok ok' k blob c))
  unfolding store
  store-Mirrored blob c i p m w =
      if_cases (λ o. Mirrored (after o)) c.stopped _ _ (λ _. i)
        (λ _.
          need-ok (λ o. Mirrored (after o)) (ok payload_write) _ _ p
            (need-ok (λ o. Mirrored (after o)) (ok meta_write) _ _ m
              (enqueue-Mirrored c (put_payload k blob reserved) _ _ written
                (inr (ap is_some (lookup-insert_here Bytes_discrete k blob reserved.payloads))) i
                w)))
    where
      reserved : Cache
      reserved = reserve_version ok c

      written : Beside k c (put_payload k blob reserved)
      written =
          let b : Beside k c reserved = reserve-Beside c in
          record {
            alike = λ j h. record {
              metas = (b.alike j h).metas;
              payloads =
                  lookup-insert_other Bytes_discrete k j blob reserved.payloads h
                  ∙ (b.alike j h).payloads;
              queued = (b.alike j h).queued;
              sent = (b.alike j h).sent;
            };
            has_remote = b.has_remote;
            outbox = b.outbox;
          }

  delete_memory-Mirrored :
      (c : Cache)
      → Mirrored c
      → ok meta_write ≡ true
      → ok outbox_write ≡ true
      → Mirrored (after (delete_memory checksum_bytes now today ok ok' k c))
  unfolding delete_memory
  delete_memory-Mirrored c i m w =
      need-ok (λ o. Mirrored (after o)) (ok meta_write) _ _ m
        (enqueue-Mirrored c _ _ _ removed (inl refl) i w)
    where
      reserved : Cache
      reserved = reserve_version ok c

      b : Beside k c reserved
      b = reserve-Beside c

      removed : Beside k c (without_payload checksum_bytes now today ok ok' k reserved)
      removed =
          if_cases (Beside k c) (ok payload_remove) _ _
            (λ _. record {
              alike = λ j h. record {
                metas = (b.alike j h).metas;
                payloads =
                    lookup-delete_other Bytes_discrete k j reserved.payloads h
                    ∙ (b.alike j h).payloads;
                queued = (b.alike j h).queued;
                sent = (b.alike j h).sent;
              };
              has_remote = b.has_remote;
              outbox = b.outbox;
            })
            (λ _. b)

others-Mirrored :
    (control saved : Control) (stopped : Bool) (c : Cache)
    → Mirrored c
    → Mirrored (record c { control = control; saved = saved; stopped = stopped })
others-Mirrored control saved stopped c i = record {
  copies = λ j m f.
      Alike-copies m (record { metas = refl; payloads = refl; queued = refl; sent = refl }) i f;
  whole = i.whole;
  unique = i.unique;
  has_remote = i.has_remote;
}

set_active_lock_id-Mirrored :
    (ok : Steps) (id : Text) (c : Cache)
    → Mirrored c
    → Mirrored (after (set_active_lock_id ok id c))
unfolding set_active_lock_id
set_active_lock_id-Mirrored ok id c i =
    if_cases (λ o. Mirrored (after o)) (ok control_write) _ _
      (λ _. others-Mirrored _ _ c.stopped c i) (λ _. others-Mirrored _ c.saved c.stopped c i)

module _ (checksum_bytes : Text → Text) where
  run_call-Mirrored :
      (x : Call) (c : Cache) → Mirrored c → Writes x → Mirrored (run_call checksum_bytes x c)
  run_call-Mirrored (store_call now today ok ok' k blob) c i (p, m, w) =
      store-Mirrored checksum_bytes now today ok ok' k blob c i p m w
  run_call-Mirrored (delete_call now today ok ok' k) c i (m, w) =
      delete_memory-Mirrored checksum_bytes now today ok ok' k c i m w
  run_call-Mirrored (sync_call now today ok k enforce e) c i w =
      sync_outbox_entry-Mirrored checksum_bytes now today ok k c enforce e i
  run_call-Mirrored (lock_call ok id) c i w = set_active_lock_id-Mirrored ok id c i
  run_call-Mirrored stop_call c i w = others-Mirrored c.control c.saved true c i

  -- A cache is mirrored if it has a remote, the outbox has each key once, each memory that is not
  -- deleted has its contents, and each memory waits in the outbox, or the newest record of its key that
  -- the remote accepted has its version, its mark of deletion and its contents. From a mirrored cache,
  -- any sequence of Store, Delete, `setActiveLockID`, entries that are sent and Shutdown's mark leads to
  -- a mirrored cache, where each Store can write the contents, the meta record and the outbox entry, and
  -- each Delete the meta record and the outbox entry; all else may fail.
  pub run_calls-Mirrored :
      (xs : List Call) (c : Cache)
      → Mirrored c
      → AllWrite xs
      → Mirrored (run_calls checksum_bytes xs c)
  run_calls-Mirrored [] c i w = i
  run_calls-Mirrored (x ∷ xs) c i (w, ws) =
      run_calls-Mirrored xs (run_call checksum_bytes x c) (run_call-Mirrored x c i w) ws
