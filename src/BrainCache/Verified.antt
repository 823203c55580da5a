-- ===== src/BrainCache/Verified.antt =====
-- About the verification of the last cloud write of bot/brain_cache.go.
use gopherbot.Prelude.{
  ℕ, zero, suc, ◌≤◌, ◌<◌, ◌≡◌, ◌≢◌, refl, sym, ap, subst, ◌∙◌, Bool, true, false, some, [], if_true,
  if_false, Bool-cases, ◌⊎◌, inl, inr, ◌==◌, ◌&&◌, arith,
}
use mathlib.Core.Bool.{true≢false}
use gopherbot.Prelude.Bytes.{bytes_eq_iff}
use gopherbot.BrainCache.{bytes_eq, is_empty, CloudWrite, RemoteRecord, Cache}
use gopherbot.BrainCache.Import.{
  Answer, same_mark, error, missing, present, is_verified, attempt, ℤ, pos, negsuc, attempts_of,
  verify_remote_record, verify_last_cloud_write,
}

attempt-cases :
    (good : Answer → Bool) (n : ℕ) (answers : ℕ → Answer)
    → ((attempt good n answers ≡ true) × (i : ℕ) × (i < n) × (good (answers i) ≡ true))
      ⊎ ((attempt good n answers ≡ false) × ((i : ℕ) → (n ≤ i) ⊎ (good (answers i) ≡ false)))
attempt-cases good zero answers = inr (refl, λ i. inl (omega arith))
attempt-cases good (suc n) answers = elim (Bool-cases (good (answers 0))) [
  | inl e ↦ inl (if_true (good (answers 0)) _ _ e, 0, omega arith, e)
  | inr f ↦ elim (attempt-cases good n (λ i. answers (suc i))) [
    | inl (e, i, h, g) ↦ inl (if_false (good (answers 0)) _ _ f ∙ e, suc i, omega arith, g)
    | inr (e, bad) ↦ inr (if_false (good (answers 0)) _ _ f ∙ e, all f bad)
  ]
]
  where
    all :
        good (answers 0) ≡ false
        → ((i : ℕ) → (n ≤ i) ⊎ (good (answers (suc i)) ≡ false))
        → (i : ℕ) → (suc n ≤ i) ⊎ (good (answers i) ≡ false)
    all f bad zero = inr f
    all f bad (suc i) = elim (bad i) [ inl h ↦ inl (omega arith) | inr g ↦ inr g ]

-- The remote answers with the record of a write.
abbrev pub Confirms : CloudWrite → Answer → Type 0
Confirms w a =
    (r : RemoteRecord) × (a ≡ present 3 r)
    × (r.version ≡ w.version)
    × (r.checksum ≡ w.checksum)
    × (r.deleted ≡ w.deleted)

and-true : (a b : Bool) → (a && b) ≡ true → (a ≡ true) × (b ≡ true)
and-true true b e = (refl, e)
and-true false b e = absurd (true≢false (sym e))

and-both : (a b : Bool) → a ≡ true → b ≡ true → (a && b) ≡ true
and-both true b e f = f
and-both false b e f = absurd (true≢false (sym e))

same_mark-eq : (a b : Bool) → same_mark a b ≡ true → a ≡ b
same_mark-eq true b e = sym e
same_mark-eq false true e = absurd (true≢false (sym e))
same_mark-eq false false e = refl

same_mark_refl : (b : Bool) → same_mark b b ≡ true
same_mark_refl true = refl
same_mark_refl false = refl

is_verified-Confirms :
    (w : CloudWrite) (a : Answer)
    → is_verified w.version w.checksum w.deleted true a ≡ true
    → Confirms w a
unfolding is_verified
is_verified-Confirms w error e = absurd (true≢false (sym e))
is_verified-Confirms w missing e = absurd (true≢false (sym e))
is_verified-Confirms w (present format r) e =
    let (f, e') = and-true (format == 3) _ e in
    let (v, e'') = and-true (r.version == w.version) _ e' in
    let (s, d) = and-true (bytes_eq r.checksum w.checksum) _ e'' in
    (
      r,
      ap (λ n. present n r) (three f),
      number v,
      (bytes_eq_iff r.checksum w.checksum).0 s,
      same_mark-eq r.deleted w.deleted d,
    )
  where
    three : (format == 3) ≡ true → format ≡ 3
    three f = ground arith

    number : (r.version == w.version) ≡ true → r.version ≡ w.version
    number v = ground arith

Confirms-is_verified :
    (w : CloudWrite) (a : Answer)
    → Confirms w a
    → is_verified w.version w.checksum w.deleted true a ≡ true
unfolding is_verified
Confirms-is_verified w a (r, e, v, s, d) =
    ap (is_verified w.version w.checksum w.deleted true) e
    ∙ and-both (r.version == w.version) _ (ground (arith, v)) (
        and-both (bytes_eq r.checksum w.checksum) _ ((bytes_eq_iff r.checksum w.checksum).1 s)
          (ap (λ b. same_mark b w.deleted) d ∙ same_mark_refl w.deleted))

-- The attempts that are made: one more than the retries, and at least the first.
abbrev pub IsMade : ℤ → ℕ → Type 0
IsMade (pos n) i = i ≤ n
IsMade (negsuc n) i = i ≡ 0

IsMade-lt : (z : ℤ) (i : ℕ) → IsMade z i → i < attempts_of z
IsMade-lt (pos n) i h = omega arith
IsMade-lt (negsuc n) i h = omega (arith, h)

lt-IsMade : (z : ℤ) (i : ℕ) → i < attempts_of z → IsMade z i
lt-IsMade (pos n) i h = omega arith
lt-IsMade (negsuc n) i h = omega arith

-- Where a cache with a remote has a last cloud write under a key: its verification succeeds and one of
-- the attempts was answered with a record of format 3 that has the write's version, checksum and mark
-- of deletion, or it fails and none was. There is one attempt more than the retries, and always one.
pub verify_last_cloud_write-Confirms :
    (retries : ℤ) (answers : ℕ → Answer) (c : Cache) (w : CloudWrite)
    → c.has_remote ≡ true
    → c.control.last_cloud_write ≡ some w
    → w.key ≢ []
    → ((verify_last_cloud_write retries answers c ≡ true)
        × (i : ℕ) × IsMade retries i
        × Confirms w (answers i))
      ⊎ ((verify_last_cloud_write retries answers c ≡ false)
          × ((i : ℕ) → ¬ (IsMade retries i × Confirms w (answers i))))
unfolding verify_last_cloud_write verify_remote_record
verify_last_cloud_write-Confirms retries answers c w h l k =
    subst (λ b. Confirmed b) (sym verified)
      (elim (attempt-cases good (attempts_of retries) answers) [
        | inl (e, i, m, g) ↦ inl (e, i, lt-IsMade retries i m, is_verified-Confirms w (answers i) g)
        | inr (e, bad) ↦ inr (
          e,
          λ i x. elim (bad i) [
            | inl m ↦ omega (arith, m, IsMade-lt retries i x.0)
            | inr f ↦ true≢false (sym (Confirms-is_verified w (answers i) x.1) ∙ f)
          ],
        )
      ])
  where
    good : Answer → Bool
    good = is_verified w.version w.checksum w.deleted true

    Confirmed : Bool → Type 0
    Confirmed b =
        ((b ≡ true) × (i : ℕ) × IsMade retries i × Confirms w (answers i))
        ⊎ ((b ≡ false) × ((i : ℕ) → ¬ (IsMade retries i × Confirms w (answers i))))

    verified :
        verify_last_cloud_write retries answers c ≡ attempt good (attempts_of retries) answers
    verified = rw (h, l) (if_false (is_empty w.key) _ _ named)
      where
        named : is_empty w.key ≡ false
        named = elim (Bool-cases (is_empty w.key)) [
          | inl t ↦ absurd (k ((bytes_eq_iff w.key []).0 t))
          | inr f ↦ f
        ]
