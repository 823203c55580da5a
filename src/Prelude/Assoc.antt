-- ===== src/Prelude/Assoc.antt =====
-- Go maps as association lists: a lookup, an insertion that replaces, and a deletion, with laws.
use mathlib.Core.Path.{◌≡◌, refl, ◌∙◌, subst}
use mathlib.Core.Logic.{ite, if_pos, if_neg}
use mathlib.Core.Option.{Option, none, some}
use mathlib.Core.List.{List, [], ◌∷◌}
use native.Mathlib.Omega.{arith}
use Prim.Native.Nat.{◌≤◌, ◌<◌, suc}
use gopherbot.Prelude.Lists.{length}

module _ {ℓ} {K V : Type ℓ} (dec : Discrete K) where
  unfoldable pub lookup : K → List (K × V) → Option V
  lookup k [] = none
  lookup k ((j, v) ∷ m) = ite (dec j k) (some v) (lookup k m)

  -- delete(m, k)
  unfoldable pub delete : K → List (K × V) → List (K × V)
  delete k [] = []
  delete k ((j, v) ∷ m) = ite (dec j k) (delete k m) ((j, v) ∷ delete k m)

  -- m[k] = v
  unfoldable pub insert : K → V → List (K × V) → List (K × V)
  insert k v [] = (k, v) ∷ []
  insert k v ((j, w) ∷ m) = ite (dec j k) ((k, v) ∷ m) ((j, w) ∷ insert k v m)

  pub lookup-insert :
      (k j : K) (v : V) (m : List (K × V))
      → lookup j (insert k v m) ≡ ite (dec k j) (some v) (lookup j m)
  unfolding lookup insert
  lookup-insert k j v [] = refl
  lookup-insert k j v ((i, w) ∷ m) = ground (arith, lookup-insert k j v m)

  pub lookup-delete :
      (k j : K) (m : List (K × V)) → lookup j (delete k m) ≡ ite (dec k j) none (lookup j m)
  unfolding lookup delete
  lookup-delete k j [] = ground arith
  lookup-delete k j ((i, w) ∷ m) = ground (arith, lookup-delete k j m)

  pub lookup-insert_here : (k : K) (v : V) (m : List (K × V)) → lookup k (insert k v m) ≡ some v
  lookup-insert_here k v m = lookup-insert k k v m ∙ if_pos (dec k k) refl _ _

  pub lookup-insert_other :
      (k j : K) (v : V) (m : List (K × V)) → (k ≡ j → ⊥) → lookup j (insert k v m) ≡ lookup j m
  lookup-insert_other k j v m h = lookup-insert k j v m ∙ if_neg (dec k j) h _ _

  pub lookup-delete_here : (k : K) (m : List (K × V)) → lookup k (delete k m) ≡ none
  lookup-delete_here k m = lookup-delete k k m ∙ if_pos (dec k k) refl _ _

  pub lookup-delete_other :
      (k j : K) (m : List (K × V)) → (k ≡ j → ⊥) → lookup j (delete k m) ≡ lookup j m
  lookup-delete_other k j m h = lookup-delete k j m ∙ if_neg (dec k j) h _ _

  -- A Go map has each key once.
  abbrev pub IsUnique : List (K × V) → Type ℓ
  IsUnique [] = Unit
  IsUnique ((k, v) ∷ m) = (lookup k m ≡ none) × IsUnique m

  pub insert-IsUnique : (k : K) (v : V) (m : List (K × V)) → IsUnique m → IsUnique (insert k v m)
  unfolding lookup insert
  insert-IsUnique k v [] u = (refl, tt)
  insert-IsUnique k v ((j, w) ∷ m) u =
      ground (arith, u.0, u.1, insert-IsUnique k v m u.1, lookup-insert k j v m)

  pub delete-IsUnique : (k : K) (m : List (K × V)) → IsUnique m → IsUnique (delete k m)
  unfolding lookup delete
  delete-IsUnique k [] u = tt
  delete-IsUnique k ((j, w) ∷ m) u =
      ground (arith, u.0, u.1, delete-IsUnique k m u.1, lookup-delete k j m)

  abbrev pub AllEntries {κ} : (K → V → Type κ) → List (K × V) → Type κ
  AllEntries P [] = Unit
  AllEntries P ((k, v) ∷ m) = P k v × AllEntries P m

  pub lookup-here : (k : K) (v : V) (m : List (K × V)) → lookup k ((k, v) ∷ m) ≡ some v
  unfolding lookup
  lookup-here k v m = if_pos (dec k k) refl _ _

  pub lookup-there :
      (j k : K) (v w : V) (m : List (K × V))
      → lookup j m ≡ none
      → lookup k m ≡ some w
      → lookup k ((j, v) ∷ m) ≡ some w
  unfolding lookup
  lookup-there j k v w m a b = elim (dec j k) [
    | no h ↦ if_neg (dec j k) h _ _ ∙ b
    | yes e ↦ cc (subst (λ x. lookup x m ≡ none) e a)
  ]

  pub AllEntries-of_lookup {κ} :
      (P : K → V → Type κ) (m : List (K × V))
      → IsUnique m
      → ((k : K) (v : V) → lookup k m ≡ some v → P k v)
      → AllEntries P m
  AllEntries-of_lookup P [] u h = tt
  AllEntries-of_lookup P ((j, v) ∷ m) u h = (
    h j v (lookup-here j v m),
    AllEntries-of_lookup P m u.1 (λ k w e. h k w (lookup-there j k v w m u.0 e)),
  )

  pub delete-length_le : (k : K) (m : List (K × V)) → length (delete k m) ≤ length m
  unfolding delete
  delete-length_le k [] = omega arith
  delete-length_le k ((j, v) ∷ m) = ground (arith, delete-length_le k m)

  pub insert-length_le : (k : K) (v : V) (m : List (K × V)) → length (insert k v m) ≤ suc (length m)
  unfolding insert
  insert-length_le k v [] = omega arith
  insert-length_le k v ((j, w) ∷ m) = ground (arith, insert-length_le k v m)

  pub delete-length_lt :
      (k : K) (v : V) (m : List (K × V)) → lookup k m ≡ some v → length (delete k m) < length m
  unfolding lookup delete
  delete-length_lt k v [] e = absurd cc
  delete-length_lt k v ((j, w) ∷ m) e = ground (arith, delete-length_le k m, delete-length_lt k v m)
