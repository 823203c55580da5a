-- ===== src/Subscriptions/Keys.antt =====
-- About the keys under which subscriptions are saved.
use gopherbot.Prelude.{
  ℕ, ◌≡◌, refl, sym, ap, ◌∙◌, false, Option, none, some, [], ◌∷◌, ◌++◌, ◌==◌, ◌&&◌, inl, inr, ◌⊎◌,
  Bool-cases, if_true, Option-cases, if_false, and_false,
}
use gopherbot.Prelude.Bytes.{has_prefix}
use gopherbot.Subscriptions.{
  Text, Matcher, cut, split_key, two_parts, three_parts, separator, marshal_key, unmarshal_key,
  key_of_parts, normalize,
}

-- The text holds no separator.
abbrev pub Whole : Text → Type 0
Whole s = cut s ≡ none

Whole-cons : (x : ℕ) (a : Text) → Whole (x ∷ a) → (has_prefix (x ∷ a) separator ≡ false) × Whole a
unfolding cut
Whole-cons x a w = elim (Bool-cases (has_prefix (x ∷ a) separator)) [
  | inl t ↦ absurd (cc (sym (if_true (has_prefix (x ∷ a) separator) _ _ t) ∙ w))
  | inr f ↦
      (f, rest (Option-cases (cut a)) (sym (if_false (has_prefix (x ∷ a) separator) _ _ f) ∙ w))
]
  where
    rest :
        (cut a ≡ none) ⊎ ((p : Text × Text) × (cut a ≡ some p))
        → ◌≡◌ {A = Option (Text × Text)}
            (elim (cut a) [ none ↦ none | some (b, c) ↦ some (x ∷ b, c) ])
            none
        → cut a ≡ none
    rest (inl e) h = e
    rest (inr (p, e)) h = absurd (cc)

-- No separator begins in the text before one, where none did.
prefix-append :
    (x : ℕ) (a b : Text)
    → has_prefix (x ∷ a) separator ≡ false
    → has_prefix (x ∷ a ++ (separator ++ b)) separator ≡ false
unfolding has_prefix
prefix-append x [] b h = and_false (x == b'{')
prefix-append x (y ∷ []) b h =
    ap (λ t. (x == b'{') && t) (and_false (y == b'|')) ∙ and_false (x == b'{')
prefix-append x (y ∷ z ∷ a) b h = h

-- The separator at the end of a text without one is the first.
cut-append : (a b : Text) → Whole a → cut (a ++ (separator ++ b)) ≡ some (a, b)
unfolding cut
cut-append [] b w = if_true (has_prefix (separator ++ b) separator) _ _ (unfold has_prefix in refl)
cut-append (x ∷ a) b w =
    let (h, w') = Whole-cons x a w in
    if_false (has_prefix (x ∷ a ++ (separator ++ b)) separator) _ _ (prefix-append x a b h)
    ∙ ap consed (cut-append a b w')
  where
    consed : Option (Text × Text) → Option (Text × Text)
    consed o = elim o [ none ↦ none | some (c, d) ↦ some (x ∷ c, d) ]

split_key-three :
    (a b c : Text)
    → Whole a
    → Whole b
    → split_key (a ++ (separator ++ (b ++ (separator ++ c)))) ≡ a ∷ b ∷ c ∷ []
unfolding split_key
split_key-three a b c p q =
    ap (three_parts (a ++ (separator ++ (b ++ (separator ++ c)))))
      (cut-append a (b ++ (separator ++ c)) p)
    ∙ ap (λ o. a ∷ two_parts (b ++ (separator ++ c)) o) (cut-append b c q)

-- Where the protocol is in its normal form and neither it nor the channel holds a separator, a
-- subscription's saved key is read back as it was.
pub unmarshal-marshal_key :
    (to_lower trim_space : Text → Text) (k : Matcher)
    → normalize to_lower trim_space k.protocol ≡ k.protocol
    → Whole k.protocol
    → Whole k.channel
    → unmarshal_key to_lower trim_space (marshal_key k) ≡ some k
unfolding unmarshal_key marshal_key
unmarshal-marshal_key to_lower trim_space k n p c =
    ap (key_of_parts to_lower trim_space) (split_key-three k.protocol k.channel k.thread p c)
    ∙ ap (λ q. some (record { protocol = q; channel = k.channel; thread = k.thread })) n
