-- ===== src/Admin/Split.antt =====
-- Python's `s.split(sep)` for a separator of one character, over code points.
use anti_bot_gw.Common.{
  ℕ, ◌=ℕ=◌, if◌then◌else◌, ◌≡◌, ◌≢◌, List, [], ◌∷◌, ◌++◌, refl, arith, inl, inr, Bool-cases, any,
  false,
}
use anti_bot_gw.Challenge.Decimal.{Text}

unfoldable pub split_on : ℕ → Text → List Text
split_on sep [] = [] ∷ []
split_on sep (c ∷ s) = elim (split_on sep s) [
  | [] ↦ (c ∷ []) ∷ []
  | part ∷ parts ↦ if c =ℕ= sep then [] ∷ part ∷ parts else (c ∷ part) ∷ parts
]

-- The separator does not occur in the text.
abbrev pub Without : ℕ → Text → Type 0
Without sep [] = Unit
Without sep (c ∷ s) = (c ≢ sep) × Without sep s

-- `sep.join(parts)`
abbrev pub join_with : ℕ → List Text → Text
join_with sep [] = []
join_with sep (p ∷ []) = p
join_with sep (p ∷ q ∷ ps) = p ++ sep ∷ join_with sep (q ∷ ps)

module _ (sep : ℕ) where
  split_ne_nil : (s : Text) → (p : Text) × (ps : List Text) × (split_on sep s ≡ p ∷ ps)
  unfolding split_on
  split_ne_nil [] = ([], [], refl)
  split_ne_nil (c ∷ s) =
      let (p, ps, e) = split_ne_nil s in
      elim (Bool-cases (c =ℕ= sep)) [
        | inl at ↦ ([], p ∷ ps, ground (arith, e, at))
        | inr off ↦ (c ∷ p, ps, ground (arith, e, off))
      ]

  split_on-sep : (s : Text) → split_on sep (sep ∷ s) ≡ [] ∷ split_on sep s
  unfolding split_on
  split_on-sep s = let (p, ps, e) = split_ne_nil s in ground (arith, e)

  split_on-cons :
      (c : ℕ) (s p : Text) (ps : List Text)
      → c ≢ sep
      → split_on sep s ≡ p ∷ ps
      → split_on sep (c ∷ s) ≡ (c ∷ p) ∷ ps
  unfolding split_on
  split_on-cons c s p ps ne e = ground (arith, e)

  pub split_on-append :
      (a b : Text) → Without sep a → split_on sep (a ++ sep ∷ b) ≡ a ∷ split_on sep b
  split_on-append [] b n = split_on-sep b
  split_on-append (c ∷ a) b n =
      split_on-cons c (a ++ sep ∷ b) a (split_on sep b) n.0 (split_on-append a b n.1)

  pub split_on-Without : (a : Text) → Without sep a → split_on sep a ≡ a ∷ []
  unfolding split_on
  split_on-Without [] n = refl
  split_on-Without (c ∷ a) n = ground (arith, split_on-Without a n.1)

  join_with-cons :
      (c : ℕ) (p : Text) (ps : List Text)
      → join_with sep ((c ∷ p) ∷ ps) ≡ c ∷ join_with sep (p ∷ ps)
  join_with-cons c p [] = refl
  join_with-cons c p (q ∷ ps) = refl

  pub join_with-split_on : (s : Text) → join_with sep (split_on sep s) ≡ s
  unfolding split_on
  join_with-split_on [] = refl
  join_with-split_on (c ∷ s) =
      let (p, ps, e) = split_ne_nil s in
      ground (arith, e, join_with-split_on s, join_with-cons c p ps)

  pub any-Without : (s : Text) → any (λ c. c =ℕ= sep) s ≡ false → Without sep s
  unfolding any
  any-Without [] h = tt
  any-Without (c ∷ s) h = (ground (arith, h), any-Without s (ground (arith, h)))
