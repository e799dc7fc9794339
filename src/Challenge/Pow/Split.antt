-- ===== src/Challenge/Pow/Split.antt =====
-- How a token comes apart at its bars.
use anti_bot_gw.Common.{
  ℕ, suc, ◌+◌, ◌=ℕ=◌, if◌then◌else◌, ◌≡◌, List, [], ◌∷◌, ◌++◌, length, nat_eq, list_eq, refl, arith,
  inl, inr, Bool-cases, ◌≢◌,
}
use anti_bot_gw.Challenge.Decimal.{Text}
use anti_bot_gw.Challenge.Pow.{split}

abbrev pub NoBar : Text → Type 0
NoBar [] = Unit
NoBar (c ∷ s) = (c ≢ b'|') × NoBar s

abbrev pub bars : Text → ℕ
bars [] = 0
bars (c ∷ s) = if c =ℕ= b'|' then suc (bars s) else bars s

pub bars-append : (s t : Text) → bars (s ++ t) ≡ bars s + bars t
bars-append [] t = omega arith
bars-append (c ∷ s) t = ground (arith, bars-append s t)

-- `"|".join(parts)`
abbrev pub join : List Text → Text
join [] = []
join (p ∷ []) = p
join (p ∷ q ∷ ps) = p ++ b'|' ∷ join (q ∷ ps)

split-ne_nil : (s : Text) → (p : Text) × (ps : List Text) × (split s ≡ p ∷ ps)
unfolding split
split-ne_nil [] = ([], [], refl)
split-ne_nil (c ∷ s) =
    let (p, ps, e) = split-ne_nil s in
    elim (Bool-cases (c =ℕ= b'|')) [
      | inl bar ↦ ([], p ∷ ps, ground (arith, e, bar))
      | inr no_bar ↦ (c ∷ p, ps, ground (arith, e, no_bar))
    ]

pub split-bar : (s : Text) → split (b'|' ∷ s) ≡ [] ∷ split s
unfolding split
split-bar s = let (p, ps, e) = split-ne_nil s in ground (arith, e)

pub split-cons :
    (c : ℕ) (s p : Text) (ps : List Text)
    → c ≢ b'|'
    → split s ≡ p ∷ ps
    → split (c ∷ s) ≡ (c ∷ p) ∷ ps
unfolding split
split-cons c s p ps ne e = ground (arith, e)

pub split-append : (a b : Text) → NoBar a → split (a ++ b'|' ∷ b) ≡ a ∷ split b
split-append [] b n = split-bar b
split-append (c ∷ a) b n = split-cons c (a ++ b'|' ∷ b) a (split b) n.0 (split-append a b n.1)

pub split-NoBar : (a : Text) → NoBar a → split a ≡ a ∷ []
unfolding split
split-NoBar [] n = refl
split-NoBar (c ∷ a) n = ground (arith, split-NoBar a n.1)

pub length-split : (s : Text) → length (split s) ≡ suc (bars s)
unfolding split
length-split [] = refl
length-split (c ∷ s) = let (p, ps, e) = split-ne_nil s in ground (arith, e, length-split s)

join-cons : (c : ℕ) (p : Text) (ps : List Text) → join ((c ∷ p) ∷ ps) ≡ c ∷ join (p ∷ ps)
join-cons c p [] = refl
join-cons c p (q ∷ ps) = refl

pub join-split : (s : Text) → join (split s) ≡ s
unfolding split
join-split [] = refl
join-split (c ∷ s) =
    let (p, ps, e) = split-ne_nil s in ground (arith, e, join-split s, join-cons c p ps)
