-- ===== src/Detection/Graphql.antt =====
-- detection/graphql.py. A body is its bytes. The regular expression and the JSON parser are
-- parameters: whether the introspection pattern occurs, and the length of the list that the sample
-- is, if it is one. The depth of the braces, which may fall below zero, is the number of opening
-- ones less that of the closing ones.
use mathlib.Core.Path.{subst}
use anti_bot_gw.Common.{
  sym, ℕ, zero, suc, ◌+◌, ◌-◌, ◌≤◌, Bool, true, false, ltb, leb, ◌=ℕ=◌, if◌then◌else◌, ◌≡◌, refl,
  arith, ◌&&◌, ◌||◌, not, Option, none, some, List, [], ◌∷◌, ◌++◌, take, replicate, length, nat_eq,
  list_eq, ◌∙◌, ap, ◌⊎◌, inl, inr, Bool-cases,
}
use anti_bot_gw.Common.Dict.{mem}
use anti_bot_gw.Challenge.Decimal.{Text}
use anti_bot_gw.Challenge.Pow.{is_nil}

pub data Signal : Type 0 where
  introspection batch_abuse depth_exceeded : Signal

pub record Config : Type 0 where
  pub enabled : Bool
  pub paths : List Text
  pub scan_bytes : ℕ
  pub allow_introspection : Bool
  pub batch_limit : ℕ
  pub max_depth : ℕ

pub record Scanner : Type 0 where
  pub introspects : Text → Bool
  pub batch_size : Text → Option ℕ

-- `path.split("?")[0]`
unfoldable pub path_base : Text → Text
path_base [] = []
path_base (c ∷ s) = let rest = path_base s in if c =ℕ= b'?' then [] else c ∷ rest

pub record Depth : Type 0 where
  pub opened : ℕ
  pub shut : ℕ
  pub max_depth : ℕ

abbrev pub no_depth : Depth
no_depth = record { opened = 0; shut = 0; max_depth = 0 }

-- one round of the loop
unfoldable pub count_brace : ℕ → Depth → Depth
count_brace b d =
    if b =ℕ= b'{'
    then record d {
      opened = suc d.opened;
      max_depth =
          if ltb (d.shut + d.max_depth) (suc d.opened) then suc d.opened - d.shut else d.max_depth;
    }
    else if b =ℕ= b'}'
    then record d { shut = suc d.shut }
    else d

unfoldable pub depth_of : Text → Depth → Depth
unfolding count_brace
depth_of [] d = d
depth_of (b ∷ body) d = depth_of body (count_brace b d)

abbrev pub signal_if : Bool → Signal → List Signal
signal_if true s = s ∷ []
signal_if false s = []

-- the three tests on the sample
unfoldable pub scan : Config → Scanner → Text → List Signal
unfolding depth_of
scan cfg scanner sample =
    signal_if (not cfg.allow_introspection && scanner.introspects sample) introspection
    ++ signal_if
        (elim (scanner.batch_size sample) [ none ↦ false | some n ↦ ltb cfg.batch_limit n ])
        batch_abuse
    ++ signal_if (ltb cfg.max_depth (depth_of (take 262144 sample) no_depth).max_depth)
        depth_exceeded

unfoldable pub check_graphql : Config → Scanner → Text → Text → List Signal
unfolding scan path_base
check_graphql cfg scanner path body =
    if not cfg.enabled || is_nil body
    then []
    else if leb 1 (length cfg.paths) && not (mem (path_base path) cfg.paths)
    then []
    else scan cfg scanner (take cfg.scan_bytes body)

-- The braces of a text.
unfoldable pub opens : Text → ℕ
opens [] = 0
opens (b ∷ s) = if b =ℕ= b'{' then suc (opens s) else opens s

unfoldable pub closes : Text → ℕ
closes [] = 0
closes (b ∷ s) = if b =ℕ= b'}' then suc (closes s) else closes s

-- The depth is no more than the greatest one so far.
abbrev InDepth : Depth → Type 0
InDepth d = d.opened ≤ d.shut + d.max_depth

count-InDepth : (b : ℕ) (d : Depth) → InDepth d → InDepth (count_brace b d)
unfolding count_brace
count-InDepth b d h = ground (arith, h)

count-grows : (b : ℕ) (d : Depth) → InDepth d → d.max_depth ≤ (count_brace b d).max_depth
unfolding count_brace
count-grows b d h = ground (arith, h)

depth-grows : (s : Text) (d : Depth) → InDepth d → d.max_depth ≤ (depth_of s d).max_depth
unfolding depth_of
depth-grows [] d h = omega arith
depth-grows (b ∷ s) d h =
    omega (arith, count-grows b d h, depth-grows s (count_brace b d) (count-InDepth b d h))

depth-above :
    (p s : Text) (d : Depth)
    → InDepth d
    → d.opened + opens p ≤ d.shut + closes p + (depth_of (p ++ s) d).max_depth
unfolding depth_of opens closes
depth-above [] s d h = omega (arith, h, depth-grows s d h)
depth-above (b ∷ p) s d h =
    ground (arith, h, depth-above p s (count_brace b d) (count-InDepth b d h), count_brace)

-- a start of the text after which the depth is the greatest one, if it is not that of before
abbrev Attained : Text → Depth → Type 0
Attained s d =
    ((depth_of s d).max_depth ≡ d.max_depth)
    ⊎ ((p q : Text) × (s ≡ p ++ q)
        × (d.opened + opens p ≡ d.shut + closes p + (depth_of s d).max_depth))

count-cases :
    (b : ℕ) (d : Depth)
    → ((count_brace b d).max_depth ≡ d.max_depth)
      ⊎ ((count_brace b d).opened ≡ (count_brace b d).shut + (count_brace b d).max_depth)
unfolding count_brace
count-cases b d = elim (Bool-cases (b =ℕ= b'{')) [
  | inl e ↦ elim (Bool-cases (ltb (d.shut + d.max_depth) (suc d.opened))) [
    | inl g ↦ inr (ground (arith, e, g))
    | inr g ↦ inl (ground (arith, e, g))
  ]
  | inr e ↦ inl (ground (arith, e))
]

count-depth :
    (b : ℕ) (d : Depth) (s : Text)
    → ((count_brace b d).opened + opens s ≡ d.opened + opens (b ∷ s))
      × ((count_brace b d).shut + closes s ≡ d.shut + closes (b ∷ s))
unfolding count_brace opens closes
count-depth b d s = (ground arith, ground arith)

depth-Attained : (s : Text) (d : Depth) → Attained s d
unfolding depth_of opens closes
depth-Attained [] d = inl refl
depth-Attained (b ∷ s) d = elim (depth-Attained s (count_brace b d)) [
  | inr (p, q, e, h) ↦
      let (o, c) = count-depth b d p in
      inr (b ∷ p, q, ap (λ (x : Text). b ∷ x) e, ground (arith, h, o, c))
  | inl same ↦ elim (count-cases b d) [
    | inl kept ↦ inl (same ∙ kept)
    | inr top ↦
        let (o, c) = count-depth b d [] in inr (b ∷ [], s, refl, ground (arith, same, top, o, c))
  ]
]

-- The depth that is found is the greatest, over all beginnings of the text, of the number of opening
-- braces less that of the closing ones: no beginning has more, and where it is not zero some
-- beginning has as many.
pub depth-greatest :
    (s : Text)
    → ((p q : Text) → s ≡ p ++ q → opens p ≤ closes p + (depth_of s no_depth).max_depth)
      × (((depth_of s no_depth).max_depth ≡ 0)
          ⊎ ((p q : Text) × (s ≡ p ++ q) × (opens p ≡ closes p + (depth_of s no_depth).max_depth)))
depth-greatest s = (
  λ p q e.
      subst (λ (x : Text). opens p ≤ closes p + (depth_of x no_depth).max_depth) (sym e)
        (omega (arith, depth-above p q no_depth (omega arith))),
  elim (depth-Attained s no_depth) [
    | inl z ↦ inl z
    | inr (p, q, e, h) ↦ inr (p, q, e, omega (arith, h))
  ],
)

shut-first :
    (k : ℕ) (s : Text) (d : Depth)
    → depth_of (replicate k b'}' ++ s) d ≡ depth_of s (record d { shut = k + d.shut })
unfolding depth_of
shut-first zero s d = ap (λ (n : ℕ). depth_of s (record d { shut = n })) (omega arith)
shut-first (suc k) s d =
    shut-first k s (count_brace b'}' d)
    ∙ ap (λ (n : ℕ). depth_of s (record d { shut = n })) (omega arith)

opens-only :
    (n : ℕ) (d : Depth)
    → d.opened + n ≤ d.shut
    → (depth_of (replicate n b'{') d).max_depth ≡ d.max_depth
unfolding depth_of
opens-only zero d h = refl
opens-only (suc n) d h =
    opens-only n (count_brace b'{' d) (ground (arith, h, count_brace))
    ∙ (ground (arith, h, count_brace))

-- Closing braces at the front hide as many levels of nesting: whatever the limit, a body of so many
-- closing braces and then no more opening ones has depth zero.
pub depth-masked :
    (k n : ℕ) → n ≤ k → (depth_of (replicate k b'}' ++ replicate n b'{') no_depth).max_depth ≡ 0
depth-masked k n h =
    ap (λ (d : Depth). d.max_depth) (shut-first k (replicate n b'{') no_depth)
    ∙ opens-only n (record no_depth { shut = k + 0 }) (omega (arith, h))
