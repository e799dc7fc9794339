-- ===== src/Admin/Addresses/Gate.antt =====
-- admin/auth.py: the order that the list of addresses keeps, operation by operation.
use anti_bot_gw.Common.{
  ℕ, Bool, false, Option, none, some, List, [], ◌∷◌, ◌++◌, any, filter, ◌==◌, nat_eq, list_eq,
  list_beq_iff, ◌≡◌, refl, sym, ap, ◌∙◌, arith, Bool-cases, inl, inr, beq_refl,
}
use anti_bot_gw.Admin.Strip.{strip}
use anti_bot_gw.Challenge.Decimal.{Text}
use anti_bot_gw.Challenge.Pow.{is_nil}
use anti_bot_gw.Endpoint.Rules.{Addresses}
use anti_bot_gw.Admin.Addresses.{
  Entry, State, Queue, named, rebuild_nets, prepend, ip_add, describe, commit, add_entry, add_net,
  describe_in, update_net, remove_net,
}

same_sym : (a b : Text) → (a == b) ≡ false → (b == a) ≡ false
same_sym a b h = elim (Bool-cases (b == a)) [
  | inl eq ↦ let e : b ≡ a = (list_beq_iff b a).0 eq in absurd (ground (arith, h, e, beq_refl a))
  | inr ne ↦ ne
]

any-filter : (p q : Entry → Bool) (es : List Entry) → any p es ≡ false → any p (filter q es) ≡ false
unfolding any filter
any-filter p q [] h = refl
any-filter p q (e ∷ es) h = ground (arith, h, any-filter p q es)

any-append :
    (p : Entry → Bool) (es : List Entry) (e : Entry)
    → any p es ≡ false
    → p e ≡ false
    → any p (es ++ e ∷ []) ≡ false
unfolding any
any-append p [] e h k = ground (arith, k)
any-append p (x ∷ es) e h k = ground (arith, h, any-append p es e, k)

module _ (lib : Addresses) (str : lib.Network → Text) where
  open lib use {Network, ip_network}

  -- Every entry names a network in its standard spelling, and no two the same.
  abbrev pub Distinct : List Entry → Type 0
  Distinct [] = Unit
  Distinct (e ∷ es) =
      ((net : Network) × (e.cidr ≡ str net)) × (any (named e.cidr) es ≡ false) × Distinct es

  Distinct-append :
      (es : List Entry) (e : Entry)
      → (net : Network) × (e.cidr ≡ str net)
      → any (named e.cidr) es ≡ false
      → Distinct es
      → Distinct (es ++ e ∷ [])
  unfolding any
  Distinct-append [] e given new good = (given, refl, tt)
  Distinct-append (x ∷ es) e given new (of_x, apart, good) = (
    of_x,
    any-append (named x.cidr) es e apart (same_sym x.cidr e.cidr (ground (arith, new))),
    Distinct-append es e given (ground (arith, new)) good,
  )

  Distinct-filter : (p : Entry → Bool) (es : List Entry) → Distinct es → Distinct (filter p es)
  unfolding filter
  Distinct-filter p [] good = tt
  Distinct-filter p (e ∷ es) (of_e, apart, good) = elim (Bool-cases (p e)) [
    | inl keep ↦ rw keep (of_e, any-filter (named e.cidr) p es apart, Distinct-filter p es good)
    | inr leave ↦ rw leave (Distinct-filter p es good)
  ]

  any-describe :
      (c canon description : Text) (es : List Entry)
      → any (named c) (describe lib str canon description es) ≡ any (named c) es
  unfolding any describe
  any-describe c canon description [] = refl
  any-describe c canon description (e ∷ es) = ground (arith, any-describe c canon description es)

  Distinct-describe :
      (canon description : Text) (es : List Entry)
      → Distinct es
      → Distinct (describe lib str canon description es)
  unfolding describe
  Distinct-describe canon description [] good = tt
  Distinct-describe canon description (e ∷ es) (of_e, apart, good) =
      elim (Bool-cases (named canon e)) [
        | inl keep ↦ rw keep (of_e, apart, good)
        | inr leave ↦ rw leave (
          of_e,
          any-describe e.cidr canon description es ∙ apart,
          Distinct-describe canon description es good,
        )
      ]

  rebuild_nets-describe :
      (canon description : Text) (es : List Entry)
      → rebuild_nets lib str (describe lib str canon description es) ≡ rebuild_nets lib str es
  unfolding describe rebuild_nets
  rebuild_nets-describe canon description [] = refl
  rebuild_nets-describe canon description (e ∷ es) = elim (Bool-cases (named canon e)) [
    | inl keep ↦ rw keep refl
    | inr leave ↦
        rw leave
          (ap (prepend lib str (ip_network e.cidr)) (rebuild_nets-describe canon description es))
  ]

  -- The list is in order, and the gate reads it.
  abbrev pub Agrees : State Network → Type 0
  Agrees s = Distinct s.entries × (s.nets ≡ rebuild_nets lib str s.entries)

  commit-Agrees :
      (es : List Entry) (o : Option (Option Queue)) (s : State Network)
      → Distinct es
      → Agrees s
      → Agrees (commit lib str es o s).0
  commit-Agrees es none s good agrees = agrees
  commit-Agrees es (some q) s good agrees = (good, refl)

  add_entry-Agrees :
      (e : Entry) (s : State Network)
      → (net : Network) × (e.cidr ≡ str net)
      → Agrees s
      → Agrees (add_entry lib str e s).0
  add_entry-Agrees e s given agrees = elim (Bool-cases (any (named e.cidr) s.entries)) [
    | inl old ↦ rw (add_entry, old) agrees
    | inr new ↦
        rw (add_entry, new)
          (commit-Agrees (s.entries ++ e ∷ []) _ s (Distinct-append s.entries e given new agrees.0)
            agrees)
  ]

  add_net-Agrees :
      (now : ℕ) (note source description : Text) (o : Option Network) (s : State Network)
      → Agrees s
      → Agrees (add_net lib str now note source description o s).0
  add_net-Agrees now note source description none s agrees = agrees
  add_net-Agrees now note source description (some net) s agrees =
      add_entry-Agrees _ s (net, refl) agrees

  pub ip_add-Agrees :
      (now : ℕ) (cidr note source description : Text) (s : State Network)
      → Agrees s
      → Agrees (ip_add lib str now cidr note source description s).0
  unfolding ip_add
  ip_add-Agrees now cidr note source description s agrees =
      elim (Bool-cases (is_nil (strip cidr))) [
        | inl empty ↦ rw empty agrees
        | inr given ↦
            rw given (add_net-Agrees now note source description (ip_network (strip cidr)) s agrees)
      ]

  describe_in-Agrees :
      (canon description : Text) (o : Option (Option Queue)) (s : State Network)
      → Agrees s
      → Agrees (describe_in lib str canon description o s).0
  describe_in-Agrees canon description none s agrees = agrees
  describe_in-Agrees canon description (some q) s (good, reads) = (
    Distinct-describe canon description s.entries good,
    reads ∙ sym (rebuild_nets-describe canon description s.entries),
  )

  pub update_net-Agrees :
      (description : Text) (o : Option Network) (s : State Network)
      → Agrees s
      → Agrees (update_net lib str description o s).0
  update_net-Agrees description none s agrees = agrees
  update_net-Agrees description (some net) s agrees =
      elim (Bool-cases (any (named (str net)) s.entries)) [
        | inl listed ↦ rw (update_net, listed) (describe_in-Agrees (str net) description _ s agrees)
        | inr absent ↦ rw (update_net, absent) agrees
      ]

  pub remove_net-Agrees :
      (o : Option Network) (s : State Network) → Agrees s → Agrees (remove_net lib str o s).0
  remove_net-Agrees none s agrees = agrees
  remove_net-Agrees (some net) s agrees = elim (Bool-cases (any (named (str net)) s.entries)) [
    | inl listed ↦
        rw (remove_net, listed) (commit-Agrees _ _ s (Distinct-filter _ s.entries agrees.0) agrees)
    | inr absent ↦ rw (remove_net, absent) agrees
  ]
