-- ===== src/Admin/Addresses/History.antt =====
-- admin/auth.py: sequences of operations on the list of addresses.
use anti_bot_gw.Common.{
  ℕ, true, false, not, Option, none, some, List, [], ◌∷◌, ◌++◌, map, any, filter, nat_eq, list_eq,
  ◌≡◌, ◌≢◌, refl, sym, ap, ◌∙◌, arith, Bool-cases, inl, inr, beq_refl,
}
use mathlib.Core.Path.{subst}
use anti_bot_gw.Admin.Strip.{strip}
use anti_bot_gw.Challenge.Decimal.{Text}
use anti_bot_gw.Challenge.Pow.{is_nil}
use anti_bot_gw.Endpoint.Rules.{Addresses}
use anti_bot_gw.Admin.Addresses.{
  Entry, State, Queue, Message, ok, queue_full, named, admin_ip_allowed, proxy_admin_ip_allowed,
  rebuild_nets, ip_add, ip_update_description, ip_remove, commit, add_entry, add_net, remove_net,
  push, clean, Write,
}
use anti_bot_gw.Admin.Addresses.Gate.{
  Distinct, Agrees, ip_add-Agrees, update_net-Agrees, remove_net-Agrees,
}

filter_added :
    (c : Text) (es : List Entry) (e : Entry)
    → any (named c) es ≡ false
    → named c e ≡ true
    → (filter (λ x. not (named c x)) (es ++ e ∷ []) ≡ es) × (any (named c) (es ++ e ∷ []) ≡ true)
unfolding any filter
filter_added c [] e new it = ground (arith, it)
filter_added c (x ∷ es) e new it =
    let (gone, there) = filter_added c es e (ground (arith, new)) it in
    ground (arith, new, gone, there)

module _ (lib : Addresses) (str : lib.Network → Text) where
  open lib use {Network, ip_network}

  pub data Step : State Network → State Network → Type 0 where
    adds :
        (now : ℕ) (cidr note source description : Text) (s : State Network)
        → Step s (ip_add lib str now cidr note source description s).0
    updates :
        (cidr description : Text) (s : State Network)
        → Step s (ip_update_description lib str cidr description s).0
    removes : (cidr : Text) (s : State Network) → Step s (ip_remove lib str cidr s).0

  pub data Reach (s : State Network) : State Network → Type 0 where
    here : Reach s s
    next : {t u : State Network} → Reach s t → Step t u → Reach s u

  Step-Agrees : {s t : State Network} → Step s t → Agrees lib str s → Agrees lib str t
  unfolding ip_update_description ip_remove
  Step-Agrees (adds now cidr note source description s) agrees =
      ip_add-Agrees lib str now cidr note source description s agrees
  Step-Agrees (updates cidr description s) agrees =
      update_net-Agrees lib str (clean 500 description) (ip_network (strip cidr)) s agrees
  Step-Agrees (removes cidr s) agrees = remove_net-Agrees lib str (ip_network (strip cidr)) s agrees

  Reach-Agrees : {s t : State Network} → Reach s t → Agrees lib str s → Agrees lib str t
  Reach-Agrees here agrees = agrees
  Reach-Agrees (next r step) agrees = Step-Agrees step (Reach-Agrees r agrees)

  -- ipaddress reads back what it prints.
  abbrev pub ReadsBack : Type 0
  ReadsBack = (net : Network) → ip_network (str net) ≡ some net

  map-rebuild_nets :
      (es : List Entry)
      → ReadsBack
      → Distinct lib str es
      → map (λ (e : Entry). e.cidr) es ≡ map str (rebuild_nets lib str es)
  unfolding rebuild_nets
  map-rebuild_nets [] back good = refl
  map-rebuild_nets (e ∷ es) back ((net, is), apart, good) =
      rw (ap ip_network is ∙ back net, is, map-rebuild_nets es back good) refl

  -- From a list without two entries for one network, all in their standard spelling, that the gate
  -- reads (an empty list is one): after any additions, removals and changes of descriptions the
  -- entries are, in order, the networks that the gate reads, and no network has two, where ipaddress
  -- reads back the networks it prints.
  pub entries_are_nets :
      {s t : State Network}
      → ReadsBack
      → Agrees lib str s
      → Reach s t
      → (map (λ (e : Entry). e.cidr) t.entries ≡ map str t.nets) × Distinct lib str t.entries
  entries_are_nets {t = t} back agrees r =
      let (good, reads) = Reach-Agrees r agrees in
      (map-rebuild_nets t.entries back good ∙ ap (map str) (sym reads), good)

  commit_ok :
      (es : List Entry) (o : Option (Option Queue)) (s : State Network)
      → (commit lib str es o s).1 ≢ queue_full
      → ((commit lib str es o s).1 ≡ ok)
        × ((commit lib str es o s).0.entries ≡ es)
        × ((commit lib str es o s).0.nets ≡ rebuild_nets lib str es)
  commit_ok es none s room = absurd (room refl)
  commit_ok es (some q) s room = (refl, refl, refl)

  -- An addition that goes through puts a new entry at the end.
  Added : Text → State Network → State Network → Type 0
  Added cidr s t =
      (net : Network) × (e : Entry) × (ip_network (strip cidr) ≡ some net)
      × (e.cidr ≡ str net)
      × (any (named (str net)) s.entries ≡ false)
      × (t.entries ≡ s.entries ++ e ∷ [])

  commit_inv :
      (es : List Entry) (o : Option (Option Queue)) (s t : State Network)
      → commit lib str es o s ≡ (t, ok)
      → t.entries ≡ es
  commit_inv es none s t h = absurd (ground (arith, h))
  commit_inv es (some q) s t h = sym (ap (λ (x : State Network × Message). x.0.entries) h)

  add_entry_inv :
      (e : Entry) (s t : State Network)
      → add_entry lib str e s ≡ (t, ok)
      → (any (named e.cidr) s.entries ≡ false) × (t.entries ≡ s.entries ++ e ∷ [])
  add_entry_inv e s t h = elim (Bool-cases (any (named e.cidr) s.entries)) [
    | inl old ↦ absurd (ground (arith, h, old))
    | inr new ↦ (
      new,
      commit_inv (s.entries ++ e ∷ [])
          (push (Write.admin_ip_add e.cidr e.added_ts e.note e.source e.description) s.queue) s t
          (ground (arith, h, new)),
    )
  ]

  add_net_inv :
      (now : ℕ) (cidr note source description : Text) (o : Option Network) (s t : State Network)
      → ip_network (strip cidr) ≡ o
      → add_net lib str now note source description o s ≡ (t, ok)
      → Added cidr s t
  unfolding Added
  add_net_inv now cidr note source description none s t is h = absurd (ground (arith, h))
  add_net_inv now cidr note source description (some net) s t is h =
      let (new, last) = add_entry_inv _ s t h in (net, _, is, refl, new, last)

  ip_add_inv :
      (now : ℕ) (cidr note source description : Text) (s t : State Network)
      → ip_add lib str now cidr note source description s ≡ (t, ok)
      → Added cidr s t
  unfolding ip_add
  ip_add_inv now cidr note source description s t h = elim (Bool-cases (is_nil (strip cidr))) [
    | inl empty ↦ absurd (ground (arith, h, empty))
    | inr given ↦ add_net_inv now cidr note source description _ s t refl (ground (arith, h, given))
  ]

  others : Network → List Entry → List Entry
  others net es = filter (λ x. not (named (str net) x)) es

  ip_remove_listed :
      (cidr : Text) (net : Network) (t : State Network)
      → ip_network (strip cidr) ≡ some net
      → any (named (str net)) t.entries ≡ true
      → ip_remove lib str cidr t
        ≡ commit lib str (others net t.entries) (push (Write.admin_ip_remove (str net)) t.queue) t
  unfolding ip_remove others
  ip_remove_listed cidr net t is listed = rw (is, remove_net, listed) refl

  -- On a list that is in order and that the gate reads, the removal of a network that was just added
  -- takes back the addition, for the list and for the gate, if the queue takes the write.
  pub remove-add :
      (now : ℕ) (cidr note source description : Text) (s t : State Network)
      → Agrees lib str s
      → ip_add lib str now cidr note source description s ≡ (t, ok)
      → (ip_remove lib str cidr t).1 ≢ queue_full
      → ((ip_remove lib str cidr t).1 ≡ ok)
        × ((ip_remove lib str cidr t).0.entries ≡ s.entries)
        × ((ip_remove lib str cidr t).0.nets ≡ s.nets)
  unfolding Added others
  remove-add now cidr note source description s t (good, reads) h room =
      let (net, e, is, of_e, new, last) = ip_add_inv now cidr note source description s t h in
      let (gone, there) = filter_added (str net) s.entries e new (rw of_e (beq_refl (str net))) in
      let left : others net t.entries ≡ s.entries = rw last gone in
      let eq = ip_remove_listed cidr net t is (rw last there) in
      let (done, entries, nets) =
        commit_ok (others net t.entries) _ t
          (subst (λ (x : State Network × Message). x.1 ≢ queue_full) eq room) in
      rw eq (done, entries ∙ left, nets ∙ ap (rebuild_nets lib str) left ∙ sym reads)

  commit_nets :
      (es : List Entry) (o : Option (Option Queue)) (s t : State Network)
      → commit lib str es o s ≡ (t, ok)
      → t.nets ≡ rebuild_nets lib str es
  commit_nets es none s t h = absurd (ground (arith, h))
  commit_nets es (some q) s t h = sym (ap (λ (x : State Network × Message). x.0.nets) h)

  remove_net_inv :
      (o : Option Network) (s t : State Network)
      → remove_net lib str o s ≡ (t, ok)
      → (net : Network) × (any (named (str net)) s.entries ≡ true)
        × (t.nets ≡ rebuild_nets lib str (others net s.entries))
  unfolding others
  remove_net_inv none s t h = absurd (ground (arith, h))
  remove_net_inv (some net) s t h = elim (Bool-cases (any (named (str net)) s.entries)) [
    | inl listed ↦ (
      net,
      listed,
      commit_nets _ (push (Write.admin_ip_remove (str net)) s.queue) s t
          (ground (arith, h, listed)),
    )
    | inr absent ↦ absurd (ground (arith, h, absent))
  ]

  -- When the only entry is removed, the gate of admin/auth.py lets every address in; that of proxy.py
  -- lets none in.
  pub last_removal_opens :
      (cidr ip : Text) (e : Entry) (s t : State Network)
      → s.entries ≡ e ∷ []
      → ip_remove lib str cidr s ≡ (t, ok)
      → (admin_ip_allowed lib str t.nets ip ≡ true)
        × (proxy_admin_ip_allowed lib str t.nets ip ≡ false)
  unfolding ip_remove others any filter rebuild_nets admin_ip_allowed proxy_admin_ip_allowed
  last_removal_opens cidr ip e s t only h =
      let (net, listed, nets) = remove_net_inv (ip_network (strip cidr)) s t h in
      let it : named (str net) e ≡ true = ground (arith, only, listed) in
      let none_left : t.nets ≡ [] = nets ∙ rw (only, it) refl in rw none_left (refl, refl)
