-- ===== src/RateLimit/Prune/Identities/Drop.antt =====
-- What the deletion loops do: they drop the listed identities and no other, and never raise.
use anti_bot_gw.Common.{
  suc, ◌+◌, true, none, some, List, [], ◌∷◌, if◌then◌else◌, length, String, ◌==◌, ◌≡◌, refl, arith,
  string_eq, beq_refl, ◌∙◌,
}
use anti_bot_gw.Common.Dict.{get, member, remove, mem}
use anti_bot_gw.Common.Dict.Laws.{get-remove, remove-Unique, length-remove}
use anti_bot_gw.Common.Dict.Present.{Present, Present-remove}
use anti_bot_gw.Common.Sort.Keyed.{Distinct}
use anti_bot_gw.State.IpState.{IpState}
use anti_bot_gw.State.Table.{delitem, IsValid}
use anti_bot_gw.State.Table.Laws.{found, settled, getitem-settled}
use anti_bot_gw.State.Table.Valid.{get-settled, settled-IsValid, length-settled}
use anti_bot_gw.RateLimit.Prune.Identities.{Identities, unlist, drop_identity, drop_identities}

drop_one :
    (fresh : IpState) (k : String) (st : Identities)
    → IsValid st.ip_state
    → member k st.ip_state.entries ≡ true
    → (st' : Identities) × (drop_identity fresh k st ≡ some st')
      × IsValid st'.ip_state
      × ((j : String)
          → get j st'.ip_state.entries ≡ (if k == j then none else get j st.ip_state.entries))
      × (suc (length st'.ip_state.entries) ≡ length st.ip_state.entries)
unfolding drop_identity delitem
drop_one fresh k st valid here =
    let t = st.ip_state in
    let d = settled k fresh t in
    let ok = settled-IsValid k fresh t valid in
    let here' : get k d ≡ some (found k fresh t) =
      get-settled k k fresh t valid ∙ (rw (beq_refl k)) in
    (
      record {
        ip_state = record t { entries = remove k d };
        ip_to_identities = unlist k (found k fresh t).last_ip st.ip_to_identities;
      },
      ground (arith, getitem-settled k fresh t valid.positive, here'),
      record {
        positive = valid.positive;
        bounded = omega (arith, length-remove k d ok.unique, ok.bounded);
        unique = remove-Unique k d ok.unique;
      },
      λ j. ground (arith, get-remove k j d, get-settled k j fresh t valid),
      ground (arith, length-remove k d ok.unique, here', length-settled k fresh t valid),
    )

pub drop_identities_lem :
    (fresh : IpState) (ks : List String) (st : Identities)
    → IsValid st.ip_state
    → Distinct ks
    → Present st.ip_state.entries ks
    → (st' : Identities) × (drop_identities fresh ks st ≡ some st')
      × IsValid st'.ip_state
      × ((j : String)
          → get j st'.ip_state.entries ≡ (if mem j ks then none else get j st.ip_state.entries))
      × (length st'.ip_state.entries + length ks ≡ length st.ip_state.entries)
unfolding drop_identities mem
drop_identities_lem fresh [] st valid u p = (st, refl, valid, λ j. refl, omega arith)
drop_identities_lem fresh (k ∷ ks) st valid u p =
    let (st₁, e₁, valid₁, g₁, l₁) = drop_one fresh k st valid p.0 in
    let (st₂, e₂, valid₂, g₂, l₂) =
      drop_identities_lem fresh ks st₁ valid₁ u.1
        (Present-remove k ks st.ip_state.entries st₁.ip_state.entries g₁ u.0 p.1) in
    (st₂, rw e₁ e₂, valid₂, λ j. ground (arith, g₁ j, g₂ j), omega arith)
