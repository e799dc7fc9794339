-- ===== src/Scoring/Ban/Laws.antt =====
-- What `ban` leaves behind, for later requests and in the shared store.
use anti_bot_gw.Common.{
  ℕ, ◌+◌, ◌-◌, ◌<◌, true, some, [], ◌∷◌, ◌++◌, if◌then◌else◌, String, ◌==◌, ◌≡◌, arith, inl, inr,
  Option-cases, string_eq, beq_refl, ◌∙◌,
}
use anti_bot_gw.Common.Dict.{get}
use anti_bot_gw.State.IpState.{IpState}
use anti_bot_gw.State.Table.{IsValid}
use anti_bot_gw.State.Table.Laws.{found}
use anti_bot_gw.State.Table.Valid.{
  getitem_lem, after_with, with_state-after, after_with-IsValid, get-after_with,
}
use anti_bot_gw.Scoring.Ban.{
  given, Store, share_ban, vhost_scoped, local_ban, is_banned, raise_ban, apply_ban, ban_rows, ban,
}

module _ (fresh : IpState) (hostile_secs now wall secs : ℕ) (scope : String × String)
    (ip reason : String) (st : Store) where
  ip_state-ban_rows :
      (raw : String) (st' : Store)
      → (ban_rows hostile_secs scope ip raw wall secs (given reason) st').ip_state ≡ st'.ip_state
  unfolding ban_rows
  ip_state-ban_rows raw st' = ground arith

  shared-ban_rows :
      (raw : String) (st' : Store)
      → (ban_rows hostile_secs scope ip raw wall secs (given reason) st').shared_bans
        ≡ st'.shared_bans
  unfolding ban_rows
  shared-ban_rows raw st' = ground arith

  ban_lem :
      IsValid st.ip_state
      → (st₁ : Store) × (ban fresh hostile_secs scope now wall ip secs reason st ≡ some st₁)
        × IsValid st₁.ip_state
        × (get ip st₁.ip_state.entries
            ≡ some (apply_ban scope (now + secs) (found ip fresh st.ip_state)).0)
        × (st₁.shared_bans ≡ st.shared_bans ++ (ip, wall + secs, given reason) ∷ [])
  unfolding ban share_ban
  ban_lem valid =
      let f = apply_ban scope (now + secs) in
      let t = after_with ip fresh f st.ip_state in
      let e = with_state-after ip fresh f st.ip_state valid.positive in
      let v = after_with-IsValid ip fresh f st.ip_state valid in
      let here : get ip t.entries ≡ some (f (found ip fresh st.ip_state)).0 =
        get-after_with ip fresh f st.ip_state ip valid ∙ (rw (beq_refl ip)) in
      let (t', e', v', g') = getitem_lem ip fresh t v in
      let s = found ip fresh t in
      let raw = if s.last_ip == "" then ip else s.last_ip in
      let st' : Store = record st { ip_state = t' } in
      let rows = ban_rows hostile_secs scope ip raw wall secs (given reason) st' in
      let same = ip_state-ban_rows raw st' in
      (
        share_ban ip (wall + secs) (given reason) rows,
        rw e (rw e'),
        rw same v',
        rw same (ground (arith, g' ip, beq_refl ip, here)),
        rw (shared-ban_rows raw st'),
      )

  -- A ban under a virtual host's scope does not stay on that virtual host where there is a shared
  -- store: it is sent to the store under the identity alone, and with the expiry that the store
  -- then gives, a request of the identity in any other scope is found banned until that expiry.
  pub vhost_ban-leaks :
      (scope' : String × String) (now' wall' : ℕ)
      → IsValid st.ip_state
      → vhost_scoped scope ≡ true
      → wall' < wall + secs
      → (st₁ st₂ : Store) × (left : ℕ) × (ban fresh hostile_secs scope now wall ip secs reason st
          ≡ some st₁)
        × (st₁.shared_bans ≡ st.shared_bans ++ (ip, wall + secs, given reason) ∷ [])
        × (is_banned fresh scope' now' wall' (wall + secs) ip st₁ ≡ some (st₂, true, left))
  unfolding is_banned
  vhost_ban-leaks scope' now' wall' valid scoped soon =
      let (st₁, e, v, here, shared) = ban_lem valid in
      let (t, e₁, v₁, g₁) = getitem_lem ip fresh st₁.ip_state v in
      let s = found ip fresh st₁.ip_state in
      let until = now' + (wall + secs - wall') in
      let t' = after_with ip fresh (raise_ban until) t in
      let w = with_state-after ip fresh (raise_ban until) t v₁.positive in
      elim (Option-cases (local_ban scope' now' s)) [
        | inl quiet ↦ (
          st₁,
          record st₁ { ip_state = t' },
          wall + secs - wall',
          e,
          shared,
          ground (arith, e₁, quiet, w, soon),
        )
        | inr (left, l) ↦ (st₁, record st₁ { ip_state = t }, left, e, shared, ground (arith, e₁, l))
      ]
