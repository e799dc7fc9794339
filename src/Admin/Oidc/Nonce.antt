-- ===== src/Admin/Oidc/Nonce.antt =====
-- The callback asks for the nonce of the login, which the login never stores.
use anti_bot_gw.Common.{
  ℕ, false, ltb, if◌then◌else◌, ◌||◌, Option, none, some, [], nat_eq, list_eq, ◌≡◌, refl, arith,
  Bool-cases, inl, inr,
}
use anti_bot_gw.Common.Dict.{get, remove, mem, Unique}
use anti_bot_gw.Common.Dict.Laws.{
  get-put, get-remove, get-evict, put-Unique, remove-Unique, evict-Unique,
}
use anti_bot_gw.Challenge.Decimal.{Text}
use anti_bot_gw.Challenge.Pow.{is_nil}
use anti_bot_gw.Admin.Oidc.{
  Reply, ok, bad_status, times_out, unreachable, Tokens, Header, Jwk, Claims, Provider, Config,
  Entry, States, purge_expired_states, nonce_matches, bind_nonce, verify_with, verify_header,
  verify_id_token, key_for,
}
use anti_bot_gw.Admin.Oidc.Callback.{
  oidc_login, Query, World, Request, with_tokens, with_state, oidc_callback,
}

pub data Step : World → World → Type 0 where
  logs_in :
      (cfg : Config) (now : ℕ) (state next_url : Text) (w : World)
      → Step w (record w { states = oidc_login cfg now state next_url w.states })
  calls_back :
      (cfg : Config) (idp : Provider) (req : Request) (q : Query) (w : World)
      → Step w (oidc_callback cfg idp req q w).0

pub data Reach (v : World) : World → Type 0 where
  here : Reach v v
  next : {w x : World} → Reach v w → Step w x → Reach v x

abbrev nonce_at : Option Entry → Option Text
nonce_at none = none
nonce_at (some e) = e.nonce

-- No state has a nonce.
abbrev NoNonce : States → Type 0
NoNonce d = Unique d × ((k : Text) → nonce_at (get k d) ≡ none)

no_states : NoNonce []
unfolding get
no_states = (tt, λ k. refl)

purge-NoNonce : (now : ℕ) (d : States) → NoNonce d → NoNonce (purge_expired_states now d)
unfolding purge_expired_states
purge-NoNonce now d (u, n) = (
  evict-Unique _ d u,
  λ k. rw (get-evict (λ _ e. ltb e.expires_ts now) k d u) (kept (get k d) (n k)),
)
  where
    kept :
        (o : Option Entry)
        → nonce_at o ≡ none
        → nonce_at (elim o [ none ↦ none | some e ↦ if ltb e.expires_ts now then none else some e ])
          ≡ none
    kept none h = refl
    kept (some e) h = ground (arith, h)

login-NoNonce :
    (cfg : Config) (now : ℕ) (state next_url : Text) (d : States)
    → NoNonce d
    → NoNonce (oidc_login cfg now state next_url d)
unfolding oidc_login
login-NoNonce cfg now state next_url d g =
    let (u, n) = purge-NoNonce now d g in
    (
      put-Unique state _ (purge_expired_states now d) u,
      λ k. rw (get-put state k _ (purge_expired_states now d)) (ground (arith, n k)),
    )

remove-NoNonce : (state : Text) (d : States) → NoNonce d → NoNonce (remove state d)
remove-NoNonce state d (u, n) =
    (remove-Unique state d u, λ k. rw (get-remove state k d) (ground (arith, n k)))

bound_none : (o : Option Claims) → bind_nonce none o ≡ none
unfolding nonce_matches
bound_none none = refl
bound_none (some claims) = refl

with_none : (idp : Provider) (token : Text) (o : Option Jwk) → verify_with idp token none o ≡ none
with_none idp token none = refl
with_none idp token (some jwk) = bound_none (idp.decode token jwk.key)

header_none :
    (cfg : Config) (idp : Provider) (token : Text) (o : Option Header)
    → verify_header cfg idp token none o ≡ none
header_none cfg idp token none = refl
header_none cfg idp token (some h) = elim (Bool-cases (mem h.alg cfg.allowed_algs)) [
  | inl allowed ↦ rw allowed (with_none idp token (key_for idp h.kid (idp.jwks false)))
  | inr other ↦ rw other refl
]

-- Without a nonce to compare with, no token is accepted.
pub verify_none :
    (cfg : Config) (idp : Provider) (token : Text) → verify_id_token cfg idp token none ≡ none
unfolding verify_id_token
verify_none cfg idp token = header_none cfg idp token (idp.header token)

-- The callback leaves the sessions and the accounts of this world.
abbrev Leaves : World → World → Type 0
Leaves w x = (x.store ≡ w.store) × (x.users ≡ w.users) × (x.states ≡ w.states)

tokens_Leaves :
    (cfg : Config) (idp : Provider) (req : Request) (e : Entry) (r : Reply Tokens) (w : World)
    → e.nonce ≡ none
    → Leaves w (with_tokens cfg idp req e r w).0
tokens_Leaves cfg idp req e times_out w n = (refl, refl, refl)
tokens_Leaves cfg idp req e unreachable w n = (refl, refl, refl)
tokens_Leaves cfg idp req e bad_status w n = (refl, refl, refl)
tokens_Leaves cfg idp req e (ok t) w n = elim (Bool-cases (is_nil t.access_token)) [
  | inl missing ↦ rw missing (refl, refl, refl)
  | inr access ↦ elim (Bool-cases (is_nil t.id_token)) [
    | inl missing ↦ rw (access, missing) (refl, refl, refl)
    | inr id ↦ rw (access, id, n, verify_none cfg idp t.id_token) (refl, refl, refl)
  ]
]

state_Leaves :
    (cfg : Config) (idp : Provider) (req : Request) (code : Text) (o : Option Entry) (w : World)
    → nonce_at o ≡ none
    → Leaves w (with_state cfg idp req code o w).0
state_Leaves cfg idp req code none w n = (refl, refl, refl)
state_Leaves cfg idp req code (some e) w n = elim (Bool-cases (ltb e.expires_ts req.now)) [
  | inl over ↦ rw over (refl, refl, refl)
  | inr on ↦ rw on (tokens_Leaves cfg idp req e (idp.exchange code) w n)
]

-- A callback with states that have no nonce creates nothing, and leaves them so.
callback_Leaves :
    (cfg : Config) (idp : Provider) (req : Request) (q : Query) (w : World)
    → NoNonce w.states
    → ((oidc_callback cfg idp req q w).0.store ≡ w.store)
      × ((oidc_callback cfg idp req q w).0.users ≡ w.users)
      × NoNonce (oidc_callback cfg idp req q w).0.states
unfolding oidc_callback
callback_Leaves cfg idp req q w g =
    let clean = purge-NoNonce req.now w.states g in
    let purged : World = record w { states = purge_expired_states req.now w.states } in
    let popped : World = record purged { states = remove q.state purged.states } in
    elim (Bool-cases (is_nil q.error)) [
      | inr failed ↦ rw failed (refl, refl, clean)
      | inl fine ↦ elim (Bool-cases (is_nil q.code || is_nil q.state)) [
        | inl missing ↦ rw (fine, missing) (refl, refl, clean)
        | inr given ↦
            let (store, users, states) =
              state_Leaves cfg idp req q.code (get q.state purged.states) popped
                (clean.1 q.state) in
            rw (fine, given) (store, users, rw states (remove-NoNonce q.state purged.states clean))
      ]
    ]

Step-NoNonce : {w x : World} → Step w x → NoNonce w.states → NoNonce x.states
Step-NoNonce (logs_in cfg now state next_url w) g = login-NoNonce cfg now state next_url w.states g
Step-NoNonce (calls_back cfg idp req q w) g = (callback_Leaves cfg idp req q w g).2

Reach-NoNonce : {v w : World} → Reach v w → NoNonce v.states → NoNonce w.states
Reach-NoNonce here g = g
Reach-NoNonce (next r st) g = Step-NoNonce st (Reach-NoNonce r g)

-- Single sign-on signs nobody in: from a start without states, whatever logins and callbacks have
-- been, and whatever the identity provider answers, a callback creates no session and no account,
-- since the login stores no nonce and the callback wants one.
pub oidc_signs_nobody_in :
    {v w : World}
    → Reach v w
    → (cfg : Config) (idp : Provider) (req : Request) (q : Query) → v.states ≡ []
    → ((oidc_callback cfg idp req q w).0.store ≡ w.store)
      × ((oidc_callback cfg idp req q w).0.users ≡ w.users)
oidc_signs_nobody_in {v = v} {w = w} r cfg idp req q empty =
    let start : NoNonce v.states = rw empty no_states in
    let (store, users, states) = callback_Leaves cfg idp req q w (Reach-NoNonce r start) in
    (store, users)
