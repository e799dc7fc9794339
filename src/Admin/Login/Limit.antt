-- ===== src/Admin/Login/Limit.antt =====
-- A login keeps the number of a user's live sessions within the limit.
use anti_bot_gw.Common.{
  ℕ, suc, ◌-◌, min, max, false, leb, Option, none, some, List, length, take, nat_eq, list_eq,
  String, ◌≡◌, refl, arith, ap, ◌∙◌, Bool-cases, inl, inr, is_some,
}
use anti_bot_gw.Common.Dict.{get, put, member, Unique}
use anti_bot_gw.Challenge.Decimal.{Text}
use anti_bot_gw.Admin.Store.{Session, Store, put_or_drop}
use anti_bot_gw.Admin.Store.Write.{user_login_recorded}
use anti_bot_gw.Admin.Sessions.{revoke_all, enforce_session_limit, system, oldest_excess, active_of}
use anti_bot_gw.Admin.Sessions.Revocation.{cache-put_or_drop, get-revoke_all, revoked_entry}
use anti_bot_gw.Admin.Sessions.Limit.{live_count, enforce_session_limit_lem, create-live_count}
use anti_bot_gw.Admin.Login.{Config, start_session}

member-revoked_entry : (o : Option Session) → is_some (revoked_entry o) ≡ is_some o
member-revoked_entry none = refl
member-revoked_entry (some c) = refl

member-revoke_all :
    (now : ℕ) (by : Text) (sids : List Text) (j : Text) (s : Store)
    → member j (revoke_all now by sids s).cache ≡ member j s.cache
member-revoke_all now by sids j s =
    ground (arith, get-revoke_all now by sids j s, member-revoked_entry (get j s.cache))

member-enforce :
    (max_sess now : ℕ) (username j : Text) (s : Store)
    → member j (enforce_session_limit max_sess now username s).cache ≡ member j s.cache
unfolding enforce_session_limit
member-enforce max_sess now username j s =
    elim (Bool-cases (leb max_sess (length (active_of now username s.cache)))) [
      | inl over ↦ rw over (
          member-revoke_all now system (oldest_excess max_sess (active_of now username s.cache)) j
            s)
      | inr under ↦ rw under refl
    ]

within_limit : (n limit : ℕ) → suc (min n (limit - 1)) ≡ min (suc n) (max 1 limit)
within_limit n limit = omega arith

-- After a login the user has one live session more than before, or as many as the limit where that is
-- less; with a limit of zero it is one. (The new session's id is not in the cache.)
pub start_session-live_count :
    (cfg : Config) (now : ℕ) (sid : Text) (ip : String) (ua username : Text) (s : Store)
    → Unique s.cache
    → member sid s.cache ≡ false
    → live_count now username (start_session cfg now sid ip ua username s).0.cache
      ≡ min (suc (live_count now username s.cache)) (max 1 cfg.max_sessions)
unfolding start_session
start_session-live_count cfg now sid ip ua username s u fresh =
    let noted = put_or_drop (user_login_recorded now ip username) s in
    let marked : Store = record noted {
      active_sessions = put username now noted.active_sessions;
    } in
    let same : noted.cache ≡ s.cache = cache-put_or_drop (user_login_recorded now ip username) s in
    create-live_count now username cfg.crypto sid ip (take 512 ua)
      (enforce_session_limit cfg.max_sessions now username marked)
      (member-enforce cfg.max_sessions now username sid marked ∙ rw same fresh)
    ∙ ap suc
        (enforce_session_limit_lem now username cfg.max_sessions marked (rw same u) ∙ rw same refl)
    ∙ within_limit (live_count now username s.cache) cfg.max_sessions
