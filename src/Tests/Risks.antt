-- ===== src/Tests/Risks.antt =====
-- The risk scores and the bans of scoring.py, at concrete inputs.
use anti_bot_gw.Common.{
  ap, sym, ◌∙◌, Option, none, some, ℕ, ◌+◌, ◌/◌, ◌<◌, ◌≤◌, ◌≢◌, Bool, true, some, [], ◌∷◌, ◌++◌,
  ◌≡◌, refl, arith, ltb, if◌then◌else◌, String, string_eq, ◌==◌, ◌↔◌,
}
use anti_bot_gw.Common.Dict.{get, put, mem}
use anti_bot_gw.State.IpState.{IpState, fresh}
use anti_bot_gw.State.Table.{Table, IsValid}
use anti_bot_gw.State.Table.Laws.{found}
use anti_bot_gw.Scoring.Signals.{should_run_signal, should_run_signal_mono}
use anti_bot_gw.Scoring.Signals.{
  IsOrder, signal_runtime_order, load_signal_order_cache, load-runtime-IsOrder,
}
use anti_bot_gw.Scoring.Decay.{Halving, decay_risk, fade}
use anti_bot_gw.Scoring.Ban.{given, Store, until_at, ban, is_banned, vhost_scoped}
use anti_bot_gw.Scoring.Ban.Laws.{vhost_ban-leaks}
use anti_bot_gw.Scoring.Risk.{
  Config, Request, threshold, ban_secs, update_risk_and_maybe_ban, weight_of, triggers, add_risk,
  eval_score, gate_open, members_at, counts_for_nat,
}
use anti_bot_gw.Scoring.Risk.Effect.{weight, at_ip, verdict, outcome, others, nat_count, update_lem}
use anti_bot_gw.Scoring.Risk.Lasts.{Spares}
use anti_bot_gw.Scoring.Risk.Standing
use anti_bot_gw.Scoring.Risk.Standing.{banned_after_hit}
use anti_bot_gw.RateLimit.Bucket.{Verdict}
use anti_bot_gw.RateLimit.Identity.{Taken, take_token}
use anti_bot_gw.Scoring.Risk.Decision.{prior, until_in, bans_iff, vhost_isolation}

abbrev signals : anti_bot_gw.Scoring.Signals.Config
signals = record {
  escalate_only = "canary-missing" ∷ [];
  second_order = "header-anomaly" ∷ [];
  escalation_threshold = 20_000;
  second_order_threshold = 5000;
}

-- a stand-in for the decay: half a minute takes half
half-le : (elapsed score : ℕ) → (if ltb elapsed 30_000 then score else score / 2) ≤ score
half-le elapsed score = ground arith

abbrev halving : Halving
halving = record {
  scale = λ elapsed score. if ltb elapsed 30_000 then score else score / 2;
  scale-le = half-le;
}

abbrev client : IpState
client = record (fresh 20 1 1000) {
  last_ip = "1.2.3.4";
  risk_score = 45_000;
  risk_by_reason = ("ua", 45_000) ∷ [];
  risk_by_vhost = ("a.example", 45_000) ∷ [];
}

abbrev store : Store
store = record {
  ip_state = record { entries = ("client", client) ∷ []; maxsize = 4 };
  ip_to_identities = ("1.2.3.4", "client" ∷ []) ∷ [];
  db_queue = some (record { items = []; maxsize = 10 });
  shared_bans = [];
}

ip_state-IsValid : IsValid store.ip_state
unfolding get
ip_state-IsValid = record { positive = omega arith; bounded = omega arith; unique = (refl, tt) }

abbrev newcomer : IpState
newcomer = fresh 20 2 2000

vhost_ban-leaks_example :
    (st₁ st₂ : Store) × (left : ℕ) × (ban newcomer 86_400_000
        ("vhost", "a.example")
        2000
        5000
        "client"
        60_000
        "manual"
        store
      ≡ some st₁)
    × (st₁.shared_bans ≡ store.shared_bans ++ ("client", 5000 + 60_000, given "manual") ∷ [])
    × (is_banned newcomer ("vhost", "b.example") 3000 6000 (5000 + 60_000) "client" st₁
        ≡ some (st₂, true, left))
unfolding vhost_scoped
vhost_ban-leaks_example =
    vhost_ban-leaks newcomer 86_400_000 2000 5000 60_000 ("vhost", "a.example") "client" "manual"
      store ("vhost", "b.example") 3000 6000 ip_state-IsValid refl (omega arith)

abbrev risk_settings : Config
risk_settings = record {
  halving = halving;
  risk_weights = ("ua", 10_000) ∷ ("log-only", 0) ∷ [];
  ban_threshold = 50_000;
  ban_threshold_nat = 100_000;
  nat_identities = 3;
  really_reasons = [];
  hostile_reasons = "ua" ∷ [];
  really_ban = 604_800_000;
  hostile_ban = 86_400_000;
  risk_ban = 3_600_000;
}

abbrev request : Request
request = record { overrides = []; scope = ("vhost", "a.example"); now = 2000; wall = 5000 }

weight-example : weight risk_settings request newcomer "client" "ua" "1.2.3.4" store ≢ 0
unfolding weight_of get
weight-example = omega arith

update_lem_example :
    (st' : Store) × (update_risk_and_maybe_ban risk_settings request newcomer "client" "ua"
        "1.2.3.4" store
      ≡ some (st', verdict risk_settings request newcomer "client" "ua" "1.2.3.4" store))
    × IsValid st'.ip_state
    × ((j : String)
        → get j st'.ip_state.entries ≡ (
            if "client" == j
            then some (outcome risk_settings request newcomer "client" "ua" "1.2.3.4" store)
            else others "client" store.ip_state j))
update_lem_example =
    update_lem risk_settings request newcomer "client" "ua" "1.2.3.4" store ip_state-IsValid
      weight-example

bans_iff_example :
    (st₁ : Store) × (hit : Bool) × (update_risk_and_maybe_ban risk_settings request newcomer
        "client" "ua" "1.2.3.4" store
      ≡ some (st₁, hit))
    × ((hit ≡ true) ↔ (
        (threshold risk_settings
            (at_ip risk_settings request newcomer "client" "ua" "1.2.3.4" store)
          ≤ prior risk_settings request (found "client" newcomer store.ip_state)
            + weight risk_settings request newcomer "client" "ua" "1.2.3.4" store)
        × (until_in request.scope (found "client" newcomer store.ip_state) ≤ request.now)))
bans_iff_example =
    bans_iff risk_settings request newcomer "client" "ua" "1.2.3.4" store ip_state-IsValid
      weight-example

verdict-example : verdict risk_settings request newcomer "client" "ua" "1.2.3.4" store ≡ true
unfolding triggers add_risk weight_of get put vhost_scoped eval_score gate_open threshold decay_risk
    fade nat_count counts_for_nat members_at fresh
verdict-example = refl

-- the state after the hit
abbrev after_hit : Store
after_hit =
    elim (update_risk_and_maybe_ban risk_settings request newcomer "client" "ua" "1.2.3.4" store) [
      | none ↦ store
      | some x ↦ x.0
    ]

hit_bans :
    update_risk_and_maybe_ban risk_settings request newcomer "client" "ua" "1.2.3.4" store
    ≡ some (after_hit, true)
unfolding mem
hit_bans =
    let (st', e, valid, g) =
      update_lem risk_settings request newcomer "client" "ua" "1.2.3.4" store ip_state-IsValid
        weight-example in
    let runs : update_risk_and_maybe_ban risk_settings request newcomer "client" "ua" "1.2.3.4"
          store
        ≡ some (st', true) =
      e ∙ ap (λ (b : Bool). some (st', b)) verdict-example in
    runs
    ∙ ap (λ (o : Option (Store × Bool)). some (elim o [ none ↦ store | some x ↦ x.0 ], true))
        (sym runs)

-- then another identity takes a token
abbrev taken : Option (Table IpState × Taken)
taken = take_token 3 500 newcomer 50_000 "other" after_hit.ip_state

abbrev table_after : Table IpState
table_after = elim taken [ none ↦ after_hit.ip_state | some p ↦ p.0 ]

abbrev answer_after : Taken
answer_after = elim taken [
  | none ↦ record { verdict = Verdict.allow; tokens_remaining = 0 }
  | some p ↦ p.1
]

is_taken : taken ≡ some (table_after, answer_after)
unfolding take_token anti_bot_gw.State.Table.with_state anti_bot_gw.State.Table.getitem get
    update_risk_and_maybe_ban anti_bot_gw.State.Table.should_promote
    anti_bot_gw.State.Table.get_default put decay_risk fresh fade anti_bot_gw.State.Table.trim
is_taken = refl

spared : Spares "client" "other" after_hit
unfolding anti_bot_gw.State.Table.with_state anti_bot_gw.State.Table.getitem get
    update_risk_and_maybe_ban anti_bot_gw.State.Table.should_promote
    anti_bot_gw.State.Table.get_default put decay_risk fresh fade anti_bot_gw.State.Table.trim
spared = refl

banned_after_hit_example :
    (st₃ : Store) × (left : ℕ) × (is_banned newcomer request.scope 50_000 53_000 0 "client"
        (record after_hit { ip_state = table_after })
      ≡ some (st₃, true, left))
    × (0 < left)
unfolding ban_secs mem
banned_after_hit_example =
    banned_after_hit risk_settings request newcomer newcomer "client" "ua" "1.2.3.4" store after_hit
      (record after_hit { ip_state = table_after }) 50_000 53_000 0 ip_state-IsValid hit_bans
      (Standing.next Standing.here (
        Standing.takes 3 500 50_000 newcomer "other" after_hit table_after answer_after spared
          is_taken))
      (omega arith)

vhost_isolation_example :
    (st₁ : Store) × (hit : Bool) × (s : IpState) × (update_risk_and_maybe_ban risk_settings request
        newcomer "client" "ua" "1.2.3.4" store
      ≡ some (st₁, hit))
    × (get "client" st₁.ip_state.entries ≡ some s)
    × (s.banned_until ≡ (found "client" newcomer store.ip_state).banned_until)
    × ((w : String)
        → w ≢ request.scope.1
        → until_at w s.banned_until_by_vhost
          ≡ until_at w (found "client" newcomer store.ip_state).banned_until_by_vhost)
unfolding vhost_scoped
vhost_isolation_example =
    vhost_isolation risk_settings request newcomer "client" "ua" "1.2.3.4" store ip_state-IsValid
      weight-example refl
