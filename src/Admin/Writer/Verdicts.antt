-- ===== src/Admin/Writer/Verdicts.antt =====
-- A restart keeps every verdict on a session.
use anti_bot_gw.Common.{
  ℕ, true, leb, if◌then◌else◌, ◌&&◌, Option, none, some, ◌==◌, nat_eq, list_eq, string_eq, ◌≡◌,
}
use anti_bot_gw.Common.Dict.{Dict, Unique}
use anti_bot_gw.Challenge.Decimal.{Text}
use anti_bot_gw.Admin.Store.{Store}
use anti_bot_gw.Admin.Writer.{Tables}
use anti_bot_gw.Admin.Writer.Restart.{Agrees}

-- The cache is loaded and agrees with the tables, where no session has two rows.
abbrev IsGood : ℕ → Store × Tables → Type 0
IsGood n x = Agrees n x.0 x.1 × Unique x.1.user_sessions × (x.0.ready ≡ true)

-- the verdict on a session whose user and end are known
verdict : ℕ → Text → Option (Text × ℕ) → Option Text
verdict later username none = none
verdict later username (some (owner, expires)) =
    if owner == username && leb later expires then some username else none
