-- ===== src/Tests/Tables.antt =====
-- The bounded table of state.py, at concrete inputs.
use anti_bot_gw.Common.{ℕ, some, [], ◌∷◌, ◌≡◌, refl, arith, string_eq}
use anti_bot_gw.Common.Dict.{get, mem}
use anti_bot_gw.State.Table.{Table, IsValid}
use anti_bot_gw.State.Table.Laws.{found}
use anti_bot_gw.State.Table.Recency.{lookups, recently_used-stays}

abbrev full_table : Table ℕ
full_table = record { entries = ("a", 10) ∷ ("b", 20) ∷ ("c", 30) ∷ ("d", 40) ∷ []; maxsize = 4 }

full_table-IsValid : IsValid full_table
unfolding get
full_table-IsValid = record {
  positive = omega arith;
  bounded = omega arith;
  unique = (refl, (refl, (refl, (refl, tt))));
}

recently_used-stays_example :
    (t' : Table ℕ) × (lookups 7 ("a" ∷ "x" ∷ "y" ∷ []) full_table ≡ some t')
    × (get "a" t'.entries ≡ some (found "a" 7 full_table))
unfolding mem
recently_used-stays_example =
    recently_used-stays "a" 7 ("x" ∷ "y" ∷ []) full_table full_table-IsValid refl (omega arith)
