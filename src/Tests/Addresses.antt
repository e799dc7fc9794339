-- ===== src/Tests/Addresses.antt =====
-- The list of the operators' addresses of admin/auth.py, at concrete inputs. In place of ipaddress
-- every text is a network, and an address is the length of its text.
use anti_bot_gw.Common.{
  ℕ, Bool, true, false, Option, none, some, List, [], ◌∷◌, map, length, ◌==◌, nat_eq, list_eq, ◌≡◌,
  ◌≢◌, refl, arith, ◌=ℕ=◌,
}
use anti_bot_gw.Challenge.Decimal.{Text}
use anti_bot_gw.Endpoint.Rules.{Addresses}
use anti_bot_gw.Admin.Addresses.{
  Entry, State, ok, queue_full, admin_ip_allowed, proxy_admin_ip_allowed, rebuild_nets, ip_add,
  ip_remove,
}
use anti_bot_gw.Admin.Addresses.Gate.{Distinct, Agrees}
use anti_bot_gw.Admin.Addresses.History
use anti_bot_gw.Admin.Addresses.History.{
  ReadsBack, entries_are_nets, remove-add, last_removal_opens,
}

abbrev lib : Addresses
lib = record {
  Address = ℕ;
  Network = Text;
  ip_address = λ (s : Text). some (length s);
  ip_network = λ (s : Text). some s;
  within = λ (a : ℕ) (net : Text). a =ℕ= length net;
}

abbrev str : Text → Text
str net = net

abbrev empty : State Text
empty = record { entries = []; nets = []; queue = some (record { writes = []; others = 3 }) }

abbrev home : Text
home = b'1' ∷ b'0' ∷ []

abbrev office : Text
office = b'1' ∷ b'9' ∷ b'2' ∷ []

abbrev one : State Text
one = (ip_add lib str 5_000 home [] [] [] empty).0

abbrev two : State Text
two = (ip_add lib str 6_000 office [] [] [] one).0

empty-Agrees : Agrees lib str empty
unfolding rebuild_nets
empty-Agrees = (tt, refl)

entries_are_nets_example :
    (map (λ (e : Entry). e.cidr) (ip_remove lib str home two).0.entries
      ≡ map str (ip_remove lib str home two).0.nets)
    × Distinct lib str (ip_remove lib str home two).0.entries
entries_are_nets_example =
    entries_are_nets lib str (λ net. refl) empty-Agrees
      (History.next
        (History.next (History.next History.here (History.adds 5_000 home [] [] [] empty))
          (History.adds 6_000 office [] [] [] one))
        (History.removes home two))

added : ip_add lib str 5_000 home [] [] [] empty ≡ (one, ok)
unfolding ip_add anti_bot_gw.Admin.Strip.strip anti_bot_gw.Common.any
added = refl

removed : (ip_remove lib str home one).1 ≡ ok
unfolding ip_remove ip_add anti_bot_gw.Admin.Strip.strip anti_bot_gw.Common.any
removed = refl

has_room : (ip_remove lib str home one).1 ≢ queue_full
has_room h = absurd (ground (arith, h, removed))

remove-add_example :
    ((ip_remove lib str home one).1 ≡ ok)
    × ((ip_remove lib str home one).0.entries ≡ [])
    × ((ip_remove lib str home one).0.nets ≡ [])
remove-add_example = remove-add lib str 5_000 home [] [] [] empty one empty-Agrees added has_room

abbrev entry : Entry
entry = record { cidr = home; added_ts = 5_000; note = []; source = []; description = [] }

abbrev closed : State Text
closed = record { entries = entry ∷ []; nets = home ∷ []; queue = none }

abbrev open_again : State Text
open_again = record { entries = []; nets = []; queue = none }

last_removed : ip_remove lib str home closed ≡ (open_again, ok)
unfolding ip_remove anti_bot_gw.Common.filter anti_bot_gw.Admin.Strip.strip anti_bot_gw.Common.any
last_removed = refl

last_removal_opens_example :
    (admin_ip_allowed lib str [] office ≡ true) × (proxy_admin_ip_allowed lib str [] office ≡ false)
last_removal_opens_example =
    last_removal_opens lib str home office entry closed open_again refl last_removed
