-- ===== src/Admin/Addresses.antt =====
-- admin/auth.py: the list of addresses that may reach the operators' pages, and the gate that reads
-- it. The module ipaddress is a parameter, as in Endpoint.Rules. Times are in milliseconds.
pub mod Gate
pub mod History
use anti_bot_gw.Common.{
  ℕ, ◌+◌, Bool, true, false, not, ltb, if◌then◌else◌, Option, none, some, List, [], ◌∷◌, ◌++◌, map,
  length, take, any, filter, ◌==◌, nat_eq, list_eq,
}
use anti_bot_gw.Admin.Strip.{strip}
use anti_bot_gw.Challenge.Decimal.{Text}
use anti_bot_gw.Challenge.Pow.{is_nil}
use anti_bot_gw.Endpoint.Rules.{Addresses}
use anti_bot_gw.Admin.Store.{queue_max}

-- an entry of `ADMIN_ALLOWED_ENTRIES`
pub record Entry : Type 0 where
  pub cidr : Text
  pub added_ts : ℕ
  pub note : Text
  pub source : Text
  pub description : Text

pub data Write : Type 0 where
  admin_ip_add : Text → ℕ → Text → Text → Text → Write
  admin_ip_update_description : Text → Text → Write
  admin_ip_remove : Text → Write

-- The writes on the list that `db_queue` holds; `others` counts the writes of the other components.
pub record Queue : Type 0 where
  pub writes : List Write
  pub others : ℕ

-- the messages of an operation; `ok` is "added", "updated" or "removed"
pub data Message : Type 0 where
  ok empty_cidr invalid_cidr already_exists not_present queue_full : Message

-- `put_nowait`: `none` is `QueueFull`
abbrev pub push : Write → Option Queue → Option (Option Queue)
push w none = some none
push w (some q) =
    if ltb (length q.writes + q.others) queue_max
    then some (some (record q { writes = q.writes ++ w ∷ [] }))
    else none

-- `s.replace("<", "").replace(">", "")`
unfoldable pub strip_html_brackets : Text → Text
strip_html_brackets s = filter (λ c. not (c == b'>')) (filter (λ c. not (c == b'<')) s)

-- `_strip_html_brackets(s.strip()[:n])`
abbrev pub clean : ℕ → Text → Text
clean n s = strip_html_brackets (take n (strip s))

abbrev pub named : Text → Entry → Bool
named canon e = e.cidr == canon

-- `ADMIN_ALLOWED_ENTRIES`, `ADMIN_ALLOWED_NETS` and `db_queue`
pub record State (Network : Type 0) : Type 0 where
  pub entries : List Entry
  pub nets : List Network
  pub queue : Option Queue

-- `str` of a network
module _ (lib : Addresses) (str : lib.Network → Text) where
  open lib use {Address, Network, ip_address, ip_network, within}

  abbrev member_of : List Network → Option Address → Bool
  member_of nets none = false
  member_of nets (some a) = any (within a) nets

  -- `_admin_ip_allowed` of admin/auth.py, and that of proxy.py
  unfoldable pub admin_ip_allowed : List Network → Text → Bool
  admin_ip_allowed [] ip = true
  admin_ip_allowed (net ∷ nets) ip = member_of (net ∷ nets) (ip_address ip)

  unfoldable pub proxy_admin_ip_allowed : List Network → Text → Bool
  proxy_admin_ip_allowed [] ip = false
  proxy_admin_ip_allowed (net ∷ nets) ip = member_of (net ∷ nets) (ip_address ip)

  unfoldable pub is_admin_ip : List Network → Text → Bool
  is_admin_ip [] ip = false
  is_admin_ip (net ∷ nets) ip = if is_nil ip then false else member_of (net ∷ nets) (ip_address ip)

  abbrev pub prepend : Option Network → List Network → List Network
  prepend none nets = nets
  prepend (some net) nets = net ∷ nets

  unfoldable pub rebuild_nets : List Entry → List Network
  rebuild_nets [] = []
  rebuild_nets (e ∷ es) = prepend (ip_network e.cidr) (rebuild_nets es)

  -- the queue has taken the write, and the list changes
  abbrev pub commit : List Entry → Option (Option Queue) → State Network → State Network × Message
  commit es none s = (s, queue_full)
  commit es (some q) s = (record { entries = es; nets = rebuild_nets es; queue = q }, ok)

  abbrev pub add_entry : Entry → State Network → State Network × Message
  add_entry e s =
      if any (named e.cidr) s.entries
      then (s, already_exists)
      else commit (s.entries ++ e ∷ [])
          (push (admin_ip_add e.cidr e.added_ts e.note e.source e.description) s.queue) s

  abbrev pub add_net :
      ℕ → Text → Text → Text → Option Network → State Network → State Network × Message
  add_net now note source description none s = (s, invalid_cidr)
  add_net now note source description (some net) s =
      add_entry
        (record {
          cidr = str net;
          added_ts = now;
          note = clean 200 note;
          source = source;
          description = clean 500 description;
        })
        s

  -- `admin_ip_add`, where the clock reads the same twice
  unfoldable pub ip_add : ℕ → Text → Text → Text → Text → State Network → State Network × Message
  unfolding rebuild_nets strip_html_brackets
  ip_add now cidr note source description s =
      let c = strip cidr in
      if is_nil c then (s, empty_cidr) else add_net now note source description (ip_network c) s

  -- the first entry of that name gets the description
  unfoldable pub describe : Text → Text → List Entry → List Entry
  describe canon description [] = []
  describe canon description (e ∷ es) =
      let rest = describe canon description es in
      if named canon e then record e { description = description } ∷ es else e ∷ rest

  abbrev pub describe_in :
      Text → Text → Option (Option Queue) → State Network → State Network × Message
  describe_in canon description none s = (s, queue_full)
  describe_in canon description (some q) s =
      (record s { entries = describe canon description s.entries; queue = q }, ok)

  abbrev pub update_net : Text → Option Network → State Network → State Network × Message
  update_net description none s = (s, invalid_cidr)
  update_net description (some net) s =
      if any (named (str net)) s.entries
      then describe_in (str net) description
          (push (admin_ip_update_description description (str net)) s.queue) s
      else (s, not_present)

  -- `admin_ip_update_description`
  unfoldable pub ip_update_description : Text → Text → State Network → State Network × Message
  unfolding describe strip_html_brackets
  ip_update_description cidr description s =
      update_net (clean 500 description) (ip_network (strip cidr)) s

  abbrev pub remove_net : Option Network → State Network → State Network × Message
  remove_net none s = (s, invalid_cidr)
  remove_net (some net) s =
      if any (named (str net)) s.entries
      then commit (filter (λ e. not (named (str net) e)) s.entries)
          (push (admin_ip_remove (str net)) s.queue) s
      else (s, not_present)

  -- `admin_ip_remove`
  unfoldable pub ip_remove : Text → State Network → State Network × Message
  unfolding rebuild_nets
  ip_remove cidr s = remove_net (ip_network (strip cidr)) s
