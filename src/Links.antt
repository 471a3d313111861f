-- ===== src/Links.antt =====
-- The questions that src/link_set.c answers from the set of links: the status of a link and of a
-- neighbour, the best link to a neighbour, and the link that a HELLO message reports. The timers and
-- the changes of the set by HELLO messages are not modelled. The name of an interface is a number.
pub mod Best
pub mod Reported
use olsrd_hybrid_plc.Prelude.{
  ℕ, zero, suc, ◌+◌, ◌^◌, Bool, true, false, ◌&&◌, ◌||◌, Option, none, some, List, [], ◌∷◌, ltb,
  ◌==◌, if◌then◌else◌, find,
}
use olsrd_hybrid_plc.Clock.{is_timed_out}

abbrev pub unspec_link : ℕ
unspec_link = 0

abbrev pub asym_link : ℕ
asym_link = 1

abbrev pub sym_link : ℕ
sym_link = 2

abbrev pub lost_link : ℕ
lost_link = 3

abbrev pub hide_link : ℕ
hide_link = 4

abbrev pub max_if_metric : ℕ
max_if_metric = 100

abbrev pub link_cost_broken : ℕ
link_cost_broken = 2 ^ 22

-- `struct link_entry`: `neighbor` is the main address of the neighbour, `link_sym_timer` says whether
-- that timer runs.
pub record LinkEntry : Type 0 where
  pub local_iface_addr : ℕ
  pub neighbor_iface_addr : ℕ
  pub if_name : Option ℕ
  pub link_sym_timer : Bool
  pub asym_time : ℕ
  pub neighbor : ℕ
  pub link_pending : Bool
  pub lost_link_time : ℕ
  pub linkcost : ℕ

pub record Interface : Type 0 where
  pub int_name : ℕ
  pub ip_addr : ℕ
  pub int_metric : ℕ

-- The globals that are read: the clock, the configuration, the links, the interfaces and the MID set,
-- from an alias to its main address and from a main address to its aliases.
pub record Sensing : Type 0 where
  pub now : ℕ
  pub use_hysteresis : Bool
  pub lq_level : ℕ
  pub links : List LinkEntry
  pub ifnet : List Interface
  pub main_of : List (ℕ × ℕ)
  pub aliases_of : List (ℕ × List ℕ)

abbrev pub status_by_timers : Sensing → LinkEntry → ℕ
status_by_timers s e =
    if e.link_sym_timer
    then sym_link
    else if is_timed_out (s.now) (e.asym_time)
    then lost_link
    else asym_link

-- The status of an entry of the set, which is not empty then.
unfoldable pub lookup_link_status : Sensing → LinkEntry → ℕ
unfolding is_timed_out
lookup_link_status s e =
    if s.use_hysteresis
    then (if is_timed_out (s.now) (e.lost_link_time)
        then (if e.link_pending then hide_link else status_by_timers s e)
        else lost_link)
    else status_by_timers s e

-- The link runs over this interface.
abbrev pub runs_over : LinkEntry → Interface → Bool
runs_over e local = elim (e.if_name) [
  | none ↦ local.ip_addr == e.local_iface_addr
  | some name ↦ name == local.int_name
]

-- `lookup_link_entry` without a main address.
abbrev pub lookup_link_entry : List LinkEntry → ℕ → Interface → Option LinkEntry
lookup_link_entry [] remote local = none
lookup_link_entry (e ∷ es) remote local =
    if (remote == e.neighbor_iface_addr) && runs_over e local
    then some e
    else lookup_link_entry es remote local

abbrev pub is_sym_link : Sensing → ℕ → Interface → Bool
is_sym_link s remote local = elim (lookup_link_entry (s.links) remote local) [
  | none ↦ false
  | some e ↦ lookup_link_status s e == sym_link
]

abbrev pub any_sym_alias : Sensing → List ℕ → Interface → Bool
any_sym_alias s [] local = false
any_sym_alias s (a ∷ more) local =
    if is_sym_link s a local then true else any_sym_alias s more local

abbrev pub main_address : Sensing → ℕ → ℕ
main_address s address = elim (find address (s.main_of)) [ none ↦ address | some main ↦ main ]

abbrev pub mid_lookup_aliases : Sensing → ℕ → List ℕ
mid_lookup_aliases s main = elim (find main (s.aliases_of)) [ none ↦ [] | some aliases ↦ aliases ]

abbrev pub sym_on_any : Sensing → ℕ → List Interface → ℕ
sym_on_any s main [] = 0
sym_on_any s main (local ∷ rest) =
    if is_sym_link s main local
    then sym_link
    else if any_sym_alias s (mid_lookup_aliases s main) local
    then sym_link
    else sym_on_any s main rest

abbrev pub get_neighbor_status : Sensing → ℕ → ℕ
get_neighbor_status s address = sym_on_any s (main_address s address) (s.ifnet)

abbrev pub check_among : Sensing → ℕ → List LinkEntry → ℕ
check_among s int_addr [] = unspec_link
check_among s int_addr (e ∷ es) =
    if int_addr == e.neighbor_iface_addr then lookup_link_status s e else check_among s int_addr es

abbrev pub check_neighbor_link : Sensing → ℕ → ℕ
check_neighbor_link s int_addr = check_among s int_addr (s.links)

abbrev pub if_ifwithname : List Interface → ℕ → Option Interface
if_ifwithname [] name = none
if_ifwithname (i ∷ more) name = if i.int_name == name then some i else if_ifwithname more name

abbrev pub if_ifwithaddr : List Interface → ℕ → Option Interface
if_ifwithaddr [] addr = none
if_ifwithaddr (i ∷ more) addr = if i.ip_addr == addr then some i else if_ifwithaddr more addr

abbrev pub interface_of : Sensing → LinkEntry → Option Interface
interface_of s e = elim (e.if_name) [
  | none ↦ if_ifwithaddr (s.ifnet) (e.local_iface_addr)
  | some name ↦ if_ifwithname (s.ifnet) name
]

-- What a link is measured by: the metric of its interface, where it has one, or its cost.
abbrev pub measure : Sensing → LinkEntry → Option ℕ
measure s e =
    if s.lq_level == 0
    then (elim (interface_of s e) as (λ o. Option ℕ) [ none ↦ none | some i ↦ some (i.int_metric) ])
    else some (e.linkcost)

-- The links found so far: the measure of the last one, the symmetric and the other one.
pub record Search : Type 0 where
  pub current : ℕ
  pub good_link : Option LinkEntry
  pub backup_link : Option LinkEntry

abbrev pub memorize : Sensing → LinkEntry → ℕ → Search → Search
memorize s e m f =
    if lookup_link_status s e == sym_link
    then record { current = m; good_link = some e; backup_link = f.backup_link }
    else record { current = m; good_link = f.good_link; backup_link = some e }

abbrev pub visit : Sensing → ℕ → LinkEntry → Search → Search
visit s remote e f = elim (measure s e) [
  | none ↦ f
  | some m ↦
      if ltb m (f.current) || ((m == f.current) && (e.local_iface_addr == remote))
      then memorize s e m f
      else f
]

abbrev pub best_among : Sensing → ℕ → ℕ → List LinkEntry → Search → Search
best_among s main remote [] f = f
best_among s main remote (e ∷ es) f =
    if e.neighbor == main
    then best_among s main remote es (visit s remote e f)
    else best_among s main remote es f

abbrev pub or_backup : Search → Option LinkEntry
or_backup f = elim (f.good_link) [ none ↦ f.backup_link | some e ↦ some e ]

unfoldable pub get_best_link_to_neighbor : Sensing → ℕ → Option LinkEntry
unfolding lookup_link_status find
get_best_link_to_neighbor s remote =
    let worst = if s.lq_level == 0 then max_if_metric else link_cost_broken in
    or_backup (
      best_among s (main_address s remote) remote (s.links)
        (record { current = worst; good_link = none; backup_link = none }))

abbrev pub replace_neighbor : ℕ → ℕ → LinkEntry → LinkEntry
replace_neighbor old new e = record {
  local_iface_addr = e.local_iface_addr;
  neighbor_iface_addr = e.neighbor_iface_addr;
  if_name = e.if_name;
  link_sym_timer = e.link_sym_timer;
  asym_time = e.asym_time;
  neighbor = new;
  link_pending = e.link_pending;
  lost_link_time = e.lost_link_time;
  linkcost = e.linkcost;
}

-- The number of the links that are changed, and the links.
abbrev pub replace_neighbor_link_set : ℕ → ℕ → List LinkEntry → ℕ × List LinkEntry
replace_neighbor_link_set old new [] = (0, [])
replace_neighbor_link_set old new (e ∷ es) =
    let (k, es') = replace_neighbor_link_set old new es in
    if e.neighbor == old then (k + 1, replace_neighbor old new e ∷ es') else (k, e ∷ es')

-- An entry of a HELLO message: an address and the status of the link to it.
pub record HelloNeighbor : Type 0 where
  pub address : ℕ
  pub link : ℕ

abbrev pub reports : ℕ → HelloNeighbor → Bool
reports own h = if h.address == own then (if h.link == unspec_link then false else true) else false

abbrev pub check_from : ℕ → List HelloNeighbor → ℕ → ℕ
check_from own [] ret = ret
check_from own (h ∷ hs) ret =
    let later = check_from own hs (h.link) in
    if reports own h then (if h.link == sym_link then h.link else later) else check_from own hs ret

-- The status that a HELLO message reports of the link to the address of an interface.
unfoldable pub check_link_status : ℕ → List HelloNeighbor → ℕ
check_link_status own neighbors = check_from own neighbors unspec_link
