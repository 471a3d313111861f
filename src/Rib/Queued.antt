-- ===== src/Rib/Queued.antt =====
-- The queues that olsr_update_rib_routes of src/process_routes.c fills.
use olsrd_hybrid_plc.Prelude.{
  Apart, All, ℕ, ◌≡◌, ◌⊎◌, refl, sym, ap, ◌∙◌, Bool, true, false, Bool-cases, inl, inr, Option,
  none, some, List, [], ◌∷◌, ◌++◌, arith, ◌==◌, if◌then◌else◌, find, mem, mem-snoc,
}
use olsrd_hybrid_plc.Prelude.Int.{ℤ, pos, negsuc}
use olsrd_hybrid_plc.Rib.{
  Nexthop, RtPath, RtEntry, RibConf, Queues, same_ℤ, is_index, nh_change, prefix_addr, enqueue,
}
use olsrd_hybrid_plc.Rib.Fib.{is_far_linklocal}
use olsrd_hybrid_plc.Rib.Entry.{Well, HasBest}

find-snoc :
    {A : Type 0} (dst w : ℕ) (x : A) (m : List (ℕ × A))
    → find dst m ≡ none
    → find w (m ++ ((dst, x) ∷ [])) ≡ (if dst == w then some x else find w m)
unfolding find
find-snoc dst w x [] new = refl
find-snoc dst w x ((j, y) ∷ m) new = elim (Bool-cases (j == dst)) [
  | inl t ↦ absurd (ground (arith, rw t at new))
  | inr t ↦
      let ih : find w (m ++ ((dst, x) ∷ [])) ≡ (if dst == w then some x else find w m) =
        find-snoc dst w x m (rw t at new) in
      elim (Bool-cases (j == w)) [
        | inl s ↦ let t' : (dst == w) ≡ false = ground (arith, t, s) in rw (s, t') refl
        | inr s ↦ rw s ih
      ]
]

pub find-enqueue :
    {A : Type 0} (dst w : ℕ) (nh : Nexthop) (x : A) (m : List (ℕ × A))
    → find dst m ≡ none
    → find w (enqueue dst nh (dst, x) m) ≡ (if dst == w then some x else find w m)
unfolding find
find-enqueue dst w nh x m new = elim (Bool-cases (prefix_addr dst == nh.gateway)) [
  | inl t ↦ rw t refl
  | inr t ↦ rw t (find-snoc dst w x m new)
]

pub mem-enqueue :
    (dst w : ℕ) (nh : Nexthop) (queue : List ℕ)
    → mem w (enqueue dst nh dst queue) ≡ (if dst == w then true else mem w queue)
mem-enqueue dst w nh queue = elim (Bool-cases (prefix_addr dst == nh.gateway)) [
  | inl t ↦ rw t refl
  | inr t ↦ rw t (mem-snoc w dst queue ∙ either (mem w queue) (dst == w))
]
  where
    either : (a b : Bool) → (if a then true else b) ≡ (if b then true else a)
    either true true = refl
    either true false = refl
    either false true = refl
    either false false = refl

pub All-enqueue :
    {A : Type 0} (P : A → Type 0) (dst : ℕ) (nh : Nexthop) (x : A) (m : List A)
    → P x
    → All P m
    → All P (enqueue dst nh x m)
All-enqueue {A = A} P dst nh x m p all = elim (Bool-cases (prefix_addr dst == nh.gateway)) [
  | inl t ↦ rw t (p, all)
  | inr t ↦ rw t (at_end m all)
]
  where
    at_end : (l : List A) → All P l → All P (l ++ (x ∷ []))
    at_end [] all' = (p, tt)
    at_end (y ∷ l) (q, all') = (q, at_end l all')

same_index : (a b : ℤ) → same_ℤ a b ≡ true → a ≡ b
same_index (pos n) (pos m) e = let same : n ≡ m = ground (arith, e) in ap pos same
same_index (pos n) (negsuc m) e = absurd (ground (arith, e))
same_index (negsuc n) (pos m) e = absurd (ground (arith, e))
same_index (negsuc n) (negsuc m) e = let same : n ≡ m = ground (arith, e) in ap negsuc same

abbrev nexthop : ℕ → ℤ → Nexthop
nexthop g i = record { gateway = g; iif_index = i }

-- A next hop that did not change.
pub nh_change-same : (a b : Nexthop) → nh_change a b ≡ false → b ≡ a
nh_change-same a b e = elim (Bool-cases (a.gateway == b.gateway)) [
  | inr t ↦ absurd (ground (arith, rw t at e))
  | inl t ↦ elim (Bool-cases (same_ℤ (a.iif_index) (b.iif_index))) [
    | inr s ↦ absurd (ground (arith, rw (t, s) at e))
    | inl s ↦
        let g : a.gateway ≡ b.gateway = ground (arith, t) in
        let i : a.iif_index ≡ b.iif_index = same_index (a.iif_index) (b.iif_index) s in
        sym (built (a.gateway) (b.gateway) (a.iif_index) (b.iif_index) g i)
  ]
]
  where
    built : (g g' : ℕ) (i i' : ℤ) → g ≡ g' → i ≡ i' → nexthop g i ≡ nexthop g' i'
    built g g' i i' p q = ap (λ x. nexthop x i) p ∙ ap (λ x. nexthop g' x) q

-- The next hop that the kernel has for an entry.
abbrev pub fib : Option RtEntry → Option Nexthop
fib none = none
fib (some rt) = if is_index (rt.rt_nexthop.iif_index) then some (rt.rt_nexthop) else none

-- The same for the entries that wait for their deletion, and those in the table.
abbrev pub pending : Option RtEntry → Option RtEntry → Option Nexthop
pending none o = fib o
pending (some rt) o = fib (some rt)

abbrev pub table : List (ℕ × RtEntry) → List (ℕ × RtEntry) → ℕ → Option Nexthop
table tree del w = pending (find w del) (find w tree)

abbrev pub Disjoint : List (ℕ × RtEntry) → List (ℕ × RtEntry) → Type 0
Disjoint tree del = (w : ℕ) → (find w tree ≡ none) ⊎ (find w del ≡ none)

-- An entry with a best path is in the queue, or has the next hop of this path.
abbrev pub Ready : List ℕ → ℕ × RtEntry → Type 0
Ready chg (dst, rt) =
    (rtp : RtPath) × HasBest rt rtp
    × ((mem dst chg ≡ true) ⊎ ((rt.on_list ≡ false) × (rt.rt_nexthop ≡ rtp.rtp_nexthop)))

module _ (conf : RibConf) where
  -- A route that the kernel is not kept from deleting.
  abbrev pub Near : ℕ × RtEntry → Type 0
  Near (dst, rt) =
      is_index (rt.rt_nexthop.iif_index) ≡ true → is_far_linklocal conf dst (rt.rt_metric) ≡ false

  -- From a table and queues to a table and queues.
  pub record Queued (tree : List (ℕ × RtEntry)) (chg : List ℕ) (del : List (ℕ × RtEntry))
      (tree' : List (ℕ × RtEntry)) (q' : Queues) : Type 0 where
    pub kept : (w : ℕ) → table tree' (q'.del_kernel_list) w ≡ table tree del w
    pub absent :
        (w : ℕ)
        → find w tree ≡ none
        → (find w tree' ≡ none) × (find w (q'.del_kernel_list) ≡ find w del)
    pub apart : Apart tree'
    pub disjoint : Disjoint tree' (q'.del_kernel_list)
    pub well : All (λ x. Well conf (x.0) (x.1)) tree'
    pub near : All Near (q'.del_kernel_list)
    pub ready : All (Ready (q'.chg_kernel_list)) tree'
    pub longer : (w : ℕ) → mem w chg ≡ true → mem w (q'.chg_kernel_list) ≡ true
    pub known :
        (w : ℕ)
        → mem w (q'.chg_kernel_list) ≡ true
        → (mem w chg ≡ true) ⊎ ((rt : RtEntry) × (find w tree' ≡ some rt))

  abbrev pub QueuedResult :
      List (ℕ × RtEntry)
      → List ℕ
      → List (ℕ × RtEntry)
      → Option (List (ℕ × RtEntry) × Queues)
      → Type 0
  QueuedResult tree chg del none = ⊥
  QueuedResult tree chg del (some (tree', q')) = Queued tree chg del tree' q'
