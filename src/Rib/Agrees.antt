-- ===== src/Rib/Agrees.antt =====
-- The kernel has the routes of the table, after an update by src/process_routes.c.
use olsrd_hybrid_plc.Prelude.{
  Apart, put-Apart, All, All-map, ℕ, ◌≡◌, ◌⊎◌, refl, sym, subst, ap, ◌∙◌, true, false, Bool-cases,
  inl, inr, Option, none, some, List, [], ◌∷◌, arith, ◌==◌, if◌then◌else◌, find, put, find-put, mem,
}
use olsrd_hybrid_plc.Rib.{
  Nexthop, RtPath, RtEntry, RibConf, is_linklocal, prefix_addr, with_on_list,
}
use olsrd_hybrid_plc.Rib.Fib.{Export, change_route, chg_kernel_routes}
use olsrd_hybrid_plc.Rib.Paths.{All-found, Apart-Finds}
use olsrd_hybrid_plc.Rib.Entry.{Well, HasBest, with_on_list-Well}
use olsrd_hybrid_plc.Rib.Queued.{fib}
use olsrd_hybrid_plc.Rib.Deleted.{FibLaws}
use olsrd_hybrid_plc.Rib.Changed.{put-All, Succeeds, Safe, Changed, change_route-Changed}

-- From what holds of what is found to what holds of all.
pub all_of_found :
    {A : Type 0} (P : ℕ × A → Type 0) (m : List (ℕ × A))
    → Apart m
    → ((k : ℕ) (x : A) → find k m ≡ some x → P (k, x))
    → All P m
all_of_found {A = A} P m a h =
    All-map (λ (x : ℕ × A). find (x.0) m ≡ some (x.1)) P m (λ x e. h (x.0) (x.1) e)
      (Apart-Finds m a)

module _ {K : Type 0} (export : Export K) (conf : RibConf) (look : K → ℕ → Option Nexthop)
    (laws : FibLaws export look) (live : conf.host_emul ≡ false) where
  -- An entry of the table between the updates of the table and the kernel.
  abbrev pub Ripe : ℕ × RtEntry → Type 0
  Ripe (dst, rt) = Well conf dst rt × ((rtp : RtPath) × HasBest rt rtp)

  -- An entry behind which the kernel is.
  abbrev pub Finished : ℕ → RtEntry → Type 0
  Finished dst rt =
      (rt.on_list ≡ false)
      × (Succeeds export
          → is_linklocal conf (prefix_addr dst) ≡ false
          → (rtp : RtPath) × HasBest rt rtp × (rt.rt_nexthop ≡ rtp.rtp_nexthop))

  pub record Applied (queue : List ℕ) (tree tree' : List (ℕ × RtEntry)) (kernel' : K) : Type 0 where
    pub apart : Apart tree'
    pub ripe : All Ripe tree'
    pub agree : (w : ℕ) → look kernel' w ≡ fib (find w tree')
    pub finished :
        (w : ℕ) (rt : RtEntry)
        → find w tree' ≡ some rt
        → Finished w rt ⊎ ((find w tree ≡ some rt) × (mem w queue ≡ false))

  abbrev pub AppliedResult : List ℕ → List (ℕ × RtEntry) → Option (List (ℕ × RtEntry) × K) → Type 0
  AppliedResult queue tree none = ⊥
  AppliedResult queue tree (some (tree', kernel')) = Applied queue tree tree' kernel'

  module _ (dst : ℕ) (queue : List ℕ) (tree : List (ℕ × RtEntry)) (rt : RtEntry) (rtp : RtPath)
      (kernel : K) (apart : Apart tree) (ripe : All Ripe tree)
      (agree : (w : ℕ) → look kernel w ≡ fib (find w tree)) (found : find dst tree ≡ some rt)
      (rest : (tree1 : List (ℕ × RtEntry)) (kernel1 : K)
        → Apart tree1
        → All Ripe tree1
        → ((w : ℕ) → look kernel1 w ≡ fib (find w tree1))
        → ((w : ℕ) (r : RtEntry) → find w tree ≡ some r → (r1 : RtEntry) × (find w tree1 ≡ some r1))
        → AppliedResult queue tree1 (chg_kernel_routes export conf queue tree1 kernel1)) where
    applied_step :
        (o : Option (RtEntry × K))
        → Changed export conf look laws live dst rt rtp kernel o
        → AppliedResult (dst ∷ queue) tree (elim o as (λ o. Option (List (ℕ × RtEntry) × K)) [
          | none ↦ none
          | some (rt', kernel') ↦
              chg_kernel_routes export conf queue (put dst (with_on_list false rt') tree) kernel'
        ])
    applied_step none c = elim c [ ]
    applied_step (some (rt1, kernel1)) (w1, (p, e1, e2), agree1, good) =
        after (chg_kernel_routes export conf queue tree1 kernel1) (
          rest tree1 kernel1 (put-Apart dst (with_on_list false rt1) tree apart)
            (put-All Ripe dst (with_on_list false rt1) tree
              (with_on_list-Well conf false dst rt1 w1, (rtp, (p, e1, e2))) ripe)
            agree_put known_put)
      where
        tree1 : List (ℕ × RtEntry)
        tree1 = put dst (with_on_list false rt1) tree

        at :
            (w : ℕ)
            → find w (put dst (with_on_list false rt1) tree)
              ≡ (if dst == w then some (with_on_list false rt1) else find w tree)
        at w = find-put dst w (with_on_list false rt1) tree

        agree_put : (w : ℕ) → look kernel1 w ≡ fib (find w (put dst (with_on_list false rt1) tree))
        agree_put w = elim (Bool-cases (dst == w)) [
          | inl t ↦
              let here : find w (put dst (with_on_list false rt1) tree)
                  ≡ some (with_on_list false rt1) =
                at w ∙ (rw t refl) in
              let same : look kernel1 w ≡ fib (some rt1) = agree1 w ∙ (rw t refl) in
              same ∙ sym (ap fib here)
          | inr t ↦
              let there : find w (put dst (with_on_list false rt1) tree) ≡ find w tree =
                at w ∙ (rw t refl) in
              let same : look kernel1 w ≡ look kernel w = agree1 w ∙ (rw t refl) in
              same ∙ agree w ∙ sym (ap fib there)
        ]

        known_put :
            (w : ℕ) (r : RtEntry)
            → find w tree ≡ some r
            → (r1 : RtEntry) × (find w (put dst (with_on_list false rt1) tree) ≡ some r1)
        known_put w r e = elim (Bool-cases (dst == w)) [
          | inl t ↦ (with_on_list false rt1, at w ∙ (rw t refl))
          | inr t ↦ (r, at w ∙ (rw t e))
        ]

        finish :
            (w : ℕ) (r : RtEntry)
            → Finished w r
              ⊎ ((find w (put dst (with_on_list false rt1) tree) ≡ some r) × (mem w queue ≡ false))
            → Finished w r ⊎ ((find w tree ≡ some r) × (mem w (dst ∷ queue) ≡ false))
        finish w r (inl f) = inl f
        finish w r (inr (e, m)) = elim (Bool-cases (dst == w)) [
          | inl t ↦
              let there : find w (put dst (with_on_list false rt1) tree)
                  ≡ some (with_on_list false rt1) =
                at w ∙ (rw t refl) in
              let e' : some (with_on_list false rt1) ≡ some r = sym there ∙ e in
              let same : with_on_list false rt1 ≡ r = ground (arith, e') in
              let here : dst ≡ w = ground (arith, t) in
              let done : Finished dst (with_on_list false rt1) =
                (refl, (λ s l. (rtp, (p, e1, e2), good s l))) in
              inl (subst (λ v. Finished v r) here (subst (λ x. Finished dst x) same done))
          | inr t ↦
              let there : find w (put dst (with_on_list false rt1) tree) ≡ find w tree =
                at w ∙ (rw t refl) in
              inr (sym there ∙ e, rw t m)
        ]

        after :
            (o : Option (List (ℕ × RtEntry) × K))
            → AppliedResult queue (put dst (with_on_list false rt1) tree) o
            → AppliedResult (dst ∷ queue) tree o
        after none h = elim h [ ]
        after (some (tree', kernel')) h = record {
          apart = h.apart;
          ripe = h.ripe;
          agree = h.agree;
          finished = λ w r e. finish w r (h.finished w r e);
        }

  pub chg_kernel_routes-Applied :
      (queue : List ℕ) (tree : List (ℕ × RtEntry)) (kernel : K)
      → Apart tree
      → All Ripe tree
      → ((w : ℕ) → look kernel w ≡ fib (find w tree))
      → ((w : ℕ) → mem w queue ≡ true → (rt : RtEntry) × (find w tree ≡ some rt))
      → ((w : ℕ) → mem w queue ≡ true → Safe export conf w)
      → AppliedResult queue tree (chg_kernel_routes export conf queue tree kernel)
  unfolding chg_kernel_routes
  chg_kernel_routes-Applied [] tree kernel apart ripe agree known safe = record {
    apart = apart;
    ripe = ripe;
    agree = agree;
    finished = λ w rt e. inr (e, refl);
  }
  chg_kernel_routes-Applied (dst ∷ queue) tree kernel apart ripe agree known safe =
      let self : mem dst (dst ∷ queue) ≡ true =
        (let t : (dst == dst) ≡ true = ground arith in rw t refl) in
      let later : (w : ℕ) → mem w queue ≡ true → mem w (dst ∷ queue) ≡ true =
        λ w m. (elim (Bool-cases (dst == w)) [ inl t ↦ rw t refl | inr t ↦ rw t m ]) in
      let (rt, found) = known dst self in
      let (_, (rtp, best)) = All-found Ripe tree dst rt ripe found in
      rw (found, chg_kernel_routes)
        (applied_step dst queue tree rt rtp kernel apart ripe agree found
          (λ tree1 kernel1 a1 r1 g1 k1.
            chg_kernel_routes-Applied queue tree1 kernel1 a1 r1 g1
              (λ w m. (let (r, e) = known w (later w m) in k1 w r e)) (λ w m. safe w (later w m)))
          (change_route export conf dst rt kernel)
          (change_route-Changed export conf look laws live dst rt rtp kernel
            ((All-found Ripe tree dst rt ripe found).0) best (agree dst ∙ ap fib found)
            (safe dst self)))

  -- The kernel has the routes of the entries; no entry waits in a queue.
  pub record InStep (tree : List (ℕ × RtEntry)) (kernel : K) : Type 0 where
    pub apart : Apart tree
    pub well : All (λ x. Well conf (x.0) (x.1)) tree
    pub off : All (λ x. x.1.on_list ≡ false) tree
    pub agree : (w : ℕ) → look kernel w ≡ fib (find w tree)

  -- After an update the kernel is in step, and has the best paths where no route is refused.
  abbrev pub Updated : Option (List (ℕ × RtEntry) × Option ℕ × K) → Type 0
  Updated none = ⊥
  Updated (some (tree, inetgw, kernel)) =
      InStep tree kernel
      × ((w : ℕ) (rt : RtEntry)
          → find w tree ≡ some rt
          → Succeeds export
          → is_linklocal conf (prefix_addr w) ≡ false
          → (rtp : RtPath) × HasBest rt rtp × (look kernel w ≡ some (rtp.rtp_nexthop)))
