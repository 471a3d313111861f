-- ===== src/Rib/Deleted.antt =====
-- What is relied on of the functions that export routes, and the deletions of src/process_routes.c.
use olsrd_hybrid_plc.Prelude.{
  All, ℕ, ◌≡◌, refl, sym, subst, ap, ◌∙◌, Bool, true, false, Bool-cases, inl, inr, Option, none,
  some, List, [], ◌∷◌, arith, ◌==◌, if◌then◌else◌, find,
}
use olsrd_hybrid_plc.Rib.{Nexthop, RtPath, RtEntry, RibConf, is_index}
use olsrd_hybrid_plc.Rib.Fib.{Export, delete_kernel_route, del_kernel_routes}
use olsrd_hybrid_plc.Rib.Queued.{fib, table, Disjoint, Near}

-- `look` is the next hop that the kernel has for a destination. A route that is added replaces the one
-- to the same destination; a refused one changes nothing.
pub record FibLaws {K : Type 0} (export : Export K) (look : K → ℕ → Option Nexthop) : Type 0 where
  pub added :
      (dst : ℕ) (rt : RtEntry) (kernel : K) (p : ℕ) (rtp : RtPath)
      → rt.rt_best ≡ some p
      → find p (rt.rt_path_tree) ≡ some rtp
      → (export.addroute dst rt kernel).1 ≡ true
      → (w : ℕ)
      → look ((export.addroute dst rt kernel).0) w
        ≡ (if dst == w then some (rtp.rtp_nexthop) else look kernel w)
  pub refused :
      (dst : ℕ) (rt : RtEntry) (kernel : K)
      → (export.addroute dst rt kernel).1 ≡ false
      → (w : ℕ) → look ((export.addroute dst rt kernel).0) w ≡ look kernel w
  pub deleted :
      (dst : ℕ) (rt : RtEntry) (kernel : K) (w : ℕ)
      → look (export.delroute dst rt kernel) w ≡ (if dst == w then none else look kernel w)

module _ {K : Type 0} (export : Export K) (conf : RibConf) (look : K → ℕ → Option Nexthop)
    (laws : FibLaws export look) (live : conf.host_emul ≡ false) where
  pub delete_kernel_route-look :
      (dst : ℕ) (rt : RtEntry) (kernel : K) (w : ℕ)
      → Near conf (dst, rt)
      → is_index (rt.rt_nexthop.iif_index) ≡ true
      → look (delete_kernel_route export conf dst rt kernel) w
        ≡ (if dst == w then none else look kernel w)
  delete_kernel_route-look dst rt kernel w near i = rw (near i, live) (laws.deleted dst rt kernel w)

  -- One deletion after those behind it.
  step_lem :
      (dst : ℕ) (rt : RtEntry) (queue : List (ℕ × RtEntry)) (kernel : K) (w : ℕ)
      → Near conf (dst, rt)
      → look (del_kernel_routes export conf ((dst, rt) ∷ queue) kernel) w ≡ (
          if is_index (rt.rt_nexthop.iif_index)
          then (if dst == w then none else look (del_kernel_routes export conf queue kernel) w)
          else look (del_kernel_routes export conf queue kernel) w)
  step_lem dst rt queue kernel w near = elim (Bool-cases (is_index (rt.rt_nexthop.iif_index))) [
    | inl i ↦
        rw i (delete_kernel_route-look dst rt (del_kernel_routes export conf queue kernel) w near i)
    | inr i ↦ rw i refl
  ]

  stays_none :
      (queue : List (ℕ × RtEntry)) (kernel : K) (w : ℕ)
      → All (Near conf) queue
      → look kernel w ≡ none
      → look (del_kernel_routes export conf queue kernel) w ≡ none
  stays_none [] kernel w near e = e
  stays_none ((dst, rt) ∷ queue) kernel w (n, near) e =
      step_lem dst rt queue kernel w n
      ∙ branch (is_index (rt.rt_nexthop.iif_index)) (dst == w)
          (look (del_kernel_routes export conf queue kernel) w) (stays_none queue kernel w near e)
    where
      branch :
          (a b : Bool) (o : Option Nexthop)
          → o ≡ none
          → (if a then (if b then none else o) else o) ≡ none
      branch true true o e' = refl
      branch true false o e' = e'
      branch false b o e' = e'

  unlisted :
      (queue : List (ℕ × RtEntry)) (kernel : K) (w : ℕ)
      → All (Near conf) queue
      → find w queue ≡ none
      → look (del_kernel_routes export conf queue kernel) w ≡ look kernel w
  unfolding find
  unlisted [] kernel w near e = refl
  unlisted ((dst, rt) ∷ queue) kernel w (n, near) e = elim (Bool-cases (dst == w)) [
    | inl t ↦ absurd (ground (arith, rw t at e))
    | inr t ↦
        step_lem dst rt queue kernel w n
        ∙ (rw t (
            same (is_index (rt.rt_nexthop.iif_index))
              (look (del_kernel_routes export conf queue kernel) w)))
        ∙ unlisted queue kernel w near (rw t at e)
  ]
    where
      same : (a : Bool) (o : Option Nexthop) → (if a then o else o) ≡ o
      same true o = refl
      same false o = refl

  listed :
      (queue : List (ℕ × RtEntry)) (kernel : K) (w : ℕ) (rt : RtEntry)
      → All (Near conf) queue
      → find w queue ≡ some rt
      → is_index (rt.rt_nexthop.iif_index) ≡ true
      → look (del_kernel_routes export conf queue kernel) w ≡ none
  unfolding find
  listed [] kernel w rt near e i = absurd (ground (arith, e))
  listed ((dst, r) ∷ queue) kernel w rt (n, near) e i = elim (Bool-cases (dst == w)) [
    | inl t ↦
        let e' : some r ≡ some rt = rw t at e in
        let same : r ≡ rt = ground (arith, e') in
        let i' : is_index (r.rt_nexthop.iif_index) ≡ true =
          subst (λ (x : RtEntry). is_index (x.rt_nexthop.iif_index) ≡ true) (sym same) i in
        step_lem dst r queue kernel w n ∙ (rw (i', t) refl)
    | inr t ↦
        step_lem dst r queue kernel w n
        ∙ (rw t (
            branch (is_index (r.rt_nexthop.iif_index))
              (look (del_kernel_routes export conf queue kernel) w)))
        ∙ listed queue kernel w rt near (rw t at e) i
  ]
    where
      branch : (a : Bool) (o : Option Nexthop) → (if a then o else o) ≡ o
      branch true o = refl
      branch false o = refl

  -- The deletions leave the routes of the table.
  pub del_kernel_routes-fib :
      (tree del : List (ℕ × RtEntry)) (kernel : K)
      → All (Near conf) del
      → Disjoint tree del
      → ((w : ℕ) → look kernel w ≡ table tree del w)
      → (w : ℕ) → look (del_kernel_routes export conf del kernel) w ≡ fib (find w tree)
  del_kernel_routes-fib tree del kernel near disjoint agree w = go (find w del) refl
    where
      go :
          (o : Option RtEntry)
          → find w del ≡ o
          → look (del_kernel_routes export conf del kernel) w ≡ fib (find w tree)
      go none e = unlisted del kernel w near e ∙ agree w ∙ (rw e refl)
      go (some rt) e =
          let gone : find w tree ≡ none = elim (disjoint w) [
            | inl h ↦ h
            | inr h ↦ absurd (ground (arith, sym h ∙ e))
          ] in
          elim (Bool-cases (is_index (rt.rt_nexthop.iif_index))) [
            | inl i ↦ listed del kernel w rt near e i ∙ ap fib (sym gone)
            | inr i ↦
                let empty : look kernel w ≡ none = agree w ∙ (rw e (rw i refl)) in
                stays_none del kernel w near empty ∙ ap fib (sym gone)
          ]
