-- ===== src/Rib/Gone.antt =====
-- Paths that are gone, in src/process_routes.c: all of them, and the best one of an entry.
use olsrd_hybrid_plc.Prelude.{
  All, ℕ, ◌≡◌, ◌⊎◌, refl, sym, subst, ap, ◌∙◌, Bool, true, false, inl, inr, Option, none, some,
  List, [], ◌∷◌, arith, ◌==◌, if◌then◌else◌, find, put, find-put, delete, mem,
}
use olsrd_hybrid_plc.Rib.{
  Metric, Nexthop, RtPath, RtEntry, RibConf, Queues, current_paths, delete_outdated_routes, flush,
  elect, update_rib_routes,
}
use olsrd_hybrid_plc.Rib.Insert.{with_paths, delete_rt_path}
use olsrd_hybrid_plc.Rib.Fib.{
  Export, bump_version, chg_kernel_routes, del_kernel_routes, update_kernel_routes,
  with_queues_empty, update_routes, delete_all_kernel_routes,
}
use olsrd_hybrid_plc.Rib.Queued.{fib, QueuedResult}
use olsrd_hybrid_plc.Rib.Updated.{update_rib_routes-Queued}
use olsrd_hybrid_plc.Rib.Deleted.{FibLaws, del_kernel_routes-fib}
use olsrd_hybrid_plc.Rib.Agrees.{InStep}

-- No path of the table is of this version.
abbrev pub Outdated : ℕ → List (ℕ × RtEntry) → Type 0
Outdated version tree =
    All
      (λ (x : ℕ × RtEntry).
        All (λ (y : ℕ × RtPath). (version == y.1.rtp_version) ≡ false) (x.1.rt_path_tree))
      tree

outdated_paths :
    (version : ℕ) (paths : List (ℕ × RtPath))
    → All (λ y. (version == y.1.rtp_version) ≡ false) paths
    → current_paths version paths ≡ []
outdated_paths version [] all = refl
outdated_paths version ((p, rtp) ∷ paths) (t, all) = rw t (outdated_paths version paths all)

-- A table without entries, if there is one.
abbrev pub Emptied : {X : Type 0} → Option (List (ℕ × RtEntry) × X) → Type 0
Emptied none = Unit {0}
Emptied (some (tree, x)) = tree ≡ []

Emptied-rib :
    (conf : RibConf) (version : ℕ) (tree : List (ℕ × RtEntry)) (q : Queues)
    → Outdated version tree
    → Emptied (update_rib_routes conf version tree q)
unfolding update_rib_routes
Emptied-rib conf version [] q all = refl
Emptied-rib conf version ((dst, rt) ∷ tree) q (paths, all) =
    rw (outdated_paths version (rt.rt_path_tree) paths, update_rib_routes)
      (after (flush dst (delete_outdated_routes version rt) q)
        (λ q'. Emptied-rib conf version tree q' all))
  where
    after :
        (o : Option Queues)
        → ((q' : Queues) → Emptied (update_rib_routes conf version tree q'))
        → Emptied (elim o as (λ o. Option (List (ℕ × RtEntry) × Queues)) [
          | none ↦ none
          | some q' ↦ update_rib_routes conf version tree q'
        ])
    after none rest = tt
    after (some q') rest = rest q'

module _ {K : Type 0} (export : Export K) (conf : RibConf) (look : K → ℕ → Option Nexthop)
    (laws : FibLaws export look) (live : conf.host_emul ≡ false) where
  -- Neither the table nor the kernel has a route.
  abbrev pub Removed : Option (List (ℕ × RtEntry) × Option ℕ × K) → Type 0
  Removed none = ⊥
  Removed (some (tree, inetgw, kernel)) = (tree ≡ []) × ((w : ℕ) → look kernel w ≡ none)

  removed_lem :
      (tree : List (ℕ × RtEntry)) (kernel : K)
      → InStep export conf look laws live tree kernel
      → (o : Option (List (ℕ × RtEntry) × Queues)) → QueuedResult conf tree [] [] o
      → Emptied o
      → Removed (elim o as (λ o. Option (List (ℕ × RtEntry) × Option ℕ × K)) [
        | none ↦ none
        | some (tree', q) ↦ elim (update_kernel_routes export conf tree' q kernel) [
          | none ↦ none
          | some (tree'', kernel') ↦ some (tree'', q.current_inetgw, kernel')
        ]
      ])
  unfolding find chg_kernel_routes
  removed_lem tree kernel before none h e = elim h [ ]
  removed_lem tree kernel before (some (tree1, q)) h e =
      subst
        (λ t.
          Removed
            (elim (chg_kernel_routes export conf (q.chg_kernel_list) t
                (del_kernel_routes export conf (q.del_kernel_list) kernel))
              as (λ o. Option (List (ℕ × RtEntry) × Option ℕ × K)) [
                | none ↦ none
                | some (tree'', kernel') ↦ some (tree'', q.current_inetgw, kernel')
              ]))
        (sym e) (by_queue (q.chg_kernel_list) (λ w m. known w (h.known w m)))
    where
      nothing : (w : ℕ) → look (del_kernel_routes export conf (q.del_kernel_list) kernel) w ≡ none
      nothing w =
          del_kernel_routes-fib export conf look laws live tree1 (q.del_kernel_list) kernel (h.near)
            (h.disjoint) (λ v. before.agree v ∙ sym (h.kept v)) w
          ∙ ap (λ t. fib (find w t)) e

      known : (w : ℕ) → (mem w [] ≡ true) ⊎ ((rt : RtEntry) × (find w tree1 ≡ some rt)) → ⊥
      known w (inl m) = ground (arith, m)
      known w (inr (rt, found)) =
          let empty : find w [] ≡ some rt = subst (λ t. find w t ≡ some rt) e found in
          ground (arith, empty)

      by_queue :
          (queue : List ℕ)
          → ((w : ℕ) → mem w queue ≡ true → ⊥)
          → Removed
              (elim (chg_kernel_routes export conf queue []
                  (del_kernel_routes export conf (q.del_kernel_list) kernel))
                as (λ o. Option (List (ℕ × RtEntry) × Option ℕ × K)) [
                  | none ↦ none
                  | some (tree'', kernel') ↦ some (tree'', q.current_inetgw, kernel')
                ])
      by_queue [] never = (refl, nothing)
      by_queue (x ∷ queue) never =
          absurd (never x (let self : (x == x) ≡ true = ground arith in rw self refl))

  -- Outside of the emulation of hosts, where the kernel's functions obey their laws: from a table and a
  -- kernel in step, in which no path has the next version number, all routes are deleted from both.
  pub delete_all_kernel_routes-Removed :
      (version : ℕ) (tree : List (ℕ × RtEntry)) (inetgw : Option ℕ) (kernel : K)
      → InStep export conf look laws live tree kernel
      → Outdated (bump_version version) tree
      → Removed (delete_all_kernel_routes export conf version tree inetgw kernel)
  unfolding delete_all_kernel_routes update_routes find
  delete_all_kernel_routes-Removed version tree inetgw kernel before old =
      removed_lem tree kernel before
        (update_rib_routes conf (bump_version version) tree (with_queues_empty export conf inetgw))
        (update_rib_routes-Queued conf (bump_version version) tree
          (with_queues_empty export conf inetgw) (before.apart) (before.well) (before.off)
          (λ w. inr refl) tt)
        (Emptied-rib conf (bump_version version) tree (with_queues_empty export conf inetgw) old)

-- The flush of an entry without paths follows a best path that is gone.
dangling_head :
    (conf : RibConf) (version j p : ℕ) (best : Option ℕ) (nh : Nexthop) (met : Metric)
    (paths : List (ℕ × RtPath)) (b : Bool) (tree : List (ℕ × RtEntry)) (q : Queues)
    → best ≡ some p
    → paths ≡ []
    → update_rib_routes conf version
        ((
          j,
          record {
            rt_best = best;
            rt_nexthop = nh;
            rt_metric = met;
            rt_path_tree = paths;
            on_list = b;
          },
        )
          ∷ tree)
        q
      ≡ none
unfolding update_rib_routes find
dangling_head conf version j p none nh met paths b tree q e empty = absurd (ground (arith, e))
dangling_head conf version j p (some k) nh met (x ∷ paths) b tree q e empty =
    absurd (ground (arith, empty))
dangling_head conf version j p (some k) nh met [] true tree q e empty = refl
dangling_head conf version j p (some k) nh met [] false tree q e empty = refl

dangling_rib :
    (conf : RibConf) (version dst p : ℕ) (rt : RtEntry) (tree : List (ℕ × RtEntry)) (q : Queues)
    → find dst tree ≡ some rt
    → rt.rt_best ≡ some p
    → rt.rt_path_tree ≡ []
    → update_rib_routes conf version tree q ≡ none
unfolding update_rib_routes find
dangling_rib conf version dst p rt [] q e best empty = absurd (ground (arith, e))
dangling_rib conf version dst p rt ((j, r) ∷ tree) q e best empty =
    by_key (j == dst) e (λ e' q'. dangling_rib conf version dst p rt tree q' e' best empty)
  where
    by_paths :
        (m : List (ℕ × RtPath))
        → ((q' : Queues) → update_rib_routes conf version tree q' ≡ none)
        → (elim m as (λ paths. Option (List (ℕ × RtEntry) × Queues)) [
          | [] ↦ elim (flush j (delete_outdated_routes version r) q) [
            | none ↦ none
            | some q' ↦ update_rib_routes conf version tree q'
          ]
          | x ∷ paths ↦ elim (elect conf j (delete_outdated_routes version r) q) [
            | none ↦ none
            | some (rt', q') ↦ elim (update_rib_routes conf version tree q') [
              | none ↦ none
              | some (tree', q'') ↦ some ((j, rt') ∷ tree', q'')
            ]
          ]
        ])
          ≡ none
    by_paths [] ih = flushed (flush j (delete_outdated_routes version r) q)
      where
        flushed :
            (o : Option Queues)
            → (elim o as (λ o. Option (List (ℕ × RtEntry) × Queues)) [
              | none ↦ none
              | some q' ↦ update_rib_routes conf version tree q'
            ])
              ≡ none
        flushed none = refl
        flushed (some q') = ih q'
    by_paths (x ∷ paths) ih = elected (elect conf j (delete_outdated_routes version r) q)
      where
        elected :
            (o : Option (RtEntry × Queues))
            → (elim o as (λ o. Option (List (ℕ × RtEntry) × Queues)) [
              | none ↦ none
              | some (rt', q') ↦ elim (update_rib_routes conf version tree q') [
                | none ↦ none
                | some (tree', q'') ↦ some ((j, rt') ∷ tree', q'')
              ]
            ])
              ≡ none
        elected none = refl
        elected (some (rt', q')) = rw (ih q') refl

    by_key :
        (t : Bool)
        → (if t then some r else find dst tree) ≡ some rt
        → (find dst tree ≡ some rt → (q' : Queues) → update_rib_routes conf version tree q' ≡ none)
        → update_rib_routes conf version ((j, r) ∷ tree) q ≡ none
    by_key true e' ih =
        let same : r ≡ rt = ground (arith, e') in
        let best' : r.rt_best ≡ some p = ap (λ (x : RtEntry). x.rt_best) same ∙ best in
        let empty' : r.rt_path_tree ≡ [] = ap (λ (x : RtEntry). x.rt_path_tree) same ∙ empty in
        dangling_head conf version j p (r.rt_best) (r.rt_nexthop) (r.rt_metric) (r.rt_path_tree)
          (r.on_list) tree q best' empty'
    by_key false e' ih = by_paths ((delete_outdated_routes version r).rt_path_tree) (ih e')

-- The deletion of the only path of an entry, which was elected, leaves a pointer to it: the next update
-- of the table follows that pointer.
pub delete_rt_path-dangling :
    (conf : RibConf) (version dst p : ℕ) (rt : RtEntry) (rtp : RtPath) (tree : List (ℕ × RtEntry))
    (inetgw : Option ℕ) (q : Queues)
    → find dst tree ≡ some rt
    → rt.rt_best ≡ some p
    → rt.rt_path_tree ≡ (p, rtp) ∷ []
    → update_rib_routes conf version ((delete_rt_path dst p tree inetgw).0) q ≡ none
unfolding delete_rt_path delete
delete_rt_path-dangling conf version dst p rt rtp tree inetgw q e best only =
    let self : (p == p) ≡ true = ground arith in
    let t : (dst == dst) ≡ true = ground arith in
    let left : delete p (rt.rt_path_tree) ≡ [] = ap (λ m. delete p m) only ∙ (rw self refl) in
    let found : find dst (put dst (with_paths (delete p (rt.rt_path_tree)) rt) tree)
        ≡ some (with_paths (delete p (rt.rt_path_tree)) rt) =
      find-put dst dst (with_paths (delete p (rt.rt_path_tree)) rt) tree ∙ (rw t refl) in
    rw (e, delete_rt_path)
      (dangling_rib conf version dst p (with_paths (delete p (rt.rt_path_tree)) rt)
        (put dst (with_paths (delete p (rt.rt_path_tree)) rt) tree) q found best left)
