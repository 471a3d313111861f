-- ===== src/Rib/Updated.antt =====
-- What olsr_update_rib_routes of src/process_routes.c makes of the table and the queues.
use olsrd_hybrid_plc.Prelude.{
  Apart, All, ℕ, ◌≡◌, ◌⊎◌, refl, sym, subst, ap, ◌∙◌, Bool, true, false, Bool-cases, inl, inr,
  Option, none, some, List, [], ◌∷◌, arith, ◌==◌, if◌then◌else◌, find, mem,
}
use olsrd_hybrid_plc.Rib.{
  Nexthop, RtPath, RtEntry, RibConf, Queues, delete_outdated_routes, enqueue, with_on_list, flush,
  elect, update_rib_routes, get_nh,
}
use olsrd_hybrid_plc.Rib.Paths.{Live}
use olsrd_hybrid_plc.Rib.Entry.{Well, delete_outdated_routes-Well, Elected, elect-Elected}
use olsrd_hybrid_plc.Rib.Queued.{
  find-enqueue, mem-enqueue, All-enqueue, Disjoint, Ready, Near, QueuedResult,
}
use olsrd_hybrid_plc.Rib.Visit.{
  get_nh-none, Live-none, Ready-longer, unchanged_nexthop, Queued-nil, Queued-cons, Queued-flushed,
}

module _ (conf : RibConf) where
  flush-some :
      (dst : ℕ) (rt : RtEntry) (q : Queues) (nh : Nexthop)
      → rt.on_list ≡ false
      → get_nh rt ≡ some nh
      → flush dst rt q
        ≡ some (record {
          current_inetgw = q.current_inetgw;
          chg_kernel_list = q.chg_kernel_list;
          del_kernel_list = enqueue dst nh (dst, with_on_list true rt) (q.del_kernel_list);
        })
  flush-some dst rt q nh off e = rw (flush, off, e) refl

  -- How the queues grow by an election.
  Elected-chg :
      (dst : ℕ) (rt rt' : RtEntry) (q q1 : Queues)
      → Elected conf dst q rt (some (rt', q1))
      → ((w : ℕ) → mem w (q.chg_kernel_list) ≡ true → mem w (q1.chg_kernel_list) ≡ true)
        × ((w : ℕ)
            → mem w (q1.chg_kernel_list) ≡ true
            → (mem w (q.chg_kernel_list) ≡ true) ⊎ ((dst == w) ≡ true))
        × Ready (q1.chg_kernel_list) (dst, rt')
  Elected-chg dst rt rt' q q1 (w, same, del, (rtp, best, inl (e, off, unchanged))) =
      let list : q1.chg_kernel_list ≡ q.chg_kernel_list =
        ap (λ (x : Queues). x.chg_kernel_list) e in
      (
        (λ v m. ap (λ l. mem v l) list ∙ m),
        (λ v m. inl (ap (λ l. mem v l) (sym list) ∙ m)),
        (rtp, best, inr (off, same ∙ unchanged_nexthop conf rtp rt unchanged)),
      )
  Elected-chg dst rt rt' q q1 (w, same, del, (rtp, best, inr (e, on))) =
      let list : q1.chg_kernel_list ≡ enqueue dst (rtp.rtp_nexthop) dst (q.chg_kernel_list) =
        ap (λ (x : Queues). x.chg_kernel_list) e in
      let test : (v : ℕ)
          → mem v (q1.chg_kernel_list) ≡ (if dst == v then true else mem v (q.chg_kernel_list)) =
        λ v. ap (λ l. mem v l) list ∙ mem-enqueue dst v (rtp.rtp_nexthop) (q.chg_kernel_list) in
      (
        (λ v m. test v ∙ (rw m (either (dst == v)))),
        (λ v m. cases v (sym (test v) ∙ m)),
        (
          rtp,
          best,
          inl (test dst ∙ (let self : (dst == dst) ≡ true = ground arith in rw self refl)),
        ),
      )
    where
      either : (b : Bool) → (if b then true else true) ≡ true
      either true = refl
      either false = refl

      cases :
          (v : ℕ)
          → (if dst == v then true else mem v (q.chg_kernel_list)) ≡ true
          → (mem v (q.chg_kernel_list) ≡ true) ⊎ ((dst == v) ≡ true)
      cases v m = elim (Bool-cases (dst == v)) [ inl t ↦ inr t | inr t ↦ inl (rw t at m) ]

  -- The rest of the entries, as the recursion treats it.
  abbrev Rest : ℕ → List (ℕ × RtEntry) → Type 0
  Rest version tree =
      (q : Queues)
      → Disjoint tree (q.del_kernel_list)
      → All (Near conf) (q.del_kernel_list)
      → QueuedResult conf tree (q.chg_kernel_list) (q.del_kernel_list)
          (update_rib_routes conf version tree q)

  module _ (version dst : ℕ) (rt0 : RtEntry) (tree : List (ℕ × RtEntry)) (q : Queues)
      (new : find dst tree ≡ none) (well : Well conf dst rt0) (off : rt0.on_list ≡ false)
      (disjoint : Disjoint ((dst, rt0) ∷ tree) (q.del_kernel_list))
      (near : All (Near conf) (q.del_kernel_list)) (rest : Rest version tree) where
    undeleted : find dst (q.del_kernel_list) ≡ none
    unfolding find
    undeleted = elim (disjoint dst) [
      | inl e ↦
          let self : (dst == dst) ≡ true = ground arith in absurd (ground (arith, rw self at e))
      | inr e ↦ e
    ]

    Disjoint-rest : Disjoint tree (q.del_kernel_list)
    unfolding find
    Disjoint-rest w = elim (disjoint w) [
      | inr e ↦ inr e
      | inl e ↦ elim (Bool-cases (dst == w)) [
        | inl t ↦ absurd (ground (arith, rw t at e))
        | inr t ↦ inl (rw t at e)
      ]
    ]

    abbrev cut : RtEntry
    cut = delete_outdated_routes version rt0

    next-Disjoint :
        Disjoint tree
          (enqueue dst (rt0.rt_nexthop) (dst, with_on_list true cut) (q.del_kernel_list))
    next-Disjoint w = elim (Bool-cases (dst == w)) [
      | inl t ↦
          let here : dst ≡ w = ground (arith, t) in inl (ap (λ v. find v tree) (sym here) ∙ new)
      | inr t ↦ elim (Disjoint-rest w) [
        | inl e ↦ inl e
        | inr e ↦ inr (
            find-enqueue dst w (rt0.rt_nexthop) (with_on_list true cut) (q.del_kernel_list)
              undeleted
            ∙ (rw t e))
      ]
    ]

    flushed_step :
        cut.rt_path_tree ≡ []
        → QueuedResult conf
            ((dst, rt0) ∷ tree)
            (q.chg_kernel_list)
            (q.del_kernel_list)
            (elim (flush dst cut q) as (λ o. Option (List (ℕ × RtEntry) × Queues)) [
              | none ↦ none
              | some q' ↦ update_rib_routes conf version tree q'
            ])
    flushed_step e =
        let live : Live (cut.rt_best) [] =
          subst (λ m. Live (cut.rt_best) m) e
            ((delete_outdated_routes-Well conf version dst rt0 well).live) in
        let gn : get_nh cut ≡ some (rt0.rt_nexthop) =
          get_nh-none cut (Live-none (cut.rt_best) live) in
        subst
          (λ o.
            QueuedResult conf ((dst, rt0) ∷ tree) (q.chg_kernel_list) (q.del_kernel_list)
              (elim o as (λ o. Option (List (ℕ × RtEntry) × Queues)) [
                | none ↦ none
                | some q' ↦ update_rib_routes conf version tree q'
              ]))
          (sym (flush-some dst cut q (rt0.rt_nexthop) off gn))
          (after next (update_rib_routes conf version tree next) (rest next next-Disjoint near1))
      where
        next : Queues
        next = record {
          current_inetgw = q.current_inetgw;
          chg_kernel_list = q.chg_kernel_list;
          del_kernel_list =
              enqueue dst (rt0.rt_nexthop) (dst, with_on_list true cut) (q.del_kernel_list);
        }

        near1 :
            All
              (Near conf)
              (enqueue dst (rt0.rt_nexthop) (dst, with_on_list true cut) (q.del_kernel_list))
        near1 =
            All-enqueue (Near conf) dst (rt0.rt_nexthop) (dst, with_on_list true cut)
              (q.del_kernel_list) (well.local) near

        after :
            (q1 : Queues) (o : Option (List (ℕ × RtEntry) × Queues))
            → QueuedResult conf tree
                (q.chg_kernel_list)
                (enqueue dst (rt0.rt_nexthop) (dst, with_on_list true cut) (q.del_kernel_list))
                o
            → QueuedResult conf ((dst, rt0) ∷ tree) (q.chg_kernel_list) (q.del_kernel_list) o
        after q1 none h = elim h [ ]
        after q1 (some (tree', q')) h =
            Queued-flushed conf dst rt0 cut (rt0.rt_nexthop) tree tree' (q.chg_kernel_list)
              (q.del_kernel_list) q' new undeleted refl h

    kept_step :
        (o : Option (RtEntry × Queues))
        → Elected conf dst q cut o
        → QueuedResult conf
            ((dst, rt0) ∷ tree)
            (q.chg_kernel_list)
            (q.del_kernel_list)
            (elim o as (λ o. Option (List (ℕ × RtEntry) × Queues)) [
              | none ↦ none
              | some (rt', q') ↦ elim (update_rib_routes conf version tree q') [
                | none ↦ none
                | some (tree', q'') ↦ some ((dst, rt') ∷ tree', q'')
              ]
            ])
    kept_step none elected = elim elected [ ]
    kept_step (some (rt', q1)) elected =
        let (w', same, del, _) = elected in
        let h : QueuedResult conf tree (q1.chg_kernel_list) (q1.del_kernel_list)
            (update_rib_routes conf version tree q1) =
          rest q1 (subst (λ l. Disjoint tree l) (sym del) Disjoint-rest)
            (subst (λ l. All (Near conf) l) (sym del) near) in
        after (update_rib_routes conf version tree q1) (
          subst
            (λ l.
              QueuedResult conf tree (q1.chg_kernel_list) l
                (update_rib_routes conf version tree q1))
            del h)
      where
        after :
            (o : Option (List (ℕ × RtEntry) × Queues))
            → QueuedResult conf tree (q1.chg_kernel_list) (q.del_kernel_list) o
            → QueuedResult conf
                ((dst, rt0) ∷ tree)
                (q.chg_kernel_list)
                (q.del_kernel_list)
                (elim o as (λ o. Option (List (ℕ × RtEntry) × Queues)) [
                  | none ↦ none
                  | some (tree', q'') ↦ some ((dst, rt') ∷ tree', q'')
                ])
        after none h = elim h [ ]
        after (some (tree', q'')) h =
            let (longer1, only, ready) = Elected-chg dst cut rt' q q1 elected in
            Queued-cons conf dst rt0 rt' tree tree' (q.chg_kernel_list) (q1.chg_kernel_list)
              (q.del_kernel_list) q'' new undeleted (elected.1) (elected.0) longer1 only h
              (Ready-longer (q1.chg_kernel_list) (q''.chg_kernel_list) (dst, rt') (h.longer) ready)

    one_step :
        (m : List (ℕ × RtPath))
        → cut.rt_path_tree ≡ m
        → QueuedResult conf
            ((dst, rt0) ∷ tree)
            (q.chg_kernel_list)
            (q.del_kernel_list)
            (elim m as (λ paths. Option (List (ℕ × RtEntry) × Queues)) [
              | [] ↦ elim (flush dst cut q) [
                | none ↦ none
                | some q' ↦ update_rib_routes conf version tree q'
              ]
              | x ∷ paths ↦ elim (elect conf dst cut q) [
                | none ↦ none
                | some (rt', q') ↦ elim (update_rib_routes conf version tree q') [
                  | none ↦ none
                  | some (tree', q'') ↦ some ((dst, rt') ∷ tree', q'')
                ]
              ]
            ])
    one_step [] e = flushed_step e
    one_step (x ∷ paths) e = kept_step (elect conf dst cut q) (
        elect-Elected conf dst q cut x paths e off
          (delete_outdated_routes-Well conf version dst rt0 well))

  pub update_rib_routes-Queued :
      (version : ℕ) (tree : List (ℕ × RtEntry)) (q : Queues)
      → Apart tree
      → All (λ x. Well conf (x.0) (x.1)) tree
      → All (λ x. x.1.on_list ≡ false) tree
      → Disjoint tree (q.del_kernel_list)
      → All (Near conf) (q.del_kernel_list)
      → QueuedResult conf tree
          (q.chg_kernel_list)
          (q.del_kernel_list)
          (update_rib_routes conf version tree q)
  unfolding update_rib_routes
  update_rib_routes-Queued version [] q a well off disjoint near = Queued-nil conf q near
  update_rib_routes-Queued version ((dst, rt) ∷ tree) q (new, a) (w, well) (o, off) disjoint near =
      one_step version dst rt tree q new w o disjoint near
        (λ q1 disjoint1 near1. update_rib_routes-Queued version tree q1 a well off disjoint1 near1)
        ((delete_outdated_routes version rt).rt_path_tree) refl
