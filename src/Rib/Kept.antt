-- ===== src/Rib/Kept.antt =====
-- The routing table of src/routing_table.c stays in step with the kernel while paths are inserted.
use olsrd_hybrid_plc.Prelude.{
  put-Apart, ℕ, ◌≡◌, refl, sym, ap, ◌∙◌, true, false, Bool-cases, inl, inr, Option, none, some,
  List, [], arith, ltb, ◌==◌, find, put, find-put,
}
use olsrd_hybrid_plc.Spf.{route_cost_broken}
use olsrd_hybrid_plc.Rib.{Metric, Nexthop, RtPath, RtEntry, RibConf, is_index, prefix_len}
use olsrd_hybrid_plc.Rib.Insert.{
  current_path, with_paths, update_rt_path, fresh_entry, insert_entry, insert_path, insert_rt_path,
}
use olsrd_hybrid_plc.Rib.Sorted.{
  find-insert_entry, insert_entry-Apart, insert_entry-All, find-insert_path, insert_path-Apart,
  insert_path-All,
}
use olsrd_hybrid_plc.Rib.Fib.{Export}
use olsrd_hybrid_plc.Rib.Paths.{All-found, Live}
use olsrd_hybrid_plc.Rib.Entry.{Well}
use olsrd_hybrid_plc.Rib.Queued.{fib}
use olsrd_hybrid_plc.Rib.Deleted.{FibLaws}
use olsrd_hybrid_plc.Rib.Changed.{put-All}
use olsrd_hybrid_plc.Rib.Agrees.{InStep}

module _ (conf : RibConf) (dst p : ℕ) (rt : RtEntry) (w : Well conf dst rt) (rtp : RtPath)
    (index : is_index (rtp.rtp_nexthop.iif_index) ≡ true) where
  insert_path-Well :
      find p (rt.rt_path_tree) ≡ none
      → Well conf dst (with_paths (insert_path p rtp (rt.rt_path_tree)) rt)
  insert_path-Well new = record {
    apart = insert_path-Apart p rtp (rt.rt_path_tree) new (w.apart);
    indices =
        insert_path-All (λ x. is_index (x.1.rtp_nexthop.iif_index) ≡ true) p rtp (rt.rt_path_tree)
          index (w.indices);
    live = there (rt.rt_best) (w.live);
    local = w.local;
  }
    where
      there :
          (best : Option ℕ)
          → Live best (rt.rt_path_tree)
          → Live best (insert_path p rtp (rt.rt_path_tree))
      there none live = tt
      there (some q) (r, e) = elim (Bool-cases (p == q)) [
        | inl t ↦
            let here : p ≡ q = ground (arith, t) in
            absurd (ground (arith, sym new ∙ ap (λ x. find x (rt.rt_path_tree)) here ∙ e))
        | inr t ↦ (r, find-insert_path p q rtp (rt.rt_path_tree) t ∙ e)
      ]

  put_path-Well : Well conf dst (with_paths (put p rtp (rt.rt_path_tree)) rt)
  put_path-Well = record {
    apart = put-Apart p rtp (rt.rt_path_tree) (w.apart);
    indices =
        put-All (λ x. is_index (x.1.rtp_nexthop.iif_index) ≡ true) p rtp (rt.rt_path_tree) index
          (w.indices);
    live = there (rt.rt_best) (w.live);
    local = w.local;
  }
    where
      there :
          (best : Option ℕ) → Live best (rt.rt_path_tree) → Live best (put p rtp (rt.rt_path_tree))
      there none live = tt
      there (some q) (r, e) = elim (Bool-cases (p == q)) [
        | inl t ↦ (rtp, find-put p q rtp (rt.rt_path_tree) ∙ (rw t refl))
        | inr t ↦ (r, find-put p q rtp (rt.rt_path_tree) ∙ (rw t e))
      ]

module _ {K : Type 0} (export : Export K) (conf : RibConf) (look : K → ℕ → Option Nexthop)
    (laws : FibLaws export look) (live : conf.host_emul ≡ false) where
  module _ (tree : List (ℕ × RtEntry)) (kernel : K)
      (h : InStep export conf look laws live tree kernel) (dst : ℕ) where
    -- An entry with other paths, and the same route in the kernel.
    put-InStep :
        (rt rt' : RtEntry)
        → find dst tree ≡ some rt
        → Well conf dst rt'
        → rt'.on_list ≡ false
        → fib (some rt') ≡ fib (some rt)
        → InStep export conf look laws live (put dst rt' tree) kernel
    put-InStep rt rt' found w off same = record {
      apart = put-Apart dst rt' tree (h.apart);
      well = put-All (λ x. Well conf (x.0) (x.1)) dst rt' tree w (h.well);
      off = put-All (λ x. x.1.on_list ≡ false) dst rt' tree off (h.off);
      agree = agree';
    }
      where
        agree' : (v : ℕ) → look kernel v ≡ fib (find v (put dst rt' tree))
        agree' v = elim (Bool-cases (dst == v)) [
          | inl t ↦
              let here : dst ≡ v = ground (arith, t) in
              let there : find v (put dst rt' tree) ≡ some rt' =
                find-put dst v rt' tree ∙ (rw t refl) in
              let before : find v tree ≡ some rt = ap (λ x. find x tree) (sym here) ∙ found in
              h.agree v ∙ ap fib before ∙ sym same ∙ sym (ap fib there)
          | inr t ↦
              let there : find v (put dst rt' tree) ≡ find v tree =
                find-put dst v rt' tree ∙ (rw t refl) in
              h.agree v ∙ sym (ap fib there)
        ]

    -- A new entry, for which the kernel has nothing.
    insert_InStep :
        (rt : RtEntry)
        → find dst tree ≡ none
        → Well conf dst rt
        → rt.on_list ≡ false
        → fib (some rt) ≡ none
        → InStep export conf look laws live (insert_entry dst rt tree) kernel
    insert_InStep rt new w off empty = record {
      apart = insert_entry-Apart dst rt tree new (h.apart);
      well = insert_entry-All (λ x. Well conf (x.0) (x.1)) dst rt tree w (h.well);
      off = insert_entry-All (λ x. x.1.on_list ≡ false) dst rt tree off (h.off);
      agree = agree';
    }
      where
        agree' : (v : ℕ) → look kernel v ≡ fib (find v (insert_entry dst rt tree))
        agree' v = elim (Bool-cases (dst == v)) [
          | inl t ↦
              let here : dst ≡ v = ground (arith, t) in
              let there : find v (insert_entry dst rt tree) ≡ some rt =
                find-insert_entry dst v rt tree new ∙ (rw t refl) in
              let before : find v tree ≡ none = ap (λ x. find x tree) (sym here) ∙ new in
              h.agree v ∙ ap fib before ∙ sym empty ∙ sym (ap fib there)
          | inr t ↦
              let there : find v (insert_entry dst rt tree) ≡ find v tree =
                find-insert_entry dst v rt tree new ∙ (rw t refl) in
              h.agree v ∙ sym (ap fib there)
        ]

    fresh-Well : Well conf dst fresh_entry
    fresh-Well = record {
      apart = tt;
      indices = tt;
      live = tt;
      local = λ i. absurd (ground (arith, i));
    }

    -- The insertion of a path whose pointer is not in the table yet keeps a table and a kernel in step,
    -- whether it is refused, makes a new entry or goes into one, if the path has an interface.
    pub insert_rt_path-InStep :
        (maxplen version originator : ℕ) (nh : Nexthop) (met : Metric) (p : ℕ)
        → is_index (nh.iif_index) ≡ true
        → ((rt : RtEntry) → find dst tree ≡ some rt → find p (rt.rt_path_tree) ≡ none)
        → InStep export conf look laws live
            (insert_rt_path maxplen version originator nh met dst p tree)
            kernel
    unfolding insert_rt_path find
    insert_rt_path-InStep maxplen version originator nh met p index new =
        elim (Bool-cases (met.cost == route_cost_broken)) [
          | inl t ↦ rw t h
          | inr t ↦ elim (Bool-cases (ltb maxplen (prefix_len dst))) [
            | inl l ↦ rw (t, l) h
            | inr l ↦ rw (t, l) (go (find dst tree) refl)
          ]
        ]
      where
        rtp : RtPath
        rtp = current_path version nh met originator

        go :
            (o : Option RtEntry)
            → find dst tree ≡ o
            → InStep export conf look laws live
                (elim o [
                  | none ↦
                      insert_entry dst
                        (with_paths
                          (insert_path p (current_path version nh met originator) [])
                          fresh_entry)
                        tree
                  | some rt ↦
                      put dst
                        (with_paths
                          (insert_path p (current_path version nh met originator) (rt.rt_path_tree))
                          rt)
                        tree
                ])
                kernel
        go none e =
            insert_InStep
              (with_paths (insert_path p (current_path version nh met originator) []) fresh_entry) e
              (insert_path-Well conf dst p fresh_entry fresh-Well
                (current_path version nh met originator) index refl)
              refl refl
        go (some rt) e =
            put-InStep rt
              (with_paths (insert_path p (current_path version nh met originator) (rt.rt_path_tree))
                rt)
              e
              (insert_path-Well conf dst p rt
                (All-found (λ x. Well conf (x.0) (x.1)) tree dst rt (h.well) e)
                (current_path version nh met originator) index (new rt e))
              (All-found (λ x. x.1.on_list ≡ false) tree dst rt (h.off) e) refl

    abbrev pub KeptInStep : Option (List (ℕ × RtEntry)) → Type 0
    KeptInStep none = ⊥
    KeptInStep (some tree') = InStep export conf look laws live tree' kernel

    -- The same of an update of a path that is in the table.
    pub update_rt_path-InStep :
        (version : ℕ) (nh : Nexthop) (met : Metric) (p : ℕ) (rt : RtEntry) (rtp : RtPath)
        → is_index (nh.iif_index) ≡ true
        → find dst tree ≡ some rt
        → find p (rt.rt_path_tree) ≡ some rtp
        → KeptInStep (update_rt_path version nh met dst p tree)
    unfolding update_rt_path
    update_rt_path-InStep version nh met p rt rtp index found path =
        rw (found, path, update_rt_path)
          (put-InStep rt
            (with_paths (put p (current_path version nh met (rtp.rtp_originator)) (rt.rt_path_tree))
              rt)
            found
            (put_path-Well conf dst p rt
              (All-found (λ x. Well conf (x.0) (x.1)) tree dst rt (h.well) found)
              (current_path version nh met (rtp.rtp_originator)) index)
            (All-found (λ x. x.1.on_list ≡ false) tree dst rt (h.off) found) refl)
