-- ===== src/Mpr/Changes.antt =====
-- What olsr_check_mpr_changes reports.
use olsrd_hybrid_plc.Prelude.{All, ◌≡◌, refl, Bool, true, false, ◌&&◌, ◌||◌, List, [], ◌∷◌}
use olsrd_hybrid_plc.Mpr.{Neighbor}
use olsrd_hybrid_plc.Mpr.Count.{check_mpr_changes}
use olsrd_hybrid_plc.Mpr.Select.{not}

-- An MPR of the last time is one no more.
abbrev pub any_lost : List Neighbor → Bool
any_lost [] = false
any_lost (n ∷ ns) = (n.was_mpr && not (n.is_mpr)) || any_lost ns

-- A change is reported where an MPR of the last time is one no more, and only there: a new MPR is
-- no change. The marks of the last time are gone afterwards.
pub check_mpr_changes-any_lost :
    (ns : List Neighbor)
    → ((check_mpr_changes ns).1 ≡ any_lost ns)
      × All (λ (n : Neighbor). n.was_mpr ≡ false) ((check_mpr_changes ns).0)
unfolding check_mpr_changes
check_mpr_changes-any_lost [] = (refl, tt)
check_mpr_changes-any_lost (n ∷ ns) =
    step (n.was_mpr) (n.is_mpr) n refl refl (check_mpr_changes-any_lost ns)
  where
    step :
        (was is : Bool) (n : Neighbor)
        → n.was_mpr ≡ was
        → n.is_mpr ≡ is
        → ((check_mpr_changes ns).1 ≡ any_lost ns)
          × All (λ (n : Neighbor). n.was_mpr ≡ false) ((check_mpr_changes ns).0)
        → ((check_mpr_changes (n ∷ ns)).1 ≡ any_lost (n ∷ ns))
          × All (λ (n : Neighbor). n.was_mpr ≡ false) ((check_mpr_changes (n ∷ ns)).0)
    step true true n e f (same, a) = rw (e, f) (same, (refl, a))
    step true false n e f (same, a) = rw (e, f) (refl, (refl, a))
    step false is n e f (same, a) = rw e (same, (refl, a))
