-- ===== src/Selectors.antt =====
-- The set of the MPR selectors of src/mpr_selector_set.c: the neighbours that chose this node. Its
-- events are HELLO messages that choose it and timers that expire. A timer is the time it was last
-- set to; when it expires is up to the scheduler.
pub mod History
use olsrd_hybrid_plc.Prelude.{
  ℕ, ◌+◌, ◌%◌, ◌^◌, Option, none, some, List, [], ◌∷◌, ◌==◌, if◌then◌else◌, find, put,
}

-- `signals` counts the calls of `signal_link_changes(true)`.
pub record Selectors : Type 0 where
  pub mprs_list : List (ℕ × ℕ)
  pub ansn : ℕ
  pub signals : ℕ

abbrev pub init_mprs_set : Selectors
init_mprs_set = record { mprs_list = []; ansn = 0; signals = 0 }

abbrev pub increase_local_ansn : Selectors → Selectors
increase_local_ansn s = record {
  mprs_list = s.mprs_list;
  ansn = (s.ansn + 1) % 2 ^ 16;
  signals = s.signals;
}

abbrev pub lookup_mprs_set : Selectors → ℕ → Option ℕ
lookup_mprs_set s addr = find addr (s.mprs_list)

-- DEQUEUE_ELEM of the entry of an address.
abbrev pub dequeue : ℕ → List (ℕ × ℕ) → List (ℕ × ℕ)
dequeue addr [] = []
dequeue addr ((a, t) ∷ es) = if a == addr then es else (a, t) ∷ dequeue addr es

unfoldable pub expire_mpr_sel_entry : ℕ → Selectors → Selectors
expire_mpr_sel_entry addr s = record {
  mprs_list = dequeue addr (s.mprs_list);
  ansn = s.ansn;
  signals = s.signals + 1;
}

abbrev pub add_mpr_selector : ℕ → ℕ → Selectors → Selectors
add_mpr_selector addr vtime s = record {
  mprs_list = (addr, vtime) ∷ s.mprs_list;
  ansn = s.ansn;
  signals = s.signals;
}

-- The return value, 1 for a new selector, and the set.
unfoldable pub update_mprs_set : ℕ → ℕ → Selectors → ℕ × Selectors
unfolding find put
update_mprs_set addr vtime s = elim (lookup_mprs_set s addr) [
  | none ↦
      let s' = add_mpr_selector addr vtime s in
      (1, record { mprs_list = s'.mprs_list; ansn = s'.ansn; signals = s'.signals + 1 })
  | some t ↦
      (0, record { mprs_list = put addr vtime (s.mprs_list); ansn = s.ansn; signals = s.signals })
]

pub data Event : Type 0 where
  chosen : ℕ → ℕ → Event
  expired : ℕ → Event

abbrev pub run : Event → Selectors → Selectors
run (chosen addr vtime) s = (update_mprs_set addr vtime s).1
run (expired addr) s = expire_mpr_sel_entry addr s

-- The events, the last one first.
abbrev pub run_all : List Event → Selectors
run_all [] = init_mprs_set
run_all (e ∷ es) = run e (run_all es)
