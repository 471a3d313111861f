-- ===== src/Selectors/History.antt =====
-- The set of the MPR selectors of src/mpr_selector_set.c as what happened last to each address.
use olsrd_hybrid_plc.Prelude.{
  ℕ, ◌+◌, ◌≡◌, refl, sym, ap, ◌∙◌, Bool, false, Bool-cases, inl, inr, Option, none, some,
  Option-cases, List, [], ◌∷◌, arith, ◌==◌, if◌then◌else◌, find, put, find-put,
}
use olsrd_hybrid_plc.Selectors.{
  Selectors, dequeue, update_mprs_set, expire_mpr_sel_entry, Event, chosen, expired, run, run_all,
}

-- What the last event of an address made of it.
abbrev pub holds : List Event → ℕ → Option ℕ
holds [] j = none
holds (chosen addr vtime ∷ es) j = if addr == j then some vtime else holds es j
holds (expired addr ∷ es) j = if addr == j then none else holds es j

-- Every address has one entry.
abbrev Single : List (ℕ × ℕ) → Type 0
Single [] = Unit {0}
Single ((a, t) ∷ es) = (find a es ≡ none) × Single es

find-dequeue :
    (addr j : ℕ) (es : List (ℕ × ℕ))
    → Single es
    → find j (dequeue addr es) ≡ (if addr == j then none else find j es)
unfolding find
find-dequeue addr j [] s = ground arith
find-dequeue addr j ((a, t) ∷ es) (f, s) = elim (Bool-cases (a == addr)) [
  | inl here ↦
      let same : a ≡ addr = ground arith in
      elim (Bool-cases (addr == j)) [
        | inl ours ↦
            let same' : a ≡ j = ground arith in
            rw (here, ours) (ap (λ k. find k es) (sym same') ∙ f)
        | inr other ↦ let other' : (a == j) ≡ false = ground arith in rw (here, other, other')
      ]
  | inr there ↦ elim (Bool-cases (a == j)) [
    | inl ours ↦ let other : (addr == j) ≡ false = ground arith in rw (there, ours, other)
    | inr other ↦ rw (there, other, find) (find-dequeue addr j es s)
  ]
]

dequeue-Single : (addr : ℕ) (es : List (ℕ × ℕ)) → Single es → Single (dequeue addr es)
dequeue-Single addr [] s = tt
dequeue-Single addr ((a, t) ∷ es) (f, s) = elim (Bool-cases (a == addr)) [
  | inl here ↦ rw here s
  | inr there ↦
      let absent : find a (dequeue addr es) ≡ none = find-dequeue addr a es s ∙ ground (arith, f) in
      rw there (absent, dequeue-Single addr es s)
]

put-Single : (addr v : ℕ) (es : List (ℕ × ℕ)) → Single es → Single (put addr v es)
unfolding put find
put-Single addr v [] s = (refl, tt)
put-Single addr v ((a, t) ∷ es) (f, s) = elim (Bool-cases (a == addr)) [
  | inl here ↦ let same : a ≡ addr = ground arith in rw here (ap (λ k. find k es) (sym same) ∙ f, s)
  | inr there ↦
      let other : (addr == a) ≡ false = ground arith in
      let absent : find a (put addr v es) ≡ none = find-put addr a v es ∙ (rw other f) in
      rw there (absent, put-Single addr v es s)
]

-- How often the set changed: with each selector that is new, and with each that expired.
abbrev pub changes : List Event → ℕ
changes [] = 0
changes (chosen addr vtime ∷ es) = elim (holds es addr) [
  | none ↦ changes es + 1
  | some t ↦ changes es
]
changes (expired addr ∷ es) = changes es + 1

abbrev Faithful : List Event → Selectors → Type 0
Faithful es s =
    Single (s.mprs_list) × ((j : ℕ) → find j (s.mprs_list) ≡ holds es j) × (s.signals ≡ changes es)

front_lem :
    (addr vtime j : ℕ) (es : List (ℕ × ℕ))
    → find j ((addr, vtime) ∷ es) ≡ (if addr == j then some vtime else find j es)
unfolding find
front_lem addr vtime j es = refl

after_if : (p : Bool) (x y z : Option ℕ) → y ≡ z → (if p then x else y) ≡ (if p then x else z)
after_if p x y z e = ap (λ o. if p then x else o) e

chosen-Faithful :
    (addr vtime : ℕ) (es : List Event) (s : Selectors)
    → Faithful es s
    → Faithful (chosen addr vtime ∷ es) (run (chosen addr vtime) s)
unfolding update_mprs_set
chosen-Faithful addr vtime es s (single, same, count) =
    elim (Option-cases (find addr (s.mprs_list))) [
      | inl missing ↦
          let missing' : holds es addr ≡ none = sym (same addr) ∙ missing in
          rw (missing, missing', update_mprs_set, run, changes)
            (
              (missing, single),
              (λ j.
                  front_lem addr vtime j (s.mprs_list)
                  ∙ after_if (addr == j) (some vtime) _ _ (same j)),
              ap (λ n. n + 1) count,
            )
      | inr (t, there) ↦
          let there' : holds es addr ≡ some t = sym (same addr) ∙ there in
          rw (there, there', update_mprs_set, run, changes)
            (
              put-Single addr vtime (s.mprs_list) single,
              (λ j.
                  find-put addr j vtime (s.mprs_list)
                  ∙ after_if (addr == j) (some vtime) _ _ (same j)),
              count,
            )
    ]

expired-Faithful :
    (addr : ℕ) (es : List Event) (s : Selectors)
    → Faithful es s
    → Faithful (expired addr ∷ es) (run (expired addr) s)
unfolding expire_mpr_sel_entry
expired-Faithful addr es s (single, same, count) = (
  dequeue-Single addr (s.mprs_list) single,
  (λ j. find-dequeue addr j (s.mprs_list) single ∙ after_if (addr == j) none _ _ (same j)),
  ap (λ n. n + 1) count,
)

run_all-Faithful : (es : List Event) → Faithful es (run_all es)
unfolding find
run_all-Faithful [] = (tt, (λ j. refl), refl)
run_all-Faithful (chosen addr vtime ∷ es) =
    chosen-Faithful addr vtime es (run_all es) (run_all-Faithful es)
run_all-Faithful (expired addr ∷ es) = expired-Faithful addr es (run_all es) (run_all-Faithful es)

-- After any sequence of events the set holds of every address what its last event made of it: the
-- timer that was set when it last chose this node, or nothing where it never did or has expired since.
-- `signal_link_changes` was called once for each selector that was new and for each that expired, and
-- not where a timer was only set again.
pub run_all-holds :
    (es : List Event) (j : ℕ)
    → (find j ((run_all es).mprs_list) ≡ holds es j) × ((run_all es).signals ≡ changes es)
run_all-holds es j = let (single, same, count) = run_all-Faithful es in (same j, count)
