-- ===== src/PlcPeers/Iterate.antt =====
-- The iterator over the table, and the update by MAC address.
use olsrd_hybrid_plc.Prelude.{
  ℕ, zero, suc, ◌+◌, ◌-◌, ◌≤◌, ◌≡◌, refl, none, some, List, [], ◌∷◌, arith, length, get_elem?, drop,
  sym, inl, inr, ◌⊎◌, Option-cases, dec_lt, ltb, true, false,
}
use olsrd_hybrid_plc.PlcPeers.{PlcPeerEntry, Peers, all_peers, iter_search, iter_next}
use olsrd_hybrid_plc.PlcPeers.Count.{Inv}

iter_search-get_elem? :
    (n j : ℕ) (es : List PlcPeerEntry) → j ≤ n → iter_search n j es ≡ get_elem? es (n - j)
unfolding iter_search
iter_search-get_elem? n j [] h = refl
iter_search-get_elem? n j (e ∷ es) h = elim (dec_lt j n) [
  | yes more ↦
      let k : n - j ≡ suc (n - (j + 1)) = omega arith in
      let next : ltb n (j + 1) ≡ false = ground arith in
      rw (k, next) (iter_search-get_elem? n (j + 1) es (omega arith))
  | no last ↦
      let k : n - j ≡ 0 = omega arith in
      let here : ltb n (j + 1) ≡ true = ground arith in rw (k, here)
]

get_elem?-none : (es : List PlcPeerEntry) (n : ℕ) → length es ≡ 0 → get_elem? es n ≡ none
get_elem?-none [] n h = refl
get_elem?-none (e ∷ es) n h = absurd (omega arith)

-- A call returns the peer that stands at the iterator's position in the table, and moves on; at the
-- end of the table it returns NULL and stays.
pub iter_next-get_elem? :
    (p : Peers) (n : ℕ)
    → Inv p
    → ((e : PlcPeerEntry) × (get_elem? (all_peers p) n ≡ some e)
        × (iter_next p n ≡ (some e, n + 1)))
      ⊎ ((get_elem? (all_peers p) n ≡ none) × (iter_next p n ≡ (none, n)))
unfolding iter_next
iter_next-get_elem? p n v = ground (
  arith,
  iter_search-get_elem? n 0 (all_peers p) (omega arith),
  get_elem?-none (all_peers p) n,
  v.counted,
  Option-cases (get_elem? (all_peers p) n),
)

-- The peers that at most `k` calls return, before the first NULL.
unfoldable pub iterate : ℕ → Peers → ℕ → List PlcPeerEntry
iterate zero p n = []
iterate (suc k) p n =
    let (peer, m) = iter_next p n in elim peer [ none ↦ [] | some e ↦ e ∷ iterate k p m ]

drop-some :
    (es : List PlcPeerEntry) (n : ℕ) (e : PlcPeerEntry)
    → get_elem? es n ≡ some e
    → drop n es ≡ e ∷ drop (n + 1) es
drop-some [] n e h = cc
drop-some (x ∷ es) zero e h = cc
drop-some (x ∷ es) (suc n) e h =
    let s : suc n + 1 ≡ suc (n + 1) = omega arith in rw s (drop-some es n e h)

drop-none : (es : List PlcPeerEntry) (n : ℕ) → get_elem? es n ≡ none → drop n es ≡ []
drop-none [] zero h = refl
drop-none [] (suc n) h = refl
drop-none (x ∷ es) zero h = cc
drop-none (x ∷ es) (suc n) h = drop-none es n h

get_elem?-end : (es : List PlcPeerEntry) (n : ℕ) → length es ≤ n → get_elem? es n ≡ none
get_elem?-end [] n h = refl
get_elem?-end (x ∷ es) zero h = absurd (omega arith)
get_elem?-end (x ∷ es) (suc n) h = get_elem?-end es n (omega arith)

iterate-drop :
    (k : ℕ) (p : Peers) (n : ℕ)
    → Inv p
    → length (all_peers p) ≤ n + k
    → iterate k p n ≡ drop n (all_peers p)
unfolding iterate
iterate-drop zero p n v enough =
    sym (drop-none (all_peers p) n (get_elem?-end (all_peers p) n (omega arith)))
iterate-drop (suc k) p n v enough = elim (iter_next-get_elem? p n v) [
  | inl (e, here, call) ↦
      rw (call, iterate)
        (rw (call, iterate-drop k p (n + 1) v (omega arith))
          (sym (drop-some (all_peers p) n e here)))
  | inr (end, call) ↦ rw (call, iterate) (sym (drop-none (all_peers p) n end))
]

-- A loop of `iter_next` from a new iterator returns every peer of the table once, in the order of the
-- table, and then NULL.
pub iterate-all_peers :
    (p : Peers)
    → Inv p
    → (iterate p.table_size p 0 ≡ all_peers p) × ((iter_next p p.table_size).0 ≡ none)
iterate-all_peers p v = (
  iterate-drop p.table_size p 0 v (omega (arith, v.counted)),
  ground (
    arith,
    iter_next-get_elem? p p.table_size v,
    get_elem?-end (all_peers p) p.table_size (omega (arith, v.counted)),
  ),
)
