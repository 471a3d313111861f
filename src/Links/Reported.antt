-- ===== src/Links/Reported.antt =====
-- The status that check_link_status of src/link_set.c reads from a HELLO message.
use olsrd_hybrid_plc.Prelude.{
  ℕ, ◌≡◌, refl, Bool-cases, inl, inr, List, [], ◌∷◌, ◌==◌, if◌then◌else◌, mem, arith,
}
use olsrd_hybrid_plc.Links.{HelloNeighbor, unspec_link, sym_link, check_from, check_link_status}

-- The statuses that the message states of an address, without those that are not specified, in their
-- order.
abbrev pub statuses : ℕ → List HelloNeighbor → List ℕ
statuses own [] = []
statuses own (h ∷ hs) =
    if h.link == unspec_link
    then statuses own hs
    else if h.address == own
    then h.link ∷ statuses own hs
    else statuses own hs

-- The last one, or `ret`.
abbrev pub last_of : ℕ → List ℕ → ℕ
last_of ret [] = ret
last_of ret (st ∷ sts) = last_of st sts

check_from_lem :
    (own : ℕ) (hs : List HelloNeighbor) (ret : ℕ)
    → check_from own hs ret
      ≡ (if mem sym_link (statuses own hs) then sym_link else last_of ret (statuses own hs))
check_from_lem own [] ret = refl
check_from_lem own (h ∷ hs) ret = elim (Bool-cases (h.link == unspec_link)) [
  | inl unspec ↦ elim (Bool-cases (h.address == own)) [
    | inl ours ↦ rw (unspec, ours) (check_from_lem own hs ret)
    | inr other ↦ rw (unspec, other) (check_from_lem own hs ret)
  ]
  | inr spec ↦ elim (Bool-cases (h.address == own)) [
    | inr other ↦ rw (spec, other) (check_from_lem own hs ret)
    | inl ours ↦ elim (Bool-cases (h.link == sym_link)) [
      | inl symmetric ↦ rw (spec, ours, symmetric) (ground (arith, symmetric))
      | inr not_sym ↦ rw (spec, ours, not_sym) (check_from_lem own hs (h.link))
    ]
  ]
]

-- A symmetric link is reported where one of the specified statuses that the message states of the
-- interface's address is symmetric; else the last of them; and where there is none, no status is
-- specified.
pub check_link_status-last_of :
    (own : ℕ) (neighbors : List HelloNeighbor)
    → check_link_status own neighbors ≡ (
        if mem sym_link (statuses own neighbors)
        then sym_link
        else last_of unspec_link (statuses own neighbors))
unfolding check_link_status
check_link_status-last_of own neighbors = check_from_lem own neighbors unspec_link
