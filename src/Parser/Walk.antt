-- ===== src/Parser/Walk.antt =====
-- The walk visits the messages of a packet one after the other, and no other bytes.
use olsrd_hybrid_plc.Prelude.{
  ℕ, zero, suc, ◌+◌, ◌-◌, ◌%◌, ◌≤◌, ◌<◌, ◌≡◌, inl, inr, refl, ◌∙◌, true, false, Bool-cases, some,
  List, [], ◌∷◌, ◌++◌, arith, ltb, leb, ◌==◌, length, drop, get_or, length-append, length-drop,
}
use olsrd_hybrid_plc.Hashing.{IpVersion}
use olsrd_hybrid_plc.NetBuffer.Bytes.{drop-append, append_assoc}
use olsrd_hybrid_plc.Parser.{Parser, walk, process_message, is_acceptable, msgsize, min_size}

acceptable_bounds :
    (v : IpVersion) (count : ℕ) (m : List ℕ)
    → is_acceptable v count m ≡ true
    → (min_size v ≤ msgsize m) × (msgsize m ≤ count)
unfolding is_acceptable
acceptable_bounds v count m h = elim (Bool-cases (leb (min_size v) (msgsize m))) [
  | inl low ↦ elim (Bool-cases (leb (msgsize m) count)) [
    | inl high ↦ (ground arith, ground arith)
    | inr high ↦ absurd (ground arith)
  ]
  | inr low ↦ absurd (ground arith)
]

-- With memory for all bytes that are left, the walk ends within as many rounds as there are bytes,
-- and reads nothing outside of the memory.
pub walk-returns :
    {S : Type 0} (fuel : ℕ) (p : Parser S) (count : ℕ) (m : List ℕ) (s : S)
    → count ≤ fuel
    → count ≤ length m
    → (s' : S) × (walk fuel p count m s ≡ some s')
unfolding walk
walk-returns zero p count m s enough memory = (s, ground arith)
walk-returns (suc fuel) p count m s enough memory = elim (Bool-cases (count == 0)) [
  | inl none_left ↦ (s, rw none_left refl)
  | inr more ↦ elim (Bool-cases (ltb count (min_size p.ip_version))) [
    | inl short ↦ (s, rw (more, short) refl)
    | inr long ↦
        let inside : ltb (length m) (min_size p.ip_version) ≡ false = ground arith in
        elim (Bool-cases (is_acceptable p.ip_version count m)) [
          | inl ok ↦
              let (low, high) = acceptable_bounds p.ip_version count m ok in
              rw (more, long, inside, ok)
                (walk-returns fuel p (count - msgsize m) (drop (msgsize m) m)
                  (process_message p m s) (omega arith) (omega (arith, length-drop (msgsize m) m)))
          | inr bad ↦ (s, rw (more, long, inside, bad) refl)
        ]
  ]
]

-- The bytes of a message that the walk accepts.
abbrev pub IsMessage : IpVersion → List ℕ → Type 0
IsMessage v m = (msgsize m ≡ length m) × (min_size v ≤ length m) × (length m % 4 ≡ 0)

abbrev pub Messages : IpVersion → List (List ℕ) → Type 0
Messages v [] = Unit {0}
Messages v (m ∷ ms) = IsMessage v m × Messages v ms

abbrev pub bytes : List (List ℕ) → List ℕ
bytes [] = []
bytes (m ∷ ms) = m ++ bytes ms

module _ {S : Type 0} where
  -- The messages are processed in their order; each is a pointer into the memory.
  abbrev pub process_all : Parser S → List (List ℕ) → List ℕ → S → S
  process_all p [] behind s = s
  process_all p (m ∷ ms) behind s =
      process_all p ms behind (process_message p (m ++ (bytes ms ++ behind)) s)

get_or-append : (xs ys : List ℕ) (i : ℕ) → i < length xs → get_or (xs ++ ys) i 0 ≡ get_or xs i 0
get_or-append [] ys i h = absurd (omega arith)
get_or-append (x ∷ xs) ys zero h = refl
get_or-append (x ∷ xs) ys (suc i) h = get_or-append xs ys i (omega arith)

msgsize-append : (v : IpVersion) (m rest : List ℕ) → IsMessage v m → msgsize (m ++ rest) ≡ length m
msgsize-append v m rest (size, low, _) =
    rw (get_or-append m rest 2 (omega arith), get_or-append m rest 3 (omega arith)) size

accepted :
    (v : IpVersion) (c : ℕ) (m rest : List ℕ)
    → IsMessage v m
    → is_acceptable v (length m + c) (m ++ rest) ≡ true
unfolding is_acceptable
accepted v c m rest valid =
    let (_, low, aligned) = valid in
    let t1 : leb (min_size v) (length m) ≡ true = ground arith in
    let t2 : (length m % 4 == 0) ≡ true = ground arith in
    let t3 : leb (length m) (length m + c) ≡ true = ground arith in
    rw (msgsize-append v m rest valid, t1, t2, t3) refl

module _ {S : Type 0} where
  -- One round of the walk.
  walk-message :
      (fuel : ℕ) (p : Parser S) (c : ℕ) (m rest : List ℕ) (s : S)
      → IsMessage p.ip_version m
      → walk (suc fuel) p (length m + c) (m ++ rest) s
        ≡ walk fuel p c rest (process_message p (m ++ rest) s)
  unfolding walk
  walk-message fuel p c m rest s valid =
      let (_, low, _) = valid in
      let size = msgsize-append p.ip_version m rest valid in
      let whole = length-append m rest in
      let t1 : (length m + c == 0) ≡ false = ground arith in
      let t2 : ltb (length m + c) (min_size p.ip_version) ≡ false = ground arith in
      let t3 : ltb (length (m ++ rest)) (min_size p.ip_version) ≡ false = ground (arith, whole) in
      let left : length m + c - length m ≡ c = omega arith in
      rw (t1, t2, t3, accepted p.ip_version c m rest valid, size, left, drop-append m rest)

  -- Where messages stand in the memory, one behind the other, and are counted, each is processed in
  -- its turn, and the walk goes on behind them with what is left of the count.
  pub walk-Messages :
      (fuel : ℕ) (p : Parser S) (c : ℕ) (ms : List (List ℕ)) (behind : List ℕ) (s : S)
      → Messages p.ip_version ms
      → walk (length ms + fuel) p (length (bytes ms) + c) (bytes ms ++ behind) s
        ≡ walk fuel p c behind (process_all p ms behind s)
  walk-Messages fuel p c [] behind s valid =
      let a : 0 + fuel ≡ fuel = omega arith in let b : 0 + c ≡ c = omega arith in rw (a, b)
  walk-Messages fuel p c (m ∷ ms) behind s (one, more) =
      let a : suc (length ms) + fuel ≡ suc (length ms + fuel) = omega arith in
      let b : length (m ++ bytes ms) + c ≡ length m + (length (bytes ms) + c) =
        omega (arith, length-append m (bytes ms)) in
      rw (a, b, append_assoc m (bytes ms) behind)
        (walk-message (length ms + fuel) p (length (bytes ms) + c) m (bytes ms ++ behind) s one
          ∙ walk-Messages fuel p c ms behind (process_message p (m ++ (bytes ms ++ behind)) s) more)
