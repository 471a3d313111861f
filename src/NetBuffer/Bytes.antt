-- ===== src/NetBuffer/Bytes.antt =====
-- `memcpy` on lists of bytes.
use olsrd_hybrid_plc.Prelude.{
  ℕ, zero, suc, ◌+◌, ◌≤◌, ◌≡◌, refl, ap, List, [], ◌∷◌, ◌++◌, arith, take, drop, length,
  length-append, length-take, length-drop,
}

module _ {ℓ} {A : Type ℓ} where
  pub take-append : (xs ys : List A) → take (length xs) (xs ++ ys) ≡ xs
  take-append [] ys = refl
  take-append (x ∷ xs) ys = ap (λ (l : List A). x ∷ l) (take-append xs ys)

  pub drop-append : (xs ys : List A) → drop (length xs) (xs ++ ys) ≡ ys
  drop-append [] ys = refl
  drop-append (x ∷ xs) ys = drop-append xs ys

  pub append_assoc : (xs ys zs : List A) → (xs ++ ys) ++ zs ≡ xs ++ (ys ++ zs)
  append_assoc [] ys zs = refl
  append_assoc (x ∷ xs) ys zs = ap (λ (l : List A). x ∷ l) (append_assoc xs ys zs)

  -- What stands from `m` on in a list whose first `m + n` elements are kept.
  drop-take :
      (m n : ℕ) (xs ys : List A)
      → m + n ≤ length xs
      → drop m (take (m + n) xs ++ ys) ≡ take n (drop m xs) ++ ys
  drop-take zero n xs ys h = let e : 0 + n ≡ n = omega arith in rw e
  drop-take (suc m) n [] ys h = absurd (omega arith)
  drop-take (suc m) n (x ∷ xs) ys h =
      let e : suc m + n ≡ suc (m + n) = omega arith in rw e (drop-take m n xs ys (omega arith))

  -- `n` elements stand from `m` on and `src` is put behind them.
  pub segment-append :
      (m n : ℕ) (xs src ys : List A)
      → m + n ≤ length xs
      → take (n + length src) (drop m (take (m + n) xs ++ (src ++ ys))) ≡ take n (drop m xs) ++ src
  segment-append m n xs src ys h =
      let e : n + length src ≡ length (take n (drop m xs) ++ src) = omega (
        arith,
        length-append (take n (drop m xs)) src,
        length-take n (drop m xs),
        length-drop m xs,
      ) in
      rw (drop-take m n xs (src ++ ys) h, e, ← append_assoc (take n (drop m xs)) src ys)
        (take-append (take n (drop m xs) ++ src) ys)

  pub length-overwrite :
      (m : ℕ) (src xs : List A)
      → m + length src ≤ length xs
      → length (take m xs ++ (src ++ drop (m + length src) xs)) ≡ length xs
  length-overwrite m src xs h = omega (
    arith,
    length-append (take m xs) (src ++ drop (m + length src) xs),
    length-append src (drop (m + length src) xs),
    length-take m xs,
    length-drop (m + length src) xs,
  )
