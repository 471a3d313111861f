-- ===== src/Prefix/RoundTrip.antt =====
-- A prefix length comes back from its netmask.
use olsrd_hybrid_plc.Prelude.{
  ℕ, zero, suc, ◌+◌, ◌-◌, ◌*◌, ◌%◌, ◌^◌, ◌≤◌, ◌<◌, ◌≡◌, ◌⊎◌, inl, inr, refl, ◌∙◌, false, Bool-cases,
  List, [], ◌∷◌, ltb, ◌==◌, replicate, length, arith,
}
use olsrd_hybrid_plc.Prefix.{prefix_to_netmask, netmask_to_prefix, last_byte, leading_bytes}

last_byte_lem :
    (p n : ℕ)
    → p ≤ 8
    → n < 1000
    → let x = (255 * 2 ^ (8 - p)) % 256 in
      ((x ≡ 255) × (p ≡ 8)) ⊎ (((x == 255) ≡ false) × (last_byte x n ≡ n + p))
unfolding last_byte
last_byte_lem zero n le lt = inr (refl, omega arith)
last_byte_lem (suc zero) n le lt = inr (refl, omega arith)
last_byte_lem (suc (suc zero)) n le lt = inr (refl, omega arith)
last_byte_lem (suc (suc (suc zero))) n le lt = inr (refl, omega arith)
last_byte_lem (suc (suc (suc (suc zero)))) n le lt = inr (refl, omega arith)
last_byte_lem (suc (suc (suc (suc (suc zero))))) n le lt = inr (refl, omega arith)
last_byte_lem (suc (suc (suc (suc (suc (suc zero)))))) n le lt = inr (refl, omega arith)
last_byte_lem (suc (suc (suc (suc (suc (suc (suc zero))))))) n le lt = inr (refl, omega arith)
last_byte_lem (suc (suc (suc (suc (suc (suc (suc (suc zero)))))))) n le lt = inl (refl, refl)
last_byte_lem (suc (suc (suc (suc (suc (suc (suc (suc (suc p))))))))) n le lt = absurd (omega arith)

zeros_add : (k n : ℕ) → leading_bytes (replicate k 0) n ≡ n
unfolding leading_bytes last_byte
zeros_add zero n = refl
zeros_add (suc k) n = refl

-- `n` bits have been read already.
leading_bytes-prefix :
    (a : List ℕ) (p n : ℕ)
    → 0 < length a
    → p ≤ 8 * length a
    → n + p < 1000
    → ((prefix_to_netmask a p).0 ≡ 1) × (leading_bytes (prefix_to_netmask a p).1 n ≡ n + p)
unfolding prefix_to_netmask leading_bytes
leading_bytes-prefix [] p n pos le lt = absurd (omega arith)
leading_bytes-prefix (x ∷ a) p n pos le lt = elim (Bool-cases (ltb 8 p)) [
  | inl more ↦
      let next : (n + 8) % 2 ^ 16 ≡ n + 8 = ground arith in
      let (ok, read) =
        leading_bytes-prefix a (p - 8) (n + 8) (ground arith) (ground arith) (ground arith) in
      rw (more, prefix_to_netmask) (ok, rw next (read ∙ ground arith))
  | inr done ↦
      rw (done, prefix_to_netmask)
        (
          refl,
          elim (last_byte_lem p n (ground arith) (omega arith)) [
            | inl (e, full) ↦ rw e (zeros_add (length a) ((n + 8) % 2 ^ 16) ∙ ground arith)
            | inr (e, read) ↦ rw e read
          ],
        )
]

-- For a buffer that is not empty and a prefix length of at most its bits, the netmask is written
-- completely, and the prefix length is read back from it.
pub netmask_to_prefix-prefix_to_netmask :
    (a : List ℕ) (p : ℕ)
    → 0 < length a
    → p ≤ 8 * length a
    → p < 256
    → let (done, netmask) = prefix_to_netmask a p in (done ≡ 1) × (netmask_to_prefix netmask ≡ p)
unfolding netmask_to_prefix
netmask_to_prefix-prefix_to_netmask a p pos le byte =
    let (ok, read) = leading_bytes-prefix a p 0 pos le (omega arith) in (ok, rw read (omega arith))
