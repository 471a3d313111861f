-- ===== src/Hashing.antt =====
-- src/hashing.c: Bob Jenkins' hash of an IP address, and the bucket that it chooses.
use olsrd_hybrid_plc.Prelude.{
  ℕ, zero, suc, ◌+◌, ◌-◌, ◌*◌, ◌/◌, ◌%◌, ◌^◌, ◌<◌, List, [], ◌∷◌, bit_and, bit_xor, arith, get_or,
  drop, length, bit_and-le,
}

pub data IpVersion : Type 0 where
  af_inet af_inet6 : IpVersion

-- An address is the number that its bytes are in network order; these are its `n` bytes.
unfoldable pub bytes_of : ℕ → ℕ → List ℕ
bytes_of zero address = []
bytes_of (suc n) address = (address / 256 ^ n % 256) ∷ bytes_of n address

abbrev pub ipsize : IpVersion → ℕ
ipsize af_inet = 4
ipsize af_inet6 = 16

-- The three words `a`, `b` and `c`.
abbrev Mix : Type 0
Mix = ℕ × ℕ × ℕ

sub32 : ℕ → ℕ → ℕ
sub32 a b = (a + 2 ^ 32 - b) % 2 ^ 32

-- One line of the macro: `a -= b; a -= c; a ^= (c >> n)`, and the same with `<<`.
step_right : ℕ → ℕ → ℕ → ℕ → ℕ
unfolding sub32
step_right n a b c = bit_xor (sub32 (sub32 a b) c) (c / 2 ^ n)

step_left : ℕ → ℕ → ℕ → ℕ → ℕ
unfolding sub32
step_left n a b c = bit_xor (sub32 (sub32 a b) c) ((c * 2 ^ n) % 2 ^ 32)

-- Three lines: by `p` to the right, by `q` to the left and by `r` to the right.
mix_lines : ℕ → ℕ → ℕ → Mix → Mix
unfolding step_right step_left
mix_lines p q r (a, b, c) =
    let a' = step_right p a b c in
    let b' = step_left q b c a' in let c' = step_right r c a' b' in (a', b', c')

jhash_mix : Mix → Mix
unfolding mix_lines
jhash_mix s = mix_lines 3 10 15 (mix_lines 12 16 5 (mix_lines 13 8 13 s))

-- The byte `k[i]`, shifted; the key ends where the code's `switch` on what is left does.
byte_at : List ℕ → ℕ → ℕ → ℕ
byte_at k i shift = get_or k i 0 * 2 ^ shift

word_at : List ℕ → ℕ → ℕ
unfolding byte_at
word_at k i = byte_at k i 0 + byte_at k (i + 1) 8 + byte_at k (i + 2) 16 + byte_at k (i + 3) 24

-- The loop `while (len >= 12)`: `len / 12` rounds.
hash_rounds : ℕ → List ℕ → Mix → List ℕ × Mix
unfolding word_at jhash_mix
hash_rounds zero k s = (k, s)
hash_rounds (suc n) k (a, b, c) =
    hash_rounds n (drop 12 k) (
      jhash_mix
        ((a + word_at k 0) % 2 ^ 32, (b + word_at k 4) % 2 ^ 32, (c + word_at k 8) % 2 ^ 32))

-- The `switch`, and the last mix. The lowest byte of `c` holds the length.
hash_tail : ℕ → List ℕ × Mix → ℕ
unfolding word_at byte_at jhash_mix
hash_tail len (k, (a, b, c)) =
    (jhash_mix (
      (a + word_at k 0) % 2 ^ 32,
      (b + word_at k 4) % 2 ^ 32,
      (c + len + byte_at k 8 8 + byte_at k 9 16 + byte_at k 10 24) % 2 ^ 32,
    )).2

jenkins_hash : List ℕ → ℕ
unfolding hash_rounds hash_tail
jenkins_hash k = hash_tail (length k) (hash_rounds (length k / 12) k (0x9e3779b9, 0x9e3779b9, 0))

abbrev pub hashsize : ℕ
hashsize = 128

unfoldable pub ip_hashing : IpVersion → ℕ → ℕ
unfolding bytes_of jenkins_hash
ip_hashing v address = bit_and (jenkins_hash (bytes_of (ipsize v) address)) (hashsize - 1)

-- Every address has a bucket.
pub ip_hashing-lt : (v : IpVersion) (address : ℕ) → ip_hashing v address < hashsize
unfolding ip_hashing
ip_hashing-lt v address = omega (arith, bit_and-le (jenkins_hash (bytes_of (ipsize v) address)) 127)
