-- ===== src/Siphash.antt =====
-- siphash.c: SipHash-2-4, the hash of the dictionaries. Words are numbers below 2 ^ 64.
use Prim.Native.Nat.{bit_or, bit_xor}
use miniredis.Common.{
  ℕ, zero, suc, ◌+◌, ◌-◌, ◌*◌, ◌/◌, ◌%◌, ◌^◌, ◌≡◌, refl, Bytes, [], ◌∷◌, length, take, drop,
}

abbrev word : ℕ
word = 2 ^ 64

shl : ℕ → ℕ → ℕ
shl x b = x * 2 ^ b % word

-- The macro ROTL.
rotl : ℕ → ℕ → ℕ
unfolding shl
rotl x b = bit_or (shl x b) (x / 2 ^ (64 - b))

add : ℕ → ℕ → ℕ
add a b = (a + b) % word

pub record Sip : Type 0 where
  pub v0 : ℕ
  pub v1 : ℕ
  pub v2 : ℕ
  pub v3 : ℕ

-- The macro SIPROUND, line by line.
sip_round : Sip → Sip
unfolding rotl add
sip_round s =
    let a0 = add s.v0 s.v1 in
    let a1 = bit_xor (rotl s.v1 13) a0 in
    let b0 = rotl a0 32 in
    let a2 = add s.v2 s.v3 in
    let a3 = bit_xor (rotl s.v3 16) a2 in
    let c0 = add b0 a3 in
    let b3 = bit_xor (rotl a3 21) c0 in
    let b2 = add a2 a1 in
    let b1 = bit_xor (rotl a1 17) b2 in record { v0 = c0; v1 = b1; v2 = rotl b2 32; v3 = b3 }

-- The bytes of a word, the lowest first: `in[i] << (8 * i)` for each of them.
or_bytes : ℕ → Bytes → ℕ → ℕ
unfolding shl
or_bytes shift [] b = b
or_bytes shift (c ∷ s) b = or_bytes (shift + 8) s (bit_or b (shl c shift))

u8to64_le : Bytes → ℕ
unfolding or_bytes
u8to64_le p = or_bytes 0 (take 8 p) 0

absorb : ℕ → Sip → Sip
unfolding sip_round
absorb m s =
    let s' = sip_round (sip_round (record s { v3 = bit_xor s.v3 m })) in
    record s' { v0 = bit_xor s'.v0 m }

-- The loop over the whole blocks, eight bytes a round.
blocks : ℕ → Bytes → Sip → Sip
unfolding absorb u8to64_le take drop
blocks zero input s = s
blocks (suc n) input s = blocks n (drop 8 input) (absorb (u8to64_le input) s)

unfoldable pub siphash : Bytes → Bytes → ℕ
unfolding blocks absorb u8to64_le or_bytes sip_round take drop
siphash input k =
    let n = length input in
    let k0 = u8to64_le k in
    let k1 = u8to64_le (drop 8 k) in
    let start : Sip = record {
      v0 = bit_xor 0x736f6d6570736575 k0;
      v1 = bit_xor 0x646f72616e646f6d k1;
      v2 = bit_xor 0x6c7967656e657261 k0;
      v3 = bit_xor 0x7465646279746573 k1;
    } in
    let s = blocks (n / 8) input start in
    let b = or_bytes 0 (drop (n - n % 8) input) (n * 2 ^ 56 % word) in
    let t = absorb b s in
    let u = sip_round (sip_round (sip_round (sip_round (record t { v2 = bit_xor t.v2 0xff })))) in
    bit_xor (bit_xor u.v0 u.v1) (bit_xor u.v2 u.v3)

count_up : ℕ → ℕ → Bytes
count_up zero i = []
count_up (suc n) i = i ∷ count_up n (i + 1)

-- The vector of the SipHash paper: the key 00 to 0f, the input 00 to 0e.
siphash_vector : siphash (count_up 15 0) (count_up 16 0) ≡ 0xa129ca6149be45e5
unfolding siphash count_up
siphash_vector = refl
