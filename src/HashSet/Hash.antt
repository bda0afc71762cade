-- ===== src/HashSet/Hash.antt =====
-- The string hash of source/src/set.c (`HSIEH_HASH`), on unsigned 32-bit words written as
-- numbers below 2 ^ 32. A plain `char` is signed, as on the platforms that the library targets.
use Prim.Native.Nat.{bit_xor}
use libcrange.Base.{ℕ, ◌+◌, ◌-◌, ◌*◌, ◌/◌, ◌%◌, ◌^◌, ◌<◌, [], ◌∷◌, Text, length, ltb, arith}
use libcrange.Base.{if◌then◌else◌}

abbrev word : ℕ
word = 2 ^ 32

-- `a + b`, `h << k` and `h >> k` on `uint32_t`
add32 : ℕ → ℕ → ℕ
add32 a b = (a + b) % word

shl32 : ℕ → ℕ → ℕ
shl32 h k = h * 2 ^ k % word

shr32 : ℕ → ℕ → ℕ
shr32 h k = h / 2 ^ k

-- `get16bits(d)`: two unsigned bytes, the low one first
get16bits : ℕ → ℕ → ℕ
get16bits lo hi = hi * 2 ^ 8 + lo

-- a byte read as a signed `char` and converted to `uint32_t`
sign_extend : ℕ → ℕ
sign_extend b = if ltb b 128 then b else b + (word - 256)

-- one round of the main loop, over the next four bytes
mix : ℕ → ℕ → ℕ → ℕ → ℕ → ℕ
unfolding add32 shl32 shr32 get16bits
mix hash a b c d =
    let h = add32 hash (get16bits a b) in
    let tmp = bit_xor (shl32 (get16bits c d) 11) h in
    let h' = bit_xor (shl32 h 16) tmp in add32 h' (shr32 h' 11)

-- `switch (rem)`, over the bytes that are left
mix_rest : ℕ → Text → ℕ
unfolding add32 shl32 shr32 get16bits sign_extend
mix_rest hash (a ∷ b ∷ c ∷ []) =
    let h = add32 hash (get16bits a b) in
    let h₁ = bit_xor h (shl32 h 16) in
    let h₂ = bit_xor h₁ (shl32 (sign_extend c) 18) in add32 h₂ (shr32 h₂ 11)
mix_rest hash (a ∷ b ∷ []) =
    let h = add32 hash (get16bits a b) in let h₁ = bit_xor h (shl32 h 11) in add32 h₁ (shr32 h₁ 17)
mix_rest hash (a ∷ []) =
    let h = add32 hash (sign_extend a) in let h₁ = bit_xor h (shl32 h 10) in add32 h₁ (shr32 h₁ 1)
mix_rest hash _ = hash

-- The main loop runs `len >> 2` times, which is while four bytes are left.
mix_all : ℕ → Text → ℕ
unfolding mix mix_rest
mix_all hash (a ∷ b ∷ c ∷ d ∷ rest) = mix_all (mix hash a b c d) rest
mix_all hash rest = mix_rest hash rest

-- the final avalanche
avalanche : ℕ → ℕ
unfolding add32 shl32 shr32
avalanche hash =
    let h₁ = bit_xor hash (shl32 hash 3) in
    let h₂ = add32 h₁ (shr32 h₁ 5) in
    let h₃ = bit_xor h₂ (shl32 h₂ 4) in
    let h₄ = add32 h₃ (shr32 h₃ 17) in let h₅ = bit_xor h₄ (shl32 h₄ 25) in add32 h₅ (shr32 h₅ 6)

unfoldable pub string_hash : Text → ℕ
unfolding mix_all avalanche
string_hash [] = 0
string_hash (c ∷ cs) =
    let data_bytes = c ∷ cs in avalanche (mix_all (length data_bytes % word) data_bytes)

-- The hash is a 32-bit word.
pub string_hash-lt : (s : Text) → string_hash s < 2 ^ 32
unfolding string_hash
string_hash-lt [] = omega arith
string_hash-lt (c ∷ cs) = omega arith
