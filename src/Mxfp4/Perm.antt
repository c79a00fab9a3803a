-- ===== src/Mxfp4/Perm.antt =====
-- The permutation of a chunk, `_chunk_perm`, and the assignments through it.
use v_llm_moet.Prelude.{
  ℕ, zero, suc, ◌+◌, ◌-◌, ◌*◌, ◌/◌, ◌%◌, ◌<◌, ◌≤◌, ltb, ◌≡◌, if◌then◌else◌, ◌⊎◌, inl, inr, arith,
}
use v_llm_moet.Mxfp4.{Row, k_lo, k_hi, scatter}

-- The byte of a chunk that holds the k `x` in its low nibble.
unfoldable pub byte_at : ℕ → ℕ → ℕ
byte_at nbytes x =
    if ltb x (nbytes / 2)
    then x / 8 * 16 + x % 8
    else (x - nbytes / 2) / 8 * 16 + (x - nbytes / 2) % 8 + 8

pub k_lo-byte_at : (m x : ℕ) → x < 16 * m → k_lo (16 * m) (byte_at (16 * m) x) ≡ x
unfolding k_lo byte_at
k_lo-byte_at m x lt = ground arith

pub byte_at_lt : (m x : ℕ) → x < 16 * m → byte_at (16 * m) x < 16 * m
unfolding byte_at
byte_at_lt m x lt = ground arith

pub k_hi-byte_at :
    (m x : ℕ) → 16 * m ≤ x → x < 32 * m → k_hi (16 * m) (byte_at (16 * m) (x - 16 * m)) ≡ x
unfolding k_hi
k_hi-byte_at m x ge lt = ground (arith, k_lo-byte_at m (x - 16 * m) (omega arith))

-- An assignment whose values agree with `goal` leaves the value of `goal` where it stood or is hit.
pub scatter-eq :
    (n : ℕ) (idx : ℕ → ℕ) (values out goal : Row) (x : ℕ)
    → ((b : ℕ) → b < n → values b ≡ goal (idx b))
    → (out x ≡ goal x) ⊎ ((b : ℕ) × (b < n) × (idx b ≡ x))
    → scatter n idx values out x ≡ goal x
unfolding scatter
scatter-eq zero idx values out goal x agree (inl same) = same
scatter-eq zero idx values out goal x agree (inr hit) = absurd (omega arith)
scatter-eq (suc n) idx values out goal x agree hit =
    ground (arith, agree n, hit, scatter-eq n idx values out goal x (λ b lt. agree b (omega arith)))
