-- ===== src/Mxfp4/Rows.antt =====
-- What the loops of `_pack_rows` and of `unpack_pack` leave in a row.
use v_llm_moet.Prelude.{
  ℕ, zero, suc, ◌+◌, ◌-◌, ◌*◌, ◌/◌, ◌%◌, ◌<◌, ◌≤◌, ◌≡◌, refl, ap, ◌∙◌, min, ◌⊎◌, inl, inr, arith,
}
use v_llm_moet.Mxfp4.{Row, ch, k_lo, k_hi, write, pack_chunk, pack_chunks, unpack_chunk}
use v_llm_moet.Mxfp4.Perm.{byte_at, k_lo-byte_at, byte_at_lt, k_hi-byte_at, scatter-eq}

pub lt-or-ge : (m n : ℕ) → (m < n) ⊎ (n ≤ m)
lt-or-ge m n = omega arith

-- A chunk is full but for the last one, which may have less.
abbrev pub chunk_bytes : ℕ → ℕ → ℕ
chunk_bytes k k0 = min ch (k - k0) / 2

pub write-inside :
    (out : Row) (pos n : ℕ) (values : Row) (b : ℕ)
    → b < n
    → write out pos n values (pos + b) ≡ values b
unfolding write
write-inside out pos n values b lt =
    let same : pos + b - pos ≡ b = omega arith in ground (arith, ap values same)

pub write-outside :
    (out : Row) (pos n : ℕ) (values : Row) (i : ℕ)
    → (i < pos) ⊎ (pos + n ≤ i)
    → write out pos n values i ≡ out i
unfolding write
write-outside out pos n values i apart = ground arith

pub pack_chunks_step :
    (fuel k : ℕ) (vals : Row) (k0 pos : ℕ) (out : Row)
    → k0 < k
    → pack_chunks (suc fuel) k vals k0 pos out
      ≡ pack_chunks fuel k vals
          (k0 + min ch (k - k0))
          (pos + chunk_bytes k k0)
          (write out pos (chunk_bytes k k0) (pack_chunk vals k0 (chunk_bytes k k0)))
unfolding pack_chunks
pack_chunks_step fuel k vals k0 pos out lt = ground arith

pub pack_chunks_end :
    (fuel k : ℕ) (vals : Row) (k0 pos : ℕ) (out : Row)
    → k ≤ k0
    → pack_chunks fuel k vals k0 pos out ≡ out
unfolding pack_chunks
pack_chunks_end zero k vals k0 pos out le = refl
pack_chunks_end (suc fuel) k vals k0 pos out le = ground arith

pub pack_chunks_below :
    (fuel k : ℕ) (vals : Row) (k0 pos : ℕ) (out : Row) (i : ℕ)
    → i < pos
    → pack_chunks fuel k vals k0 pos out i ≡ out i
unfolding pack_chunks
pack_chunks_below zero k vals k0 pos out i lt = refl
pack_chunks_below (suc fuel) k vals k0 pos out i lt = elim (lt-or-ge k0 k) [
  | inl more ↦ rw (pack_chunks_step fuel k vals k0 pos out more) (
      pack_chunks_below fuel k vals _ _ _ i (omega arith)
      ∙ write-outside out pos (chunk_bytes k k0) (pack_chunk vals k0 (chunk_bytes k k0)) i (inl lt))
  | inr over ↦ ap (λ row. row i) (pack_chunks_end (suc fuel) k vals k0 pos out over)
]

-- The chunk that is `r` chunks ahead of the loop.
pub pack_chunks_holds :
    (fuel k : ℕ) (vals : Row) (k0 pos : ℕ) (out : Row) (r at from b : ℕ)
    → k ≤ k0 + fuel
    → at ≡ k0 + 128 * r
    → from ≡ pos + 64 * r
    → at < k
    → b < chunk_bytes k at
    → pack_chunks fuel k vals k0 pos out (from + b) ≡ pack_chunk vals at (chunk_bytes k at) b
pack_chunks_holds zero k vals k0 pos out r at from b enough ea ef inside lt = absurd (omega arith)
pack_chunks_holds (suc fuel) k vals k0 pos out zero at from b enough ea ef inside lt =
    let same_at : at ≡ k0 = omega arith in
    let same_from : from ≡ pos = omega arith in
    rw (same_at, same_from, pack_chunks_step fuel k vals k0 pos out (omega arith))
      (pack_chunks_below fuel k vals _ _ _ (pos + b) (omega arith)
        ∙ write-inside out pos (chunk_bytes k k0) (pack_chunk vals k0 (chunk_bytes k k0)) b
            (rw same_at at lt))
pack_chunks_holds (suc fuel) k vals k0 pos out (suc r) at from b enough ea ef inside lt =
    rw (pack_chunks_step fuel k vals k0 pos out (omega arith)) (
      pack_chunks_holds fuel k vals _ _ _ r at from b (omega arith) (omega arith) (omega arith)
        inside lt)

-- A chunk read back is the chunk written.
pub unpack_chunk-pack_chunk :
    (m : ℕ) (p vals : Row) (k0 pos x : ℕ)
    → ((k : ℕ) → vals k < 16)
    → ((b : ℕ) → b < 16 * m → p (pos + b) ≡ pack_chunk vals k0 (16 * m) b)
    → x < 32 * m
    → unpack_chunk p pos (16 * m) x ≡ vals (k0 + x)
unfolding unpack_chunk pack_chunk
unpack_chunk-pack_chunk m p vals k0 pos x small same lt =
    let above : (b : ℕ) → b < 16 * m → p (pos + b) / 16 ≡ vals (k0 + k_hi (16 * m) b) =
      λ b in_chunk. ground (arith, same b in_chunk, small (k0 + k_lo (16 * m) b)) in
    let below : (b : ℕ) → b < 16 * m → p (pos + b) % 16 ≡ vals (k0 + k_lo (16 * m) b) =
      λ b in_chunk. ground (arith, same b in_chunk, small (k0 + k_lo (16 * m) b)) in
    scatter-eq (16 * m) (k_hi (16 * m)) _ _ (λ j. vals (k0 + j)) x above
      elim (lt-or-ge x (16 * m)) [
        | inl low ↦ inl (
            scatter-eq (16 * m) (k_lo (16 * m)) _ _ (λ j. vals (k0 + j)) x below
              (inr (byte_at (16 * m) x, byte_at_lt m x low, k_lo-byte_at m x low)))
        | inr high ↦ inr (
          byte_at (16 * m) (x - 16 * m),
          byte_at_lt m (x - 16 * m) (omega arith),
          k_hi-byte_at m x high lt,
        )
      ]
