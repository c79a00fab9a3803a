-- ===== src/Mxfp4/Unpack.antt =====
-- What the loop of `unpack_pack` reads from a row that `_pack_rows` wrote.
use v_llm_moet.Prelude.{
  ℕ, zero, suc, ◌+◌, ◌-◌, ◌*◌, ◌/◌, ◌%◌, ◌<◌, ◌≤◌, ◌≡◌, refl, ap, ◌∙◌, min, inl, inr, arith,
}
use v_llm_moet.Mxfp4.{
  Row, ch, write, k_vals, pack_chunk, pack_row, unpack_chunk, unpack_chunks, unpack_row,
}
use v_llm_moet.Mxfp4.Rows.{
  chunk_bytes, write-inside, write-outside, pack_chunks_below, pack_chunks_holds,
  unpack_chunk-pack_chunk, lt-or-ge,
}

unpack_chunks_step :
    (fuel k : ℕ) (p : Row) (k0 pos : ℕ) (vals : Row)
    → k0 < k
    → unpack_chunks (suc fuel) k p k0 pos vals
      ≡ unpack_chunks fuel k p
          (k0 + min ch (k - k0))
          (pos + chunk_bytes k k0)
          (write vals k0 (min ch (k - k0)) (unpack_chunk p pos (chunk_bytes k k0)))
unfolding unpack_chunks
unpack_chunks_step fuel k p k0 pos vals lt = ground arith

unpack_chunks_end :
    (fuel k : ℕ) (p : Row) (k0 pos : ℕ) (vals : Row)
    → k ≤ k0
    → unpack_chunks fuel k p k0 pos vals ≡ vals
unfolding unpack_chunks
unpack_chunks_end zero k p k0 pos vals le = refl
unpack_chunks_end (suc fuel) k p k0 pos vals le = ground arith

-- The row holds the chunks of `goal` from `k0` on, at `pos` and on.
abbrev HoldsFrom : Row → Row → ℕ → ℕ → ℕ → Type 0
HoldsFrom p goal k k0 pos =
    (r at from b : ℕ)
    → at ≡ k0 + 128 * r
    → from ≡ pos + 64 * r
    → at < k
    → b < chunk_bytes k at
    → p (from + b) ≡ pack_chunk goal at (chunk_bytes k at) b

-- One more chunk is read.
unpack_chunk_eq :
    (k : ℕ) (p goal : Row) (k0 pos x : ℕ)
    → k % 32 ≡ 0
    → k0 % 32 ≡ 0
    → ((i : ℕ) → goal i < 16)
    → HoldsFrom p goal k k0 pos
    → x < min ch (k - k0)
    → unpack_chunk p pos (chunk_bytes k k0) x ≡ goal (k0 + x)
unpack_chunk_eq k p goal k0 pos x whole aligned small held lt =
    let m = min ch (k - k0) / 32 in
    let size : chunk_bytes k k0 ≡ 16 * (min ch (k - k0) / 32) = omega arith in
    rw size (
      unpack_chunk-pack_chunk m p goal k0 pos x small
        (λ b in_chunk.
          rw (← size) (held 0 k0 pos b (omega arith) (omega arith) (omega arith) (omega arith)))
        (omega arith))

-- An assignment of the values that follow extends what agrees.
write-agrees :
    (vals values goal : Row) (k0 n : ℕ)
    → ((x : ℕ) → x < n → values x ≡ goal (k0 + x))
    → ((i : ℕ) → i < k0 → vals i ≡ goal i)
    → (i : ℕ) → i < k0 + n
    → write vals k0 n values i ≡ goal i
write-agrees vals values goal k0 n more read i lt = elim (lt-or-ge i k0) [
  | inl old ↦ write-outside vals k0 n values i (inl old) ∙ read i old
  | inr new ↦
      let split : i ≡ k0 + (i - k0) = omega arith in
      rw split (write-inside vals k0 n values (i - k0) (omega arith) ∙ more (i - k0) (omega arith))
]

unpack_chunks-eq :
    (fuel k : ℕ) (p goal : Row) (k0 pos : ℕ) (vals : Row) (x : ℕ)
    → k ≤ k0 + fuel
    → k % 32 ≡ 0
    → k0 % 32 ≡ 0
    → ((i : ℕ) → goal i < 16)
    → HoldsFrom p goal k k0 pos
    → ((i : ℕ) → i < k0 → vals i ≡ goal i)
    → x < k
    → unpack_chunks fuel k p k0 pos vals x ≡ goal x
unfolding unpack_chunks
unpack_chunks-eq zero k p goal k0 pos vals x enough whole aligned small held read lt =
    read x (omega arith)
unpack_chunks-eq (suc fuel) k p goal k0 pos vals x enough whole aligned small held read lt =
    elim (lt-or-ge k0 k) [
      | inl more ↦ rw (unpack_chunks_step fuel k p k0 pos vals more) (
          unpack_chunks-eq fuel k p goal _ _ _ x (omega arith) whole (omega arith) small
            (λ r at from b ea ef inside. held (suc r) at from b (omega arith) (omega arith) inside)
            (write-agrees vals _ goal k0 _
              (λ y. unpack_chunk_eq k p goal k0 pos y whole aligned small held) read)
            lt)
      | inr over ↦
          ap (λ row. row x) (unpack_chunks_end (suc fuel) k p k0 pos vals over)
          ∙ read x (omega arith)
    ]

k_vals_lt : (nib : Row) (k : ℕ) → ((b : ℕ) → nib b < 256) → k_vals nib k < 16
unfolding k_vals
k_vals_lt nib k small = let bound = small (k / 2) in ground arith

-- The values of the loop of `unpack_pack` on a packed row.
pub unpack_chunks-pack_row :
    (k scale_bytes : ℕ) (nib scale p : Row) (x : ℕ)
    → k % 32 ≡ 0
    → ((b : ℕ) → nib b < 256)
    → ((b : ℕ) → b < scale_bytes + k / 2 → p b ≡ pack_row k scale_bytes nib scale b)
    → x < k
    → unpack_chunks k k p 0 scale_bytes (λ i. 0) x ≡ k_vals nib x
unfolding pack_row
unpack_chunks-pack_row k scale_bytes nib scale p x whole small same lt =
    unpack_chunks-eq k k p (k_vals nib) 0 scale_bytes _ x (omega arith) whole (omega arith)
      (λ i. k_vals_lt nib i small)
      (λ r at from b ea ef inside in_chunk.
        same (from + b) (omega arith)
        ∙ pack_chunks_holds k k (k_vals nib) 0 scale_bytes _ r at from b (omega arith) ea ef inside
            in_chunk)
      (λ i none_yet. absurd (omega arith)) lt

-- A packed row gives back its nibbles,
pub unpack_row-pack_row :
    (k scale_bytes : ℕ) (nib scale p : Row) (b : ℕ)
    → k % 32 ≡ 0
    → ((i : ℕ) → nib i < 256)
    → ((i : ℕ) → i < scale_bytes + k / 2 → p i ≡ pack_row k scale_bytes nib scale i)
    → b < k / 2
    → unpack_row k scale_bytes p b ≡ nib b
unfolding unpack_row k_vals
unpack_row-pack_row k scale_bytes nib scale p b whole small same lt = ground (
  arith,
  unpack_chunks-pack_row k scale_bytes nib scale p (2 * b) whole small same (omega arith),
  unpack_chunks-pack_row k scale_bytes nib scale p (2 * b + 1) whole small same (omega arith),
)

-- and keeps its scales in front.
pub pack_row_scale :
    (k scale_bytes : ℕ) (nib scale : Row) (i : ℕ)
    → k / 32 ≤ scale_bytes
    → i < k / 32
    → pack_row k scale_bytes nib scale i ≡ scale i
unfolding pack_row write
pack_row_scale k scale_bytes nib scale i fits lt =
    let out = write (λ j. 0) 0 (k / 32) scale in
    ground (arith, pack_chunks_below k k (k_vals nib) 0 scale_bytes out i (omega arith))
