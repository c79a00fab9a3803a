-- ===== src/Mxfp4.antt =====
-- The kernel's pack of an MXFP4 expert: `_chunk_perm`, `_pack_rows`, `build_pack` and `unpack_pack` of
-- tools/dsv41_5090/cpu_moe/dsv41_mxfp4.py.
pub mod Perm
pub mod Rows
pub mod Unpack
pub mod Roundtrip
mod Tests
use v_llm_moet.Prelude.{
  ℕ, zero, suc, ◌+◌, ◌-◌, ◌*◌, ◌/◌, ◌%◌, Bool, true, false, ◌&&◌, ltb, leb, ◌==◌, if◌then◌else◌,
  min,
}

abbrev pub inter_r : ℕ
inter_r = 576

abbrev pub k1 : ℕ
k1 = 5120

abbrev pub k2 : ℕ
k2 = 576

-- CH, the k of a full chunk
abbrev pub ch : ℕ
ch = 128

abbrev pub w13_scale_bytes : ℕ
w13_scale_bytes = 192

abbrev pub w13_row_bytes : ℕ
w13_row_bytes = w13_scale_bytes + k1 / 2

abbrev pub w2_scale_bytes : ℕ
w2_scale_bytes = 32

abbrev pub w2_row_bytes : ℕ
w2_row_bytes = w2_scale_bytes + k2 / 2

abbrev pub w13_bytes : ℕ
w13_bytes = (2 * inter_r) * w13_row_bytes

-- A row of bytes or nibbles, by its index, and a matrix, by its row.
abbrev pub Row : Type 0
Row = ℕ → ℕ

abbrev pub Matrix : Type 0
Matrix = ℕ → Row

-- `_chunk_perm`: the k that the low nibble of byte `b` of a chunk holds, and the high one.
unfoldable pub k_lo : ℕ → ℕ → ℕ
k_lo nbytes b =
    if ltb (b % 16) 8 then b / 16 * 8 + b % 16 else nbytes / 2 + b / 16 * 8 + (b % 16 - 8)

unfoldable pub k_hi : ℕ → ℕ → ℕ
unfolding k_lo
k_hi nbytes b = k_lo nbytes b + nbytes

-- `out[pos : pos + n] = values`
unfoldable pub write : Row → ℕ → ℕ → Row → Row
write out pos n values i = if leb pos i && ltb i (pos + n) then values (i - pos) else out i

-- One nibble for each k, from the checkpoint's bytes (the low nibble is the even k).
unfoldable pub k_vals : Row → Row
k_vals nib k = if k % 2 == 0 then nib (k / 2) % 16 else nib (k / 2) / 16

-- Two nibbles of at most four bits in a byte: `lo | (hi << 4)`.
abbrev pub byte_of : ℕ → ℕ → ℕ
byte_of lo hi = lo + 16 * hi

-- The bytes of a chunk: `blk[:, klo] | (blk[:, khi] << 4)`
unfoldable pub pack_chunk : Row → ℕ → ℕ → Row
unfolding k_lo k_hi
pack_chunk vals k0 nbytes b = byte_of (vals (k0 + k_lo nbytes b)) (vals (k0 + k_hi nbytes b))

-- The loop of `_pack_rows`; the fuel is at least the k that are left.
unfoldable pub pack_chunks : ℕ → ℕ → Row → ℕ → ℕ → Row → Row
unfolding write pack_chunk
pack_chunks zero k vals k0 pos out = out
pack_chunks (suc fuel) k vals k0 pos out =
    let n_k = min ch (k - k0) in
    let nbytes = n_k / 2 in
    let written = write out pos nbytes (pack_chunk vals k0 nbytes) in
    let rest = pack_chunks fuel k vals (k0 + n_k) (pos + nbytes) written in
    if ltb k0 k then rest else out

-- A row of `_pack_rows`, of `k` values.
unfoldable pub pack_row : ℕ → ℕ → Row → Row → Row
unfolding pack_chunks k_vals write
pack_row k scale_bytes nib scale =
    pack_chunks k k (k_vals nib) 0 scale_bytes (write (λ i. 0) 0 (k / 32) scale)

-- `blk[idx] = values`, for the indices of the first `n` bytes.
unfoldable pub scatter : ℕ → (ℕ → ℕ) → Row → Row → Row
scatter zero idx values out i = out i
scatter (suc n) idx values out i = if i == idx n then values n else scatter n idx values out i

-- The k of a chunk: `blk[:, klo] = chunk & 0xF` and `blk[:, khi] = chunk >> 4`
unfoldable pub unpack_chunk : Row → ℕ → ℕ → Row
unfolding scatter k_lo k_hi
unpack_chunk p pos nbytes =
    let low = scatter nbytes (k_lo nbytes) (λ b. p (pos + b) % 16) (λ i. 0) in
    scatter nbytes (k_hi nbytes) (λ b. p (pos + b) / 16) low

-- The loop of `rows` in `unpack_pack`; the fuel is at least the k that are left.
unfoldable pub unpack_chunks : ℕ → ℕ → Row → ℕ → ℕ → Row → Row
unfolding write unpack_chunk
unpack_chunks zero k p k0 pos vals = vals
unpack_chunks (suc fuel) k p k0 pos vals =
    let n_k = min ch (k - k0) in
    let nbytes = n_k / 2 in
    let read = write vals k0 n_k (unpack_chunk p pos nbytes) in
    let rest = unpack_chunks fuel k p (k0 + n_k) (pos + nbytes) read in
    if ltb k0 k then rest else vals

-- The nibbles' bytes of a packed row; its scales are its first bytes.
unfoldable pub unpack_row : ℕ → ℕ → Row → Row
unfolding unpack_chunks
unpack_row k scale_bytes p b =
    let vals = unpack_chunks k k p 0 scale_bytes (λ i. 0) in
    byte_of (vals (2 * b)) (vals (2 * b + 1))

-- An expert's slice of the checkpoint: nibbles and scales of w1, w3 and w2.
pub record Slice : Type 0 where
  pub w1n : Matrix
  pub w1s : Matrix
  pub w3n : Matrix
  pub w3s : Matrix
  pub w2n : Matrix
  pub w2s : Matrix

-- `np.concatenate([upper, lower], axis=0)`, where the first has `n` rows
unfoldable pub stack : ℕ → Matrix → Matrix → Matrix
stack n upper lower r = if ltb r n then upper r else lower (r - n)

-- `_pack_rows`, row by row
abbrev pub pack_rows : ℕ → ℕ → Matrix → Matrix → Matrix
pack_rows k scale_bytes nib scale r = pack_row k scale_bytes (nib r) (scale r)

-- `p.reshape(-1)` of a matrix with `cols` columns
unfoldable pub flat : ℕ → Matrix → Row
flat cols m i = m (i / cols) (i % cols)

-- `build_pack`
unfoldable pub build_pack : Slice → Row
build_pack raw i =
    let w13n = stack inter_r (raw.w1n) (raw.w3n) in
    let w13s = stack inter_r (raw.w1s) (raw.w3s) in
    let p13 = pack_rows k1 w13_scale_bytes w13n w13s in
    let p2 = pack_rows k2 w2_scale_bytes (raw.w2n) (raw.w2s) in
    if ltb i w13_bytes then flat w13_row_bytes p13 i else flat w2_row_bytes p2 (i - w13_bytes)

-- `unpack_pack`
unfoldable pub unpack_pack : Row → Slice
unpack_pack pack =
    let p13 = λ (r : ℕ) (i : ℕ). pack (r * w13_row_bytes + i) in
    let p2 = λ (r : ℕ) (i : ℕ). pack (w13_bytes + r * w2_row_bytes + i) in
    let w13n = λ (r : ℕ). unpack_row k1 w13_scale_bytes (p13 r) in
    record {
      w1n = w13n;
      w1s = p13;
      w3n = λ r. w13n (inter_r + r);
      w3s = λ r. p13 (inter_r + r);
      w2n = λ r. unpack_row k2 w2_scale_bytes (p2 r);
      w2s = p2;
    }
