-- ===== src/Mxfp4/Roundtrip.antt =====
-- `unpack_pack` reads back what `build_pack` wrote.
use v_llm_moet.Prelude.{ℕ, ◌+◌, ◌-◌, ◌*◌, ◌/◌, ◌%◌, ◌<◌, ◌≡◌, refl, ap, ◌∙◌, arith}
use v_llm_moet.Mxfp4.{
  Matrix, Slice, inter_r, k1, k2, w13_scale_bytes, w13_row_bytes, w2_scale_bytes, w2_row_bytes,
  w13_bytes, stack, flat, pack_row, pack_rows, unpack_row, build_pack, unpack_pack,
}
use v_llm_moet.Mxfp4.Unpack.{unpack_row-pack_row, pack_row_scale}

abbrev pub AreBytes : Matrix → Type 0
AreBytes m = (r b : ℕ) → m r b < 256

-- The nibbles of a slice are bytes.
pub record IsSlice (raw : Slice) : Type 0 where
  pub w1 : AreBytes (raw.w1n)
  pub w3 : AreBytes (raw.w3n)
  pub w2 : AreBytes (raw.w2n)

-- Two matrices agree on their first `n` rows and `cols` columns.
abbrev pub Agree : ℕ → ℕ → Matrix → Matrix → Type 0
Agree n cols a b = (r i : ℕ) → r < n → i < cols → a r i ≡ b r i

-- Two slices agree on the shapes of an expert's slice.
pub record AgreeSlice (a b : Slice) : Type 0 where
  pub w1n : Agree 576 2560 (a.w1n) (b.w1n)
  pub w1s : Agree 576 160 (a.w1s) (b.w1s)
  pub w3n : Agree 576 2560 (a.w3n) (b.w3n)
  pub w3s : Agree 576 160 (a.w3s) (b.w3s)
  pub w2n : Agree 5120 288 (a.w2n) (b.w2n)
  pub w2s : Agree 5120 18 (a.w2s) (b.w2s)

flat-row :
    (cols : ℕ) (m : Matrix) (r i : ℕ) → 0 < cols → i < cols → flat cols m (r * cols + i) ≡ m r i
unfolding flat
flat-row cols m r i some_cols lt =
    let row : (r * cols + i) / cols ≡ r = grind arith in
    let col : (r * cols + i) % cols ≡ i = grind arith in rw (row, col) refl

module _ (raw : Slice) where
  abbrev w13n : Matrix
  w13n = stack inter_r (raw.w1n) (raw.w3n)

  abbrev w13s : Matrix
  w13s = stack inter_r (raw.w1s) (raw.w3s)

  -- The rows of w1 and w3 lie one after another,
  build_pack-w13 :
      (r i : ℕ)
      → r < 1152
      → i < w13_row_bytes
      → build_pack raw (r * w13_row_bytes + i) ≡ pack_row k1 w13_scale_bytes (w13n r) (w13s r) i
  unfolding build_pack
  build_pack-w13 r i row col =
      ground (
        arith,
        flat-row w13_row_bytes (pack_rows k1 w13_scale_bytes w13n w13s) r i (omega arith) col,
      )

  -- and the rows of w2 follow them.
  build_pack-w2 :
      (r i : ℕ)
      → i < w2_row_bytes
      → build_pack raw (w13_bytes + r * w2_row_bytes + i)
        ≡ pack_row k2 w2_scale_bytes (raw.w2n r) (raw.w2s r) i
  unfolding build_pack
  build_pack-w2 r i col =
      let shift : w13_bytes + r * w2_row_bytes + i - w13_bytes ≡ r * w2_row_bytes + i =
        omega arith in
      ground (
        arith,
        ap (flat w2_row_bytes (pack_rows k2 w2_scale_bytes (raw.w2n) (raw.w2s))) shift,
        flat-row w2_row_bytes (pack_rows k2 w2_scale_bytes (raw.w2n) (raw.w2s)) r i (omega arith)
            col,
      )

  module _ (bytes : IsSlice raw) where
    w13n-AreBytes : AreBytes (w13n)
    unfolding stack
    w13n-AreBytes r b = ground (arith, bytes.w1 r b, bytes.w3 (r - inter_r) b)

    unpack_row-w13 :
        (r i : ℕ)
        → r < 1152
        → i < 2560
        → unpack_row k1 w13_scale_bytes (λ j. build_pack raw (r * w13_row_bytes + j)) i ≡ w13n r i
    unpack_row-w13 r i row col =
        unpack_row-pack_row k1 w13_scale_bytes (w13n r) (w13s r) _ i refl (w13n-AreBytes r)
          (λ j. build_pack-w13 r j row) col

    unpack_row-w2 :
        (r i : ℕ)
        → i < 288
        → unpack_row k2 w2_scale_bytes (λ j. build_pack raw (w13_bytes + r * w2_row_bytes + j)) i
          ≡ raw.w2n r i
    unpack_row-w2 r i col =
        unpack_row-pack_row k2 w2_scale_bytes (raw.w2n r) (raw.w2s r) _ i refl (bytes.w2 r)
          (build_pack-w2 r) col

  scale-w13 : (r i : ℕ) → r < 1152 → i < 160 → build_pack raw (r * w13_row_bytes + i) ≡ w13s r i
  scale-w13 r i row col =
      build_pack-w13 r i row (omega arith)
      ∙ pack_row_scale k1 w13_scale_bytes (w13n r) (w13s r) i (omega arith) col

  scale-w2 : (r i : ℕ) → i < 18 → build_pack raw (w13_bytes + r * w2_row_bytes + i) ≡ raw.w2s r i
  scale-w2 r i col =
      build_pack-w2 r i (omega arith)
      ∙ pack_row_scale k2 w2_scale_bytes (raw.w2n r) (raw.w2s r) i (omega arith) col

stack_upper : (a b : Matrix) (r i : ℕ) → r < inter_r → stack inter_r a b r i ≡ a r i
unfolding stack
stack_upper a b r i row = ground arith

stack_lower : (a b : Matrix) (r i : ℕ) → stack inter_r a b (inter_r + r) i ≡ b r i
unfolding stack
stack_lower a b r i =
    let same : inter_r + r - inter_r ≡ r = omega arith in ground (arith, ap (λ j. b j i) same)

-- Packing an expert's slice and unpacking it gives the slice back: all nibbles and scales of the
-- three matrices, if the nibbles are bytes.
pub unpack_pack-build_pack :
    (raw : Slice) → IsSlice raw → AgreeSlice (unpack_pack (build_pack raw)) raw
unfolding unpack_pack
unpack_pack-build_pack raw bytes = record {
  w1n = λ r i row col.
      unpack_row-w13 raw bytes r i (omega arith) col ∙ stack_upper (raw.w1n) (raw.w3n) r i row;
  w1s =
      λ r i row col. scale-w13 raw r i (omega arith) col ∙ stack_upper (raw.w1s) (raw.w3s) r i row;
  w3n = λ r i row col.
      unpack_row-w13 raw bytes (inter_r + r) i (omega arith) col
      ∙ stack_lower (raw.w1n) (raw.w3n) r i;
  w3s = λ r i row col.
      scale-w13 raw (inter_r + r) i (omega arith) col ∙ stack_lower (raw.w1s) (raw.w3s) r i;
  w2n = λ r i row col. unpack_row-w2 raw bytes r i col;
  w2s = λ r i row col. scale-w2 raw r i col;
}
