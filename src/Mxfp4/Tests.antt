-- ===== src/Mxfp4/Tests.antt =====
-- Runs of the packing of an expert.
use v_llm_moet.Prelude.{◌+◌, ◌*◌, ◌%◌, ◌≡◌, refl, arith}
use v_llm_moet.Mxfp4.{Slice, k_lo, k_hi, pack_row, unpack_row, build_pack, unpack_pack}
use v_llm_moet.Mxfp4.Roundtrip.{AgreeSlice, IsSlice, unpack_pack-build_pack}

-- the tenth byte of a full chunk and of a half chunk
k_lo_runs : (k_lo 64 9 ≡ 33) × (k_hi 64 9 ≡ 97) × (k_lo 32 9 ≡ 17) × (k_hi 32 9 ≡ 49)
unfolding k_lo k_hi
k_lo_runs = (refl, refl, refl, refl)

-- 64 k in a row of 34 bytes, where byte 2 + 9 holds the k 17 and 49
row_runs :
    (pack_row 64 2 (λ b. (37 * b) % 256) (λ g. 120 + g) 1 ≡ 121)
    × (pack_row 64 2 (λ b. (37 * b) % 256) (λ g. 120 + g) 11 ≡ 114)
    × (unpack_row 64 2 (pack_row 64 2 (λ b. (37 * b) % 256) (λ g. 120 + g)) 24 ≡ (37 * 24) % 256)
unfolding pack_row unpack_row
row_runs = (refl, refl, refl)

abbrev sample : Slice
sample = record {
  w1n = λ r b. (r + 3 * b) % 256;
  w1s = λ r g. r + g;
  w3n = λ r b. (7 * r + b) % 256;
  w3s = λ r g. 2 * r + g;
  w2n = λ r b. (5 * r + 11 * b) % 256;
  w2s = λ r g. 3 * r + g;
}

sample-IsSlice : IsSlice sample
sample-IsSlice = record {
  w1 = λ r b. omega arith;
  w3 = λ r b. omega arith;
  w2 = λ r b. omega arith;
}

unpack_pack-build_pack_example : AgreeSlice (unpack_pack (build_pack sample)) sample
unpack_pack-build_pack_example = unpack_pack-build_pack sample sample-IsSlice
