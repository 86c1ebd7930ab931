-- ===== src/Types/Equality.antt =====
-- The derived `==` of the enumerations of src/lib.rs, through the number of a variant.
use kudu_rs.Base.{Bool, ℕ, ◌==◌}
use kudu_rs.Types.{
  CompressionType, EncodingType, auto, bit_shuffle, default_compression, dictionary, group_varint,
  lz4, no_compression, plain, prefix, run_length, snappy, zlib,
}

unfoldable pub encoding_variant : EncodingType → ℕ
encoding_variant auto = 0
encoding_variant plain = 1
encoding_variant prefix = 2
encoding_variant group_varint = 3
encoding_variant run_length = 4
encoding_variant dictionary = 5
encoding_variant bit_shuffle = 6

unfoldable pub eq_encoding : EncodingType → EncodingType → Bool
unfolding encoding_variant
eq_encoding a b = encoding_variant a == encoding_variant b

unfoldable pub compression_variant : CompressionType → ℕ
compression_variant default_compression = 0
compression_variant no_compression = 1
compression_variant snappy = 2
compression_variant lz4 = 3
compression_variant zlib = 4

unfoldable pub eq_compression : CompressionType → CompressionType → Bool
unfolding compression_variant
eq_compression a b = compression_variant a == compression_variant b
