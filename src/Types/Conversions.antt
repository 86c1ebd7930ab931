-- ===== src/Types/Conversions.antt =====
-- The conversions between the enumerations of src/lib.rs and the generated ones.
use kudu_rs.Base.{==_iff, [], ap, get_or, ok, refl, sym, true, ℕ, ◌∙◌, ◌∷◌, ◌≡◌}
use kudu_rs.Types.{
  CompressionType, DataType, EncodingType, auto, binary, bit_shuffle, bool, compression_from_pb,
  compression_to_pb, data_type_from_pb, data_type_to_pb, default_compression, dictionary, double,
  encoding_from_pb, encoding_to_pb, eq_data_type, float, group_varint, int16, int32, int64, int8,
  lz4, no_compression, plain, prefix, run_length, snappy, string, timestamp, variant, zlib,
}

pub data_type_from_pb-to_pb : (T : DataType) → data_type_from_pb (data_type_to_pb T) ≡ ok T
unfolding data_type_from_pb data_type_to_pb
data_type_from_pb-to_pb bool = refl
data_type_from_pb-to_pb int8 = refl
data_type_from_pb-to_pb int16 = refl
data_type_from_pb-to_pb int32 = refl
data_type_from_pb-to_pb int64 = refl
data_type_from_pb-to_pb timestamp = refl
data_type_from_pb-to_pb float = refl
data_type_from_pb-to_pb double = refl
data_type_from_pb-to_pb binary = refl
data_type_from_pb-to_pb string = refl

pub encoding_from_pb-to_pb : (e : EncodingType) → encoding_from_pb (encoding_to_pb e) ≡ ok e
unfolding encoding_from_pb encoding_to_pb
encoding_from_pb-to_pb auto = refl
encoding_from_pb-to_pb plain = refl
encoding_from_pb-to_pb prefix = refl
encoding_from_pb-to_pb group_varint = refl
encoding_from_pb-to_pb run_length = refl
encoding_from_pb-to_pb dictionary = refl
encoding_from_pb-to_pb bit_shuffle = refl

pub compression_from_pb-to_pb :
    (c : CompressionType) → compression_from_pb (compression_to_pb c) ≡ ok c
unfolding compression_from_pb compression_to_pb
compression_from_pb-to_pb default_compression = refl
compression_from_pb-to_pb no_compression = refl
compression_from_pb-to_pb snappy = refl
compression_from_pb-to_pb lz4 = refl
compression_from_pb-to_pb zlib = refl

-- The data type of a number.
at_variant : ℕ → DataType
at_variant n =
    get_or (bool ∷ int8 ∷ int16 ∷ int32 ∷ int64 ∷ timestamp ∷ float ∷ double ∷ binary ∷ string ∷ [])
      n bool

at_variant-variant : (t : DataType) → at_variant (variant t) ≡ t
unfolding at_variant variant
at_variant-variant bool = refl
at_variant-variant int8 = refl
at_variant-variant int16 = refl
at_variant-variant int32 = refl
at_variant-variant int64 = refl
at_variant-variant timestamp = refl
at_variant-variant float = refl
at_variant-variant double = refl
at_variant-variant binary = refl
at_variant-variant string = refl

pub eq_of_eq_data_type : (a b : DataType) → eq_data_type a b ≡ true → a ≡ b
unfolding eq_data_type
eq_of_eq_data_type a b h =
    sym (at_variant-variant a)
    ∙ ap at_variant ((==_iff (variant a) (variant b)).0 h)
    ∙ at_variant-variant b
