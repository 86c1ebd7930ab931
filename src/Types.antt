-- ===== src/Types.antt =====
-- src/lib.rs: the data types, encodings and compressions of columns and the roles of replicas, with
-- their counterparts in the generated kudu-pb/src/common.rs and kudu-pb/src/consensus_metadata.rs.
pub mod Conversions
pub mod Equality
use kudu_rs.Base.{Bool, Outcome, err, false, ok, true, version_mismatch, ℕ, ◌==◌}

pub data DataType : Type 0 where
  bool : DataType
  int8 : DataType
  int16 : DataType
  int32 : DataType
  int64 : DataType
  timestamp : DataType
  float : DataType
  double : DataType
  binary : DataType
  string : DataType

pub data DataTypePb : Type 0 where
  unknown_data : DataTypePb
  uint8_pb : DataTypePb
  int8_pb : DataTypePb
  uint16_pb : DataTypePb
  int16_pb : DataTypePb
  uint32_pb : DataTypePb
  int32_pb : DataTypePb
  uint64_pb : DataTypePb
  int64_pb : DataTypePb
  string_pb : DataTypePb
  bool_pb : DataTypePb
  float_pb : DataTypePb
  double_pb : DataTypePb
  binary_pb : DataTypePb
  unixtime_micros : DataTypePb

unfoldable pub is_var_len : DataType → Bool
is_var_len string = true
is_var_len binary = true
is_var_len _ = false

unfoldable pub size : DataType → ℕ
size bool = 1
size int8 = 1
size int16 = 2
size int32 = 4
size float = 4
size int64 = 8
size timestamp = 8
size double = 8
size binary = 16
size string = 16

unfoldable pub data_type_to_pb : DataType → DataTypePb
data_type_to_pb bool = bool_pb
data_type_to_pb int8 = int8_pb
data_type_to_pb int16 = int16_pb
data_type_to_pb int32 = int32_pb
data_type_to_pb int64 = int64_pb
data_type_to_pb timestamp = unixtime_micros
data_type_to_pb float = float_pb
data_type_to_pb double = double_pb
data_type_to_pb binary = binary_pb
data_type_to_pb string = string_pb

unfoldable pub data_type_from_pb : DataTypePb → Outcome DataType
data_type_from_pb bool_pb = ok bool
data_type_from_pb int8_pb = ok int8
data_type_from_pb int16_pb = ok int16
data_type_from_pb int32_pb = ok int32
data_type_from_pb int64_pb = ok int64
data_type_from_pb unixtime_micros = ok timestamp
data_type_from_pb float_pb = ok float
data_type_from_pb double_pb = ok double
data_type_from_pb binary_pb = ok binary
data_type_from_pb string_pb = ok string
data_type_from_pb _ = err version_mismatch

pub data EncodingType : Type 0 where
  auto : EncodingType
  plain : EncodingType
  prefix : EncodingType
  group_varint : EncodingType
  run_length : EncodingType
  dictionary : EncodingType
  bit_shuffle : EncodingType

pub data EncodingTypePb : Type 0 where
  unknown_encoding : EncodingTypePb
  auto_encoding : EncodingTypePb
  plain_encoding : EncodingTypePb
  prefix_encoding : EncodingTypePb
  group_varint_pb : EncodingTypePb
  rle : EncodingTypePb
  dict_encoding : EncodingTypePb
  bit_shuffle_pb : EncodingTypePb

unfoldable pub encoding_to_pb : EncodingType → EncodingTypePb
encoding_to_pb auto = auto_encoding
encoding_to_pb plain = plain_encoding
encoding_to_pb prefix = prefix_encoding
encoding_to_pb group_varint = group_varint_pb
encoding_to_pb run_length = rle
encoding_to_pb dictionary = dict_encoding
encoding_to_pb bit_shuffle = bit_shuffle_pb

unfoldable pub encoding_from_pb : EncodingTypePb → Outcome EncodingType
encoding_from_pb auto_encoding = ok auto
encoding_from_pb plain_encoding = ok plain
encoding_from_pb prefix_encoding = ok prefix
encoding_from_pb group_varint_pb = ok group_varint
encoding_from_pb rle = ok run_length
encoding_from_pb dict_encoding = ok dictionary
encoding_from_pb bit_shuffle_pb = ok bit_shuffle
encoding_from_pb _ = err version_mismatch

pub data CompressionType : Type 0 where
  default_compression : CompressionType
  no_compression : CompressionType
  snappy : CompressionType
  lz4 : CompressionType
  zlib : CompressionType

pub data CompressionTypePb : Type 0 where
  unknown_compression : CompressionTypePb
  default_compression_pb : CompressionTypePb
  no_compression_pb : CompressionTypePb
  snappy_pb : CompressionTypePb
  lz4_pb : CompressionTypePb
  zlib_pb : CompressionTypePb

unfoldable pub compression_to_pb : CompressionType → CompressionTypePb
compression_to_pb default_compression = default_compression_pb
compression_to_pb no_compression = no_compression_pb
compression_to_pb snappy = snappy_pb
compression_to_pb lz4 = lz4_pb
compression_to_pb zlib = zlib_pb

unfoldable pub compression_from_pb : CompressionTypePb → Outcome CompressionType
compression_from_pb default_compression_pb = ok default_compression
compression_from_pb no_compression_pb = ok no_compression
compression_from_pb snappy_pb = ok snappy
compression_from_pb lz4_pb = ok lz4
compression_from_pb zlib_pb = ok zlib
compression_from_pb _ = err version_mismatch

-- The derived `==` of `DataType`, through the number of a variant.
unfoldable pub variant : DataType → ℕ
variant bool = 0
variant int8 = 1
variant int16 = 2
variant int32 = 3
variant int64 = 4
variant timestamp = 5
variant float = 6
variant double = 7
variant binary = 8
variant string = 9

unfoldable pub eq_data_type : DataType → DataType → Bool
unfolding variant
eq_data_type a b = variant a == variant b

pub data RaftRole : Type 0 where
  follower : RaftRole
  leader : RaftRole
  learner : RaftRole
  non_participant : RaftRole
  unknown_role : RaftRole

pub data RaftRolePb : Type 0 where
  unknown_role_pb : RaftRolePb
  follower_pb : RaftRolePb
  leader_pb : RaftRolePb
  learner_pb : RaftRolePb
  non_participant_pb : RaftRolePb

unfoldable pub role_from_pb : RaftRolePb → RaftRole
role_from_pb unknown_role_pb = unknown_role
role_from_pb follower_pb = follower
role_from_pb leader_pb = leader
role_from_pb learner_pb = learner
role_from_pb non_participant_pb = non_participant
