-- ===== src/Schema/Equality.antt =====
-- The `==` of columns and schemas in src/schema.rs. Two references to one schema are equal by their
-- addresses, which the comparison of the columns answers too.
use kudu_rs.Base.{==_refl, Bool, List, [], false, not, refl, true, ◌&&◌, ◌==◌, ◌∷◌, ◌≡◌}
use kudu_rs.Bytes.{eq_bytes, eq_bytes_self}
use kudu_rs.Schema.{Column, Schema}
use kudu_rs.Types.{eq_data_type, variant}
use kudu_rs.Types.Equality.{compression_variant, encoding_variant, eq_compression, eq_encoding}

unfoldable pub eq_bool : Bool → Bool → Bool
eq_bool true b = b
eq_bool false b = not b

unfoldable pub eq_column : Column → Column → Bool
unfolding eq_bool
eq_column a b =
    eq_bytes a.name b.name
    && eq_data_type a.data_type b.data_type
    && eq_bool a.is_nullable b.is_nullable
    && eq_compression a.compression b.compression
    && eq_encoding a.encoding b.encoding
    && (a.block_size == b.block_size)

unfoldable pub eq_columns : List Column → List Column → Bool
unfolding eq_column
eq_columns [] [] = true
eq_columns [] (d ∷ ds) = false
eq_columns (c ∷ cs) [] = false
eq_columns (c ∷ cs) (d ∷ ds) = eq_column c d && eq_columns cs ds

unfoldable pub eq_schema : Schema → Schema → Bool
unfolding eq_columns
eq_schema a b =
    (a.num_primary_key_columns == b.num_primary_key_columns) && eq_columns a.columns b.columns

eq_bool_self : (b : Bool) → eq_bool b b ≡ true
unfolding eq_bool
eq_bool_self true = refl
eq_bool_self false = refl

eq_column_self : (c : Column) → eq_column c c ≡ true
unfolding eq_column eq_data_type eq_compression eq_encoding
eq_column_self c =
    rw
      (
        eq_bytes_self c.name,
        ==_refl (variant c.data_type),
        eq_bool_self c.is_nullable,
        ==_refl (compression_variant c.compression),
        ==_refl (encoding_variant c.encoding),
        ==_refl c.block_size,
      )
      refl

eq_columns_self : (cs : List Column) → eq_columns cs cs ≡ true
unfolding eq_columns
eq_columns_self [] = refl
eq_columns_self (c ∷ cs) = rw (eq_column_self c, eq_columns_self cs) refl

pub eq_schema_self : (s : Schema) → eq_schema s s ≡ true
unfolding eq_schema
eq_schema_self s = rw (==_refl s.num_primary_key_columns, eq_columns_self s.columns) refl
