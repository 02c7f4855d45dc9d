-- ===== src/Schema/DataTypes/Messages.antt =====
-- The P4Data messages that the data types of finsy/p4schema.py read and write.
use finsy.Prelude.{ℕ, suc, Bool, true, false, List, [], Bytes}
use finsy.Schema.DataTypes.{P4Header, P4HeaderUnion}

mutual
  -- p4d.P4Data
  pub data P4Data : Type 0 where
    bitstring enum_value : Bytes → P4Data
    varbit : Bytes → ℕ → P4Data
    bool : Bool → P4Data
    tuple struct : Datas → P4Data
    header : P4Header → P4Data
    header_union : P4HeaderUnion → P4Data
    header_stack : List P4Header → P4Data
    header_union_stack : List P4HeaderUnion → P4Data

  pub data Datas : Type 0 where
    data_end : Datas
    more_data : P4Data → Datas → Datas

abbrev pub count_data : Datas → ℕ
count_data data_end = 0
count_data (more_data d ds) = suc (count_data ds)

-- A field that is not the one set reads as its default.
abbrev pub get_bitstring : P4Data → Bytes
get_bitstring (bitstring bs) = bs
get_bitstring _ = []

abbrev pub get_enum_value : P4Data → Bytes
get_enum_value (enum_value bs) = bs
get_enum_value _ = []

abbrev pub get_varbit : P4Data → Bytes × ℕ
get_varbit (varbit bs w) = (bs, w)
get_varbit _ = ([], 0)

abbrev pub get_bool : P4Data → Bool
get_bool (bool b) = b
get_bool _ = false

abbrev pub get_tuple : P4Data → Datas
get_tuple (tuple ds) = ds
get_tuple _ = data_end

abbrev pub get_struct : P4Data → Datas
get_struct (struct ds) = ds
get_struct _ = data_end

abbrev pub get_header : P4Data → P4Header
get_header (header h) = h
get_header _ = record { is_valid = false; bitstrings = [] }

abbrev pub get_header_union : P4Data → P4HeaderUnion
get_header_union (header_union u) = u
get_header_union _ = record {
  valid_header_name = [];
  valid_header = record { is_valid = false; bitstrings = [] };
}

abbrev pub get_header_stack : P4Data → List P4Header
get_header_stack (header_stack hs) = hs
get_header_stack _ = []

abbrev pub get_header_union_stack : P4Data → List P4HeaderUnion
get_header_union_stack (header_union_stack us) = us
get_header_union_stack _ = []

-- data.HasField("bitstring")
unfoldable pub has_bitstring : P4Data → Bool
has_bitstring (bitstring bs) = true
has_bitstring _ = false
