-- ===== src/Schema/DataTypes/Typed.antt =====
-- The messages that belong to a data type, and that what is encoded for a type belongs to it.
pub mod Strings
pub mod Encoded
use finsy.Prelude.{
  ℕ, zero, suc, Bool, ◌+◌, ◌^◌, ◌≤◌, ◌<◌, ◌≡◌, true, false, some, List, [], ◌∷◌, Str, Bytes, All,
  length,
}
use finsy.Prelude.Int.{ℤ, pos, negsuc}
use finsy.Bytes.{from_bytes}
use finsy.Values.Signed.{decode_signed}
use finsy.Schema.DataTypes.{
  BitsType, HeaderType, HeaderUnionType, P4Header, P4HeaderUnion, find_member,
}
use finsy.Schema.DataTypes.Nested.{
  P4Type, bits_type, bool_type, tuple_type, struct_type, header_type, header_union_type,
  header_stack_type, header_union_stack_type, new_type, serializable_enum_type, original_type,
  sdn_bitwidth, sdn_string, Types, tuple_end, more_types, Members, struct_end, member,
}
use finsy.Schema.DataTypes.Messages.{
  P4Data, bitstring, enum_value, varbit, bool, tuple, struct, header, header_union, header_stack,
  header_union_stack, Datas, data_end, more_data,
}

-- A width of 0 bounds nothing: it is that of a text.
abbrev pub IsUnsigned : ℕ → Bytes → Type 0
IsUnsigned w bs = 0 < w → from_bytes bs < 2 ^ w

-- Two's complement: one bit is the sign's.
abbrev pub IsSigned : ℕ → ℤ → Type 0
IsSigned zero z = Unit
IsSigned (suc w) (pos n) = n < 2 ^ w
IsSigned (suc w) (negsuc n) = n < 2 ^ w

pub data HasBits (typ : BitsType) (bs : Bytes) : Type 0 where
  signed_bits :
      typ.signed ≡ true → IsSigned typ.bitwidth (decode_signed bs typ.bitwidth) → HasBits typ bs
  plain_bits : typ.signed ≡ false → IsUnsigned typ.bitwidth bs → HasBits typ bs

-- One bit string for each member, in the order of the members
pub data HaveBits : HeaderType → List Bytes → Type 0 where
  no_strings : HaveBits [] []
  more_strings :
      {key : Str} {typ : BitsType} {members : HeaderType} {bs : Bytes} {strings : List Bytes}
      → HasBits typ bs
      → HaveBits members strings
      → HaveBits ((key, typ) ∷ members) (bs ∷ strings)

pub data HasHeaderType (members : HeaderType) : P4Header → Type 0 where
  invalid_header : HasHeaderType members (record { is_valid = false; bitstrings = [] })
  valid_header :
      {strings : List Bytes}
      → HaveBits members strings
      → HasHeaderType members (record { is_valid = true; bitstrings = strings })

-- At most one header of a union is valid, and it is one of its members.
pub data HasUnionType (members : HeaderUnionType) : P4HeaderUnion → Type 0 where
  no_header : HasUnionType members (record {
    valid_header_name = [];
    valid_header = record { is_valid = false; bitstrings = [] };
  })
  one_header :
      {key : Str} {typ : HeaderType} {h : P4Header}
      → find_member key members ≡ some typ
      → HasHeaderType typ h
      → HasUnionType members (record { valid_header_name = key; valid_header = h })

mutual
  pub data HasType : P4Type → P4Data → Type 0 where
    fixed :
        {typ : BitsType} {bs : Bytes}
        → typ.varbit ≡ false
        → HasBits typ bs
        → HasType (bits_type typ) (bitstring bs)
    variable :
        {typ : BitsType} {bs : Bytes} {w : ℕ}
        → typ.varbit ≡ true
        → w ≤ typ.bitwidth
        → IsUnsigned w bs
        → HasType (bits_type typ) (varbit bs w)
    flag_bit : {b : Bool} → HasType bool_type (bool b)
    in_tuple :
        {types : Types} {ds : Datas} → HaveTypes types ds → HasType (tuple_type types) (tuple ds)
    in_struct :
        {members : Members} {ds : Datas}
        → HaveMembers members ds
        → HasType (struct_type members) (struct ds)
    one :
        {typ : HeaderType} {h : P4Header}
        → HasHeaderType typ h
        → HasType (header_type typ) (header h)
    union :
        {typ : HeaderUnionType} {u : P4HeaderUnion}
        → HasUnionType typ u
        → HasType (header_union_type typ) (header_union u)
    stack :
        {typ : HeaderType} {hs : List P4Header}
        → All (HasHeaderType typ) hs
        → HasType (header_stack_type typ (length hs)) (header_stack hs)
    union_stack :
        {typ : HeaderUnionType} {us : List P4HeaderUnion}
        → All (HasUnionType typ) us
        → HasType (header_union_stack_type typ (length us)) (header_union_stack us)
    original :
        {typ : P4Type} {d : P4Data} → HasType typ d → HasType (new_type (original_type typ)) d
    sdn_bits :
        {w : ℕ} {bs : Bytes} → IsUnsigned w bs → HasType (new_type (sdn_bitwidth w)) (bitstring bs)
    sdn_text : {bs : Bytes} → HasType (new_type sdn_string) (bitstring bs)
    enum_number :
        {w : ℕ} {bs : Bytes} → IsUnsigned w bs → HasType (serializable_enum_type w) (enum_value bs)

  pub data HaveTypes : Types → Datas → Type 0 where
    no_types : HaveTypes tuple_end data_end
    and_types :
        {typ : P4Type} {types : Types} {d : P4Data} {ds : Datas}
        → HasType typ d
        → HaveTypes types ds
        → HaveTypes (more_types typ types) (more_data d ds)

  pub data HaveMembers : Members → Datas → Type 0 where
    no_members : HaveMembers struct_end data_end
    and_members :
        {key : Str} {typ : P4Type} {members : Members} {d : P4Data} {ds : Datas}
        → HasType typ d
        → HaveMembers members ds
        → HaveMembers (member key typ members) (more_data d ds)
