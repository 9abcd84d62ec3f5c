-- ===== src/Ipfix.antt =====
-- Metering specifications: the fields, templates and data records of src/msg/mnslp_ipfix_field.cpp,
-- mnslp_ipfix_template.cpp, mnslp_ipfix_data_record.cpp and mnslp_ipfix_message.cpp.
pub mod Field
pub mod Template
pub mod Record
pub mod Import
pub mod Table
pub mod Header
pub mod Print
pub mod Message
pub mod Read
pub mod Write
use m_nslp.Prelude.{ℕ, List, length}

-- The IPFIX_CODING constants, and the coding 0 of fields that are not known.
pub data Coding : Type 0 where
  int uint bytes string float ntp ipaddr uncoded : Coding

-- ipfix_field_type_t, without its texts.
pub record FieldType : Type 0 where
  pub eno : ℕ
  pub ftype : ℕ
  pub length : ℕ
  pub coding : Coding

-- mnslp_ipfix_value_field with the member that is set. `unset` is the object of the constructor.
-- Floating point numbers are left out.
pub data Value : Type 0 where
  unset : Value
  int8 int16 int32 int64 : ℕ → Value
  octets : List ℕ → Value
  chars : List ℕ → Value

abbrev pub value_length : Value → ℕ
value_length unset = 0
value_length (int8 n) = 1
value_length (int16 n) = 2
value_length (int32 n) = 4
value_length (int64 n) = 8
value_length (octets bs) = length bs
value_length (chars cs) = length cs

-- A value, or an exception.
pub data Result (A : Type 0) : Type 0 where
  value : A → Result A
  -- mnslp_ipfix_bad_argument
  bad_argument : Result A
