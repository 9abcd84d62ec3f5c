-- ===== src/Platform.antt =====
-- What the program takes from outside src/: message routing information of the NTLP library
-- (ntlp::mri, ntlp::mri_pathcoupled) and host addresses of protlib. The metering
-- specifications of include/msg/mnslp_mspec_object.h are an abstract class that the
-- signaling code only copies, compares and passes on, so their type is a field too.
use m_nslp.Prelude.{ℕ, Bool, List, Option}

-- What the getters of ntlp::mri_pathcoupled return.
pub record Flow (Address : Type 0) : Type 0 where
  pub source_address : Address
  pub source_prefix : ℕ
  pub source_port : ℕ
  pub dest_address : Address
  pub dest_prefix : ℕ
  pub dest_port : ℕ
  pub protocol : ℕ
  pub flow_label : ℕ
  pub ds_field : ℕ
  pub spi : ℕ
  pub downstream : Bool

pub record Platform : Type 1 where
  pub Address : Type 0
  pub Mri : Type 0
  pub Mspec : Type 0
  -- `copy()` followed by `invertDirection()`.
  pub invert : Mri → Mri
  -- `dynamic_cast<mri_pathcoupled *>`, with the getters of the object that it finds.
  pub path_coupled? : Mri → Option (Flow Address)
  -- The constructor of ntlp::mri_pathcoupled.
  pub path_coupled : Flow Address → Mri
  -- mnslp_mspec_object::notEqual.
  pub not_equal : Mspec → Mspec → Bool
  -- uuid_unparse_lower of libuuid: the text of a key, as bytes.
  pub unparse : ℕ → List ℕ
