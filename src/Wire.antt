-- ===== src/Wire.antt =====
-- The wire format: what the message code takes from protlib's NetMsg, from the metering
-- specifications (the subclass of include/msg/mnslp_mspec_object.h), and the results of
-- writing and reading.
pub mod Object
pub mod Message
pub mod Ipfix
use m_nslp.Prelude.{
  ℕ, zero, suc, ◌+◌, ◌*◌, ◌%◌, ◌-◌, ◌<◌, ◌≡◌, Bool, Option, none, some, List, [], ◌∷◌, ◌++◌, length,
  u32_mod,
}

-- protlib's NetMsg, a buffer of bytes with a position. What `encode8`, `encode16` and `encode32`
-- write is a list of bytes. A read takes what is left of the buffer and returns the value with
-- what is then left; `none` stands for NetMsgError.
pub record NetMsg : Type 0 where
  pub word8 : ℕ → List ℕ
  pub word16 : ℕ → List ℕ
  pub word32 : ℕ → List ℕ
  pub read32 : List ℕ → Option (ℕ × List ℕ)

-- Four bytes in network order, read back as they were written.
pub record IsNetMsg (N : NetMsg) : Type 0 where
  pub length_word32 : (n : ℕ) → length (N.word32 n) ≡ 4
  pub read_word32 :
      (n : ℕ) (rest : List ℕ) → n < u32_mod → N.read32 (N.word32 n ++ rest) ≡ some (n, rest)
  pub word32_fields :
      (a b c : ℕ)
      → a < 256
      → b < 256
      → c < 65536
      → N.word8 a ++ N.word8 b ++ N.word16 c ≡ N.word32 (a * 0x100_0000 + b * 0x1_0000 + c)
  pub read_short : (src : List ℕ) → length src < 4 → N.read32 src ≡ none
  pub read_left :
      (src : List ℕ) (n : ℕ) (rest : List ℕ)
      → N.read32 src ≡ some (n, rest)
      → (word : List ℕ) × (length word ≡ 4) × (src ≡ word ++ rest)

-- What mnslp_ipfix_import does with a body.
pub data Import (Mspec : Type 0) : Type 0 where
  -- A specification, and the number of bytes that were read.
  read_as : Mspec → ℕ → Import Mspec
  -- An exception.
  bad_import : Import Mspec
  -- It does not end, or memory outside its buffers is read or written.
  lost : Import Mspec

-- A metering specification on the wire.
pub record Codec (Mspec : Type 0) : Type 0 where
  -- The first `get_offset()` bytes of `get_message()`.
  pub content : Mspec → List ℕ
  -- mnslp_ipfix_import on a body.
  pub import_body : List ℕ → Import Mspec

-- `n` zeros.
abbrev pub zeros : ℕ → List ℕ
zeros zero = []
zeros (suc n) = 0 ∷ zeros n

-- How many bytes fill up a multiple of 4.
abbrev pub padding : ℕ → ℕ
padding n = (4 - n % 4) % 4

-- The bytes of a specification, filled up with zeros.
abbrev pub padded : {Mspec : Type 0} → Codec Mspec → Mspec → List ℕ
padded C x = C.content x ++ zeros (padding (length (C.content x)))

-- What the import makes of these bytes, where it returns.
abbrev pub reread : {Mspec : Type 0} → Codec Mspec → Mspec → Mspec
reread {Mspec} C x = made (C.import_body (padded C x))
  where
    made : Import Mspec → Mspec
    made (read_as y n) = y
    made bad_import = x
    made lost = x

-- The import of a specification's bytes returns, and reads all of them but the zeros. What it returns
-- need not be the specification.
pub record IsReadable {Mspec : Type 0} (C : Codec Mspec) (x : Mspec) : Type 0 where
  pub not_empty : 0 < length (C.content x)
  pub fits : length (C.content x) < 16381
  pub import_content : C.import_body (padded C x) ≡ read_as (reread C x) (length (C.content x))

-- The entries of the error list.
pub data Fault : Type 0 where
  -- IEMsgTooShort, and IEError for a type that is not registered.
  too_short wrong_type wrong_subtype : Fault
  -- PDUSyntaxError: for an object, for a type that occurs twice, for a message without objects.
  invalid_object : ℕ → Fault
  duplicate_object : ℕ → Fault
  empty_message : Fault

-- What `deserialize` does.
pub data Parse (A : Type 0) : Type 0 where
  -- The object, what is left of the buffer, and the errors that were skipped.
  parsed : A → List ℕ → List Fault → Parse A
  -- NULL, with the errors put on the list.
  refused : List Fault → Parse A
  -- An exception that nothing catches.
  escaped : Parse A
  -- It goes on for ever, or its behaviour is undefined.
  unfinished : Parse A

-- What `serialize` does.
pub data Output : Type 0 where
  wrote : List ℕ → Output
  -- IEError
  throws : Output
  -- The end of a function that has to return a value is reached.
  undefined : Output

-- One output after the other.
abbrev pub then_write : Output → Output → Output
then_write (wrote xs) (wrote ys) = wrote (xs ++ ys)
then_write (wrote xs) throws = throws
then_write (wrote xs) undefined = undefined
then_write throws out = throws
then_write undefined out = undefined
