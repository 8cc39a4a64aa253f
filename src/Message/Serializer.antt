-- ===== src/Message/Serializer.antt =====
-- DuckDB's `BinarySerializer` and `BinaryDeserializer`, which are not part of this repository, as a
-- record of operations over an abstract stream `S`, and what the extension relies on. A writer puts
-- its item in front of what is written after it.
use duckdb_quack.Prelude.{ℕ, Bool, true, List, Bytes, Option, Result, ok, ◌≡◌, ◌<◌}
use duckdb_quack.Message.Types.{MessageType}

-- `WriteProperty`, `WritePropertyWithDefault` and their readers at one type; the number is the
-- property's id.
pub record Field (S A : Type 0) : Type 0 where
  pub write : ℕ → A → S → S
  pub write_default : ℕ → A → S → S
  pub read : ℕ → S → Result (A × S)
  pub read_default : ℕ → S → Result (A × S)

pub record Serializer (S C T : Type 0) : Type 0 where
  pub write_begin : S → S
  pub write_end : S → S
  pub read_begin : S → Result S
  pub read_end : S → Result S
  pub text : Field S Bytes
  pub index : Field S ℕ
  pub huge : Field S ℕ
  pub opt_index : Field S (Option ℕ)
  pub type_code : Field S MessageType
  pub flag : Field S Bool
  pub chunks : Field S (List C)
  pub chunk : Field S (Option C)
  pub types : Field S (List T)
  pub names : Field S (List Bytes)

-- A property is read back. One that may be left out is told by what comes after it: `ahead n s`
-- says that the stream goes on with the end of the object or a property whose id is above `n`.
pub record FieldLaws {S A : Type 0} (ahead : ℕ → S → Bool) (f : Field S A) : Type 0 where
  pub read-write : (n : ℕ) (a : A) (s : S) → f.read n (f.write n a s) ≡ ok (a, s)
  pub read_default-write_default :
      (n : ℕ) (a : A) (s : S)
      → ahead n s ≡ true
      → f.read_default n (f.write_default n a s) ≡ ok (a, s)
  pub ahead-write : (m n : ℕ) (a : A) (s : S) → m < n → ahead m (f.write n a s) ≡ true
  pub ahead-write_default :
      (m n : ℕ) (a : A) (s : S) → m < n → ahead n s ≡ true → ahead m (f.write_default n a s) ≡ true

pub record SerializerLaws {S C T : Type 0} (z : Serializer S C T) : Type 0 where
  pub ahead : ℕ → S → Bool
  pub ahead-write_end : (n : ℕ) (s : S) → ahead n (z.write_end s) ≡ true
  pub read_begin-write_begin : (s : S) → z.read_begin (z.write_begin s) ≡ ok s
  pub read_end-write_end : (s : S) → z.read_end (z.write_end s) ≡ ok s
  pub text_laws : FieldLaws ahead z.text
  pub index_laws : FieldLaws ahead z.index
  pub huge_laws : FieldLaws ahead z.huge
  pub opt_index_laws : FieldLaws ahead z.opt_index
  pub type_code_laws : FieldLaws ahead z.type_code
  pub flag_laws : FieldLaws ahead z.flag
  pub chunks_laws : FieldLaws ahead z.chunks
  pub chunk_laws : FieldLaws ahead z.chunk
  pub types_laws : FieldLaws ahead z.types
  pub names_laws : FieldLaws ahead z.names
