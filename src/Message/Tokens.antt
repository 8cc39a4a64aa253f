-- ===== src/Message/Tokens.antt =====
-- A serializer that runs and meets its laws, over a list of tokens, and tests of the wire format.
use duckdb_quack.Prelude.{
  ℕ, ◌<◌, Bool, true, false, List, [], ◌∷◌, Bytes, Option, none, some, Result, ok, err,
  out_of_range, ◌≡◌, refl, ltb, ◌==◌, if◌then◌else◌, arith, Bool-cases, inl, inr, lt→ltb, ==_iff,
  not,
}
use duckdb_quack.Message.Types.{MessageType, invalid}
use duckdb_quack.Message.Serializer.{Serializer, SerializerLaws, Field, FieldLaws}

pub data Val : Type 0 where
  text : Bytes → Val
  number : ℕ → Val
  optional : Option ℕ → Val
  code : MessageType → Val
  flag : Bool → Val
  numbers : List ℕ → Val
  texts : List Bytes → Val

pub data Token : Type 0 where
  end : Token
  property : ℕ → Val → Token

abbrev pub Stream : Type 0
Stream = List Token

ahead : ℕ → Stream → Bool
ahead n [] = false
ahead n (end ∷ s) = true
ahead n (property k v ∷ s) = ltb n k

read_end : Stream → Result Stream
read_end [] = err out_of_range
read_end (end ∷ s) = ok s
read_end (property k v ∷ s) = err out_of_range

-- How a type is put into a value, and which of its values is the default.
record Coding (A : Type 0) : Type 0 where
  put : A → Val
  get : Val → Option A
  default : A
  is_default : A → Bool

record CodingLaws {A : Type 0} (c : Coding A) : Type 0 where
  get-put : (a : A) → c.get (c.put a) ≡ some a
  default_lem : (a : A) → c.is_default a ≡ true → a ≡ c.default

module _ {A : Type 0} (c : Coding A) where
  found : Option A → Stream → Result (A × Stream)
  found none s = err out_of_range
  found (some a) s = ok (a, s)

  write : ℕ → A → Stream → Stream
  write n a s = property n (c.put a) ∷ s

  write_default : ℕ → A → Stream → Stream
  unfolding write
  write_default n a s = if c.is_default a then s else write n a s

  read : ℕ → Stream → Result (A × Stream)
  unfolding found
  read n [] = err out_of_range
  read n (end ∷ s) = err out_of_range
  read n (property k v ∷ s) = if k == n then found (c.get v) s else err out_of_range

  read_default : ℕ → Stream → Result (A × Stream)
  unfolding found
  read_default n [] = err out_of_range
  read_default n (end ∷ s) = ok (c.default, end ∷ s)
  read_default n (property k v ∷ s) =
      if k == n then found (c.get v) s else ok (c.default, property k v ∷ s)

  field : Field Stream A
  unfolding write write_default read read_default
  field = record {
    write = write;
    write_default = write_default;
    read = read;
    read_default = read_default;
  }

  module _ (laws : CodingLaws c) where
    read-write : (n : ℕ) (a : A) (s : Stream) → read n (write n a s) ≡ ok (a, s)
    unfolding read write
    read-write n a s = ground (arith, laws.get-put a)

    skipped :
        (n : ℕ) (a : A) (s : Stream)
        → a ≡ c.default
        → ahead n s ≡ true
        → read_default n s ≡ ok (a, s)
    unfolding ahead read_default
    skipped n a [] e h = cc
    skipped n a (end ∷ s) e h = ground arith
    skipped n a (property k v ∷ s) e h = ground arith

    read_default-write_default :
        (n : ℕ) (a : A) (s : Stream)
        → ahead n s ≡ true
        → read_default n (write_default n a s) ≡ ok (a, s)
    unfolding write_default
    read_default-write_default n a s h = elim (Bool-cases (c.is_default a)) [
      | inl e ↦ rw e (skipped n a s (laws.default_lem a e) h)
      | inr e ↦ rw e (unfold read_default in ground (arith, laws.get-put a))
    ]

    ahead_mono : (m n : ℕ) (s : Stream) → m < n → ahead n s ≡ true → ahead m s ≡ true
    unfolding ahead
    ahead_mono m n [] l h = h
    ahead_mono m n (end ∷ s) l h = h
    ahead_mono m n (property k v ∷ s) l h = ground arith

    ahead-write_default :
        (m n : ℕ) (a : A) (s : Stream)
        → m < n
        → ahead n s ≡ true
        → ahead m (write_default n a s) ≡ true
    unfolding write_default
    ahead-write_default m n a s l h = elim (Bool-cases (c.is_default a)) [
      | inl e ↦ rw e (ahead_mono m n s l h)
      | inr e ↦ rw e (unfold ahead in lt→ltb m n l)
    ]

    field_laws : FieldLaws ahead field
    unfolding field ahead write
    field_laws = record {
      read-write = read-write;
      read_default-write_default = read_default-write_default;
      ahead-write = λ m n a s l. lt→ltb m n l;
      ahead-write_default = ahead-write_default;
    }

is_nil {ℓ} : {A : Type ℓ} → List A → Bool
is_nil [] = true
is_nil (a ∷ s) = false

is_none {ℓ} : {A : Type ℓ} → Option A → Bool
is_none none = true
is_none (some a) = false

get_text : Val → Option Bytes
get_text (text a) = some a
get_text _ = none

get_number : Val → Option ℕ
get_number (number a) = some a
get_number _ = none

get_optional : Val → Option (Option ℕ)
get_optional (optional a) = some a
get_optional _ = none

get_code : Val → Option MessageType
get_code (code a) = some a
get_code _ = none

get_flag : Val → Option Bool
get_flag (flag a) = some a
get_flag _ = none

get_numbers : Val → Option (List ℕ)
get_numbers (numbers a) = some a
get_numbers _ = none

get_texts : Val → Option (List Bytes)
get_texts (texts a) = some a
get_texts _ = none

text_coding : Coding Bytes
unfolding is_nil get_text
text_coding = record { put = text; get = get_text; default = []; is_default = is_nil }

number_coding : Coding ℕ
unfolding get_number
number_coding = record { put = number; get = get_number; default = 0; is_default = λ a. a == 0 }

optional_coding : Coding (Option ℕ)
unfolding is_none get_optional
optional_coding = record {
  put = optional;
  get = get_optional;
  default = none;
  is_default = is_none;
}

code_coding : Coding MessageType
unfolding get_code
code_coding = record { put = code; get = get_code; default = invalid; is_default = λ a. false }

flag_coding : Coding Bool
unfolding get_flag
flag_coding = record { put = flag; get = get_flag; default = false; is_default = not }

numbers_coding : Coding (List ℕ)
unfolding is_nil get_numbers
numbers_coding = record { put = numbers; get = get_numbers; default = []; is_default = is_nil }

texts_coding : Coding (List Bytes)
unfolding is_nil get_texts
texts_coding = record { put = texts; get = get_texts; default = []; is_default = is_nil }

nil_lem {ℓ} : {A : Type ℓ} (a : List A) → is_nil a ≡ true → a ≡ []
unfolding is_nil
nil_lem [] h = refl
nil_lem (c ∷ a) h = cc

none_lem {ℓ} : {A : Type ℓ} (a : Option A) → is_none a ≡ true → a ≡ none
unfolding is_none
none_lem none h = refl
none_lem (some c) h = cc

text_coding_laws : CodingLaws text_coding
unfolding text_coding
text_coding_laws = record { get-put = λ a. refl; default_lem = nil_lem }

number_coding_laws : CodingLaws number_coding
unfolding number_coding
number_coding_laws = record { get-put = λ a. refl; default_lem = λ a h. (==_iff a 0).0 h }

optional_coding_laws : CodingLaws optional_coding
unfolding optional_coding
optional_coding_laws = record { get-put = λ a. refl; default_lem = none_lem }

code_coding_laws : CodingLaws code_coding
unfolding code_coding
code_coding_laws = record { get-put = λ a. refl; default_lem = λ a h. cc }

flag_coding_laws : CodingLaws flag_coding
unfolding flag_coding
flag_coding_laws = record { get-put = λ a. refl; default_lem = λ a h. ground arith }

numbers_coding_laws : CodingLaws numbers_coding
unfolding numbers_coding
numbers_coding_laws = record { get-put = λ a. refl; default_lem = nil_lem }

texts_coding_laws : CodingLaws texts_coding
unfolding texts_coding
texts_coding_laws = record { get-put = λ a. refl; default_lem = nil_lem }

unfoldable pub tokens : Serializer Stream ℕ ℕ
unfolding read_end field text_coding number_coding optional_coding code_coding flag_coding
    numbers_coding texts_coding
tokens = record {
  write_begin = λ s. s;
  write_end = ◌∷◌ end;
  read_begin = ok;
  read_end = read_end;
  text = field text_coding;
  index = field number_coding;
  huge = field number_coding;
  opt_index = field optional_coding;
  type_code = field code_coding;
  flag = field flag_coding;
  chunks = field numbers_coding;
  chunk = field optional_coding;
  types = field numbers_coding;
  names = field texts_coding;
}

pub tokens_laws : SerializerLaws tokens
unfolding tokens ahead read_end
tokens_laws = record {
  ahead = ahead;
  ahead-write_end = λ n s. refl;
  read_begin-write_begin = λ s. refl;
  read_end-write_end = λ s. refl;
  text_laws = field_laws text_coding text_coding_laws;
  index_laws = field_laws number_coding number_coding_laws;
  huge_laws = field_laws number_coding number_coding_laws;
  opt_index_laws = field_laws optional_coding optional_coding_laws;
  type_code_laws = field_laws code_coding code_coding_laws;
  flag_laws = field_laws flag_coding flag_coding_laws;
  chunks_laws = field_laws numbers_coding numbers_coding_laws;
  chunk_laws = field_laws optional_coding optional_coding_laws;
  types_laws = field_laws numbers_coding numbers_coding_laws;
  names_laws = field_laws texts_coding texts_coding_laws;
}
