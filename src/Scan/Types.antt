-- ===== src/Scan/Types.antt =====
-- The bind data of a scan, its chunks, and what it uses of DuckDB's vectors.
use duckdb_quack.Prelude.{
  length, ◌≤◌, ◌<◌, ◌≡◌, Exception, ℕ, Bool, true, List, [], Bytes, Option, Result, ok, err,
  internal,
}
use duckdb_quack.Message.Types.{QuackMessage, fetch_response_body}
use duckdb_quack.Scan.Remote.{Remote}

-- `Vector` is a column of a `DataChunk` with its rows; `column` is the access `data[i]`, which
-- throws out of range, and `null_vector i n` is `Value(output.data[i].GetType())` for n rows.
pub record Chunks (C : Type 0) : Type 1 where
  pub Vector : Type 0
  pub chunk_size : C → ℕ
  pub vectors : C → List Vector
  pub column : C → ℕ → Result Vector
  -- `DataChunk::Reference` of a chunk into an output of so many columns
  pub reference : ℕ → C → Result (List Vector)
  pub null_vector : ℕ → ℕ → Vector
  pub column_identifier_empty : ℕ
  pub column_identifier_row_id : ℕ
  pub sql_identifier : Bytes → Bytes
  -- `GlobalTableFunctionState::MAX_THREADS`
  pub max_threads : ℕ

-- An output references every column of a chunk that is not wider, and a wider one throws.
pub record ChunksLaws {C : Type 0} (k : Chunks C) : Type 0 where
  pub reference_fits :
      (width : ℕ) (chunk : C)
      → length (k.vectors chunk) ≤ width
      → k.reference width chunk ≡ ok (k.vectors chunk)
  pub reference_wider :
      (width : ℕ) (chunk : C)
      → width < length (k.vectors chunk)
      → (x : Exception) × (k.reference width chunk ≡ err x)

-- `ColumnIndex`: its primary index, and whether it is a virtual column.
pub data ColumnIndex : Type 0 where
  stored_column virtual_column : (primary_index : ℕ) → ColumnIndex

pub data ChunkResultPushdownType : Type 0 where
  requires_pushdown pushdown_already_applied : ChunkResultPushdownType

pub record ChunkResult (C : Type 0) : Type 0 where
  pub chunk : C
  pub pushdown_type : ChunkResultPushdownType

-- The response to a FETCH, which `Request` has cast.
abbrev pub as_fetch_response : {C T : Type 0} → QuackMessage C T → Result (List C × Option ℕ)
as_fetch_response m = elim m.body [
  | fetch_response_body results batch_index ↦ ok (results, batch_index)
  | _ ↦ err (internal "Failed to cast message to type - message type mismatch" [])
]

module _ {C T : Type 0} (r : Remote C T) where
  pub record QuackScanBindData : Type 0 where
    pub table_name : Bytes
    pub column_names : List Bytes
    pub column_types : List T
    pub results : List C
    pub client_connection : r.Connection
    pub needs_more_fetch : Bool
    pub result_uuid : ℕ

  -- `make_uniq<QuackScanBindData>()` on a connection; `unset` is what `result_uuid` holds then.
  unfoldable pub bind_data_on : ℕ → r.Connection → QuackScanBindData
  bind_data_on unset connection = record {
    table_name = [];
    column_names = [];
    column_types = [];
    results = [];
    client_connection = connection;
    needs_more_fetch = true;
    result_uuid = unset;
  }

  unfoldable pub copy : ℕ → QuackScanBindData → QuackScanBindData
  unfolding bind_data_on
  copy unset bind_data = record (bind_data_on unset bind_data.client_connection) {
    table_name = bind_data.table_name;
    column_names = bind_data.column_names;
    column_types = bind_data.column_types;
  }
