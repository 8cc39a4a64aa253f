-- ===== src/Storage/Insert.antt =====
-- src/storage/quack_insert.cpp: the sink of INSERT, which sends one APPEND for each chunk.
pub mod Laws
use duckdb_quack.Prelude.{
  ℕ, ◌+◌, ◌%◌, ◌^◌, List, [], ◌∷◌, Bytes, some, Result, ok, err, internal, ltb, if◌then◌else◌,
}
use duckdb_quack.Message.Types.{QuackMessage, append_request_body, success_response}
use duckdb_quack.Scan.Remote.{Remote, ask}

-- The names that are read of the table's entry and of its schema.
pub record TableEntry : Type 0 where
  pub schema_name : Bytes
  pub name : Bytes

pub record QuackInsertGlobalState : Type 0 where
  pub table : TableEntry
  pub insert_count : ℕ

-- `GetGlobalSinkState` of an INSERT INTO.
unfoldable pub global_sink_state : TableEntry → QuackInsertGlobalState
global_sink_state table = record { table = table; insert_count = 0 }

module _ {C T : Type 0} (r : Remote C T) (chunk_size : C → ℕ) where
  abbrev pub Sunk : Type 0
  Sunk = Result (Unit {0}) × QuackInsertGlobalState × r.Connection × r.World

  -- The part of `Sink` behind the response.
  abbrev pub sunk_after :
      C → QuackInsertGlobalState → Result (QuackMessage C T) × r.Connection × r.World → Sunk
  sunk_after chunk state (err x, connection, w) = (err x, state, connection, w)
  sunk_after chunk state (ok response, connection, w) = (
    ok tt,
    record state { insert_count = (state.insert_count + chunk_size chunk) % 2 ^ 64 },
    connection,
    w,
  )

  -- `Sink`, whose result is always `NEED_MORE_INPUT`.
  unfoldable pub sink : C → QuackInsertGlobalState → r.Connection → r.World → Sunk
  unfolding ask
  sink chunk state connection w = sunk_after chunk state (
      ask r success_response
        (append_request_body state.table.schema_name state.table.name (some chunk)) connection w)

  abbrev pub sink_next : (QuackInsertGlobalState → r.Connection → r.World → Sunk) → Sunk → Sunk
  sink_next later (err x, state, connection, w) = (err x, state, connection, w)
  sink_next later (ok _, state, connection, w) = later state connection w

  -- The chunks one after the other, as the operator is not parallel.
  unfoldable pub sink_all : List C → QuackInsertGlobalState → r.Connection → r.World → Sunk
  unfolding sink
  sink_all [] state connection w = (ok tt, state, connection, w)
  sink_all (chunk ∷ chunks) state connection w =
      sink_next (sink_all chunks) (sink chunk state connection w)

-- `GetDataInternal`: the count as a BIGINT; `NumericCast` throws what does not fit.
unfoldable pub get_data : QuackInsertGlobalState → Result ℕ
get_data state =
    if ltb state.insert_count (2 ^ 63)
    then ok state.insert_count
    else err (internal "Information loss on integer cast: value outside of target range" [])
