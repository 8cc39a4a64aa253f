-- ===== src/Storage/Insert/Laws.antt =====
-- An INSERT on a server's session appends its chunks there in their order, up to a failure.
use duckdb_quack.Prelude.{
  ℕ, ◌+◌, ◌%◌, ◌^◌, ◌<◌, List, [], ◌∷◌, Bytes, Option, none, some, ok, err, foreign, ◌≡◌, refl, sym,
  ap, ◌∙◌, arith, ◌⊎◌, inl, inr, Option-cases,
}
use duckdb_quack.Text.StringUtil.{StringUtil}
use duckdb_quack.Uri.Parse.{QuackUri}
use duckdb_quack.Message.Types.{
  ErrorData, message, append_request_body, success_body, error_body, success_response, type_value,
}
use duckdb_quack.Client.Request.{expect}
use duckdb_quack.Server.Engine.{Engine}
use duckdb_quack.Server.Requests.{Message, append, error_response_of, error_text}
use duckdb_quack.Scan.Remote.{Remote, ask}
use duckdb_quack.Scan.Session.{Session, session_remote, session_request}
use duckdb_quack.Storage.Insert.{
  TableEntry, QuackInsertGlobalState, Sunk, sunk_after, sink, sink_next, sink_all,
}

module _ (e : Engine) (u : StringUtil) (table : TableEntry) where
  abbrev appended : e.Chunk → Session e u → Message e u × Session e u
  appended chunk (db, c) =
      let h = append e u db c table.schema_name table.name (some chunk) in
      (h.response, (h.db, h.connection))

  -- The text of a response that is no success.
  abbrev pub failure_text : Message e u → Option Bytes
  failure_text m = elim m.body [
    | success_body ↦ none
    | error_body error ↦ some error.raw_message
    | _ ↦ some []
  ]

  -- What appending the chunks one after the other does on the server: the session that is left,
  -- the rows of the chunks that were appended, and the text of the failure that ended it.
  abbrev pub AppendedAll : Type 0
  AppendedAll = Session e u × ℕ × Option Bytes

  abbrev count_on : ℕ → AppendedAll → AppendedAll
  count_on n (s, rows, failure) = (s, n + rows, failure)

  abbrev append_next : ℕ → Session e u → AppendedAll → Option Bytes → AppendedAll
  append_next rows s rest (some text) = (s, 0, some text)
  append_next rows s rest none = count_on rows rest

  unfoldable pub append_each : List e.Chunk → Session e u → AppendedAll
  unfolding append
  append_each [] s = (s, 0, none)
  append_each (chunk ∷ chunks) s =
      let (response, s1) = appended chunk s in
      append_next (e.chunk_size chunk) s1 (append_each chunks s1) (failure_text response)

  -- The response to an APPEND is a success or an error.
  append_answers :
      (chunk : e.Chunk) (s : Session e u)
      → ((appended chunk s).0 ≡ message [] success_body)
        ⊎ ((error : ErrorData) × ((appended chunk s).0 ≡ message [] (error_body error)))
  unfolding append error_text error_response_of
  append_answers chunk (db, c) =
      let info = e.table_info db c.duckdb_connection table.schema_name table.name in
      elim (Option-cases info.2) [
        | inl missing ↦ inr (rw (missing, append) (_, refl))
        | inr (found, there) ↦ elim (Option-cases (e.append info.0 info.1 found (some chunk)).2) [
          | inl fine ↦ inl (rw (there, append, fine) refl)
          | inr (error, failed) ↦ inr (error, rw (there, append, failed) refl)
        ]
      ]

  module _ (uri : QuackUri) (id : Bytes) where
    abbrev r : Remote e.Chunk e.Logical
    r = session_remote e u uri id

    abbrev counting : ℕ → QuackInsertGlobalState
    counting count = record { table = table; insert_count = count }

    -- The outcome of the sink for what was appended.
    abbrev pub sunk_as : ℕ → AppendedAll → Sunk r e.chunk_size
    sunk_as count (s, rows, failure) = (
      elim failure [ none ↦ ok tt | some text ↦ err (foreign text) ],
      counting ((count + rows) % 2 ^ 64),
      tt,
      s,
    )

    asked :
        (chunk : e.Chunk) (s : Session e u)
        → ask r success_response
            (append_request_body table.schema_name table.name (some chunk))
            tt
            s
          ≡ (expect success_response (appended chunk s).0, tt, (appended chunk s).1)
    unfolding ask session_request message
    asked chunk s = refl

    sink_success :
        (chunk : e.Chunk) (count : ℕ) (s : Session e u)
        → (appended chunk s).0 ≡ message [] success_body
        → sink r e.chunk_size chunk (counting count) tt s
          ≡ (ok tt, counting ((count + e.chunk_size chunk) % 2 ^ 64), tt, (appended chunk s).1)
    unfolding sink expect message type_value
    sink_success chunk count s answer =
        ap (sunk_after r e.chunk_size chunk (counting count)) (asked chunk s)
        ∙ ap
            (λ m.
              sunk_after r e.chunk_size chunk (counting count)
                ((expect success_response m, tt, (appended chunk s).1)))
            answer

    sink_failure :
        (chunk : e.Chunk) (count : ℕ) (s : Session e u) (error : ErrorData)
        → (appended chunk s).0 ≡ message [] (error_body error)
        → sink r e.chunk_size chunk (counting count) tt s
          ≡ (err (foreign error.raw_message), counting count, tt, (appended chunk s).1)
    unfolding sink expect message type_value
    sink_failure chunk count s error answer =
        ap (sunk_after r e.chunk_size chunk (counting count)) (asked chunk s)
        ∙ ap
            (λ m.
              sunk_after r e.chunk_size chunk (counting count)
                ((expect success_response m, tt, (appended chunk s).1)))
            answer

    regrouped : (a b c : ℕ) → ((a + b) % 2 ^ 64 + c) % 2 ^ 64 ≡ (a + (b + c)) % 2 ^ 64
    regrouped a b c = omega arith

    no_rows : (count : ℕ) → count < 2 ^ 64 → count ≡ (count + 0) % 2 ^ 64
    no_rows count small = omega arith

    regroup :
        (count size : ℕ) (a : AppendedAll)
        → sunk_as ((count + size) % 2 ^ 64) a ≡ sunk_as count (count_on size a)
    regroup count size (s, rows, failure) =
        ap
          (λ n. (elim failure [ none ↦ ok tt | some text ↦ err (foreign text) ], counting n, tt, s))
          (regrouped count size rows)

    -- The sink of an INSERT on an authorized session of the server, with a count below 2^64, has
    -- the outcome and the effect on the server of the APPENDs of its chunks in their order up to
    -- the first failure, and counts the rows of the appended chunks modulo 2^64.
    pub sink_all_appends :
        (chunks : List e.Chunk) (count : ℕ) (s : Session e u)
        → count < 2 ^ 64
        → sink_all r e.chunk_size chunks (counting count) tt s
          ≡ sunk_as count (append_each chunks s)
    unfolding sink_all append_each message
    sink_all_appends [] count s small = ap (λ n. (ok tt, counting n, tt, s)) (no_rows count small)
    sink_all_appends (chunk ∷ chunks) count s small =
        let s1 = (appended chunk s).1 in
        let size = e.chunk_size chunk in
        let rest = append_each chunks s1 in
        elim (append_answers chunk s) [
          | inl answer ↦
              ap (sink_next r e.chunk_size (sink_all r e.chunk_size chunks))
                (sink_success chunk count s answer)
              ∙ (sink_all_appends chunks ((count + size) % 2 ^ 64) s1 (omega arith)
                  ∙ (regroup count size rest
                      ∙ ap (λ m. sunk_as count (append_next size s1 rest (failure_text m)))
                          (sym answer)))
          | inr (error, answer) ↦
              ap (sink_next r e.chunk_size (sink_all r e.chunk_size chunks))
                (sink_failure chunk count s error answer)
              ∙ (ap (λ n. (err (foreign error.raw_message), counting n, tt, s1))
                    (no_rows count small)
                  ∙ ap (λ m. sunk_as count (append_next size s1 rest (failure_text m)))
                      (sym answer))
        ]
