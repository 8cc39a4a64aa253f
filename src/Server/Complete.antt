-- ===== src/Server/Complete.antt =====
-- A whole result, read by a client that sends PREPARE and then FETCHes until a response is empty.
use duckdb_quack.Prelude.{
  ℕ, zero, suc, ◌<◌, ◌≤◌, Bool, true, false, List, [], ◌∷◌, ◌++◌, Bytes, Option, none, some, ◌≡◌,
  ◌≢◌, refl, sym, ap, ◌∙◌, inl, inr, Bool-cases, arith, subst, length, take, drop, ◌==◌, ==_refl,
  if◌then◌else◌, take-append-drop, length-take, length-drop,
}
use duckdb_quack.Text.StringUtil.{StringUtil}
use duckdb_quack.Message.Types.{message, fetch_response_body, prepare_response_body}
use duckdb_quack.Server.Engine.{Engine}
use duckdb_quack.Server.State.{QuackConnection}
use duckdb_quack.Server.Batch.Laws.{Yields, Left}
use duckdb_quack.Server.Requests.{Message, Handled, prepare, fetch, max_chunks_per_batch}
use duckdb_quack.Server.Streaming.{fetch_counts, prepare_streams}

module _ (e : Engine) (u : StringUtil) where
  abbrev fetched : Message e u → List e.Chunk
  fetched m = elim m.body [ fetch_response_body results index ↦ results | _ ↦ [] ]

  abbrev is_nil : List e.Chunk → Bool
  is_nil [] = true
  is_nil (c ∷ cs) = false

  -- The chunks of the responses to at most `fuel` FETCHes, up to the first empty response.
  unfoldable pub fetch_all : ℕ → e.Db → QuackConnection e → ℕ → List e.Chunk
  fetch_all zero db c uuid = []
  fetch_all (suc fuel) db c uuid =
      let h = fetch e u db c uuid in
      let rest = fetch_all fuel h.db h.connection uuid in
      if is_nil (fetched h.response) then [] else fetched h.response ++ rest

  -- The chunks that a client has in the end, if it fetches where the response to PREPARE says so.
  unfoldable pub read_all : ℕ → Handled e u → List e.Chunk
  unfolding fetch_all
  read_all fuel h = elim h.response.body [
    | prepare_response_body types names results more uuid ↦
        if more then results ++ fetch_all fuel h.db h.connection uuid else results
    | _ ↦ []
  ]

  glue :
      (n : ℕ) (cs rest : List e.Chunk)
      → (cs ≢ [] → rest ≡ drop (suc n) cs)
      → (if is_nil (take (suc n) cs) then [] else take (suc n) cs ++ rest) ≡ cs
  glue n [] rest h = refl
  glue n (c ∷ cs) rest h = rw (h (λ e1. cc)) (take-append-drop (suc n) (c ∷ cs))

  shorter :
      (n : ℕ) (cs : List e.Chunk) (fuel : ℕ)
      → cs ≢ []
      → length cs < suc fuel
      → length (drop (suc n) cs) < fuel
  shorter n [] fuel ne h = absurd (ne refl)
  shorter n (c ∷ cs) fuel ne h = omega (arith, length-drop n cs)

  take_all : (k : ℕ) (cs : List e.Chunk) → length cs ≤ k → take k cs ≡ cs
  take_all zero [] h = refl
  take_all zero (c ∷ cs) h = absurd (omega arith)
  take_all (suc k) [] h = refl
  take_all (suc k) (c ∷ cs) h = rw (take_all k cs (omega arith))

  -- A batch that is not full is the last one.
  join :
      (k : ℕ) (cs rest : List e.Chunk)
      → rest ≡ drop k cs
      → (if length (take k cs) == k then take k cs ++ rest else take k cs) ≡ cs
  join k cs rest h = elim (Bool-cases (length (take k cs) == k)) [
    | inl full ↦ rw (full, h) (take-append-drop k cs)
    | inr part ↦ rw part (take_all k cs (ground (arith, length-take k cs)))
  ]

  pub fetch_closed :
      (db : e.Db) (c : QuackConnection e)
      → c.duckdb_query_result ≡ none
      → (fetch e u db c c.result_uuid).response ≡ message [] (fetch_response_body [] none)
  unfolding fetch
  fetch_closed db c h = simp (h, ==_refl c.result_uuid, fetch) refl

  module _ (n : ℕ) (setting : (db : e.Db) → max_chunks_per_batch e u db ≡ suc n) where
    fetch_all_lem :
        (fuel : ℕ) (db : e.Db) (c : QuackConnection e) (cs : List e.Chunk)
        → Left e db c.duckdb_query_result cs
        → length cs < fuel
        → fetch_all fuel db c c.result_uuid ≡ cs
    unfolding fetch_all message
    fetch_all_lem zero db c cs left h = absurd (omega arith)
    fetch_all_lem (suc fuel) db c cs left h = split c.duckdb_query_result refl (fetch_all_lem fuel)
      where
        split :
            (q : Option e.Rows)
            → c.duckdb_query_result ≡ q
            → ((db' : e.Db) (c' : QuackConnection e) (cs' : List e.Chunk)
                → Left e db' c'.duckdb_query_result cs'
                → length cs' < fuel
                → fetch_all fuel db' c' c'.result_uuid ≡ cs')
            → fetch_all (suc fuel) db c c.result_uuid ≡ cs
        split none e1 again =
            let empty : cs ≡ [] = subst (λ q. Left e db q cs) e1 left in
            rw (fetch_closed db c e1) (sym empty)
        split (some rows) e1 again =
            let y = subst (λ q. Left e db q cs) e1 left in
            let (answer, left', index, kept) = fetch_counts e u db c rows cs e1 y in
            let h1 = fetch e u db c c.result_uuid in
            let got : fetched h1.response ≡ take (suc n) cs =
              ap fetched answer ∙ ap (λ k. take k cs) (setting db) in
            rw got (
              glue n cs (fetch_all fuel h1.db h1.connection c.result_uuid) λ ne.
                subst (λ v. fetch_all fuel h1.db h1.connection v ≡ drop (suc n) cs) kept
                  (again h1.db h1.connection (drop (suc n) cs)
                    (subst (λ k. Left e h1.db h1.connection.duckdb_query_result (drop k cs))
                      (setting db) left')
                    (shorter n cs fuel ne h)))

    -- With a positive batch size in every state of the database, a client that sends PREPARE for
    -- a query that is sent without error, has columns and whose result yields the chunks cs, and
    -- then sends FETCH as long as the responses tell it to, at most fuel times with fuel above
    -- the length of cs, receives exactly cs in its order.
    pub read_all-prepare :
        (fuel : ℕ) (db db1 : e.Db) (c : QuackConnection e) (query name : Bytes) (names : List Bytes)
        (conn : e.Conn) (rows : e.Rows) (cs : List e.Chunk)
        → e.send_query db c.duckdb_connection query ≡ (db1, conn, rows)
        → e.names rows ≡ name ∷ names
        → Yields e (e.random_uuid db1).0 rows cs
        → length cs < fuel
        → read_all fuel (prepare e u db c query) ≡ cs
    unfolding read_all message
    read_all-prepare fuel db db1 c query name names conn rows cs sent columns y enough =
        let (answer, left, index, kept) =
          prepare_streams e u db db1 c query name names conn rows cs sent columns y in
        let h = prepare e u db c query in
        let k = max_chunks_per_batch e u (e.random_uuid db1).0 in
        let body = ap (λ (m : Message e u). m.body) answer in
        rw body (
          join k cs (fetch_all fuel h.db h.connection (e.random_uuid db1).1) (
            subst (λ v. fetch_all fuel h.db h.connection v ≡ drop k cs) kept
              (fetch_all_lem fuel h.db h.connection (drop k cs) left
                (omega (arith, length-drop k cs)))))
