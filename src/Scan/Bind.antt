-- ===== src/Scan/Bind.antt =====
-- `QuackScanBind` and `QuackScanBindCatalogName`: PREPARE of the query when the call is bound.
use duckdb_quack.Prelude.{
  ℕ, Bool, true, not, List, [], ◌∷◌, Bytes, codes, Option, none, some, Result, ok, err, binder,
  internal, same, if◌then◌else◌,
}
use duckdb_quack.Text.StringUtil.{StringUtil}
use duckdb_quack.Uri.Parse.{quack_uri, is_local}
use duckdb_quack.Message.Types.{
  prepare_request_body, prepare_response_body, prepare_response, QuackMessage,
}
use duckdb_quack.Scan.Remote.{Remote, ask}
use duckdb_quack.Scan.Types.{QuackScanBindData, bind_data_on}

-- `TableFunctionBindInput`: the inputs, where `none` is NULL, and the named parameters.
pub record BindInput : Type 0 where
  pub inputs : List (Option Bytes)
  pub disable_ssl : Option Bool
  pub token : Option Bytes

abbrev pub named_or : {A : Type 0} → A → Option A → A
named_or default none = default
named_or default (some a) = a

-- The access `inputs[1]`, which throws if it is not there.
abbrev second : List (Option Bytes) → Result (Option Bytes)
second [] = err (internal "Attempted to access index %ld within vector of size %ld" [])
second (b ∷ _) = ok b

-- A bound scan with its columns, what it did to the world before it threw included.
pub record Bound (A T : Type 0) : Type 0 where
  pub return_types : List T
  pub names : List Bytes
  pub bind_data : A

module _ {C T : Type 0} (r : Remote C T) where
  abbrev pub Bind : Type 0
  Bind = Result (Bound (QuackScanBindData r) T) × r.World

  -- The part that both functions share behind their PREPARE, but for the UUID.
  abbrev bound_of :
      QuackScanBindData r → (ℕ → ℕ) → QuackMessage C T → Result (Bound (QuackScanBindData r) T)
  bound_of bind_data uuid_of m = elim m.body [
    | prepare_response_body types names results more uuid ↦ ok (record {
      return_types = types;
      names = names;
      bind_data = record bind_data {
        results = results;
        needs_more_fetch = more;
        result_uuid = uuid_of uuid;
      };
    })
    | _ ↦ err (internal "Failed to cast message to type - message type mismatch" [])
  ]

  -- The part behind the response.
  abbrev pub bind_answered : ℕ → (ℕ → ℕ) → Result (QuackMessage C T) × r.Connection × r.World → Bind
  unfolding bind_data_on
  bind_answered unset uuid_of (err x, connection, w) = (err x, w)
  bind_answered unset uuid_of (ok m, connection, w) =
      (bound_of (bind_data_on r unset connection) uuid_of m, w)

  -- The part behind the connection.
  unfoldable pub bind_on : ℕ → (ℕ → ℕ) → Bytes → r.Connection → r.World → Bind
  unfolding ask bind_data_on
  bind_on unset uuid_of query connection w =
      bind_answered unset uuid_of (ask r prepare_response (prepare_request_body query) connection w)

  -- The part behind the test of the inputs.
  unfoldable pub scan_bind_uri :
      StringUtil → ℕ → Bytes → Bytes → Option Bool → Option Bytes → r.World → Bind
  unfolding bind_on
  scan_bind_uri u unset uri query disable_ssl token w = elim (quack_uri u uri true) [
    | err x ↦ (err x, w)
    | ok initial_uri ↦
        let enable_ssl : Bool = elim disable_ssl [
          | none ↦ not (is_local u initial_uri)
          | some disabled ↦ not disabled
        ] in
        elim (quack_uri u initial_uri.uri enable_ssl) [
          | err x ↦ (err x, w)
          | ok server_uri ↦
              let (connected, w1) = r.connect server_uri (named_or [] token) w in
              elim connected [
                | err x ↦ (err x, w1)
                | ok connection ↦ bind_on unset (λ uuid. uuid) query connection w1
              ]
        ]
  ]

  unfoldable pub scan_bind : StringUtil → ℕ → BindInput → r.World → Bind
  unfolding scan_bind_uri
  scan_bind u unset input w = elim input.inputs [
    | [] ↦ (err (internal "No input to quack scan?" []), w)
    | none ∷ _ ↦ (err (binder "quack_query URI and query parameters cannot be NULL" []), w)
    | some uri ∷ rest ↦ elim (second rest) [
      | err x ↦ (err x, w)
      | ok none ↦ (err (binder "quack_query URI and query parameters cannot be NULL" []), w)
      | ok (some query) ↦ scan_bind_uri u unset uri query input.disable_ssl input.token w
    ]
  ]

  -- The attached databases: the type of the catalog of each, and its connection if it is a quack
  -- catalog.
  pub record Attached : Type 0 where
    pub catalog_type : Bytes
    pub client_connection : r.Connection

  -- `GetQuackCatalog`, given the database that the manager finds under the name.
  unfoldable pub get_quack_catalog : (Bytes → Option Attached) → Option Bytes → Result Attached
  get_quack_catalog databases none = err (binder "Catalog cannot be NULL" [])
  get_quack_catalog databases (some db_name) = elim (databases db_name) [
    | none ↦ err (binder "Failed to find attached database \"%s\"" (db_name ∷ []))
    | some db ↦
        if not (same db.catalog_type (codes "quack"))
        then err (binder "Attached database \"%s\" does not refer to a RPC database" (db_name ∷ []))
        else ok db
  ]

  unfoldable pub scan_bind_catalog_name :
      ℕ → (Bytes → Option Attached) → Option Bytes → Option Bytes → r.World → Bind
  unfolding get_quack_catalog bind_on
  scan_bind_catalog_name unset databases catalog_name query w = elim catalog_name [
    | none ↦ (err (binder "catalog_name and query parameters cannot be NULL" []), w)
    | some name ↦ elim query [
      | none ↦ (err (binder "catalog_name and query parameters cannot be NULL" []), w)
      | some sql ↦ elim (get_quack_catalog databases (some name)) [
        | err x ↦ (err x, w)
        | ok catalog ↦ bind_on unset (λ uuid. unset) sql catalog.client_connection w
      ]
    ]
  ]
