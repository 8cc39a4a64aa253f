-- ===== src/Listen/Checks.antt =====
-- What quack_serve checks before it listens.
use duckdb_quack.Prelude.{
  ◌≤◌, Bool, true, false, not, ◌&&◌, Result, ok, ◌≡◌, ◌⊎◌, inl, inr, refl, subst, arith, Bool-cases,
  ltb, length, >>=-eq-ok,
}
use duckdb_quack.Text.StringUtil.{StringUtil}
use duckdb_quack.Uri.Parse.{QuackUri, quack_uri, is_local}
use duckdb_quack.Server.Engine.{Engine}
use duckdb_quack.Server.Sessions.{validate_token}
use duckdb_quack.Listen.Functions.{
  QuackStartStopFunctionData, ServeInput, is_set, listen_string, is_refused_host, serve_token,
  serve_bind_uri, serve_bind,
}

module _ (e : Engine) (u : StringUtil) where
  abbrev IsChecked : ServeInput → QuackStartStopFunctionData → Type 0
  IsChecked input bind_data =
      (bind_data.finished ≡ false)
      × (4 ≤ length bind_data.token)
      × ((is_set input.allow_other_hostname ≡ true) ⊎ (is_local u bind_data.listen_uri ≡ true))

  not_refused : (a b : Bool) → (not a && not b) ≡ false → (a ≡ true) ⊎ (b ≡ true)
  not_refused true b h = inl refl
  not_refused false true h = inr refl
  not_refused false false h = cc

  ok-injective :
      {a b : QuackStartStopFunctionData}
      → ◌≡◌ {A = Result QuackStartStopFunctionData} (ok a) (ok b)
      → a ≡ b
  ok-injective h = cc

  serve_bind_uri_lem :
      (input : ServeInput) (db : e.Db) (listen_uri : QuackUri)
      (bind_data : QuackStartStopFunctionData)
      → serve_bind_uri e u input db listen_uri ≡ ok bind_data
      → IsChecked input bind_data
  unfolding serve_bind_uri validate_token
  serve_bind_uri_lem input db listen_uri bind_data =
      elim (Bool-cases (is_refused_host e u input listen_uri)) [
        | inl refused ↦ rw (refused, serve_bind_uri) λ bound. cc
        | inr allowed ↦ elim (Bool-cases (ltb (length (serve_token e u input db)) 4)) [
          | inl short ↦ rw (allowed, short, serve_bind_uri) λ bound. cc
          | inr long ↦
              rw (allowed, long, serve_bind_uri)
                λ bound. subst (IsChecked input) (ok-injective bound) (
                  refl,
                  ground arith,
                  not_refused (is_set input.allow_other_hostname) (is_local u listen_uri) allowed,
                )
        ]
      ]

  -- If QuackServeBind returns, the token has at least four bytes, and the host is local or
  -- allow_other_hostname is set.
  pub serve_bind_lem :
      (input : ServeInput) (db : e.Db) (bind_data : QuackStartStopFunctionData)
      → serve_bind e u input db ≡ ok bind_data
      → IsChecked input bind_data
  unfolding serve_bind
  serve_bind_lem input db bind_data bound =
      let (uri, _, h1) = >>=-eq-ok (listen_string input.uri) _ bound in
      let (listen_uri, _, h2) =
        >>=-eq-ok (quack_uri u uri false) (serve_bind_uri e u input db) h1 in
      serve_bind_uri_lem input db listen_uri bind_data h2
