-- ===== src/Storage/CatalogSet.antt =====
-- src/storage/quack_catalog_set.cpp: entries by name, without regard to case.
use duckdb_quack.Prelude.{
  Bool, true, false, List, map, Bytes, Option, none, some, ◌≡◌, refl, [], ◌∷◌, same, lookup, insert,
  remove, lookup-insert, same_iff, if◌then◌else◌, inl, inr, Bool-cases, arith,
}
use duckdb_quack.Text.StringUtil.{StringUtil}

pub data OnCreateConflict : Type 0 where
  error_on_conflict ignore_on_conflict replace_on_conflict alter_on_conflict : OnCreateConflict

-- A `case_insensitive_map_t` compares its keys in lower case, so they stand here in lower case.
abbrev pub QuackCatalogSet : Type 0 → Type 0
QuackCatalogSet E = List (Bytes × E)

module _ (u : StringUtil) {E : Type 0} (name_of : E → Bytes) where
  unfoldable pub get_entry : Bytes → QuackCatalogSet E → Option E
  unfolding lookup
  get_entry name entries = lookup (u.lower name) entries

  unfoldable pub drop_entry : Bytes → QuackCatalogSet E → QuackCatalogSet E
  unfolding remove
  drop_entry name entries = remove (u.lower name) entries

  unfoldable pub get_all_catalog_entries : QuackCatalogSet E → List E
  get_all_catalog_entries entries = map (λ entry. entry.1) entries

  abbrev is_replace : OnCreateConflict → Bool
  is_replace replace_on_conflict = true
  is_replace _ = false

  -- The map's `insert`, which keeps an entry that is there.
  unfoldable pub insert_new : Bytes → E → QuackCatalogSet E → E × QuackCatalogSet E
  unfolding lookup insert
  insert_new key entry entries = elim (lookup key entries) [
    | some old ↦ (old, entries)
    | none ↦ (entry, insert key entry entries)
  ]

  -- The entry that is then in the set, and the set.
  unfoldable pub create_entry : E → OnCreateConflict → QuackCatalogSet E → E × QuackCatalogSet E
  unfolding insert insert_new
  create_entry entry on_conflict entries =
      let key = u.lower (name_of entry) in
      if is_replace on_conflict
      then (entry, insert key entry entries)
      else insert_new key entry entries

  lookup-insert_new :
      (key name : Bytes) (entry : E) (entries : QuackCatalogSet E)
      → lookup name (insert_new key entry entries).1
        ≡ (if same key name then some (insert_new key entry entries).0 else lookup name entries)
  unfolding insert_new
  lookup-insert_new key name entry entries =
      grind (arith, lookup-insert key name entry entries, same_iff key name)

  -- The entry that `CreateEntry` returns is found under its name, and no other name is affected.
  pub get_entry-create_entry :
      (entry : E) (on_conflict : OnCreateConflict) (entries : QuackCatalogSet E) (name : Bytes)
      → get_entry name (create_entry entry on_conflict entries).1 ≡ (
          if same (u.lower (name_of entry)) (u.lower name)
          then some (create_entry entry on_conflict entries).0
          else get_entry name entries)
  unfolding get_entry create_entry
  get_entry-create_entry entry on_conflict entries name =
      let key = u.lower (name_of entry) in
      let inserted = lookup-insert key (u.lower name) entry entries in
      elim (Bool-cases (is_replace on_conflict)) [
        | inl e ↦ rw e inserted
        | inr e ↦ rw e (lookup-insert_new key (u.lower name) entry entries)
      ]

  -- The last entry of a list that has this name.
  unfoldable pub last_named : Bytes → List E → Option E
  last_named name [] = none
  last_named name (e ∷ es) = elim (last_named name es) [
    | some found ↦ some found
    | none ↦ if same (u.lower (name_of e)) (u.lower name) then some e else none
  ]

  abbrev pub or_else : Option E → Option E → Option E
  or_else (some e) other = some e
  or_else none other = other

  -- The entries created one after the other, each in the place of one of its name.
  unfoldable pub create_all : List E → QuackCatalogSet E → QuackCatalogSet E
  unfolding create_entry
  create_all [] entries = entries
  create_all (e ∷ es) entries = create_all es (create_entry e replace_on_conflict entries).1

  pub get_entry-replace :
      (e : E) (entries : QuackCatalogSet E) (name : Bytes)
      → get_entry name (create_entry e replace_on_conflict entries).1
        ≡ (if same (u.lower (name_of e)) (u.lower name) then some e else get_entry name entries)
  unfolding create_entry get_entry
  get_entry-replace e entries name = lookup-insert (u.lower (name_of e)) (u.lower name) e entries

  pub get_entry-create_all :
      (es : List E) (entries : QuackCatalogSet E) (name : Bytes)
      → get_entry name (create_all es entries)
        ≡ or_else (last_named name es) (get_entry name entries)
  unfolding create_all last_named
  get_entry-create_all [] entries name = refl
  get_entry-create_all (e ∷ es) entries name = ground (
    arith,
    get_entry-create_all es (create_entry e replace_on_conflict entries).1 name,
    get_entry-replace e entries name,
  )
