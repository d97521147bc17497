-- ===== src/Database/Migrations/Complete.antt =====
-- googletrends_app/database.py, initialize_database: the columns after it.
use googletrends.Base.{
  ◌≡◌, refl, sym, ap, ◌∙◌, String, Bool, true, false, not, ◌||◌, List, [], ◌∷◌, ◌++◌, All, contains,
  contains-append, select, Bool-cases, inl, inr, ◌==◌, eq_iff, if◌then◌else◌, arith,
}
use googletrends.Database.Pairwise.{All-map_of}
use googletrends.Database.Migrations.{
  Tables, schema, migrations, has_table, columns_of, create_table, create_tables, drop_table,
  missing_columns, alter_table, migrate_tables, run_migrations, initialize_tables,
}

-- A table has a column.
abbrev pub has_column : Tables → String → String → Bool
has_column tables name column = contains column (columns_of name tables)

alter-has_column :
    (n : String) (added : List String) (ts : Tables) (name column : String)
    → has_column ts name column ≡ true
    → has_column (alter_table n added ts) name column ≡ true
alter-has_column n added [] name column h = h
alter-has_column n added ((m, cs) ∷ ts) name column h =
    ground (arith, alter-has_column n added ts name column, contains-append column cs added)

alter-has_table :
    (n : String) (added : List String) (ts : Tables) (name : String)
    → has_table name (alter_table n added ts) ≡ has_table name ts
alter-has_table n added [] name = refl
alter-has_table n added ((m, cs) ∷ ts) name = ground (arith, alter-has_table n added ts name)

alter-columns :
    (n : String) (added : List String) (ts : Tables)
    → has_table n ts ≡ true
    → columns_of n (alter_table n added ts) ≡ columns_of n ts ++ added
alter-columns n added [] h = cc h
alter-columns n added ((m, cs) ∷ ts) h = ground (arith, alter-columns n added ts)

contains-select :
    (p : String → Bool) (c : String) (xs : List String)
    → p c ≡ true
    → contains c xs ≡ true
    → contains c (select p xs) ≡ true
contains-select p c [] t h = h
contains-select p c (x ∷ xs) t h = elim (Bool-cases (c == x)) [
  | inl e ↦
      let same : p x ≡ true = ap p (sym ((eq_iff c x).0 e)) ∙ t in
      rw (same, if◌then◌else◌) (rw e refl)
  | inr e ↦
      let later = contains-select p c xs t (ground arith) in
      elim (Bool-cases (p x)) [
        | inl k ↦ rw (k, if◌then◌else◌) (rw (e, later) refl)
        | inr k ↦ rw (k, if◌then◌else◌) later
      ]
]

missing_covers :
    (existing columns : List String) (c : String)
    → contains c columns ≡ true
    → contains c (existing ++ missing_columns existing columns) ≡ true
missing_covers existing columns c h = elim (Bool-cases (contains c existing)) [
  | inl t ↦ contains-append c existing (missing_columns existing columns) ∙ rw t refl
  | inr f ↦
      contains-append c existing (missing_columns existing columns)
      ∙ rw f (contains-select (λ x. not (contains x existing)) c columns (rw f refl) h)
]

-- Every table of the list has all columns that the list gives.
abbrev pub HasColumns : Tables → Tables → Type 0
HasColumns tables wanted =
    All (λ (t : String × List String). All (λ (c : String). has_column tables t.0 c ≡ true) t.1)
      wanted

abbrev HasTables : Tables → Tables → Type 0
HasTables tables wanted = All (λ (t : String × List String). has_table t.0 tables ≡ true) wanted

own_columns :
    (name : String) (columns : List String) (ts : Tables) (c : String)
    → has_table name ts ≡ true
    → contains c columns ≡ true
    → has_column (alter_table name (missing_columns (columns_of name ts) columns) ts) name c ≡ true
own_columns name columns ts c t h =
    ap (contains c) (alter-columns name (missing_columns (columns_of name ts) columns) ts t)
    ∙ missing_covers (columns_of name ts) columns c h

each_contained : (xs : List String) → All (λ (c : String). contains c xs ≡ true) xs
each_contained [] = tt
each_contained (x ∷ xs) = (
  ground (arith, (eq_iff x x).1 refl),
  All-map_of (λ (c : String). contains c xs ≡ true) (λ (c : String). contains c (x ∷ xs) ≡ true) xs
      (λ c h. ground (arith, h)) (each_contained xs),
)

migrate-has_column :
    (ts ms : Tables) (name column : String)
    → has_column ts name column ≡ true
    → has_column (migrate_tables ts ms) name column ≡ true
unfolding migrate_tables
migrate-has_column ts [] name column h = h
migrate-has_column ts ((n, cs) ∷ ms) name column h =
    migrate-has_column (alter_table n (missing_columns (columns_of n ts) cs) ts) ms name column
      (alter-has_column n (missing_columns (columns_of n ts) cs) ts name column h)

migrate-HasColumns : (ts ms : Tables) → HasTables ts ms → HasColumns (migrate_tables ts ms) ms
unfolding migrate_tables
migrate-HasColumns ts [] h = tt
migrate-HasColumns ts ((n, cs) ∷ ms) h =
    let added = missing_columns (columns_of n ts) cs in
    let ts' = alter_table n added ts in
    (
      All-map_of (λ (c : String). contains c cs ≡ true)
          (λ (c : String). has_column (migrate_tables ts' ms) n c ≡ true) cs
          (λ c k. migrate-has_column ts' ms n c (own_columns n cs ts c h.0 k)) (each_contained cs),
      migrate-HasColumns ts' ms (
          All-map_of (λ (t : String × List String). has_table t.0 ts ≡ true)
            (λ (t : String × List String). has_table t.0 ts' ≡ true) ms
            (λ t k. alter-has_table n added ts t.0 ∙ k) h.1),
    )

has_table-append :
    (name : String) (ts us : Tables) → has_table name ts ≡ true → has_table name (ts ++ us) ≡ true
has_table-append name [] us h = cc h
has_table-append name ((n, cs) ∷ ts) us h = ground (arith, has_table-append name ts us)

has_table-last :
    (name : String) (cs : List String) (ts : Tables) → has_table name (ts ++ (name, cs) ∷ []) ≡ true
has_table-last name cs [] = ground (arith, (eq_iff name name).1 refl)
has_table-last name cs ((n, ds) ∷ ts) = ground (arith, has_table-last name cs ts)

create-keeps :
    (ts : Tables) (t : String × List String) (name : String)
    → has_table name ts ≡ true
    → has_table name (create_table ts t) ≡ true
create-keeps ts (n, cs) name h = elim (Bool-cases (has_table n ts)) [
  | inl t ↦ rw (t, if◌then◌else◌) h
  | inr f ↦ rw (f, if◌then◌else◌) (has_table-append name ts ((n, cs) ∷ []) h)
]

create-makes :
    (ts : Tables) (n : String) (cs : List String) → has_table n (create_table ts (n, cs)) ≡ true
create-makes ts n cs = elim (Bool-cases (has_table n ts)) [
  | inl t ↦ rw (t, if◌then◌else◌) t
  | inr f ↦ rw (f, if◌then◌else◌) (has_table-last n cs ts)
]

create_all-keeps :
    (ts us : Tables) (name : String)
    → has_table name ts ≡ true
    → has_table name (create_tables ts us) ≡ true
unfolding create_tables
create_all-keeps ts [] name h = h
create_all-keeps ts (u ∷ us) name h =
    create_all-keeps (create_table ts u) us name (create-keeps ts u name h)

create-HasTables : (ts us : Tables) → HasTables (create_tables ts us) us
unfolding create_tables
create-HasTables ts [] = tt
create-HasTables ts ((n, cs) ∷ us) = (
  create_all-keeps (create_table ts (n, cs)) us n (create-makes ts n cs),
  create-HasTables (create_table ts (n, cs)) us,
)

drop-has_table :
    (dropped name : String) (ts : Tables)
    → (dropped == name) ≡ false
    → has_table name ts ≡ true
    → has_table name (drop_table dropped ts) ≡ true
drop-has_table d name [] n h = h
drop-has_table d name ((m, cs) ∷ ts) n h = elim (Bool-cases (m == d)) [
  | inl e ↦
      let same : m ≡ d = (eq_iff m d).0 e in
      rw (e, if◌then◌else◌) (drop-has_table d name ts n (behind (rw same at h)))
  | inr f ↦ rw (f, if◌then◌else◌) (ground (arith, drop-has_table d name ts n))
]
  where
    behind : (d == name || has_table name ts) ≡ true → has_table name ts ≡ true
    behind k = ground (arith, n)

-- Whatever tables and columns a database file has, after the schema and the migrations every table
-- that the migrations name has all columns that they name.
pub initialize_tables-HasColumns :
    (tables : Tables) → HasColumns (initialize_tables tables) migrations
unfolding initialize_tables run_migrations
initialize_tables-HasColumns tables =
    let made = create_tables tables schema in
    let (keywords, (runs, (jobs, (attempts, (points, (alerts, rest)))))) =
      create-HasTables tables schema in
    migrate-HasColumns (drop_table "related_panels" made) migrations (
      drop-has_table "related_panels" "keywords" made refl keywords,
      (
        drop-has_table "related_panels" "collection_jobs" made refl jobs,
        (
          drop-has_table "related_panels" "collection_job_attempts" made refl attempts,
          (
            drop-has_table "related_panels" "trend_points" made refl points,
            (drop-has_table "related_panels" "alerts" made refl alerts, tt),
          ),
        ),
      ),
    )
