-- ===== src/Cli/Update.antt =====
-- What the generic update of a resource can change.
use lfontes_nanoclaw.Prelude.{
  ◌===◌, if◌then◌else◌, ===_iff, ===_refl, Bool-cases, Option-cases, any, select, update,
  some_injective, some≢none, select-update_outside, map-update, String, ◌≡◌, refl, sym, ap, ◌∙◌,
  ◌⊎◌, inl, inr, Bool, false, ◌&&◌, ◌||◌, not, some, List, [], ◌∷◌, map, arith,
}
use lfontes_nanoclaw.Cli.{Value, Args, arg_of, put_arg, put_args, is_true, is_undefined}
use lfontes_nanoclaw.Cli.Scope.{arg_of-put_arg}
use lfontes_nanoclaw.Cli.Crud.{
  ColumnDef, Store, ResourceDef, CrudEnv, table_of, put_table, has_id, in_enum, converted,
  is_bindable, all_bindable, updates_of, updatable_columns, updated_store, is_empty_args,
  apply_updates, generic_update,
}

table_of-put_table :
    (store : Store) (name : String) (rows : List Args) (other_name : String)
    → table_of (put_table store name rows) other_name
      ≡ (if name === other_name then rows else table_of store other_name)
unfolding table_of put_table
table_of-put_table [] name rows t = refl
table_of-put_table ((n, old) ∷ store) name rows t =
    ground
      (arith, ===_iff n name, ===_iff n t, ===_iff name t, table_of-put_table store name rows t)

abbrev has_key : String → Args → Bool
has_key k args = any (λ (p : String × Value). p.0 === k) args

has_key-put_arg :
    (args : Args) (k j : String) (v : Value)
    → (k === j) ≡ false
    → has_key j args ≡ false
    → has_key j (put_arg args k v) ≡ false
unfolding put_arg
has_key-put_arg [] k j v n h = rw n refl
has_key-put_arg ((i, x) ∷ args) k j v n h =
    ground (arith, ===_iff i k, ===_iff i j, ===_iff k j, has_key-put_arg args k j v n)

-- The updates name only columns of the list.
updates_of-keys :
    (env : CrudEnv) (cols : List ColumnDef) (args out updates : Args) (k : String)
    → any (λ (c : ColumnDef). c.name === k) cols ≡ false
    → has_key k out ≡ false
    → updates_of env cols args out ≡ some updates
    → has_key k updates ≡ false
unfolding updates_of
updates_of-keys env [] args out updates k n h e = rw (← some_injective out updates e) h
updates_of-keys env (col ∷ cols) args out updates k n h e =
    let v = arg_of args col.name in
    let (n', rest) = or_false (col.name === k) (any (λ (c : ColumnDef). c.name === k) cols) n in
    elim (Bool-cases (is_undefined v)) [
      | inl u ↦ updates_of-keys env cols args out updates k rest h (rw (updates_of, u) at e)
      | inr u ↦ elim (Bool-cases (in_enum env col.enum v)) [
        | inr b ↦ absurd (some≢none (sym (rw (updates_of, u, b) at e)))
        | inl b ↦
            updates_of-keys env cols args (put_arg out col.name (converted env col.type v)) updates
              k rest (has_key-put_arg out col.name k (converted env col.type v) n' h)
              (rw (updates_of, u, b) at e)
      ]
    ]
  where
    or_false : (a b : Bool) → (a || b) ≡ false → (a ≡ false) × (b ≡ false)
    or_false a b h = ground arith

arg_of-put_args :
    (r updates : Args) (k : String)
    → has_key k updates ≡ false
    → arg_of (put_args r updates) k ≡ arg_of r k
unfolding put_args
arg_of-put_args r [] k h = refl
arg_of-put_args r ((j, v) ∷ updates) k h =
    let n : (j === k) ≡ false = ground arith in
    let rest : has_key k updates ≡ false = ground arith in
    arg_of-put_args (put_arg r j v) updates k rest ∙ rw (arg_of-put_arg r j k v, n) refl

-- The values of a column, and all rows but those of an id.
abbrev pub column : Store → String → String → List Value
column store table k = map (λ r. arg_of r k) (table_of store table)

abbrev pub others : CrudEnv → ResourceDef → Value → Store → List Args
others env def id store = select (λ r. not (has_id env def id r)) (table_of store def.table)

no_updatable :
    (cols : List ColumnDef) (k : String)
    → any (λ (c : ColumnDef). c.updatable && c.name === k) cols ≡ false
    → any (λ (c : ColumnDef). c.name === k) (select (λ (c : ColumnDef). c.updatable) cols) ≡ false
unfolding select
no_updatable [] k h = refl
no_updatable (c ∷ cols) k h = ground (arith, no_updatable cols k)

module _ (env : CrudEnv) (def : ResourceDef) (store : Store) (args : Args) where
  abbrev Updated : Store → Type 0
  Updated store' =
      (updates : Args) × (updates_of env (updatable_columns def) args [] ≡ some updates)
      × (store' ≡ updated_store env def store (arg_of args "id") updates)

  apply_updates-store :
      (updates : Args)
      → ((apply_updates env def store (arg_of args "id") updates).0 ≡ store)
        ⊎ ((apply_updates env def store (arg_of args "id") updates).0
            ≡ updated_store env def store (arg_of args "id") updates)
  apply_updates-store updates =
      let id = arg_of args "id" in
      elim (Bool-cases (is_empty_args updates || not (all_bindable updates))) [
        | inl b ↦ inl (rw b refl)
        | inr b ↦ elim (Bool-cases (any (has_id env def id) (table_of store def.table))) [
          | inr c ↦ inl (rw (b, c) refl)
          | inl c ↦ elim (Bool-cases (env.accepts (updated_store env def store id updates))) [
            | inl a ↦ inr (rw (b, c, a) refl)
            | inr a ↦ inl (rw (b, c, a) refl)
          ]
        ]
      ]

  generic_update-store :
      ((generic_update env def store args).0 ≡ store)
      ⊎ Updated (generic_update env def store args).0
  unfolding generic_update
  generic_update-store =
      let id = arg_of args "id" in
      elim (Bool-cases (is_true id)) [
        | inr b ↦ inl (rw (generic_update, b) refl)
        | inl b ↦ elim (Option-cases (updates_of env (updatable_columns def) args [])) [
          | inl n ↦ inl (rw (generic_update, b, n) refl)
          | inr (updates, k) ↦ elim (Bool-cases (is_bindable id)) [
            | inr c ↦ inl (rw (generic_update, b, k, c) refl)
            | inl c ↦ elim (apply_updates-store updates) [
              | inl e ↦ inl (rw (generic_update, b, k, c) e)
              | inr e ↦ inr (updates, k, rw (generic_update, b, k, c) e)
            ]
          ]
        ]
      ]

  -- The three things that stay.
  abbrev pub Spares : String → Store → Type 0
  Spares k store' =
      (column store' def.table k ≡ column store def.table k)
      × (others env def (arg_of args "id") store' ≡ others env def (arg_of args "id") store)
      × ((t : String) → (def.table === t) ≡ false → table_of store' t ≡ table_of store t)

  updated_store-Spares :
      (updates : Args) (k : String)
      → has_key k updates ≡ false
      → has_key def.id_column updates ≡ false
      → Spares k (updated_store env def store (arg_of args "id") updates)
  unfolding updated_store
  updated_store-Spares updates k h i =
      let id = arg_of args "id" in
      let rows = table_of store def.table in
      let p = has_id env def id in
      let f = λ (r : Args). put_args r updates in
      let rows' = update p f rows in
      let e : table_of (put_table store def.table rows') def.table ≡ rows' =
        table_of-put_table store def.table rows' def.table ∙ rw (===_refl def.table) refl in
      (
        rw e (map-update (λ r. arg_of r k) p f rows (λ r. arg_of-put_args r updates k h)),
        rw e (
            select-update_outside (λ r. not (p r)) p f rows
              (λ r t. (
                rw t refl,
                ap (λ v. not (env.sql_eq v id)) (arg_of-put_args r updates def.id_column i)
                    ∙ rw t refl,
              ))),
        λ t n. table_of-put_table store def.table rows' t ∙ rw n refl,
      )

-- A generic update, whether it succeeds or throws and whatever its arguments are, changes no value of a
-- column that is not updatable, no row but those of its id, and no other table, where the column of
-- the ids is not updatable.
pub generic_update-Spares :
    (env : CrudEnv) (def : ResourceDef) (store : Store) (args : Args) (k : String)
    → any (λ (c : ColumnDef). c.updatable && c.name === k) def.columns ≡ false
    → any (λ (c : ColumnDef). c.updatable && c.name === def.id_column) def.columns ≡ false
    → Spares env def store args k (generic_update env def store args).0
generic_update-Spares env def store args k h i = elim (generic_update-store env def store args) [
  | inl e ↦ rw e (refl, refl, λ t n. refl)
  | inr (updates, u, e) ↦ rw e (
      updated_store-Spares env def store args updates k
        (updates_of-keys env (updatable_columns def) args [] updates k
          (no_updatable def.columns k h) refl u)
        (updates_of-keys env (updatable_columns def) args [] updates def.id_column
          (no_updatable def.columns def.id_column i) refl u))
]
