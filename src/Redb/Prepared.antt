-- ===== src/Redb/Prepared.antt =====
-- What `prepare` of the persistent backend does: which stores can be opened behind it, and that
-- it keeps what they hold.
use collette.Prelude.{
  ◌≡◌, refl, sym, ap, ◌∙◌, fun_ext, Bool, true, false, ◌&&◌, ◌||◌, none, some, List, [], ◌∷◌,
  if◌then◌else◌, arith, Bool-cases, inl, inr,
}
use collette.Bytes.{◌=ᵇ◌}
use collette.Bytes.Order.{=ᵇ_iff}
use collette.Outcome.{ok, >>=-eq_ok, ok_injective}
use collette.Store.{Name, Content, put}
use collette.Redb.{
  Engine, TableName, PreparedTable, PreparedTables, get_table, retain_others, insert_tables,
  table_name, prepared_names, create_tables, prepare, RedbMultiStore,
}
use collette.Redb.Contract.{stored, stores_of}
use collette.Redb.Promises.{EngineContract}

abbrev pub is_listed : Name → List Name → Bool
is_listed store [] = false
is_listed store (name ∷ names) = (name =ᵇ store) || is_listed store names

same_test : (a b m : Name) → (a =ᵇ b) ≡ true → (a =ᵇ m) ≡ (b =ᵇ m)
same_test a b m e = ap (λ x. x =ᵇ m) ((=ᵇ_iff a b).0 e)

other_test : (a b m : Name) → (a =ᵇ b) ≡ false → (a =ᵇ m) ≡ true → (b =ᵇ m) ≡ false
other_test a b m e h = elim (Bool-cases (b =ᵇ m)) [
  | inl q ↦ let p = (=ᵇ_iff a b).1 ((=ᵇ_iff a m).0 h ∙ sym ((=ᵇ_iff b m).0 q)) in cc
  | inr q ↦ q
]

get_table-retain_others :
    (n : Name) (tables : PreparedTables) (m store : Name)
    → get_table (retain_others n tables) (m, store)
      ≡ (if n =ᵇ m then none else get_table tables (m, store))
unfolding get_table retain_others
get_table-retain_others n [] m store = ground arith
get_table-retain_others n (entry ∷ tables) m store = ground (
  arith,
  get_table-retain_others n tables m store,
  same_test entry.key.0 n m,
  other_test entry.key.0 n m,
)

same_name : (n s t : Name) → (s =ᵇ t) ≡ true → table_name n s ≡ table_name n t
same_name n s t e = ap (table_name n) ((=ᵇ_iff s t).0 e)

get_table-insert_tables :
    (n : Name) (stores : List Name) (tables : PreparedTables) (m store : Name)
    → get_table (insert_tables (prepared_names n stores) tables) (m, store) ≡ (
        if (n =ᵇ m) && is_listed store stores
        then some (table_name n store)
        else get_table tables (m, store))
unfolding get_table insert_tables prepared_names
get_table-insert_tables n [] tables m store = ground arith
get_table-insert_tables n (name ∷ stores) tables m store = ground (
  arith,
  get_table-insert_tables n stores
      (record { key = (n, name); name = table_name n name; named = refl } ∷ tables) m store,
  same_name n name store,
)

module _ (e : Engine) (s : RedbMultiStore e) (n : Name) (stores : List Name) {s' : RedbMultiStore e}
    (done : prepare e s n stores ≡ ok s') where
  -- After a successful prepare, a store of the namespace is known exactly if it was listed, under
  -- the name of its table, and the stores of the other namespaces are known as before.
  pub get_table-prepare :
      (m store : Name)
      → get_table s'.tables (m, store) ≡ (
          if n =ᵇ m
          then if is_listed store stores then some (table_name n store) else none
          else get_table s.tables (m, store))
  unfolding prepare
  get_table-prepare m store =
      let (t, p, rest) = >>=-eq_ok (e.begin_write s.db) _ done in
      let (t', p', rest') = >>=-eq_ok (create_tables e t (prepared_names n stores)) _ rest in
      let (d, p'', last) = >>=-eq_ok (e.commit s.db t') _ rest' in
      ap (λ (x : RedbMultiStore e). get_table x.tables (m, store)) (sym (ok_injective last))
      ∙ get_table-insert_tables n stores (retain_others n s.tables) m store
      ∙ ground (arith, get_table-retain_others n s.tables m store)

module _ (e : Engine) (law : EngineContract e) where
  put_same : (f : TableName → Content) (n : TableName) → put f n (f n) ≡ f
  put_same f n =
      fun_ext λ m. elim (Bool-cases (n =ᵇ m)) [
        | inl q ↦ rw q (ap f ((=ᵇ_iff n m).0 q))
        | inr q ↦ rw q refl
      ]

  created :
      (t : e.WriteTransaction) (prepared : List PreparedTable) {t' : e.WriteTransaction}
      → create_tables e t prepared ≡ ok t'
      → law.staged t' ≡ law.staged t
  unfolding create_tables
  created t [] q = ap law.staged (sym (ok_injective q))
  created t (entry ∷ prepared) q =
      let (table, p, rest) = >>=-eq_ok (e.open_write_table t entry.name) _ q in
      created (e.close_table t entry.name table) prepared rest
      ∙ law.staged-close t entry.name table
      ∙ ap (put (law.staged t) entry.name) (law.open_write_lem t entry.name p)
      ∙ put_same (law.staged t) entry.name

  -- If the redb crate keeps its promises, a successful prepare keeps what every store of the
  -- database holds, also of those that it does not list.
  pub prepare-stored :
      (s : RedbMultiStore e) (n : Name) (stores : List Name) {s' : RedbMultiStore e}
      → prepare e s n stores ≡ ok s'
      → stored e law s' ≡ stored e law s
  unfolding prepare
  prepare-stored s n stores done =
      let (t, p, rest) = >>=-eq_ok (e.begin_write s.db) _ done in
      let (t', p', rest') = >>=-eq_ok (create_tables e t (prepared_names n stores)) _ rest in
      let (d, p'', last) = >>=-eq_ok (e.commit s.db t') _ rest' in
      ap (stored e law) (sym (ok_injective last))
      ∙ ap stores_of (
          law.commit_lem s.db t' p''
          ∙ created t (prepared_names n stores) p'
          ∙ law.begin_write_lem s.db p)
