-- ===== src/Execution/OrderTable/Rows.antt =====
-- src/database/repositories/providers/postgres_order_repository.py: facts about every stored order that
-- depend on its identifier and its quantity, which an update of a row leaves alone.
use mathlib.Core.Logic.{if_pos, if_neg}
use mathlib.Core.Option.{some-injective}
use mathlib.Core.Path.{subst}
use ml_crypto_trading.Prelude.{
  String, Option, none, some, List, [], ◌∷◌, not, All, select, map, ◌≡◌, refl, sym, ◌∙◌, if_intro,
  if_cases,
}
use ml_crypto_trading.Prelude.Text.{String-discrete}
use ml_crypto_trading.Prelude.Dict.{lookup, insert, values}
use ml_crypto_trading.Prelude.Int.{ℤ}
use ml_crypto_trading.Orders.{Order, OrderStatus}
use ml_crypto_trading.Execution.OrderTable.{
  OrderDao, OrderTable, is_terminal, on_conflict, row_with, write, map_to_db, map_to_entity, upsert,
  get_non_terminal,
}

-- Every stored row satisfies `D` with its identifier and its quantity.
abbrev pub AllRows : (String → ℤ → Type 0) → OrderTable → Type 0
AllRows D table = All (λ (e : String × OrderDao). D e.1.uuid e.1.quantity) table

module _ (D : String → ℤ → Type 0) where
  insert-AllRows :
      (uuid : String) (row : OrderDao) (table : OrderTable)
      → D row.uuid row.quantity
      → AllRows D table
      → AllRows D (insert String-discrete uuid row table)
  insert-AllRows uuid row [] p h = (p, tt)
  insert-AllRows uuid row ((j, old) ∷ table) p h = elim (String-discrete j uuid) [
    | yes e ↦ rw (if_pos _ e) (p, h.1)
    | no e ↦ rw (if_neg _ e) (h.0, insert-AllRows uuid row table p h.1)
  ]

  lookup-AllRows :
      (uuid : String) (row : OrderDao) (table : OrderTable)
      → AllRows D table
      → lookup String-discrete uuid table ≡ some row
      → D row.uuid row.quantity
  lookup-AllRows uuid row [] h e = cc
  lookup-AllRows uuid row ((j, old) ∷ table) h e = elim (String-discrete j uuid) [
    | yes p ↦
        subst (λ (r : OrderDao). D r.uuid r.quantity)
          (some-injective _ _ (sym (if_pos (String-discrete j uuid) p _ _) ∙ e)) h.0
    | no p ↦ lookup-AllRows uuid row table h.1 (sym (if_neg (String-discrete j uuid) p _ _) ∙ e)
  ]

  on_conflict_all :
      (row : OrderDao) (o : Option OrderDao)
      → D row.uuid row.quantity
      → ((old : OrderDao) → o ≡ some old → D old.uuid old.quantity)
      → D (on_conflict row o).uuid (on_conflict row o).quantity
  on_conflict_all row none p h = p
  on_conflict_all row (some old) p h =
      if_intro (λ (r : OrderDao). D r.uuid r.quantity) (is_terminal old.status) (h old refl)
        (h old refl)

  row_with_all :
      (order : Order) (status : Option OrderStatus) (row : OrderDao)
      → row_with order status ≡ some row
      → D order.uuid order.quantity
      → D row.uuid row.quantity
  row_with_all order none row e p = cc
  row_with_all order (some status) row e p =
      subst (λ (r : OrderDao). D r.uuid r.quantity) (some-injective _ _ e) p

  write-AllRows :
      (o : Option OrderDao) (old table : OrderTable)
      → ((row : OrderDao) → o ≡ some row → D row.uuid row.quantity)
      → AllRows D old
      → write o old ≡ some table
      → AllRows D table
  write-AllRows none old table p h e = cc
  write-AllRows (some row) old table p h e = subst (AllRows D) (some-injective _ _ e) (
      insert-AllRows row.uuid _ old
        (on_conflict_all row (lookup String-discrete row.uuid old) (p row refl)
          (λ o found. lookup-AllRows row.uuid o old h found))
        h)

  pub upsert-AllRows :
      (order : Order) (old table : OrderTable)
      → D order.uuid order.quantity
      → AllRows D old
      → upsert order old ≡ some table
      → AllRows D table
  unfolding upsert map_to_db
  upsert-AllRows order old table p h e =
      write-AllRows (map_to_db order) old table (λ row f. row_with_all order order.status row f p) h
        e

  load_all :
      (table : OrderTable)
      → AllRows D table
      → All
          (λ (o : Order). D o.uuid o.quantity)
          (map map_to_entity (select (λ row. not (is_terminal row.status)) (values table)))
  unfolding map_to_entity
  load_all [] h = tt
  load_all ((k, row) ∷ table) h =
      if_cases
        (λ (rows : List OrderDao).
          All (λ (o : Order). D o.uuid o.quantity) (map map_to_entity rows))
        (not (is_terminal row.status)) (λ e. (h.0, load_all table h.1)) (λ e. load_all table h.1)

  pub get_non_terminal-AllRows :
      (table : OrderTable)
      → AllRows D table
      → All (λ (o : Order). D o.uuid o.quantity) (get_non_terminal table)
  unfolding get_non_terminal
  get_non_terminal-AllRows table h = load_all table h
