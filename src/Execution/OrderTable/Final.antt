-- ===== src/Execution/OrderTable/Final.antt =====
-- src/database/repositories/providers/postgres_order_repository.py: what becomes of a stored order.
use ml_crypto_trading.Prelude.{
  String, Option, none, some, List, [], ◌∷◌, true, ◌≡◌, ap, ◌∙◌, if_then,
}
use mathlib.Core.Logic.{if_pos, if_neg}
use ml_crypto_trading.Prelude.Text.{String-discrete}
use ml_crypto_trading.Prelude.Dict.{lookup, lookup-insert}
use ml_crypto_trading.Orders.{Order}
use ml_crypto_trading.Execution.OrderTable.{
  OrderDao, OrderTable, is_terminal, on_conflict, write, write_row, map_to_db, upsert,
}

write_row_keeps_terminal :
    (uuid : String) (row old : OrderDao) (table : OrderTable)
    → lookup String-discrete uuid table ≡ some old
    → is_terminal old.status ≡ true
    → lookup String-discrete uuid (write_row row table) ≡ some old
write_row_keeps_terminal uuid row old table found final =
    lookup-insert String-discrete row.uuid uuid _ table ∙ elim (String-discrete row.uuid uuid) [
      | yes p ↦
          if_pos (String-discrete row.uuid uuid) p _ _
          ∙ ap some (
              ap (on_conflict row) (ap (λ k. lookup String-discrete k table) p ∙ found)
              ∙ if_then _ _ _ final)
      | no p ↦ if_neg (String-discrete row.uuid uuid) p _ _ ∙ found
    ]

abbrev or_same : Option OrderTable → OrderTable → OrderTable
or_same none table = table
or_same (some table') table = table'

-- A sequence of `upsert` calls; one that raises leaves the table as it is.
unfoldable pub upserts : List Order → OrderTable → OrderTable
unfolding upsert
upserts [] table = table
upserts (order ∷ orders) table = upserts orders (or_same (upsert order table) table)

write_keeps_terminal :
    (uuid : String) (o : Option OrderDao) (old : OrderDao) (table : OrderTable)
    → lookup String-discrete uuid table ≡ some old
    → is_terminal old.status ≡ true
    → lookup String-discrete uuid (or_same (write o table) table) ≡ some old
write_keeps_terminal uuid none old table found final = found
write_keeps_terminal uuid (some row) old table found final =
    write_row_keeps_terminal uuid row old table found final

-- Once the status of a stored order is terminal, the row stays as it is, whatever orders are upserted
-- and in whatever order.
pub upserts_keep_terminal :
    (orders : List Order) (uuid : String) (old : OrderDao) (table : OrderTable)
    → lookup String-discrete uuid table ≡ some old
    → is_terminal old.status ≡ true
    → lookup String-discrete uuid (upserts orders table) ≡ some old
unfolding upserts upsert
upserts_keep_terminal [] uuid old table found final = found
upserts_keep_terminal (order ∷ orders) uuid old table found final =
    upserts_keep_terminal orders uuid old _
      (write_keeps_terminal uuid (map_to_db order) old table found final) final
