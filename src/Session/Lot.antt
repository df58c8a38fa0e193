-- ===== src/Session/Lot.antt =====
-- api/interfaces/position_lot.py, api/interfaces/trade.py and api/interfaces/position_entry.py.
-- Prices, quantities and fees are decimals; a timestamp is a number of nanoseconds; the floats of
-- `strategy_attributions` are passed on only and are counted in a common unit. A fresh `uuid4` is an
-- argument.
use ml_crypto_trading.Prelude.{ℕ, ◌-◌, String, Option, if◌then◌else◌, or_else}
use ml_crypto_trading.Prelude.Int.{ℤ, ◌+ℤ◌, ◌-ℤ◌, ltb_ℤ}
use ml_crypto_trading.Prelude.Dict.{Dict}
use ml_crypto_trading.Prelude.Decimal.{DecimalContext, zero_dec, thousandths}

-- What an order says of the strategies behind it.
abbrev pub Votes : Type 0
Votes = Dict String String

abbrev pub Attributions : Type 0
Attributions = Dict String ℤ

pub record PositionEntry : Type 0 where
  pub price : ℤ
  pub quantity : ℤ
  pub timestamp : ℕ

pub record PositionLot : Type 0 where
  pub lot_id : String
  pub order_uuid : String
  pub ticker_symbol : String
  pub price : ℤ
  pub quantity : ℤ
  pub remaining_quantity : ℤ
  pub fee_per_unit : ℤ
  pub timestamp : ℕ
  pub slippage_per_unit : ℤ
  pub winning_strategy : Option String
  pub strategy_votes : Option Votes
  pub strategy_attributions : Option Attributions
  pub regime : Option String

pub record Trade : Type 0 where
  pub trade_id : String
  pub ticker_symbol : String
  pub entry_order_uuid : String
  pub exit_order_uuid : String
  pub entry_price : ℤ
  pub exit_price : ℤ
  pub quantity : ℤ
  pub gross_pnl : ℤ
  pub fees : ℤ
  pub net_pnl : ℤ
  pub return_pct : ℤ
  pub duration : ℕ
  pub entry_timestamp : ℕ
  pub exit_timestamp : ℕ
  pub slippage : ℤ
  pub commit_hash : Option String
  pub winning_strategy : Option String
  pub strategy_votes : Option Votes
  pub entry_strategy_attributions : Option Attributions
  pub exit_strategy_attributions : Option Attributions
  pub exit_winning_strategy : Option String
  pub exit_strategy_votes : Option Votes
  pub entry_regime : Option String
  pub exit_regime : Option String

module _ (ctx : DecimalContext) where
  open ctx use {mul, div}

  -- `(total / quantity) if quantity > Decimal(0) else Decimal(0)`
  abbrev pub per_unit : ℤ → ℤ → ℤ
  per_unit total quantity = if ltb_ℤ zero_dec quantity then div total quantity else zero_dec

  -- The arguments of `PositionLot.create` that its callers give.
  pub record NewLot : Type 0 where
    pub order_uuid : String
    pub ticker_symbol : String
    pub price : ℤ
    pub quantity : ℤ
    pub fee : ℤ
    pub timestamp : ℕ
    pub winning_strategy : Option String
    pub strategy_votes : Option Votes
    pub strategy_attributions : Option Attributions
    pub slippage : ℤ
    pub slippage_per_unit : Option ℤ
    pub regime : Option String

  -- `PositionLot.create`
  unfoldable pub create_lot : String → NewLot → PositionLot
  create_lot lot_id n = record {
    lot_id = lot_id;
    order_uuid = n.order_uuid;
    ticker_symbol = n.ticker_symbol;
    price = n.price;
    quantity = n.quantity;
    remaining_quantity = n.quantity;
    fee_per_unit = per_unit n.fee n.quantity;
    timestamp = n.timestamp;
    slippage_per_unit = or_else n.slippage_per_unit (per_unit n.slippage n.quantity);
    winning_strategy = n.winning_strategy;
    strategy_votes = n.strategy_votes;
    strategy_attributions = n.strategy_attributions;
    regime = n.regime;
  }

  -- The arguments of `Trade.create`.
  pub record NewTrade : Type 0 where
    pub ticker_symbol : String
    pub entry_order_uuid : String
    pub exit_order_uuid : String
    pub entry_price : ℤ
    pub exit_price : ℤ
    pub quantity : ℤ
    pub entry_fee : ℤ
    pub exit_fee : ℤ
    pub entry_timestamp : ℕ
    pub exit_timestamp : ℕ
    pub slippage : ℤ
    pub commit_hash : Option String
    pub winning_strategy : Option String
    pub strategy_votes : Option Votes
    pub entry_strategy_attributions : Option Attributions
    pub exit_strategy_attributions : Option Attributions
    pub exit_winning_strategy : Option String
    pub exit_strategy_votes : Option Votes
    pub entry_regime : Option String
    pub exit_regime : Option String

  -- `Trade.create`
  unfoldable pub create_trade : String → NewTrade → Trade
  create_trade trade_id n =
      let gross_pnl = mul (n.exit_price -ℤ n.entry_price) n.quantity in
      let total_fees = n.entry_fee +ℤ n.exit_fee in
      let net_pnl = gross_pnl -ℤ total_fees -ℤ n.slippage in
      let cost_basis = mul n.entry_price n.quantity +ℤ n.entry_fee in
      record {
        trade_id = trade_id;
        ticker_symbol = n.ticker_symbol;
        entry_order_uuid = n.entry_order_uuid;
        exit_order_uuid = n.exit_order_uuid;
        entry_price = n.entry_price;
        exit_price = n.exit_price;
        quantity = n.quantity;
        gross_pnl = gross_pnl;
        fees = total_fees;
        net_pnl = net_pnl;
        return_pct =
            if ltb_ℤ zero_dec cost_basis
            then mul (div net_pnl cost_basis) (thousandths ctx 100_000)
            else zero_dec;
        duration = n.exit_timestamp - n.entry_timestamp;
        entry_timestamp = n.entry_timestamp;
        exit_timestamp = n.exit_timestamp;
        slippage = n.slippage;
        commit_hash = n.commit_hash;
        winning_strategy = n.winning_strategy;
        strategy_votes = n.strategy_votes;
        entry_strategy_attributions = n.entry_strategy_attributions;
        exit_strategy_attributions = n.exit_strategy_attributions;
        exit_winning_strategy = n.exit_winning_strategy;
        exit_strategy_votes = n.exit_strategy_votes;
        entry_regime = n.entry_regime;
        exit_regime = n.exit_regime;
      }
