-- ===== src/Lib.antt =====
-- A model of the core of the trading engine, with the theorems that make it correct.
--
-- The program trades crypto assets on exchanges. These of its parts are modelled.
--
-- Health (src/trading/health) decides what the engine may do. Observers report conditions of the
-- exchange, the data and the accounts to a HealthMonitor. It keeps them in a ConditionRegistry, asks
-- the TradingTransitionPolicy for the next state of the TradingHealthStateMachine, and publishes
-- what changed. An order is placed only if `has_permission` grants it, which is the table of
-- TradingPermissionPolicy. Files: Health/Models (enums.py, models.py, core/severity.py),
-- Health/Registry (condition_registry.py, recovery_policy.py), Health/Transition
-- (transition_policy.py), Health/Permission (permission_policy.py), Health/Machine
-- (state_machine.py), Health/Monitor (health_monitor.py). Each method is a function of the same name
-- from the object's state to its new state and its result; published events are a list.
--
-- Portfolio (src/trading/protection) decides what the engine can afford. A QuotePortfolio keeps the
-- cash, the reservations and the positions behind one quote currency; the PortfolioPolicyResolver
-- merges the configuration with an asset's override; the QuotePortfolioGuard checks an order against
-- the limits; the PortfolioRiskManager owns the portfolios, follows the events of orders, prices and
-- balances, and answers `can_trade`. Files: Portfolio/Book (quote_portfolio.py), Portfolio/Config
-- (portfolio_policy_resolver.py, src/configuration/portfolio_config.py,
-- src/trading/regimes/market_regime.py), Portfolio/Guard (quote_portfolio_guard.py),
-- Portfolio/Manager with Events and Trading (portfolio_risk_manager.py).
--
-- Session (src/trading/session) books what was traded. The SessionManager owns a TradingSession with
-- a TradingContext for each asset; `record_order_fill` books the fill of an order in the context of
-- its ticker symbol: a buy opens a lot, and for a sale the FifoTradeMatcher closes the oldest lots.
-- Files: Orders (api/interfaces/order.py and trade_action.py), Session/Lot
-- (api/interfaces/position_lot.py and trade.py), Session/Matcher (fifo_trade_matcher.py),
-- Session/Context (api/interfaces/ trading_context.py, and the private methods of
-- session_manager.py), Session/Manager with Fills (session_manager.py).
--
-- Consensus (src/trading/consensus and src/trading/strategies) decides whether to trade. Strategies
-- are registered for an action and for ticker symbols; StrategyWeightResolver gives each its weight
-- by its schedule; the ConsensusManager collects the votes and weights into a ConsensusDecision.
-- Files: Consensus/Strategy (strategy_weight_resolver.py, models/strategy_schedule.py,
-- core/interfaces/trading_strategy.py), Consensus/Decision (consensus_decision.py,
-- consensus_factor.py), Consensus/Manager with Evaluation (consensus_manager.py).
--
-- Protection (protection_manager.py) stops the trades of an asset that is paused or that a guard
-- refuses. Accounts (src/trading/accounts/account_state.py) keeps the balances of an account by
-- currency, with versions. Holdings (src/trading/helpers/portfolio_helper.py) computes what is held
-- of a history of positions, and its value.
--
-- Expressions (src/core/expressions) are the formulas of conditions and quantities. ExpressionParser
-- validates a formula when it is made, inspects one for an editor, and evaluates it in a context of
-- variables and functions; RollingWindowEvaluator computes the functions `highest` and `lowest` of
-- the last candles. Files: Expressions/Syntax (the trees of Python's ast, schema.py),
-- Expressions/Validator, Expressions/Inspector and Expressions/Evaluator (expression_parser.py),
-- Expressions/Windows (rolling_window_evaluator.py). Python's parser, its operators and its `str`
-- are parameters.
--
-- Events (src/events) brings domain events to their followers. The MessageEventBus calls who is
-- subscribed to a type of the event. A MessageSubscription is a bounded queue that drops its oldest
-- event when it is full. Files: Events/Bus (message_event_bus.py), Events/Subscription
-- (message_subscription.py).
--
-- Registries (src/core/registry) are the maps from a key to a value, or to a list of values, that
-- other parts share. Files: Registries/Single (registry.py), Registries/Multi (multi_registry.py).
--
-- Execution (src/trading/orders/order_manager.py) brings orders to the exchange. `open_order`
-- records an intent and queues the order; the worker places it and stores it, or stores and
-- publishes its rejection; updates of the exchange and the reconciliation at start and end save
-- orders, book their fills in the session and release their intents. An action takes the manager's
-- state to a result and a new state, or to an exception and the state it was raised in. The
-- exchange, the journal, the database connection, the identifiers and the current commit are
-- services on a world of which nothing is assumed: each may fail at any call. Files:
-- Execution/Effects (actions and exceptions), Execution/OrderTable
-- (src/database/repositories/providers/postgres_order_repository.py, order_db_vs_entity_mapper.py,
-- dao/order_dao.py), Execution/State (the manager and its services), Execution/Saving
-- (`_save_orders_to_database`, sqlalchemy_unit_of_work.py), Execution/Placing (`open_order`,
-- `execute_order`, `process_order_queue`), Execution/Reconciling (the other methods).
--
-- Retention (src/retention) decides how long records are kept. Files: Retention/Durations
-- (durations.py), Retention/Policy (models.py, and `requires_confirmation`), Retention/Building and
-- Retention/Resolver (policy_resolver.py, src/configuration/retention_config.py).
--
-- WalkForward/Folds (src/walk_forward/generator/fold_generator.py) cuts the timestamps of an
-- evaluation into folds with a window for training and a window for testing each; its numbers are
-- integers and an index may be negative. WalkForward/Counts has the same functions on natural
-- numbers, for the proofs.
--
-- Amounts. A `Decimal` is an integer count of a common smallest unit, so that sums, differences and
-- comparisons are exact; products and quotients are rounded by Python's decimal context, which is a
-- parameter (`DecimalContext`) of which nothing is assumed. Sums whose digits exceed the context's
-- precision are not modelled. A moment is a natural number of microseconds; the times of orders, and
-- of the lots and trades that come of them, are nanoseconds, which the database rounds to
-- microseconds. A time delta of Retention is an integer number of microseconds.
--
-- Loops are structural, but for these. The matcher's fuel is one more than the number of lots: a
-- round uses up a lot or the exit. The worker's loop runs until it is stopped and takes the number
-- of its rounds; a round takes one order off the queue. The loop of the folds has one round more
-- than there are timestamps and candles in both windows: with a positive step it is at its end by
-- then, and with a negative one it never is, but has an index out of range. The digits of a number
-- have the number as fuel.
--
-- Texts of durations are lists of code points, of which blanks, digits and letters are those of
-- ASCII.
--
-- Floats. Weights, factors and the numbers of candles are exact numbers in a common unit, so that
-- the rounding of floats is not modelled. The floats of a formula stand by their text, and what
-- Python computes with them is a parameter.
--
-- Threads are sequences of calls: each method is one step. The locks of the program make it so for
-- the objects that take one around a whole method. It is an assumption for HealthMonitor, whose
-- `report_observation` has no lock of its own around its parts, and for OrderManager, which locks
-- the intents only.
--
-- Not modelled: the quorum of a ConsensusDecision, whose floats decide by their rounding where the
-- margin is near 0, the texts and places of diagnostics, logging, the texts of published errors, the
-- event about an evaluation of the strategies, `record_position` (an older entry to the booking of
-- fills that nothing calls), the single guards and strategies, the threads' start and end, the
-- deletion of records, the evaluation of folds, and the exchanges, databases, servers and agents
-- around these parts.
pub mod Prelude
pub mod Health
pub mod Orders
pub mod Portfolio
pub mod Session
pub mod Events
pub mod Expressions
pub mod Consensus
pub mod Registries
pub mod Protection
pub mod Accounts
pub mod Holdings
pub mod Execution
pub mod Retention
pub mod WalkForward
pub mod Tests
