-- ===== src/Lib.antt =====
-- The business core of the ElCorazon backend: what its Django services do to money, to stock, to
-- deliveries, and to the points and the codes of customers.
--
-- Parts, and where they are modelled. Paths are those of the repository.
--   common/state_machine.py: StateMachine. A machine is its table of transitions; a visit of
--     _assert_acyclic is a function on fuel for the depth of its stack, and the number of states and
--     one more is enough, as the theorem on it says.
--   common/money.py: Money, with Money/Allocate, Money/Equal, Money/Percentage, Money/Sums.
--   common/quantities.py: Quantities.
--   apps/orders/states.py, apps/delivery/states.py, apps/payments/models.py, apps/loyalty/models.py,
--     apps/calls/states.py, apps/groupcarts/states.py, apps/restaurants/states.py: the life cycles,
--     in the States module of Orders, Delivery, Payments, Loyalty, Calls, GroupCarts, Restaurants;
--     what they say together stands in Lifecycles.
--   apps/inventory: Inventory/Rows is its tables, Inventory/Writes `_apply` and `_reprice`,
--     Inventory/Service the operations, Inventory/Declarations the losses that wait for a second
--     person. Inventory/Consistency, After, Operations, Decisions and Replay are the proofs.
--   apps/payments: Payments/Rows is its tables, Payments/Totals `settled_total` and the confirmation
--     of an order, Payments/Webhook `handle_webhook`, Payments/Initiate `initiate` and
--     `initiate_external`, Payments/Split apps/payments/split.py, Payments/Cash apps/payments/cash.py,
--     Payments/Refunds and Payments/Withdrawals the two services of these names. Payments/Kept,
--     Settlement, Backing, Reuse, Cap, Parts, Balance, Conservation, Paid, CashRows and Collected are
--     the proofs.
--   apps/delivery: Delivery/Rows is its tables, Delivery/Courses AssignmentService with the change of
--     an order that it asks of OrderService, Delivery/Files CourierService, Delivery/Ratings
--     CourierRatingService. Effects, Calls and Frames take the calls apart, Histories puts them in a
--     row; Uniqueness, Constraints, Guards, Races, Credit, Accounts, Reconciliation, Agreement,
--     Following, Completion, Fees, Bypasses, Eligibility and Documents are the proofs.
--   apps/loyalty/services.py: Loyalty/Points and, for `tier_progress`, Loyalty/Tiers;
--     Loyalty/Bookings, Ledger and Replays are proofs.
--   apps/promotions: Promotions/Rows and Codes; Discounts, Quotas and Releases are the proofs.
--   apps/orders/idempotency.py, and the handler `create` of apps/orders/views.py: Orders/Idempotency.
--     Orders/Keys has the slots that the table stands for, Orders/Refinement that it does; Orders/Once
--     is about `create` called again.
-- Payments settles shares of a split and confirms orders through their life cycle; inventory and
-- payments both stand on money, and inventory on quantities. A course moves its order, and an order
-- that is cancelled closes its courses. A promotion that loyalty mints is an ordinary promotion.
--
-- How the state corresponds. A table is a map from keys to rows, or the list of its rows in the
-- order of insertion. A service is a function from the database and its arguments to a result: an
-- exception is an error without a state, since a service runs in one transaction, but for
-- `handle_webhook`, which records its event before the transaction begins, and `create`, which
-- takes its key before. A history is a list of calls, each of which reads the rows that it locks as
-- they stand. Where a service judges a row that it does not lock, what it has read is an argument,
-- which need not be up to date: the copy in `decline`, `replace_documents` and `expire_inactive`,
-- and in `accept`, whose lock is on the order, the copy of the courier and the courses that the
-- guard has read. The row of the course that `accept` reads under that lock, the couriers that
-- `offer`, `set_online` and `set_service_zones` are given, and the courses that `offer` reads are
-- taken as they stand. The unique constraints are checks that the tables make at each write. What
-- other applications do in the transaction of a change of an order is there as whether it raises
-- (`attendants`), for the courses of apps/delivery. Amounts are integers without a bound, as in
-- Python; the width of the columns is not modelled. A Decimal is a mantissa and a number of
-- decimals, and its quotients stay below 28 digits.
--
-- Not modelled: dates, labels, the audit trail, the texts of errors, and what receivers of signals do
-- but for whether they raise; the connectors of payment providers, which are arguments; the lookup
-- of a code without regard to case, whose row is given; the views but for the creation of orders,
-- serializers, tasks and web sockets; the services of the other applications.
pub mod Base
pub mod StateMachine
pub mod Lifecycles
pub mod Money
pub mod Quantities
pub mod Orders
pub mod Delivery
pub mod Payments
pub mod Loyalty
pub mod Promotions
pub mod Inventory
pub mod Calls
pub mod GroupCarts
pub mod Restaurants
pub mod Tests
