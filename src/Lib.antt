-- ===== src/Lib.antt =====
-- The verification library of ushbooknpay, the booking and payment service of a chain of spas.
--
-- Parts. A branch's calendar comes from the availability engine (app/availability), which computes
-- from a therapist's schedule the blocks that can be booked. A booking (app/booking) and a payment
-- (app/payment) each move through the statuses of a state machine. A paid booking earns loyalty points
-- (app/loyalty); a cancelled one is refunded (app/payment/application/refund_lifecycle.py), in money or
-- in points, and a refund writes the payment's and the booking's rows. A booking has sessions, whose
-- windows keep their therapists busy, and tells another service of them through a queue of requests
-- that is replayed (app/booking/application/cache_outbox_relay.py). A customer pays a booking or a gift
-- voucher (app/voucher) through a payment link (app/payment_links), which is settled when the gateway
-- reports the payment. The shop (app/shop) sells products that are delivered.
--
-- Files.
--   Base: what the parts share. Base/Int has the signed integers over native numbers, Base/Dict the
--     rows of a table by id, Base/Session calls in a database session that may raise, Base/Sorting
--     Python's stable sort by a numeric key.
--   Availability: app/availability/domain. Intervals, Merge, Subtract and Intersect are interval
--     arithmetic (`merge_intervals`, `subtract_intervals`, `intersect_intervals`,
--     `_intersect_with_window`); Blocks is `generate_blocks` and `_generate_closed_blocks`; Engine is
--     `AppointmentAvailabilityEngine`. Below each stand its proofs: Subtract/Exact, Subtract/Order,
--     Blocks/Slots, Blocks/Available, Blocks/Generate, Blocks/Overrun, Engine/Safety, Engine/Day.
--   Booking/Status: app/booking/domain/state_machine.py; Booking/Status/Reach has the proofs.
--     Booking/PaymentStatus: the payment statuses of app/booking/domain/value_objects.py.
--   Booking/Sessions: app/booking/domain/sessions.py. Sessions itself builds, sorts and validates;
--     Sessions/Derived has `booking_totals`, `flatten_services`, `legacy_mirror` and
--     `therapist_busy_windows`; Chain, Validity, Windows, Busy and Build have the proofs.
--   Booking/Sessions/Packages: app/booking/application/package_rules.py, with the entries of
--     app/booking/application/multi_service.py. Coverage, Shares, Exclusive and Price have the proofs.
--   Booking/Sessions/Planner: `plan_sessions` of app/booking/application/session_planner.py, composed of
--     Packages and Sessions; Built, Accepted, Price and Calendar have the proofs.
--   Booking/Outbox: app/booking/application/cache_outbox_relay.py and
--     app/booking/infrastructure/cache_outbox.py; Order, Rows, Runs and Calls have the proofs.
--   Voucher/Status: app/voucher/domain/state_machine.py. Voucher/Service: `update_status` and
--     `update_voucher` of app/voucher/application/voucher_service.py and the ids of
--     app/voucher/domain/services_snapshot.py; Ids, Redemption and Remaining have the proofs.
--     Voucher/Delivery: `activate_scheduled_voucher` and `reschedule_voucher`; HandedOver has the proofs.
--   PaymentLinks: app/payment_links/application/settlement.py. Tables has the rows, Settlement the two
--     targets, Settlement/Apply `apply`, `_apply_paid` and `_record_failure`; Settling, Change, Once and
--     Booked have the proofs. Webhook is `_handle_payment_event` and Refunds `_handle_refund_event`, both of
--     app/payment_links/application/webhook_service.py, the latter with the refunds of
--     app/payment_links/application/refund_service.py; Refunds/Balance and Refunds/Events have the proofs.
--   Loyalty: app/loyalty. Accounts has the tables and the rules, Repository the methods of
--     `LoyaltyRepository`, Service those of `LoyaltyService` (its `credit_points` is `award_points`);
--     Service/Invariant, Service/Credit and Service/Redeem have the proofs.
--   Shop: app/shop. Status is domain/state_machine.py and domain/value_objects.py, Tables the rows and
--     queries, Service `ShopOrderService`. Runs has what holds of each order whatever is called; History,
--     Numbers, Receipt and Totals have the proofs.
--   Payment/Status: app/payment/domain/state_machine.py.
--   Payment/Refunds: `RefundLifecycle`. Tables has the rows, Sums the sums over them, Refunds itself
--     `request` and `update_requested_amounts`, Transitions and Completion the other calls; Cap, Cap/Steps,
--     Cap/Complete, Lifecycle, Settled and Request have the proofs.
--   Payment/Service: `RefundService` of app/payment/application/refund_service.py, over Payment/Refunds.
--     Open, Recorded and Manual have the proofs.
--   Common/Pagination: app/common/pagination.py and the query for a page in app/api/v1/payments.py;
--     Walk has the proofs.
--   Tests, in each part: concrete runs.
--
-- State. The availability code is pure. Loyalty and refunds work in a database session: a record of
-- the tables' rows, which every call is given and returns, with its result or the error it raises;
-- what was written before a raise stays written. Calls of the refund lifecycle follow each other; two
-- sessions at once are not modelled (the rows are locked for update in the source). A payment link is
-- settled in the same way, on the link and the tables; what a voucher's update wrote is rolled back when
-- it raises. The outbox is its rows, the log of delivered requests and the client's calls, with one
-- relay at a time.
--
-- Numbers. Instants are microseconds, durations minutes, points integers, and amounts thousandths of
-- the currency, as `_dec` rounds them. Python's integers do not overflow, and here no number is bounded.
--
-- Loops. The loops over lists are recursion on the list. The loop over the slots of a day runs on the
-- length of the day in microseconds as fuel, which is enough since a slot takes at least one: that the
-- blocks are all the slots that fit is proved.
--
-- Not modelled: logging, texts, ids and authors of rows; the choice of a booking's payment by date;
-- the contents of events; HTTP, queries and gateways. A gateway's answer, a scheduler's, a catalogue's
-- and a client's are functions that the definitions take. The price of extra minutes, the question to
-- another service whether rooms and therapists are free, the processing of approved refunds, the
-- creation of vouchers and of payment links, a voucher's delivery status, refunds through the link of a
-- booking, and gifts are left out.
pub mod Base
pub mod Availability
pub mod Booking
pub mod Loyalty
pub mod Payment
pub mod Voucher
pub mod PaymentLinks
pub mod Shop
pub mod Common
