-- ===== src/Lib.antt =====
-- A verification library for Combo: the reducer of a Worker Invocation, the billing store, the
-- money path of the LLM gateway, and the end users' login. Every definition is a translation of
-- TypeScript code that keeps its guards, early returns and order of writes; the paths below start
-- at the repository's root.
--
-- Prelude: the names that all modules share, Boolean tests on the native numbers, integers as a pair
-- of signs over them (Prelude/Int), measured lists, and the answers of code that may throw
-- (Prelude/Outcomes).
--
-- Invocation models packages/creator-agent-broker-journal/src/worker-invocation.ts. State has its
-- unions `WorkerInvocationState`, `WorkerInvocationEvent`, `WorkerTerminal` and effects, and the
-- projections of host-projection.ts; Reduction has the assertion and context helpers, `reducePrepared`
-- and `startConfirmed`; Reduce has `reduceDispatching`, `reduceRunning` and `reduceWorkerInvocation`.
-- An assertion that throws is an error result with the source's code. Journal is the environment: an
-- accepted event is committed with its effects and a refused one changes nothing. The trust sets of
-- host-projection.ts are three Boolean functions, `Trust`. Evidence, Log and Attempts hold proofs.
--
-- Billing models apps/billing/src/repo.ts and service.ts over a record of tables, `Db`. Types has
-- the views and outcomes of service.ts and the rows; Rows has `toWallet`, `toHold`, `lockWallet`
-- and each INSERT and UPDATE with the CHECK and UNIQUE constraints and triggers that
-- db/v2-migrations/0013 and 0015 put on it, except the ranges of wallets and holds in 0015, which
-- the functions check as they read a row; Hold has `createHold` and `adminRecharge`, Metering
-- `insertMeteringEvent`, Settle `settleHold` and `splitDeduction`, Sweep `sweepExpiredHolds`. A
-- thrown error is an error result, after which the transaction is rolled back. Transactions are
-- taken one after another, in the order in which their row locks and advisory locks let them
-- commit; the rows that SKIP LOCKED passes over are an argument of the sweep. Books has the
-- invariant and its proofs per operation and over any history; Replay, MeterReplay and
-- SettleReplay the repeated requests, with SettleTables for what a settlement leaves; Funds the
-- amounts, with Charge for what a settlement has passed.
--
-- Billing/Payments models apps/billing/src/payment-repo.ts and payment-attempts.ts over
-- `PaymentDb`, the tables of Billing beside calls, payments, reserved funds, attempts and request
-- keys, with the keys of db/v2-migrations/0016 and the keys, CHECKs and trigger of 0018. Admit has
-- `createHold` and `admitCall`, Create `createPayment` with its reads, Confirm `confirmPayment`,
-- Release `releaseExpiredFunds`, and Attempt the functions of payment-attempts.ts. The tables'
-- time and the service's own clock are apart, as in the source. A state `released` of funds is
-- called given_back. Books has the invariants, wallets that are backed by their rows (Keep,
-- Claims) and foreign keys (Links, Connects), and the histories of these operations, which Places,
-- Admits, Confirms and Settles prepare; Once has the confirmation that arrives again, Found the
-- payment that is read again and Ended the end of an attempt.
--
-- Gateway models apps/llm-gateway/src. Json has the values of JSON.parse; Pricing is pricing.ts,
-- Usage is usage.ts, Client is billing.ts and Turn is `checkAndHold`, `finalizeTurn` and `releaseHold`
-- of service.ts. The gateway calls the billing store through the three requests of Client: what the
-- service answers to a request is an argument there. Bounds, Prices, Chunks, Admission and Closing
-- hold proofs.
--
-- Authz models apps/authz/src. Crypto is crypto.ts, Limit is rate-limit.ts with the script that
-- Redis runs, Challenge and Store are repo.ts over the tables of db/v2-migrations/0012 and 0014,
-- Service is service.ts and App has the routes of app.ts that request a code, check one and log
-- out; they call the limiter first and the service where it lets them. Transactions are taken one
-- after another; where `findOrCreateEmailUser` runs several statements outside a transaction, the
-- login that another commits between them is an argument. What the cache of sessions answers is an
-- argument too. Slots is the abstract specification of the codes; Codes, Updates, Guesses,
-- Requests and Bound have its proofs, Limits and Allowed those on limits, SignIn and Login those
-- on sign-ins, Consumed, Steps and Logout those on histories, Limited and Checks those on routes.
--
-- Bounds and fuel: amounts are safe integers of JavaScript, checked where the source checks them
-- (`is_safe`, `safe_natural`, `safe_cents`), over unbounded numbers in between, as with BigInt. The
-- loop of the usage extractor runs on fuel, the length of its buffer, and each pass takes at least
-- one code unit off it. All other recursion is structural.
--
-- Parameters: ids, keys and texts are numbers that are only compared; SHA-256 (`Digests`, and the
-- key of an event), JSON.parse, the UUID pattern, the names of Object.prototype, fresh row ids and
-- the clock are arguments. So are HMAC, Unicode's lower case, domainToASCII and how Redis rounds a
-- time. Prices asks of a model's name whether Object.prototype has it, and Checks of the addresses
-- of its requests that normalizeEmail leaves a normal form as it is; nothing else is assumed of
-- them.
--
-- Not modelled: HTTP framing, zod schemas, logging, identity and the provider of the gateway, the
-- payment channels and the recovery of payments in apps/billing, the rest of apps/authz,
-- apps/authoring, apps/web, apps/creator-worker, the storage of the broker journal, scripts and
-- infrastructure.
mod Prelude
pub mod Invocation
pub mod Billing
pub mod Gateway
pub mod Authz
