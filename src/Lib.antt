-- ===== src/Lib.antt =====
-- IT Operations Hub, a modular monolith that keeps assets, tickets, incidents, maintenance and suppliers
-- of several tenants in one PostgreSQL database. Each module has application functions, which run in a
-- transaction of one tenant, read rows FOR UPDATE, check guards, write rows and events, or throw an
-- ApplicationError, and domain files with pure policies. This library models the functions named below,
-- from their source, as functions on tables, and proves what makes them correct.
--
-- The parts, and the files that model them:
--   Base           tests on numbers, lists, a table as a list of rows (Base/Table: find_where is a SELECT,
--                  update_where an UPDATE … WHERE), and texts with `trim` (Base/Trim).
--   Platform       packages/api-contracts/src/index.ts (Errors: the error table, errorResponse and
--                  assertVersion), the transaction of packages/persistence/src/index.ts (Tx), partial unique
--                  indexes (Index), packages/messaging/src/index.ts (Inbox: claim, processed, consume;
--                  InboxWays and InboxLaws: the ways a delivery goes, and what holds of them),
--                  packages/messaging/src/idempotency.ts (Idempotency: findPrevious and execute;
--                  IdempotencyLaws: a memory from scopes to responses, which they implement), and
--                  packages/auth/src/index.ts (Auth: authorize, the token of a request, the context that
--                  keeps its port, token and principal, and requireStepUpMfa). Logged is a table with the
--                  rows of a log.
--   Asset          modules/asset/application/lifecycle.ts. States is the transition table; Store the tables
--                  of database/migrations/asset; Lifecycle has transitionLifecycle, reserveAsset, assignAsset
--                  and transferAsset; Returns has requestReturn, cancelReturnRequest,
--                  readReturnRequestState and receiveReturn. Scoring is domain/scoring.ts: calculateRisk
--                  and the bands. Trace runs commands in sequence; the other files prove what they
--                  are named for.
--   Ticket         modules/ticket/application/ticket.ts: createTicket, transitionTicket, enrichTicket and
--                  readTicketReference. Invariant runs commands in sequence, and Endings says what they
--                  leave of a ticket that has ended.
--   Incident       modules/incident/domain/correlation.ts: scoreCorrelationCandidate, decideCorrelation and
--                  the tests of shared evidence.
--   Automation     modules/automation/domain/rules.ts. Patterns has the tests of keys, paths and regular
--                  expressions, Rules validateTrigger and the checks of a predicate, Conditions
--                  validateCondition and countNodes, Actions validateAction and validateRuleDefinition, Values
--                  readPath and compare, Evaluation evaluateCondition.
--   Maintenance    modules/maintenance: domain/warranty-state.ts (Dates, Warranty) and the orders of
--                  application/maintenance.ts (Orders): createMaintenance, updateMaintenanceClassification
--                  and transitionMaintenance.
--   Procurement    modules/procurement: domain/supplier.ts (SupplierStates) and, of application,
--                  transitionSupplier of suppliers.ts (Suppliers); purchase-orders.ts: normalizedSnapshot
--                  (Snapshots), the tables, snapshotFor and currentApproval (Orders), the hash of a snapshot
--                  and linkPurchaseOrderApproval (Approvals), executePurchaseOrderCommand (OrderCommands);
--                  goods-receipts.ts: replaceDraft (ReceiptDrafts), the tables (ReceiptTables) and
--                  executeGoodsReceiptCommand (Receipts). Moves, OrderMoves, Posting,
--                  ReceiptChanges, Soundness, OrderSteps, ReceiptSteps and ReceiptTrace carry what holds
--                  of an order between commands through each command; Sequences runs commands of both
--                  with what other parts write; IssueChecks reads the tests of an issue back as rows;
--                  ReceiptClaims and IssueLaws state what follows.
--   Identity       modules/identity/application: the tables (Tables), authorization.ts (Authorization:
--                  evaluateAuthorization with its joins) and privilege.ts (Privilege: grantTemporary and
--                  revokeTemporary). AuthorizationLaws, Allowances, Denials and PrivilegeLaws prove what
--                  the decision rests on.
--   Control        modules/control-plane/application: approval.ts (Approval: createApproval,
--                  decideApproval) and sla.ts (Sla: startSla, transitionSla), each with what holds over any
--                  commands (ApprovalLaws, SlaLaws).
--   Examples       concrete runs, at which the theorems are applied.
--
-- Modelling. A command takes the transaction, its input and the tables, and returns the tables
-- after it or an error; a throw rolls the transaction back, so that a failed command leaves the
-- tables as they were. A sequence of commands stands for any interleaving of transactions, since
-- rows are locked FOR UPDATE. Ids and codes are numbers, 0 the blank one; texts are lists of UTF-16
-- units; a text that names no state or command of a table is `none`, also one that names a property
-- which every object inherits, such as toString: the source lets that pass the look-up of a command or a
-- state, and refuses it at the next test with BUSINESS_RULE_VIOLATION. Versions are natural numbers,
-- checked against 2^53-1 where the source asks for a safe integer. A unique index is a test before an
-- insert, and fails as error 23505 does in the source. Times are numbers; the difference of two
-- onsets is an integer of milliseconds. A port of authentication has a number for an identity, and its
-- answer depends on the time. The day that a warranty is evaluated on, and the dates of its
-- records, are years 0 to 9999. No definition uses fuel: all recursion is on the structure of
-- lists.
--
-- Parameters: toLowerCase, NFKC, JSON.stringify, localeCompare and regular expressions of the language, the
-- arithmetic of doubles, SHA-256, the case of letters and the reading of an id as a UUID (Ground), the
-- handlers of `consume`, the ports of authentication and authorization, the work of an idempotent operation
-- and the hash of its request.
--
-- Not modelled: HTTP routes, the worker's timers, SQL text and the driver, the order in which a query
-- without ORDER BY returns its rows, where the commands ask for authorization, the checks of
-- event envelopes (an outbox row is taken to be accepted; `consume` is told whether an envelope is well
-- formed), the snapshots in the history of suppliers, foreign keys, the failure of the second transaction
-- of `consume`, the payloads of events of purchase orders and receipts, the warehouse, the time and the
-- evidence of a receipt, the keys of received units and exceptions, the triggers of receipts, the
-- history of an asset's maintenance, and the other modules: the automation engine, sessions, licences,
-- contracts, RFQs and invoices, network, problems, reporting, search and the agent.
pub mod Base
pub mod Platform
pub mod Asset
pub mod Ticket
pub mod Incident
pub mod Maintenance
pub mod Procurement
pub mod Automation
pub mod Control
pub mod Identity
mod Examples
