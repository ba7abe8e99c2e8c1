-- ===== src/Examples/Orders.antt =====
-- An order that is created, issued and received in full, and the theorems of orders at it.
use itcenter.Base.{
  ℕ, ◌+◌, ◌-◌, ◌*◌, ◌%◌, ◌≤◌, ◌<◌, ◌≡◌, refl, true, false, none, some, List, [], ◌∷◌, arith,
  find_where, update_where, is_blank, is_space, trim, trim_start, codes, text_eq,
}
use itcenter.Platform.Tx.{Tx}
use itcenter.Platform.Errors.{ErrorCode, err, throw_if, or_throw, assert_version}
use mathlib.Core.List.{Memᴰ}
use Prim.Native.String.{String}
use itcenter.Base.Int.{pos}
use itcenter.Base.Json.{
  Json, finite, text, number, array, object, nil, cons, Fields, end, field, lookup,
}
use itcenter.Procurement.SupplierStates.{approved}
use itcenter.Procurement.Suppliers.{Supplier}
use itcenter.Procurement.Snapshots.{
  Snapshot, has_form, copies, is_uuid, digits_value, names_day, read_day, read_short_text,
  text_or_null, read_trimmed, or_goods, nullable_uuid, read_terms, is_one_given, read_amount,
  optional_amount, read_line, read_lines, read_all_lines, read_text, normalized_snapshot,
}
use itcenter.Procurement.Orders.{
  draft, OrderCommand, create, issue, amend, cancel, PurchaseOrder, CommercialVersion, OrderDb,
  is_order, is_version_of, is_supplier_ready, is_source_awarded, current_approval,
}
use itcenter.Procurement.Approvals.{Ground, OrderInput, is_gate_open}
use itcenter.Procurement.OrderCommands.{
  new_order, new_lines, write_lines, replace_draft_lines, append_version, create_order, issue_order,
  issue_row, change_order, insert_history, command_order, by_command, execute_order_command,
}
use itcenter.Procurement.Moves.{is_live}
use itcenter.Procurement.IssueChecks.{IsReady, IsAwarded, IsApproved}
use itcenter.Procurement.Orders.{issued}
use itcenter.Base.{◌⊎◌}
use itcenter.Procurement.IssueLaws.{issue-checked}
use itcenter.Procurement.ReceiptDrafts.{
  items_or_empty, or_zero, trimmed, text_of, unit_id, read_unit, read_units, read_quantity,
  read_rejected, check_units, read_receipt_line, read_receipt_lines, read_exceptions, items_of,
  replace_draft,
}
use itcenter.Procurement.Receipts.{
  accept_lines, check_tracked, receive_order, assetize, tracked_units, post, id_or, start_receipt,
  change_receipt, add_history, command_receipt, by_receipt_command, execute_receipt_command,
}
use itcenter.Procurement.ReceiptTables.{
  create_receipt, post_receipt, ReceiptInput, ReceiptDb, quantity_of, joined, insert_line, in_order,
}
use itcenter.Procurement.Sequences.{Call, order_command, receipt_command, step, run}
use itcenter.Procurement.ReceiptClaims.{run-within, run-fully_received, run-posted}

computed : Unit {0}
unfolding lookup has_form copies is_uuid digits_value names_day read_day read_short_text
    text_or_null read_trimmed or_goods nullable_uuid read_terms is_one_given read_amount
    optional_amount read_line read_lines read_all_lines read_text normalized_snapshot
    is_supplier_ready is_source_awarded current_approval is_gate_open new_lines write_lines
    replace_draft_lines append_version create_order issue_order change_order insert_history
    command_order by_command execute_order_command items_or_empty or_zero trimmed text_of unit_id
    read_unit read_units read_quantity read_rejected check_units read_receipt_line
    read_receipt_lines read_exceptions items_of replace_draft quantity_of joined insert_line
    in_order accept_lines check_tracked receive_order assetize tracked_units post id_or
    start_receipt change_receipt add_history command_receipt by_receipt_command
    execute_receipt_command step run find_where update_where throw_if or_throw assert_version
    text_eq trim trim_start is_blank is_space
computed = tt

positive : (a b : ℕ) → b < a → 0 < a - b
positive a b h = omega arith

-- Whole numbers, and texts that are digits.
abbrev ground_example : Ground
ground_example = record {
  doubles = record {
    whole = λ n. n;
    product = λ a b. a * b;
    sum = λ a b. a + b;
    difference = λ a b. a - b;
    is_whole_times = λ n k. true;
    to_cents = λ n. n;
  };
  language = record {
    stringify = λ v. [];
    is_regex = λ t. false;
    regex_test = λ t u. false;
    locale_before = λ t u. false;
  };
  sha256 = λ t. t;
  id_of = λ t. digits_value 0 t % 1000;
  uuid_of = λ t. some (digits_value 0 t);
  upper = λ t. t;
  lower = λ t. t;
}

abbrev at : ℕ → Tx
at n = record { tenant_id = 1; now = n; uuid = λ k. n * 1000 + k }

abbrev words : String → Json
words s = text (codes s)

abbrev whole : ℕ → Json
whole n = number (finite (pos n))

abbrev order_body : Fields
order_body = field (codes "supplier_id") (words "00000000-0000-1000-8000-000000000005") (
    field (codes "currency") (words "EUR") (
      field (codes "lines")
        (array (
          cons
            (object (
              field (codes "description") (words "Cable")
                (field (codes "quantity") (whole 4) (field (codes "unit_price") (whole 2) end))))
            nil))
        end))

abbrev ordering : OrderCommand → OrderInput
ordering c = record {
  command = c;
  id = 1000;
  expected_version = 1;
  actor_id = 2;
  reason = codes "Cables";
  body = order_body;
}

abbrev receipt_body : Fields
receipt_body = field (codes "purchase_order_id") (words "1000") (
    field (codes "lines")
      (array (
        cons
          (object (
            field (codes "purchase_order_line_id") (words "2001") (
              field (codes "observed_quantity") (whole 4)
                (field (codes "accepted_quantity") (whole 4) end))))
          nil))
      end)

abbrev receiving : ReceiptInput
receiving = record {
  command = create_receipt;
  id = 3000;
  expected_version = 1;
  actor_id = 2;
  reason = [];
  body = receipt_body;
}

abbrev calls : List Call
calls =
    order_command (at 1) (ordering create)
    ∷ order_command (at 2) (ordering issue)
    ∷ receipt_command (at 3) receiving
    ∷ receipt_command (at 4) (record receiving { command = post_receipt })
    ∷ []

abbrev vendor : Supplier
vendor = record {
  tenant_id = 1;
  id = 5;
  state = approved;
  tax_identifier = none;
  bank_info_reference = none;
  updated_at = 0;
  version = 1;
}

abbrev start : ReceiptDb
start = record {
  order_db = record {
    orders = [];
    versions = [];
    lines = [];
    history = [];
    suppliers = vendor ∷ [];
    rfqs = [];
    quotations = [];
    requests = [];
  };
  receipts = [];
  receipt_history = [];
  assetizations = [];
  models = [];
}

abbrev final : ReceiptDb
final = run ground_example calls start

run-within_example : quantity_of 2001 ((2001, 4) ∷ []) ≤ 4
unfolding computed
run-within_example =
    run-within ground_example calls start refl refl 1 1000 _ refl _ (Memᴰ.head refl) refl

run-fully_received_example : quantity_of 2001 ((2001, 4) ∷ []) ≡ 4
unfolding computed
run-fully_received_example =
    run-fully_received ground_example calls start positive refl refl 1 1000 _ refl refl _
      (Memᴰ.head refl) refl

run-posted_example :
    ((o : PurchaseOrder) × (find_where (is_order 1 1000) final.order_db.orders ≡ some o)
      × (is_live o.lifecycle_state ≡ true))
    × ((k : ErrorCode) × (execute_order_command ground_example
            (at 5)
            (ordering cancel)
            final.order_db
          ≡ err k))
    × ((k : ErrorCode) × (execute_order_command ground_example
            (at 5)
            (ordering amend)
            final.order_db
          ≡ err k))
unfolding computed
run-posted_example =
    run-posted ground_example calls start refl refl (at 5) (ordering cancel) 3000 _ refl refl refl

abbrev ordered : Snapshot
ordered = record {
  supplier_id = codes "00000000-0000-1000-8000-000000000005";
  procurement_request_id = none;
  rfq_id = none;
  source_quotation_id = none;
  currency = codes "EUR";
  expected_delivery = none;
  payment_terms = none;
  delivery_terms = none;
  delivery_location = none;
  terms = end;
  lines =
      (record {
        line_number = 1;
        item_type = codes "GOODS";
        description = codes "Cable";
        item_reference_id = none;
        unit = none;
        quantity = 4;
        unit_price = 2;
        tax_amount = 0;
        discount_amount = 0;
        expected_delivery = none;
        total = 8;
      })
      ∷ [];
}

abbrev drafted_order : PurchaseOrder
drafted_order = new_order ground_example (at 1) (ordering create) ordered

abbrev created : OrderDb
created = (run ground_example (order_command (at 1) (ordering create) ∷ []) start).order_db

abbrev placed : OrderDb
placed =
    (step ground_example (order_command (at 2) (ordering issue))
      (record start { order_db = created })).order_db

issue-checked_example :
    (o : PurchaseOrder) × (find_where (is_order 1 1000) created.orders ≡ some o)
    × (o.lifecycle_state ≡ draft)
    × IsReady ground_example.id_of 1 o.supplier_id created.suppliers
    × ((o.rfq_id ≡ none) ⊎ IsAwarded o created)
    × ((o.issue_approval_request_id ≡ none) ⊎ IsApproved ground_example o created)
    × (issue_row ground_example (at 2) drafted_order ≡ record o {
      lifecycle_state = issued;
      current_commercial_version = some 1;
      issued_at = some 2;
      aggregate_version = o.aggregate_version + 1;
      updated_at = 2;
    })
    × (find_where (is_order 1 1000) placed.orders
        ≡ some (issue_row ground_example (at 2) drafted_order))
    × ((v : CommercialVersion) × (find_where (is_version_of 1 1000 1) placed.versions ≡ some v)
        × (v.snapshot ≡ o.draft_snapshot))
unfolding computed
issue-checked_example =
    issue-checked ground_example (at 2) (ordering issue) created placed
      (issue_row ground_example (at 2) drafted_order) refl refl
