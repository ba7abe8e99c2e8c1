-- ===== src/Procurement/ReceiptDrafts.antt =====
-- modules/procurement/application/goods-receipts.ts: the draft of a goods receipt, read from the body of a request.
use itcenter.Base.{
  ℕ, ◌+◌, ◌*◌, Bool, true, false, not, ◌&&◌, ◌||◌, Option, none, some, List, [], ◌∷◌, ◌++◌, ltb,
  ◌==◌, length, any, is_empty, find_where, Text, trim, codes, text_eq,
}
use itcenter.Platform.Tx.{Tx, row_is}
use itcenter.Platform.Errors.{
  validation_error, business_rule_violation, goods_receipt_unit_identity_duplicate, internal_error,
  Result, ok, err, ◌>>=◌, ◌>>◌, throw_if, or_throw,
}
use itcenter.Base.Json.{
  Json, null, boolean, text, array, object, Items, nil, cons, Fields, items, lookup,
}
use itcenter.Procurement.Snapshots.{is_uuid, read_amount}
use itcenter.Procurement.Orders.{OrderLine, is_line_of}
use itcenter.Procurement.Approvals.{Ground}

pub data ReceiptState : Type 0 where
  draft posted cancelled : ReceiptState

abbrev pub is_draft : ReceiptState → Bool
is_draft draft = true
is_draft _ = false

abbrev pub is_posted : ReceiptState → Bool
is_posted posted = true
is_posted _ = false

pub record ReceiptUnit : Type 0 where
  pub id : ℕ
  pub identity_type : Text
  pub identity_value : Text
  pub serial_number : Text

-- A line with its received units, and an exception; the rows of these tables stand in their receipt.
pub record ReceiptLine : Type 0 where
  pub id : ℕ
  pub purchase_order_line_id : ℕ
  pub commercial_version : Option ℕ
  pub ordered_quantity_snapshot : ℕ
  pub previously_accepted_quantity_at_post : ℕ
  pub observed_quantity : ℕ
  pub accepted_quantity : ℕ
  pub rejected_or_damaged_quantity : ℕ
  pub item_type : Text
  pub item_reference_id : Option Text
  pub units : List ReceiptUnit

pub record ReceivingException : Type 0 where
  pub blocking : Bool
  -- `status='OPEN'`.
  pub is_open : Bool
  pub reason : Text

-- A row of `procurement.goods_receipts`.
pub record GoodsReceipt : Type 0 where
  pub tenant_id : ℕ
  pub id : ℕ
  pub state : ReceiptState
  pub aggregate_version : ℕ
  pub purchase_order_id : ℕ
  pub purchase_order_commercial_version : Option ℕ
  pub supplier_id : Text
  pub location_id : Option Text
  pub lines : List ReceiptLine
  pub exceptions : List ReceivingException

-- What was seen of the lines and units before: their order lines, the keys of their identities, and their
-- serial numbers in lower case.
pub record Seen : Type 0 where
  pub order_lines : List Text
  pub keys : List Text
  pub serials : List Text

abbrev pub has_text : List Text → Text → Bool
has_text ts t = any (λ u. text_eq u t) ts

-- `arr(value ?? [], …)`.
unfoldable pub items_or_empty : Option Json → Result Items
items_or_empty none = ok nil
items_or_empty (some null) = ok nil
items_or_empty (some (array vs)) = ok vs
items_or_empty (some _) = err validation_error

-- `value ?? 0`.
unfoldable pub or_zero : Option Json → Option Json
or_zero (some null) = none
or_zero o = o

unfoldable pub trimmed : Option Json → Option Text
trimmed (some (text t)) = some (trim t)
trimmed _ = none

-- `String(value ?? "")` of a text; another value names no row.
unfoldable pub text_of : Option Json → Option Text
text_of (some (text t)) = some t
text_of _ = none

abbrev pub or_else : Option Text → Text → Text
or_else none t = t
or_else (some u) t = u

abbrev pub is_model : Option Text → Bool
is_model none = false
is_model (some t) = is_uuid t

module _ (g : Ground) where
  -- `["ASSET", "ASSET_TRACKED"].includes(String(item_type).toUpperCase())`.
  abbrev pub is_tracked : Text → Bool
  is_tracked item_type = has_text (codes "ASSET" ∷ codes "ASSET_TRACKED" ∷ []) (g.upper item_type)

  -- The type of an identity, in upper case, or SERIAL.
  abbrev pub upper_or_serial : Option Text → Text
  upper_or_serial none = codes "SERIAL"
  upper_or_serial (some t) = g.upper t

  -- `${identityType}:${identityValue.toLocaleLowerCase()}`.
  abbrev pub dedupe : Text → Text → Text
  dedupe type value = type ++ (codes ":" ++ g.lower value)

  unfoldable pub unit_id : ℕ → Option Json → Result ℕ
  unit_id drawn (some (text t)) = or_throw (g.uuid_of t) internal_error
  unit_id drawn _ = ok drawn

  -- A unit, with the identities that were seen before and with it.
  unfoldable pub read_unit : ℕ → Fields → Seen → Result (ReceiptUnit × Seen)
  read_unit drawn fs seen = do
    let serial = or_else (trimmed (lookup (codes "serial_number") fs)) []
    let value = or_else (trimmed (lookup (codes "identity_value") fs)) serial
    let type = upper_or_serial (trimmed (lookup (codes "identity_type") fs))
    throw_if (is_empty value || is_empty serial) validation_error
    throw_if (has_text seen.keys (dedupe type value)) goods_receipt_unit_identity_duplicate
    throw_if (has_text seen.serials (g.lower serial)) goods_receipt_unit_identity_duplicate
    id ← unit_id drawn (lookup (codes "id") fs)
    ok (
      record { id = id; identity_type = type; identity_value = value; serial_number = serial },
      record seen { keys = dedupe type value ∷ seen.keys; serials = g.lower serial ∷ seen.serials },
    )

  unfoldable pub read_units : (ℕ → ℕ) → Items → Seen → Result (List ReceiptUnit × Seen)
  read_units draw nil seen = ok ([], seen)
  read_units draw (cons (object fs) vs) seen = do
    (u, seen1) ← read_unit (draw 0) fs seen
    (us, seen2) ← read_units (λ n. draw (n + 1)) vs seen1
    ok (u ∷ us, seen2)
  read_units draw (cons _ vs) seen = err validation_error

  -- `quantity(…, true)`.
  unfoldable pub read_quantity : Option Json → Result ℕ
  read_quantity o = or_throw (read_amount g.doubles 10000 o) validation_error

  unfoldable pub read_rejected : Option Json → Result ℕ
  read_rejected none = ok 0
  read_rejected o = read_quantity o

  -- The checks of the units of a line.
  unfoldable pub check_units : OrderLine → ℕ → ℕ → Result (Unit {0})
  check_units source accepted count = do
    let tracked = ltb 0 accepted && is_tracked source.content.item_type
    throw_if (tracked && not (is_model source.content.item_reference_id)) business_rule_violation
    throw_if (tracked && not (g.doubles.whole count == accepted)) business_rule_violation
    throw_if (ltb accepted (g.doubles.whole count)) validation_error

  abbrev pub is_pinned : Tx → GoodsReceipt → ℕ → OrderLine → Bool
  is_pinned tx r id l =
      row_is tx.tenant_id id l.tenant_id l.id
      && is_line_of tx.tenant_id r.purchase_order_id r.purchase_order_commercial_version l

  abbrev pub see_line : Text → Seen → Seen
  see_line t seen = record seen { order_lines = t ∷ seen.order_lines }

  unfoldable pub read_receipt_line :
      Tx → GoodsReceipt → List OrderLine → (ℕ → ℕ) → Fields → Seen → Result (ReceiptLine × Seen)
  read_receipt_line tx r rows draw fs seen = do
    let named = or_else (text_of (lookup (codes "purchase_order_line_id") fs)) []
    throw_if (has_text seen.order_lines named) validation_error
    observed ← read_quantity (lookup (codes "observed_quantity") fs)
    accepted ← read_quantity (lookup (codes "accepted_quantity") fs)
    rejected ← read_rejected (or_zero (lookup (codes "rejected_or_damaged_quantity") fs))
    throw_if (is_empty named || ltb observed (g.doubles.sum accepted rejected)) validation_error
    line_id ← or_throw (g.uuid_of named) internal_error
    source ← or_throw (find_where (is_pinned tx r line_id) rows) validation_error
    evidence ← items_or_empty (lookup (codes "evidence_document_refs") fs)
    vs ← items_or_empty (lookup (codes "units") fs)
    check_units source accepted (length (items vs))
    (units, seen') ← read_units (λ n. draw (n + 1)) vs (see_line named seen)
    ok (
      record {
        id = draw 0;
        purchase_order_line_id = source.id;
        commercial_version = source.commercial_version;
        ordered_quantity_snapshot = source.content.quantity;
        previously_accepted_quantity_at_post = 0;
        observed_quantity = observed;
        accepted_quantity = accepted;
        rejected_or_damaged_quantity = rejected;
        item_type = source.content.item_type;
        item_reference_id = source.content.item_reference_id;
        units = units;
      },
      seen',
    )

  -- The lines of a draft; each draws its ids from a range of its own.
  unfoldable pub read_receipt_lines :
      Tx → GoodsReceipt → List OrderLine → ℕ → Items → Seen → Result (List ReceiptLine)
  read_receipt_lines tx r rows n nil seen = ok []
  read_receipt_lines tx r rows n (cons (object fs) vs) seen = do
    (l, seen') ← read_receipt_line tx r rows (λ k. tx.uuid (n * 100000 + k)) fs seen
    ls ← read_receipt_lines tx r rows (n + 1) vs seen'
    ok (l ∷ ls)
  read_receipt_lines tx r rows n (cons _ vs) seen = err validation_error

  -- `e.blocking !== false`.
  abbrev pub is_blocking : Option Json → Bool
  is_blocking (some (boolean false)) = false
  is_blocking _ = true

  unfoldable pub read_exceptions : Items → Result (List ReceivingException)
  read_exceptions nil = ok []
  read_exceptions (cons (object fs) vs) = do
    let reason = or_else (trimmed (lookup (codes "reason") fs)) []
    throw_if (is_empty reason) validation_error
    es ← read_exceptions vs
    ok (
        record {
          blocking = is_blocking (lookup (codes "blocking") fs);
          is_open = true;
          reason = reason;
        }
        ∷ es)
  read_exceptions (cons _ vs) = err validation_error

  -- `arr(value, …)`.
  unfoldable pub items_of : Option Json → Result Items
  items_of (some (array vs)) = ok vs
  items_of _ = err validation_error

  -- `replaceDraft`: the receipt with the lines and exceptions of the body.
  unfoldable pub replace_draft : Tx → List OrderLine → Fields → GoodsReceipt → Result GoodsReceipt
  replace_draft tx rows body r = do
    vs ← items_of (lookup (codes "lines") body)
    throw_if (length (items vs) == 0 || ltb 200 (length (items vs))) validation_error
    lines ← read_receipt_lines tx r rows 1 vs (record { order_lines = []; keys = []; serials = [] })
    es ← items_or_empty (lookup (codes "exceptions") body)
    exceptions ← read_exceptions es
    ok (record r { lines = lines; exceptions = exceptions })
