-- ===== src/Procurement/ReceiptTables.antt =====
-- modules/procurement/application/goods-receipts.ts: the tables of goods receipts, and the join of their lines with those of orders.
use itcenter.Base.{ℕ, Bool, List, [], ◌∷◌, ◌++◌, map, leb, ◌==◌, if◌then◌else◌, keep, Text, codes}
use itcenter.Platform.Tx.{row_is}
use itcenter.Base.Json.{Fields}
use itcenter.Procurement.Orders.{OrderLine, OrderDb}
use itcenter.Procurement.ReceiptDrafts.{ReceiptLine, GoodsReceipt}

pub data ReceiptCommand : Type 0 where
  create_receipt update_receipt post_receipt cancel_receipt : ReceiptCommand

abbrev pub command_name : ReceiptCommand → Text
command_name create_receipt = codes "GOODS_RECEIPT.CREATE"
command_name update_receipt = codes "GOODS_RECEIPT.UPDATE_DRAFT"
command_name post_receipt = codes "GOODS_RECEIPT.POST"
command_name cancel_receipt = codes "GOODS_RECEIPT.CANCEL"

pub record ReceiptInput : Type 0 where
  pub command : ReceiptCommand
  pub id : ℕ
  pub expected_version : ℕ
  pub actor_id : ℕ
  pub reason : Text
  pub body : Fields

-- A row of `procurement.goods_receipt_history`, without its snapshots.
pub record ReceiptHistory : Type 0 where
  pub tenant_id : ℕ
  pub goods_receipt_id : ℕ
  pub aggregate_version : ℕ
  pub action : ReceiptCommand
  pub actor_id : ℕ
  pub reason : Text

-- A row of `procurement.receipt_assetization_state`, and what is read of `asset.models`.
pub record Assetization : Type 0 where
  pub tenant_id : ℕ
  pub received_unit_id : ℕ
  pub goods_receipt_id : ℕ

pub record AssetModel : Type 0 where
  pub tenant_id : ℕ
  pub id : Text

pub record ReceiptDb : Type 0 where
  pub order_db : OrderDb
  pub receipts : List GoodsReceipt
  pub receipt_history : List ReceiptHistory
  pub assetizations : List Assetization
  pub models : List AssetModel

abbrev pub is_receipt : ℕ → ℕ → GoodsReceipt → Bool
is_receipt tenant id r = row_is tenant id r.tenant_id r.id

-- A quantity by the id of an order line, 0 where there is none.
unfoldable pub quantity_of : ℕ → List (ℕ × ℕ) → ℕ
quantity_of id [] = 0
quantity_of id ((k, q) ∷ qs) = let rest = quantity_of id qs in if k == id then q else rest

-- The join of the lines of a receipt with the order lines that they name.
abbrev pub is_named : ℕ → ReceiptLine → OrderLine → Bool
is_named tenant l k = row_is tenant l.purchase_order_line_id k.tenant_id k.id

abbrev pub pairs_of : ReceiptLine → List OrderLine → List (ReceiptLine × OrderLine)
pairs_of l ks = map (λ k. (l, k)) ks

unfoldable pub joined : ℕ → List OrderLine → List ReceiptLine → List (ReceiptLine × OrderLine)
joined tenant rows [] = []
joined tenant rows (l ∷ ls) = pairs_of l (keep (is_named tenant l) rows) ++ joined tenant rows ls

-- `ORDER BY purchase_order_line_id`; the numbers of ids stand in the order of the ids.
unfoldable pub insert_line : ReceiptLine → List ReceiptLine → List ReceiptLine
insert_line l [] = l ∷ []
insert_line l (k ∷ ks) =
    let rest = insert_line l ks in
    if leb l.purchase_order_line_id k.purchase_order_line_id then l ∷ k ∷ ks else k ∷ rest

unfoldable pub in_order : List ReceiptLine → List ReceiptLine
in_order [] = []
in_order (l ∷ ls) = insert_line l (in_order ls)
