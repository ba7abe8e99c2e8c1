-- ===== src/Procurement/Sequences.antt =====
-- Sequences of commands on purchase orders and goods receipts.
use itcenter.Base.{ℕ, ◌≡◌, ap, inl, inr, List, [], ◌∷◌, find_where}
use itcenter.Platform.Tx.{Tx}
use itcenter.Platform.Errors.{Result-cases, Result, ok, err}
use itcenter.Control.Approval.{ApprovalRequest, SourceType}
use itcenter.Procurement.Suppliers.{Supplier}
use itcenter.Procurement.Orders.{OrderDb, Rfq, Quotation, is_order}
use itcenter.Procurement.Approvals.{Ground, OrderInput, link_approval}
use itcenter.Procurement.OrderCommands.{execute_order_command}
use itcenter.Procurement.OrderSteps.{Keeps, execute_order_command-Keeps, link_approval-Keeps}
use itcenter.Procurement.Receipts.{execute_receipt_command}
use itcenter.Procurement.ReceiptTables.{ReceiptInput, ReceiptDb, AssetModel, is_receipt}
use itcenter.Procurement.ReceiptTrace.{IsConsistent, execute_receipt_command-IsConsistent}

-- A command, or new contents of the tables that other parts write.
pub data Call : Type 0 where
  order_command : Tx → OrderInput → Call
  approval_link : Tx → ℕ → ℕ → SourceType → Call
  receipt_command : Tx → ReceiptInput → Call
  elsewhere :
      List Supplier → List Rfq → List Quotation → List ApprovalRequest → List AssetModel → Call

-- A command that throws leaves the tables as they were.
abbrev pub after_order {ℓ} : {A : Type ℓ} → ReceiptDb → Result (OrderDb × A) → ReceiptDb
after_order db (ok (d, r)) = record db { order_db = d }
after_order db (err e) = db

abbrev pub after_link : ReceiptDb → Result OrderDb → ReceiptDb
after_link db (ok d) = record db { order_db = d }
after_link db (err e) = db

abbrev pub after_receipt {ℓ} : {A : Type ℓ} → ReceiptDb → Result (ReceiptDb × A) → ReceiptDb
after_receipt db (ok (d, r)) = d
after_receipt db (err e) = db

module _ (g : Ground) where
  unfoldable pub step : Call → ReceiptDb → ReceiptDb
  step (order_command tx i) db = after_order db (execute_order_command g tx i db.order_db)
  step (approval_link tx order request s) db =
      after_link db (link_approval g tx order request s db.order_db)
  step (receipt_command tx i) db = after_receipt db (execute_receipt_command g tx i db)
  step (elsewhere suppliers rfqs quotations requests models) db = record db {
    order_db = record (db.order_db) {
      suppliers = suppliers;
      rfqs = rfqs;
      quotations = quotations;
      requests = requests;
    };
    models = models;
  }

  unfoldable pub run : List Call → ReceiptDb → ReceiptDb
  run [] db = db
  run (c ∷ cs) db = run cs (step c db)

  kept-IsConsistent :
      (db : ReceiptDb) (d : OrderDb)
      → Keeps g db.order_db d
      → IsConsistent g db
      → IsConsistent g (record db { order_db = d })
  kept-IsConsistent db d k s = record {
    sound = k.sound s.sound;
    posted_counted = λ tenant id r found p.
        let (o, f, c) = s.posted_counted tenant id r found p in
        k.counted tenant r.purchase_order_id o f c;
  }

  step-IsConsistent : (c : Call) (db : ReceiptDb) → IsConsistent g db → IsConsistent g (step c db)
  unfolding step
  step-IsConsistent (order_command tx i) db s =
      elim (Result-cases (execute_order_command g tx i db.order_db)) [
        | inl ((d, r), e) ↦
            rw e (kept-IsConsistent db d (execute_order_command-Keeps g tx i db.order_db d r e) s)
        | inr (k, e) ↦ rw e s
      ]
  step-IsConsistent (approval_link tx order request a) db s =
      elim (Result-cases (link_approval g tx order request a db.order_db)) [
        | inl (d, e) ↦
            rw e
              (kept-IsConsistent db d (link_approval-Keeps g tx order request a db.order_db d e) s)
        | inr (k, e) ↦ rw e s
      ]
  step-IsConsistent (receipt_command tx i) db s =
      elim (Result-cases (execute_receipt_command g tx i db)) [
        | inl ((d, r), e) ↦ rw e (execute_receipt_command-IsConsistent g tx i db d r e s)
        | inr (k, e) ↦ rw e s
      ]
  step-IsConsistent (elsewhere suppliers rfqs quotations requests models) db s = record {
    sound = s.sound;
    posted_counted = s.posted_counted;
  }

  pub run-IsConsistent :
      (cs : List Call) (db : ReceiptDb) → IsConsistent g db → IsConsistent g (run cs db)
  unfolding run
  run-IsConsistent [] db s = s
  run-IsConsistent (c ∷ cs) db s = run-IsConsistent cs (step c db) (step-IsConsistent c db s)

  -- Before the first order and the first receipt.
  pub empty-IsConsistent :
      (db : ReceiptDb) → db.order_db.orders ≡ [] → db.receipts ≡ [] → IsConsistent g db
  unfolding find_where
  empty-IsConsistent db e e' = record {
    sound = λ tenant id o found. cc (found, ap (find_where (is_order tenant id)) e);
    posted_counted = λ tenant id r found p. cc (found, ap (find_where (is_receipt tenant id)) e');
  }
