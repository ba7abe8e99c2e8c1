-- ===== src/Procurement/OrderMoves.antt =====
-- What each command on a purchase order leaves as it was.
use itcenter.Base.{
  ℕ, ◌+◌, ◌≡◌, refl, ap, ◌∙◌, subst, ◌⊎◌, inl, Bool, true, false, not, ◌&&◌, Option, none, some, [],
  ◌∷◌, arith, if◌then◌else◌, any, includes, update_where, codes, text_eq,
}
use itcenter.Platform.Tx.{Tx}
use itcenter.Platform.Errors.{business_rule_violation, internal_error, ok, throw_if, bind-inv}
use itcenter.Platform.Errors.{>>-inv}
use mathlib.Core.List.{Memᴰ}
use itcenter.Base.Members.{keep-Memᴰ}
use itcenter.Procurement.Snapshots.{Snapshot, normalized_snapshot}
use itcenter.Control.Approval.{po_issue, po_amendment}
use itcenter.Base.Json.{lookup}
use itcenter.Procurement.Orders.{
  is_version_of, Lifecycle, draft, issued, on_hold, closed, cancelled, is_state, is_open_order,
  lifecycle_code, OrderCommand, create, update_draft, issue, hold, resume, amend, cancel, close,
  close_remainder, PurchaseOrder, OrderLine, OrderDb, is_order, is_line_of, is_unreceived,
  current_snapshot, current_approval, is_supplier_ready, is_source_awarded,
}
use itcenter.Procurement.Approvals.{
  Ground, OrderInput, merged, fields_or_none, snapshot_fields, version_number, is_gate_open,
  binds_issue, binds_amendment, request_id,
}
use itcenter.Procurement.OrderCommands.{
  names_approval, new_version, write_lines, replace_draft_lines, without_draft, with_snapshot,
  advance, move_order, update_order, append_version, update_draft_order, issue_row, issue_order,
  amend_row, amend_order, cancel_order, change_state, change_order,
}
use itcenter.Procurement.Moves.{is_live, Moved, write_lines-Memᴰ, replace_draft_lines-Memᴰ, drafted}

module _ (g : Ground) (tx : Tx) where
  update_draft_order-Moved :
      (i : OrderInput) (o : PurchaseOrder) (db db' : OrderDb)
      → update_draft_order g tx i o db ≡ ok db'
      → Moved tx.tenant_id o db db'
  unfolding update_draft_order
  update_draft_order-Moved i o db db' h =
      let (t, k) =
        >>-inv (throw_if (not (is_state draft o.lifecycle_state)) business_rule_violation) _ h in
      let (s, _, k1) =
        bind-inv
          (normalized_snapshot g.doubles (merged (snapshot_fields g o.draft_snapshot) i.body)) _
          k in
      let (lines, w, k2) = bind-inv (replace_draft_lines tx o.id s.lines db.lines) _ k1 in
      let e : db'
          ≡ update_order tx o.id (λ x. advance tx (with_snapshot s x))
              (record db { lines = lines }) =
        cc k2 in
      record {
        change = λ x. advance tx (with_snapshot s x);
        written = ap (λ (d : OrderDb). d.orders) e;
        kept = λ x. refl;
        same_lines = λ l m.
            replace_draft_lines-Memᴰ tx o.id s.lines db.lines lines w l
              (subst (λ (d : OrderDb). Memᴰ l d.lines) e m);
        steady = λ p q. absurd (drafted o.lifecycle_state t q);
      }

  append_version-written :
      (i : OrderInput) (o : PurchaseOrder) (s : Snapshot) (v : ℕ) (a : Option ℕ) (db db' : OrderDb)
      → append_version g tx i o s v a db ≡ ok db'
      → (db'.orders ≡ db.orders)
        × ((l : OrderLine)
            → Memᴰ l db'.lines
            → Memᴰ l db.lines ⊎ ((l.tenant_id ≡ tx.tenant_id) × (l.purchase_order_id ≡ o.id)))
  unfolding append_version
  append_version-written i o s v a db db' h =
      let (_, k) =
        >>-inv (throw_if (any (is_version_of tx.tenant_id o.id v) db.versions) internal_error) _
          h in
      let (lines, w, k1) = bind-inv (write_lines tx o.id (some v) s.lines db.lines) _ k in
      let e : db'
          ≡ record db { versions = new_version g tx i o s v a ∷ db.versions; lines = lines } =
        cc k1 in
      (
        ap (λ (d : OrderDb). d.orders) e,
        λ l m.
            write_lines-Memᴰ tx o.id (some v) s.lines db.lines lines w l
              (subst (λ (d : OrderDb). Memᴰ l d.lines) e m),
      )

  issue_order-Moved :
      (i : OrderInput) (o : PurchaseOrder) (db db' : OrderDb)
      → issue_order g tx i o db ≡ ok db'
      → Moved tx.tenant_id o db db'
  unfolding issue_order
  issue_order-Moved i o db db' h =
      let (t, k) =
        >>-inv (throw_if (not (is_state draft o.lifecycle_state)) business_rule_violation) _ h in
      let (_, k1) =
        >>-inv
          (throw_if (not (is_supplier_ready g.id_of tx.tenant_id o.supplier_id db.suppliers))
            business_rule_violation)
          _ k in
      let (_, k2) = >>-inv (throw_if (not (is_source_awarded o db)) business_rule_violation) _ k1 in
      let (approval, _, k3) =
        bind-inv (current_approval po_issue o o.issue_approval_request_id db) _ k2 in
      let (_, k4) =
        >>-inv (throw_if (not (is_gate_open (binds_issue g o) approval)) business_rule_violation) _
          k3 in
      let (d, w, k5) =
        bind-inv (append_version g tx i o o.draft_snapshot 1 (request_id approval) db) _ k4 in
      let (same, news) =
        append_version-written i o o.draft_snapshot 1 (request_id approval) db d w in
      let e : db'
          ≡ update_order tx o.id (issue_row g tx)
              (record d { lines = without_draft tx.tenant_id o.id d.lines }) =
        cc k5 in
      record {
        change = issue_row g tx;
        written =
            ap (λ (d : OrderDb). d.orders) e
            ∙ ap (update_where (is_order tx.tenant_id o.id) (issue_row g tx)) same;
        kept = λ x. refl;
        same_lines = λ l m. news l (
            (keep-Memᴰ (λ k. not (is_line_of tx.tenant_id o.id none k)) d.lines
              (subst (λ (d : OrderDb). Memᴰ l d.lines) e m)).0);
        steady = λ p q. absurd (drafted o.lifecycle_state t q);
      }

  amend_order-Moved :
      (i : OrderInput) (o : PurchaseOrder) (db db' : OrderDb)
      → amend_order g tx i o db ≡ ok db'
      → Moved tx.tenant_id o db db'
  unfolding amend_order throw_if
  amend_order-Moved i o db db' h =
      let current = current_snapshot o db in
      let base = version_number g o.current_commercial_version in
      let (t, k) =
        >>-inv
          (throw_if (not (is_open_order o.lifecycle_state && is_unreceived o))
            business_rule_violation)
          _ h in
      let (s, _, k1) =
        bind-inv (normalized_snapshot g.doubles (merged (fields_or_none g current) i.body)) _ k in
      let (_, k2) =
        >>-inv (throw_if (not (text_eq s.supplier_id o.supplier_id)) business_rule_violation) _
          k1 in
      let (approval, _, k3) =
        bind-inv (current_approval po_amendment o o.amendment_approval_request_id db) _ k2 in
      let (_, k4) =
        >>-inv
          (throw_if (not (names_approval g (lookup (codes "approval_request_id") i.body) approval))
            business_rule_violation)
          _ k3 in
      let (_, k5) =
        >>-inv
          (throw_if (not (is_gate_open (binds_amendment g o base current s) approval))
            business_rule_violation)
          _ k4 in
      let (d, w, k6) =
        bind-inv (append_version g tx i o s (base + 1) (request_id approval) db) _ k5 in
      let (same, news) = append_version-written i o s (base + 1) (request_id approval) db d w in
      let e : db' ≡ update_order tx o.id (amend_row g tx (base + 1)) d = cc k6 in
      record {
        change = amend_row g tx (base + 1);
        written =
            ap (λ (d : OrderDb). d.orders) e
            ∙ ap (update_where (is_order tx.tenant_id o.id) (amend_row g tx (base + 1))) same;
        kept = λ x. refl;
        same_lines = λ l m. news l (subst (λ (d : OrderDb). Memᴰ l d.lines) e m);
        steady = λ p q. absurd (ground arith);
      }

  cancel_order-Moved :
      (o : PurchaseOrder) (db db' : OrderDb)
      → cancel_order g tx o db ≡ ok db'
      → Moved tx.tenant_id o db db'
  unfolding cancel_order throw_if
  cancel_order-Moved o db db' h =
      let lines =
        if is_state draft o.lifecycle_state
        then without_draft tx.tenant_id o.id db.lines
        else db.lines in
      let (_, k) =
        >>-inv
          (throw_if
            (not (includes lifecycle_code (draft ∷ issued ∷ on_hold ∷ []) o.lifecycle_state))
            business_rule_violation)
          _ h in
      let (t, k1) = >>-inv (throw_if (not (is_unreceived o)) business_rule_violation) _ k in
      let e : db' ≡ update_order tx o.id (move_order tx cancelled) (record db { lines = lines }) =
        cc k1 in
      record {
        change = move_order tx cancelled;
        written = ap (λ (d : OrderDb). d.orders) e;
        kept = λ x. refl;
        same_lines = λ l m. inl (
            undrafted l (is_state draft o.lifecycle_state)
              (subst (λ (d : OrderDb). Memᴰ l d.lines) e m));
        steady = λ p q. absurd (ground arith);
      }
    where
      undrafted :
          (l : OrderLine) (b : Bool)
          → Memᴰ l (if b then without_draft tx.tenant_id o.id db.lines else db.lines)
          → Memᴰ l db.lines
      undrafted l true m = (keep-Memᴰ (λ k. not (is_line_of tx.tenant_id o.id none k)) db.lines m).0
      undrafted l false m = m

  change_state-Moved :
      (test : Bool) (s : Lifecycle) (o : PurchaseOrder) (db db' : OrderDb)
      → is_live s ≡ true
      → change_state g tx test s o db ≡ ok db'
      → Moved tx.tenant_id o db db'
  unfolding change_state
  change_state-Moved test s o db db' live h =
      let (_, k) = >>-inv (throw_if (not test) business_rule_violation) _ h in
      let e : db' ≡ update_order tx o.id (move_order tx s) db = cc k in
      record {
        change = move_order tx s;
        written = ap (λ (d : OrderDb). d.orders) e;
        kept = λ x. refl;
        same_lines = λ l m. inl (subst (λ (d : OrderDb). Memᴰ l d.lines) e m);
        steady = λ p q. (ap (λ (d : OrderDb). d.lines) e, refl, live);
      }

  pub change_order-Moved :
      (i : OrderInput) (c : OrderCommand) (o : PurchaseOrder) (db db' : OrderDb)
      → change_order g tx i c o db ≡ ok db'
      → Moved tx.tenant_id o db db'
  unfolding change_order
  change_order-Moved i create o db db' h = cc
  change_order-Moved i update_draft o db db' h = update_draft_order-Moved i o db db' h
  change_order-Moved i issue o db db' h = issue_order-Moved i o db db' h
  change_order-Moved i hold o db db' h = change_state-Moved _ on_hold o db db' refl h
  change_order-Moved i resume o db db' h = change_state-Moved _ issued o db db' refl h
  change_order-Moved i amend o db db' h = amend_order-Moved i o db db' h
  change_order-Moved i cancel o db db' h = cancel_order-Moved o db db' h
  change_order-Moved i close o db db' h = change_state-Moved _ closed o db db' refl h
  change_order-Moved i close_remainder o db db' h = change_state-Moved _ closed o db db' refl h
