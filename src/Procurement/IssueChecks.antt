-- ===== src/Procurement/IssueChecks.antt =====
-- What the tests of an issue of a purchase order say of the rows that they read.
use itcenter.Base.{
  ℕ, ◌≡◌, refl, sym, ap, ◌∙◌, subst, ◌⊎◌, inl, inr, Bool, true, ◌&&◌, Option, none, some, List,
  arith, ◌==◌, eq_of_==, Option-cases, find_where, find_where-holds, Text, codes, text_eq,
  text_eq_sound,
}
use itcenter.Platform.Tx.{row_is}
use itcenter.Platform.Errors.{ok, throw_if, or_throw}
use mathlib.Core.List.{Memᴰ}
use itcenter.Base.Members.{find_where-Memᴰ}
use itcenter.Base.Int.{pos}
use itcenter.Base.Json.{Json, finite, number, text, object, Fields, lookup}
use itcenter.Control.Approval.{ApprovalState, SourceType, ApprovalRequest, po_issue, is_request}
use itcenter.Procurement.SupplierStates.{SupplierState}
use itcenter.Procurement.Suppliers.{Supplier}
use itcenter.Procurement.Orders.{
  Lifecycle, draft, issued, on_hold, closed, cancelled, is_state, PurchaseOrder, Rfq, Quotation,
  OrderDb, same_text, same_source, may_be_ordered_from, is_supplier_ready, is_source_awarded,
  is_winning, current_approval,
}
use itcenter.Procurement.Approvals.{
  Ground, context_fields, binds_number, binds_text, binds_state, is_approved, is_gate_open,
  binds_issue, snapshot_hash,
}

-- The supplier of an order: a row of the tenant that is approved or preferred.
abbrev pub IsReady : (Text → ℕ) → ℕ → Text → List Supplier → Type 0
IsReady id_of tenant supplier suppliers =
    (s : Supplier) × Memᴰ s suppliers
    × (s.tenant_id ≡ tenant)
    × (s.id ≡ id_of supplier)
    × ((s.state ≡ SupplierState.approved) ⊎ (s.state ≡ SupplierState.preferred))

-- The RFQ that an order names was awarded to the quotation that it names, which was accepted and is of its
-- supplier.
abbrev pub IsAwarded : PurchaseOrder → OrderDb → Type 0
IsAwarded o db =
    (r : Rfq) × (q : Quotation) × (o.rfq_id ≡ some r.id)
    × (o.source_quotation_id ≡ some q.id)
    × Memᴰ r db.rfqs
    × (r.tenant_id ≡ o.tenant_id)
    × (r.is_awarded ≡ true)
    × (r.awarded_quotation_id ≡ some q.id)
    × Memᴰ q db.quotations
    × (q.tenant_id ≡ o.tenant_id)
    × (q.rfq_id ≡ r.id)
    × (q.is_accepted ≡ true)
    × (q.supplier_id ≡ o.supplier_id)

-- The request that is linked to an order is one for its issue and approved, and its context has the version
-- and the hash of the content of the order.
abbrev pub IsApproved : Ground → PurchaseOrder → OrderDb → Type 0
IsApproved g o db =
    (r : ApprovalRequest) × (fs : Fields) × (o.issue_approval_request_id ≡ some r.id)
    × Memᴰ r db.requests
    × (r.tenant_id ≡ o.tenant_id)
    × (r.source_id ≡ o.id)
    × (r.source_type ≡ po_issue)
    × (r.state ≡ ApprovalState.approved)
    × (r.context ≡ object fs)
    × (lookup (codes "aggregate_version") fs
        ≡ some (number (finite (pos (g.doubles.whole o.aggregate_version)))))
    × (lookup (codes "commercial_snapshot_hash") fs
        ≡ some (text (snapshot_hash g (some o.draft_snapshot))))

pub drafted : (s : Lifecycle) → is_state draft s ≡ true → s ≡ draft
drafted draft h = refl
drafted issued h = cc
drafted on_hold h = cc
drafted closed h = cc
drafted cancelled h = cc

may_be_ordered_from-state :
    (s : SupplierState)
    → may_be_ordered_from s ≡ true
    → (s ≡ SupplierState.approved) ⊎ (s ≡ SupplierState.preferred)
may_be_ordered_from-state SupplierState.approved h = inl refl
may_be_ordered_from-state SupplierState.preferred h = inr refl
may_be_ordered_from-state _ h = cc

pub is_supplier_ready-IsReady :
    (id_of : Text → ℕ) (tenant : ℕ) (supplier : Text) (suppliers : List Supplier)
    → is_supplier_ready id_of tenant supplier suppliers ≡ true
    → IsReady id_of tenant supplier suppliers
unfolding is_supplier_ready
is_supplier_ready-IsReady id_of tenant supplier suppliers h =
    elim (Option-cases
      (find_where (λ (s : Supplier). row_is tenant (id_of supplier) s.tenant_id s.id) suppliers)) [
        | inl e ↦ absurd (ground arith)
        | inr (s, e) ↦
            let own =
              find_where-holds (λ (s : Supplier). row_is tenant (id_of supplier) s.tenant_id s.id)
                suppliers s e in
            let t : may_be_ordered_from s.state ≡ true = ground arith in
            (
              s,
              find_where-Memᴰ (λ (s : Supplier). row_is tenant (id_of supplier) s.tenant_id s.id)
                  suppliers e,
              ground (arith, eq_of_== s.tenant_id tenant),
              ground (arith, eq_of_== s.id (id_of supplier)),
              may_be_ordered_from-state s.state t,
            )
      ]

same_text_sound : (o : Option Text) (t : Text) → same_text (some t) o ≡ true → o ≡ some t
same_text_sound none t h = cc
same_text_sound (some u) t h = ap some (sym (text_eq_sound t u h))

-- The row of the RFQ and of the quotation that the query reads.
abbrev is_rfq : PurchaseOrder → Text → Rfq → Bool
is_rfq o rfq r = r.tenant_id == o.tenant_id && text_eq r.id rfq

abbrev is_source : PurchaseOrder → Text → Rfq → Quotation → Bool
is_source o rfq r q =
    q.tenant_id == o.tenant_id
    && text_eq q.rfq_id rfq
    && same_text (some q.id) r.awarded_quotation_id
    && same_text (some q.id) o.source_quotation_id

is_winning-IsAwarded :
    (o : PurchaseOrder) (db : OrderDb) (rfq : Text) (r : Rfq) (q : Quotation)
    → o.rfq_id ≡ some rfq
    → find_where (is_rfq o rfq) db.rfqs ≡ some r
    → find_where (is_source o rfq r) db.quotations ≡ some q
    → (r.is_awarded && is_winning o q) ≡ true
    → IsAwarded o db
is_winning-IsAwarded o db rfq r q named f f' w =
    let h = find_where-holds (is_rfq o rfq) db.rfqs r f in
    let h' = find_where-holds (is_source o rfq r) db.quotations q f' in
    let own : r.id ≡ rfq = text_eq_sound r.id rfq (ground arith) in
    (
      r,
      q,
      named ∙ ap some (sym own),
      same_text_sound o.source_quotation_id q.id (ground arith),
      find_where-Memᴰ (is_rfq o rfq) db.rfqs f,
      ground (arith, eq_of_== r.tenant_id o.tenant_id),
      ground arith,
      same_text_sound r.awarded_quotation_id q.id (ground arith),
      find_where-Memᴰ (is_source o rfq r) db.quotations f',
      ground (arith, eq_of_== q.tenant_id o.tenant_id),
      text_eq_sound q.rfq_id rfq (ground arith) ∙ sym own,
      ground arith,
      text_eq_sound q.supplier_id o.supplier_id (ground arith),
    )

pub is_source_awarded-IsAwarded :
    (o : PurchaseOrder) (db : OrderDb)
    → is_source_awarded o db ≡ true
    → (o.rfq_id ≡ none) ⊎ IsAwarded o db
unfolding is_source_awarded
is_source_awarded-IsAwarded o db h = elim (Option-cases o.rfq_id) [
  | inl e ↦ inl e
  | inr (rfq, e) ↦ elim (Option-cases (find_where (is_rfq o rfq) db.rfqs)) [
    | inl f ↦ absurd (ground arith)
    | inr (r, f) ↦ elim (Option-cases (find_where (is_source o rfq r) db.quotations)) [
      | inl f' ↦ absurd (ground arith)
      | inr (q, f') ↦ inr (is_winning-IsAwarded o db rfq r q e f f' (ground arith))
    ]
  ]
]

approved-state : (r : ApprovalRequest) → is_approved r ≡ true → r.state ≡ ApprovalState.approved
approved-state r h = approved_only r.state h
  where
    approved_only : (s : ApprovalState) → binds_state s ≡ true → s ≡ ApprovalState.approved
    approved_only ApprovalState.approved h = refl
    approved_only _ h = cc

fields_of : (v : Json) (fs : Fields) → context_fields v ≡ some fs → v ≡ object fs
unfolding context_fields
fields_of (object fs') fs h = ground arith
fields_of _ fs h = cc

binds_number_sound :
    (n : ℕ) (o : Option Json) → binds_number n o ≡ true → o ≡ some (number (finite (pos n)))
unfolding binds_number
binds_number_sound n (some (number (finite (pos m)))) h =
    ap (λ (k : ℕ). some (number (finite (pos k)))) (eq_of_== m n h)
binds_number_sound n _ h = cc

binds_text_sound : (t : Text) (o : Option Json) → binds_text t o ≡ true → o ≡ some (text t)
unfolding binds_text
binds_text_sound t (some (text u)) h = ap (λ (v : Text). some (text v)) (text_eq_sound u t h)
binds_text_sound t _ h = cc

po_issue_only : (s : SourceType) → same_source s po_issue ≡ true → s ≡ po_issue
po_issue_only po_issue h = refl
po_issue_only _ h = cc

module _ (g : Ground) (o : PurchaseOrder) (db : OrderDb) where
  linked-IsApproved :
      (id : ℕ) (r : ApprovalRequest)
      → o.issue_approval_request_id ≡ some id
      → find_where (is_request o.tenant_id id) db.requests ≡ some r
      → (r.source_id == o.id && same_source r.source_type po_issue) ≡ true
      → is_gate_open (binds_issue g o) (some r) ≡ true
      → IsApproved g o db
  unfolding is_gate_open binds_issue
  linked-IsApproved id r named f w open_gate = elim (Option-cases (context_fields r.context)) [
    | inl e ↦ absurd (ground arith)
    | inr (fs, e) ↦
        let h = find_where-holds (is_request o.tenant_id id) db.requests r f in
        (
          r,
          fs,
          named ∙ ap some (sym (ground (arith, eq_of_== r.id id))),
          find_where-Memᴰ (is_request o.tenant_id id) db.requests f,
          ground (arith, eq_of_== r.tenant_id o.tenant_id),
          ground (arith, eq_of_== r.source_id o.id),
          po_issue_only r.source_type (ground arith),
          approved-state r (ground arith),
          fields_of r.context fs e,
          binds_number_sound (g.doubles.whole o.aggregate_version) _ (ground arith),
          binds_text_sound (snapshot_hash g (some o.draft_snapshot)) _ (ground arith),
        )
  ]

  pub is_gate_open-IsApproved :
      (a : Option ApprovalRequest)
      → current_approval po_issue o o.issue_approval_request_id db ≡ ok a
      → is_gate_open (binds_issue g o) a ≡ true
      → (o.issue_approval_request_id ≡ none) ⊎ IsApproved g o db
  unfolding current_approval or_throw throw_if
  is_gate_open-IsApproved a h gate = elim (Option-cases o.issue_approval_request_id) [
    | inl e ↦ inl e
    | inr (id, e) ↦ elim (Option-cases (find_where (is_request o.tenant_id id) db.requests)) [
      | inl f ↦ absurd (ground arith)
      | inr (r, f) ↦
          let k : a ≡ some r = ground arith in
          inr (
            linked-IsApproved id r e f (ground arith)
              (subst (λ x. is_gate_open (binds_issue g o) x ≡ true) k gate))
    ]
  ]
