-- ===== src/Procurement/Snapshots.antt =====
-- modules/procurement/application/purchase-orders.ts: what an order commits to, read from the body of a request.
use itcenter.Base.{
  ℕ, zero, suc, ◌+◌, ◌-◌, ◌*◌, Bool, true, false, not, ◌&&◌, ◌||◌, Option, none, some, List, [],
  ◌∷◌, ◌++◌, ltb, leb, ◌==◌, if◌then◌else◌, length, every, Text, is_blank, trim, codes,
}
use itcenter.Platform.Errors.{validation_error, Result, ok, err, ◌>>=◌, ◌>>◌, throw_if, or_throw}
use itcenter.Base.Int.{pos}
use itcenter.Base.Json.{
  finite, Json, null, number, text, array, object, Items, nil, cons, Fields, end, items, lookup,
}
use itcenter.Maintenance.Dates.{is_date}

-- Numbers that are not negative, each as the multiple of 2^-1074 that it is, with what the language computes
-- on them: a whole number, `a * b`, `a + b`, `a - b` where `b` is at most `a`, `Number.isInteger(a * k)`, and
-- `Math.round(a * 100) / 100`.
pub record Doubles : Type 0 where
  pub whole : ℕ → ℕ
  pub product : ℕ → ℕ → ℕ
  pub sum : ℕ → ℕ → ℕ
  pub difference : ℕ → ℕ → ℕ
  pub is_whole_times : ℕ → ℕ → Bool
  pub to_cents : ℕ → ℕ

-- A line of a commercial snapshot.
pub record SnapshotLine : Type 0 where
  pub line_number : ℕ
  pub item_type : Text
  pub description : Text
  pub item_reference_id : Option Text
  pub unit : Option Text
  pub quantity : ℕ
  pub unit_price : ℕ
  pub tax_amount : ℕ
  pub discount_amount : ℕ
  pub expected_delivery : Option Text
  pub total : ℕ

pub record Snapshot : Type 0 where
  pub supplier_id : Text
  pub procurement_request_id : Option Text
  pub rfq_id : Option Text
  pub source_quotation_id : Option Text
  pub currency : Text
  pub expected_delivery : Option Text
  pub payment_terms : Option Text
  pub delivery_terms : Option Text
  pub delivery_location : Option Text
  pub terms : Fields
  pub lines : List SnapshotLine

-- A text whose units pass the tests, one each.
unfoldable pub has_form : List (ℕ → Bool) → Text → Bool
has_form [] [] = true
has_form [] (c ∷ cs) = false
has_form (p ∷ ps) [] = false
has_form (p ∷ ps) (c ∷ cs) = p c && has_form ps cs

abbrev pub is_digit : ℕ → Bool
is_digit c = leb b'0' c && leb c b'9'

abbrev pub is_hex : ℕ → Bool
is_hex c = is_digit c || (leb b'a' c && leb c b'f') || (leb b'A' c && leb c b'F')

abbrev pub is_dash : ℕ → Bool
is_dash c = c == b'-'

unfoldable pub copies : {A : Type 0} → ℕ → A → List A
copies zero a = []
copies (suc n) a = a ∷ copies n a

-- `/^[0-9a-f]{8}-[0-9a-f]{4}-[1-8][0-9a-f]{3}-[89ab][0-9a-f]{3}-[0-9a-f]{12}$/i`.
unfoldable pub is_uuid : Text → Bool
is_uuid t =
    has_form
      (copies 8 is_hex
        ++ (is_dash
            ∷ (copies 4 is_hex
                ++ (is_dash
                    ∷ (λ c. leb b'1' c && leb c b'8')
                    ∷ (copies 3 is_hex
                        ++ (is_dash
                            ∷ (λ c.
                                c == b'8'
                                || c == b'9'
                                || c == b'a'
                                || c == b'b'
                                || c == b'A'
                                || c == b'B')
                            ∷ (copies 3 is_hex ++ (is_dash ∷ copies 12 is_hex))))))))
      t

-- The number that digits are.
unfoldable pub digits_value : ℕ → Text → ℕ
digits_value n [] = n
digits_value n (c ∷ cs) = digits_value (n * 10 + (c - b'0')) cs

-- `/^\d{4}-\d{2}-\d{2}$/`, of a day of the calendar.
unfoldable pub names_day : Text → Bool
names_day (a ∷ b ∷ c ∷ d ∷ h ∷ e ∷ f ∷ k ∷ g ∷ i ∷ []) =
    every is_digit (a ∷ b ∷ c ∷ d ∷ e ∷ f ∷ g ∷ i ∷ [])
    && is_dash h
    && is_dash k
    && is_date (record {
      year = digits_value 0 (a ∷ b ∷ c ∷ d ∷ []);
      month = digits_value 0 (e ∷ f ∷ []);
      day = digits_value 0 (g ∷ i ∷ []);
    })
names_day _ = false

-- `/^[A-Z]{3}$/`.
abbrev pub is_currency : Text → Bool
is_currency t = has_form (copies 3 (λ c. leb b'A' c && leb c b'Z')) t

-- `value ?? null` of a text that is a date; `none` is a value of another kind.
unfoldable pub read_day : Option Json → Option (Option Text)
read_day none = some none
read_day (some null) = some none
read_day (some (text t)) = if names_day t then some (some t) else none
read_day (some _) = none

-- A text of a length at most, or nothing.
unfoldable pub read_short_text : ℕ → Option Json → Option (Option Text)
read_short_text n none = some none
read_short_text n (some null) = some none
read_short_text n (some (text t)) = if leb (length t) n then some (some t) else none
read_short_text n (some _) = none

-- `typeof value === "string" ? value : null`.
unfoldable pub text_or_null : Option Json → Option Text
text_or_null (some (text t)) = some t
text_or_null _ = none

-- `value.trim()` of a text that is not blank then, and is short.
unfoldable pub read_trimmed : ℕ → Option Json → Option Text
read_trimmed n (some (text t)) =
    if not (is_blank t) && leb (length (trim t)) n then some (trim t) else none
read_trimmed n _ = none

-- `line.item_type ?? "GOODS"`.
unfoldable pub or_goods : Option Json → Option Json
or_goods none = some (text (codes "GOODS"))
or_goods (some null) = some (text (codes "GOODS"))
or_goods o = o

-- `nullableUuid`.
unfoldable pub nullable_uuid : Option Json → Result (Option Text)
nullable_uuid none = ok none
nullable_uuid (some null) = ok none
nullable_uuid (some (text [])) = ok none
nullable_uuid (some (text (c ∷ cs))) =
    if is_uuid (c ∷ cs) then ok (some (c ∷ cs)) else err validation_error
nullable_uuid (some _) = err validation_error

-- `body.terms ?? {}`.
unfoldable pub read_terms : Option Json → Result Fields
read_terms none = ok end
read_terms (some null) = ok end
read_terms (some (object fs)) = ok fs
read_terms (some _) = err validation_error

-- `(a === null) !== (b === null)`.
unfoldable pub is_one_given : Option Text → Option Text → Bool
is_one_given none none = false
is_one_given (some a) (some b) = false
is_one_given _ _ = true

module _ (doubles : Doubles) where
  -- An amount that is a finite number, not negative, whose multiple by `k` is whole.
  unfoldable pub read_amount : ℕ → Option Json → Option ℕ
  read_amount k (some (number (finite (pos n)))) =
      if doubles.is_whole_times n k then some n else none
  read_amount k _ = none

  -- An amount that may be absent, and is 0 then.
  unfoldable pub optional_amount : Option Json → Option ℕ
  optional_amount none = some 0
  optional_amount o = read_amount 100 o

  -- `line.quantity * line.unit_price + tax`.
  abbrev pub gross : ℕ → ℕ → ℕ → ℕ
  gross quantity unit_price tax = doubles.sum (doubles.product quantity unit_price) tax

  unfoldable pub read_line : ℕ → Fields → Result SnapshotLine
  read_line n fs = do
    description ← or_throw (read_trimmed 1000 (lookup (codes "description") fs)) validation_error
    quantity ← or_throw (read_amount 10000 (lookup (codes "quantity") fs)) validation_error
    throw_if (quantity == 0) validation_error
    unit_price ← or_throw (read_amount 100 (lookup (codes "unit_price") fs)) validation_error
    tax_amount ← or_throw (optional_amount (lookup (codes "tax_amount") fs)) validation_error
    discount_amount ←
        or_throw (optional_amount (lookup (codes "discount_amount") fs)) validation_error
    item_type ←
        or_throw (read_trimmed 80 (or_goods (lookup (codes "item_type") fs))) validation_error
    item_reference_id ←
        or_throw (read_short_text 120 (lookup (codes "item_reference_id") fs)) validation_error
    unit ← or_throw (read_short_text 40 (lookup (codes "unit") fs)) validation_error
    expected_delivery ← or_throw (read_day (lookup (codes "expected_delivery") fs)) validation_error
    throw_if (ltb (gross quantity unit_price tax_amount) discount_amount) validation_error
    ok (record {
      line_number = n;
      item_type = item_type;
      description = description;
      item_reference_id = item_reference_id;
      unit = unit;
      quantity = quantity;
      unit_price = unit_price;
      tax_amount = tax_amount;
      discount_amount = discount_amount;
      expected_delivery = expected_delivery;
      total =
          doubles.to_cents
            (doubles.difference (gross quantity unit_price tax_amount) discount_amount);
    })

  unfoldable pub read_lines : ℕ → Items → Result (List SnapshotLine)
  read_lines n nil = ok []
  read_lines n (cons (object fs) vs) = do
    line ← read_line n fs
    lines ← read_lines (n + 1) vs
    ok (line ∷ lines)
  read_lines n (cons _ vs) = err validation_error

  unfoldable pub read_all_lines : Option Json → Result (List SnapshotLine)
  read_all_lines (some (array vs)) = do
    throw_if (length (items vs) == 0 || ltb 200 (length (items vs))) validation_error
    read_lines 1 vs
  read_all_lines _ = err validation_error

  -- A text that passes a test.
  unfoldable pub read_text : (Text → Bool) → Option Json → Result Text
  read_text p (some (text t)) = if p t then ok t else err validation_error
  read_text p _ = err validation_error

  -- `normalizedSnapshot`.
  unfoldable pub normalized_snapshot : Fields → Result Snapshot
  normalized_snapshot body = do
    lines ← read_all_lines (lookup (codes "lines") body)
    supplier_id ← read_text is_uuid (lookup (codes "supplier_id") body)
    currency ← read_text is_currency (lookup (codes "currency") body)
    terms ← read_terms (lookup (codes "terms") body)
    rfq_id ← nullable_uuid (lookup (codes "rfq_id") body)
    source_quotation_id ← nullable_uuid (lookup (codes "source_quotation_id") body)
    expected_delivery ←
        or_throw (read_day (lookup (codes "expected_delivery") body)) validation_error
    throw_if (is_one_given rfq_id source_quotation_id) validation_error
    procurement_request_id ← nullable_uuid (lookup (codes "procurement_request_id") body)
    ok (record {
      supplier_id = supplier_id;
      procurement_request_id = procurement_request_id;
      rfq_id = rfq_id;
      source_quotation_id = source_quotation_id;
      currency = currency;
      expected_delivery = expected_delivery;
      payment_terms = text_or_null (lookup (codes "payment_terms") body);
      delivery_terms = text_or_null (lookup (codes "delivery_terms") body);
      delivery_location = text_or_null (lookup (codes "delivery_location") body);
      terms = terms;
      lines = lines;
    })
