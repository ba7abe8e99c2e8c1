-- ===== src/Maintenance/Warranty.antt =====
-- modules/maintenance/domain/warranty-state.ts: what the warranty records of an asset say of a day.
use itcenter.Base.{
  ℕ, Bool, false, not, ◌||◌, Option, none, some, List, [], ◌∷◌, ltb, leb, if◌then◌else◌, any, keep,
  is_empty,
}
use itcenter.Maintenance.Dates.{Date, valid_date, date_key, days_between}
use itcenter.Base.Int.{ℤ, leℤ}

pub data WarrantyState : Type 0 where
  valid expiring expired unknown : WarrantyState

pub data Reason : Type 0 where
  invalid_as_of no_warranty invalid_warranty_evidence : Reason
  ambiguous_warranty_evidence no_effective_warranty : Reason

-- `none` is a text that has not the form of a date.
pub record Evidence : Type 0 where
  pub id : ℕ
  pub starts_at : Option Date
  pub ends_at : Option Date

pub record Evaluation : Type 0 where
  pub state : WarrantyState
  pub reason_code : Option Reason
  pub warranty_id : Option ℕ
  pub ends_at : Option Date
  pub remaining_days : Option ℤ

abbrev pub expiring_within_days : ℕ
expiring_within_days = 90

abbrev pub unknown_for : Reason → Evaluation
unknown_for r = record {
  state = unknown;
  reason_code = some r;
  warranty_id = none;
  ends_at = none;
  remaining_days = none;
}

-- `record.ends_at < record.starts_at`, asked of two dates of the form only.
unfoldable pub ends_before_start : Option Date → Option Date → Bool
ends_before_start (some s) (some e) = ltb (date_key e) (date_key s)
ends_before_start _ _ = false

unfoldable pub is_invalid : Evidence → Bool
is_invalid w =
    not (valid_date w.starts_at)
    || not (valid_date w.ends_at)
    || ends_before_start w.starts_at w.ends_at

-- `record.starts_at <= asOfDate` and `record.ends_at > asOfDate`, on records that are valid.
unfoldable pub has_started : Date → Evidence → Bool
has_started d w = elim w.starts_at [ none ↦ false | some s ↦ leb (date_key s) (date_key d) ]

unfoldable pub ends_later : Date → Evidence → Bool
ends_later d w = elim w.ends_at [ none ↦ false | some e ↦ ltb (date_key d) (date_key e) ]

-- The state of the record that is in effect.
unfoldable pub state_on : Date → Date → WarrantyState
state_on d e =
    if leb (date_key e) (date_key d)
    then expired
    else if leℤ (days_between d e) expiring_within_days
    then expiring
    else valid

unfoldable pub assess : Date → Evidence → Evaluation
assess d w = elim w.ends_at [
  | none ↦ unknown_for invalid_warranty_evidence
  | some e ↦ record {
    state = state_on d e;
    reason_code = none;
    warranty_id = some w.id;
    ends_at = some e;
    remaining_days = some (days_between d e);
  }
]

-- The record in effect, among those that started and have not ended, and those that started.
unfoldable pub decide : Date → List Evidence → List Evidence → Evaluation
decide d (w ∷ []) started = assess d w
decide d (w ∷ w' ∷ _) started = unknown_for ambiguous_warranty_evidence
decide d [] (w ∷ []) = assess d w
decide d [] (w ∷ w' ∷ _) = unknown_for ambiguous_warranty_evidence
decide d [] [] = unknown_for no_effective_warranty

-- `evaluateWarrantyState`, on the day of `asOf`; `none` is an `asOf` that cannot be parsed.
unfoldable pub evaluate_warranty_state : List Evidence → Option Date → Evaluation
evaluate_warranty_state records none = unknown_for invalid_as_of
evaluate_warranty_state records (some d) =
    if is_empty records
    then unknown_for no_warranty
    else if any is_invalid records
    then unknown_for invalid_warranty_evidence
    else decide d (keep (ends_later d) (keep (has_started d) records))
        (keep (has_started d) records)
