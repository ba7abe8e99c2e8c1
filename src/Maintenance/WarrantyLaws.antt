-- ===== src/Maintenance/WarrantyLaws.antt =====
-- What an evaluation of warranty records says.
use itcenter.Base.{
  ℕ, ◌+◌, ◌-◌, ◌≤◌, ◌<◌, ◌≡◌, refl, sym, ap, ◌∙◌, subst, ◌≢◌, ◌⊎◌, inl, inr, Bool, true, false,
  none, some, List, [], ◌∷◌, arith, ltb, leb, if◌then◌else◌, Bool-cases, Option-cases, any, keep,
  is_empty,
}
use itcenter.Maintenance.Dates.{Date, is_date, valid_date, date_key, day_number, days_between}
use itcenter.Base.Int.{pos, negsuc, leℤ}
use itcenter.Maintenance.DateOrder.{day_number_mono, day_number_iff}
use itcenter.Maintenance.Warranty.{
  invalid_warranty_evidence, WarrantyState, valid, expiring, expired, unknown, Evidence, Evaluation,
  is_invalid, has_started, ends_later, state_on, assess, decide, evaluate_warranty_state,
  unknown_for,
}

-- What a state says of the day `t` that is asked about and the last day `e`.
abbrev pub Window : WarrantyState → ℕ → ℕ → Type 0
Window valid t e = t + 90 < e
Window expiring t e = (t < e) × (e ≤ t + 90)
Window expired t e = e ≤ t
Window unknown t e = t ≢ t

state_on-Window :
    (d e : Date)
    → is_date d ≡ true
    → is_date e ≡ true
    → Window (state_on d e) (day_number d) (day_number e)
unfolding state_on days_between
state_on-Window d e vd ve = go (Bool-cases (leb (date_key e) (date_key d)))
  where
    later : ltb (date_key d) (date_key e) ≡ true → leb (day_number d) (day_number e) ≡ true
    later k = ground (arith, day_number_mono d e vd ve)

    within : Bool → WarrantyState
    within b = if b then expiring else valid

    window :
        (n : ℕ)
        → day_number d < day_number e
        → n ≡ day_number e - day_number d
        → Window (within (leb n 90)) (day_number d) (day_number e)
    window n l k = elim (Bool-cases (leb n 90)) [
      | inl m ↦
          subst (λ b. Window (within b) (day_number d) (day_number e)) (sym m) (l, ground arith)
      | inr m ↦ subst (λ b. Window (within b) (day_number d) (day_number e)) (sym m) (ground arith)
    ]

    go :
        (leb (date_key e) (date_key d) ≡ true) ⊎ (leb (date_key e) (date_key d) ≡ false)
        → Window (state_on d e) (day_number d) (day_number e)
    go (inl k) =
        subst
          (λ b.
            Window (if b then expired else within (leℤ (days_between d e) 90)) (day_number d)
              (day_number e))
          (sym k) ((day_number_iff e d ve vd).0 k)
    go (inr k) =
        subst
          (λ b.
            Window (if b then expired else within (leℤ (days_between d e) 90)) (day_number d)
              (day_number e))
          (sym k)
          (subst
            (λ b.
              Window
                (within (
                  leℤ
                    (if b
                      then pos (day_number e - day_number d)
                      else negsuc (day_number d - day_number e - 1))
                    90))
                (day_number d) (day_number e))
            (sym (later (ground arith)))
            (window (day_number e - day_number d) (day_number_mono d e vd ve (ground arith)) refl))

valid_end :
    (w : Evidence) → is_invalid w ≡ false → (e : Date) × (w.ends_at ≡ some e) × (is_date e ≡ true)
unfolding is_invalid valid_date
valid_end w h = elim (Option-cases w.ends_at) [
  | inl e ↦ ground arith
  | inr (e, k) ↦ (e, k, ground arith)
]

any-keep :
    (p q : Evidence → Bool) (rs : List Evidence) → any p rs ≡ false → any p (keep q rs) ≡ false
any-keep p q [] h = refl
any-keep p q (r ∷ rs) h = ground (arith, any-keep p q rs)

-- The record in effect: the only one that has started and ends later, or, if none ends later, the only one
-- that has started.
abbrev pub InEffect : Date → List Evidence → Evidence → Type 0
InEffect d records w =
    (keep (ends_later d) (keep (has_started d) records) ≡ w ∷ [])
    ⊎ ((keep (ends_later d) (keep (has_started d) records) ≡ [])
        × (keep (has_started d) records ≡ w ∷ []))

decide-known :
    (d : Date) (records current started : List Evidence) (i : ℕ)
    → (decide d current started).warranty_id ≡ some i
    → (w : Evidence) × ((current ≡ w ∷ []) ⊎ ((current ≡ []) × (started ≡ w ∷ [])))
      × (decide d current started ≡ assess d w)
unfolding decide
decide-known d rs (w ∷ []) started i h = (w, inl refl, refl)
decide-known d rs (w ∷ w' ∷ ws) started i h = absurd (ground arith)
decide-known d rs [] (w ∷ []) i h = (w, inr (refl, refl), refl)
decide-known d rs [] (w ∷ w' ∷ ws) i h = absurd (ground arith)
decide-known d rs [] [] i h = absurd (ground arith)

first_valid :
    (records : List Evidence) (d : Date) (w : Evidence)
    → any is_invalid records ≡ false
    → InEffect d records w
    → is_invalid w ≡ false
first_valid records d w usable c = elim c [
  | inl k ↦ head _ k (
      any-keep is_invalid (ends_later d) (keep (has_started d) records)
        (any-keep is_invalid (has_started d) records usable))
  | inr k ↦ head _ (k.1) (any-keep is_invalid (has_started d) records usable)
]
  where
    head : (rs : List Evidence) → rs ≡ w ∷ [] → any is_invalid rs ≡ false → is_invalid w ≡ false
    head rs e k = ground arith

on_end : Date → ℕ → Date → Evaluation
on_end d i e = record {
  state = state_on d e;
  reason_code = none;
  warranty_id = some i;
  ends_at = some e;
  remaining_days = some (days_between d e);
}

assess-some : (d e : Date) (w : Evidence) → w.ends_at ≡ some e → assess d w ≡ on_end d w.id e
unfolding assess on_end
assess-some d e w h =
    ap (λ o. elim o [ none ↦ unknown_for invalid_warranty_evidence | some e ↦ on_end d w.id e ]) h

named : (d e : Date) (v : Evaluation) (j i : ℕ) → v ≡ on_end d j e → v.warranty_id ≡ some i → j ≡ i
unfolding on_end
named d e v j i r h = ground arith

-- An evaluation that names a record is about the record in effect on a day: the only one that has started
-- and ends later or, if none does, the only one that has started. It names that record and its last day,
-- and its state says that the last day is more than 90 days off (valid), from 1 to 90 days off (expiring)
-- or not after the day (expired), counted by the calendar.
pub evaluate_warranty_state-known :
    (records : List Evidence) (d : Date) (i : ℕ)
    → is_date d ≡ true
    → (evaluate_warranty_state records (some d)).warranty_id ≡ some i
    → (w : Evidence) × (e : Date) × InEffect d records w
      × (w.id ≡ i)
      × (w.ends_at ≡ some e)
      × ((evaluate_warranty_state records (some d)).ends_at ≡ some e)
      × Window ((evaluate_warranty_state records (some d)).state) (day_number d) (day_number e)
unfolding evaluate_warranty_state on_end
evaluate_warranty_state-known records d i vd h =
    let (w, c, k) =
      decide-known d records (keep (ends_later d) started) started i
        (ap (λ (v : Evaluation). v.warranty_id) (sym decided) ∙ h) in
    let (e, k', ve) = valid_end w (first_valid records d w usable c) in
    let r = decided ∙ k ∙ assess-some d e w k' in
    (
      w,
      e,
      c,
      named d e _ w.id i r h,
      k',
      ap (λ (v : Evaluation). v.ends_at) r,
      subst (λ (v : Evaluation). Window (v.state) (day_number d) (day_number e)) (sym r)
          (state_on-Window d e vd ve),
    )
  where
    started : List Evidence
    started = keep (has_started d) records

    usable : any is_invalid records ≡ false
    usable = ground arith

    decided :
        evaluate_warranty_state records (some d) ≡ decide d (keep (ends_later d) started) started
    decided = ground arith

occupied :
    (records : List Evidence) (d : Date) (w : Evidence)
    → InEffect d records w
    → is_empty records ≡ false
occupied [] d w (inl k) = cc
occupied [] d w (inr (k, k')) = cc
occupied (r ∷ rs) d w c = refl

-- Conversely, among records that are all usable, one that is in effect on a day is the one that the
-- evaluation names.
evaluate_warranty_state-names :
    (records : List Evidence) (d : Date) (w : Evidence)
    → any is_invalid records ≡ false
    → InEffect d records w
    → (evaluate_warranty_state records (some d)).warranty_id ≡ some w.id
unfolding evaluate_warranty_state on_end decide
evaluate_warranty_state-names records d w usable c =
    let (e, k, _) = valid_end w (first_valid records d w usable c) in
    ap (λ (v : Evaluation). v.warranty_id) (decided ∙ chosen c ∙ assess-some d e w k)
  where
    started : List Evidence
    started = keep (has_started d) records

    decided :
        evaluate_warranty_state records (some d) ≡ decide d (keep (ends_later d) started) started
    decided = ground (arith, occupied records d w c)

    chosen : InEffect d records w → decide d (keep (ends_later d) started) started ≡ assess d w
    chosen (inl k) = ap (λ rs. decide d rs started) k
    chosen (inr (k, k')) = ap (λ rs. decide d rs started) k ∙ ap (decide d []) k'
