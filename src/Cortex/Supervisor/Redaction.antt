-- ===== src/Cortex/Supervisor/Redaction.antt =====
-- agent_cortex/supervisor.py: no value under a secret key reaches the record.
use swarmdeck.Prelude.{◌≡◌, refl, false, Bool-cases, inl, inr, ◌⊎◌}
use swarmdeck.Prelude.Json.{
  Json, Items, Fields, null, bool, num, str, arr, obj, nil, cons, end, field,
}
use swarmdeck.Cortex.Supervisor.{Patterns, is_secret, redacted, safe_value, safe_items, safe_fields}

module _ (P : Patterns) where
  -- At every depth, a field with a secret key holds the mark of redaction.
  mutual
    pub IsRedacted : Json → Type 0
    IsRedacted null = Unit
    IsRedacted (bool b) = Unit
    IsRedacted (num f) = Unit
    IsRedacted (str s) = Unit
    IsRedacted (arr vs) = AllRedacted vs
    IsRedacted (obj fs) = FieldsRedacted fs

    pub AllRedacted : Items → Type 0
    AllRedacted nil = Unit
    AllRedacted (cons v vs) = IsRedacted v × AllRedacted vs

    pub FieldsRedacted : Fields → Type 0
    FieldsRedacted end = Unit
    FieldsRedacted (field k v fs) =
        ((is_secret P k ≡ false) ⊎ (v ≡ redacted)) × IsRedacted v × FieldsRedacted fs

  mutual
    unfolding safe_value IsRedacted

    value-IsRedacted : (v : Json) → IsRedacted (safe_value P v)
    value-IsRedacted null = tt
    value-IsRedacted (bool b) = tt
    value-IsRedacted (num f) = tt
    value-IsRedacted (str s) = tt
    value-IsRedacted (arr vs) = items_redacted vs
    value-IsRedacted (obj fs) = fields_redacted fs

    items_redacted : (vs : Items) → AllRedacted (safe_items P vs)
    items_redacted nil = tt
    items_redacted (cons v vs) = (value-IsRedacted v, items_redacted vs)

    fields_redacted : (fs : Fields) → FieldsRedacted (safe_fields P fs)
    fields_redacted end = tt
    fields_redacted (field k v fs) = elim (Bool-cases (is_secret P k)) [
      | inl e ↦ rw e (inr refl, tt, fields_redacted fs)
      | inr e ↦ rw e (inl refl, value-IsRedacted v, fields_redacted fs)
    ]

  -- Whatever the payload, in what `_safe_payload` returns every field with a secret key holds the
  -- mark of redaction and nothing else, in nested objects and lists too.
  pub safe_value-IsRedacted : (v : Json) → IsRedacted (safe_value P v)
  safe_value-IsRedacted v = value-IsRedacted v
