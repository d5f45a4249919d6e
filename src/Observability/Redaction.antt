-- ===== src/Observability/Redaction.antt =====
-- What `redact_dict` of infrastructure/observability/logging.py lets through.
use mathlib.Core.Path.{subst}
use edge_copilot_backend.Prelude.{
  String, some, List, [], ◌∷◌, ◌≡◌, ◌↔◌, ◌⊎◌, inl, inr, refl, sym, ◌∙◌, ap, arith, All, Bool-cases,
  Option-cases,
}
use edge_copilot_backend.Values.{
  Value, null, bool, num, text, date, items, dict, Fields, end, field, get,
}
use edge_copilot_backend.Observability.{
  redacted, is_secret, redact_value, redact_dict, redact_record,
}
use edge_copilot_backend.Observability.Paths.{
  at, IsLeaf, IsOpen, EndsAtSecret, get-redact_dict, at_entry, at_redacted, redact_value-IsLeaf,
  leaf_kept, at-open, at-secret, at-redacted_end, EndsAtSecret-cons, EndsAtSecret-here,
}

redact_reveals :
    (path : List String) (u v : Value)
    → IsLeaf v
    → at path (redact_value u) ≡ some v
    → (All IsOpen path × (at path u ≡ some v)) ⊎ ((v ≡ redacted) × EndsAtSecret path u)
unfolding at redact_value redact_dict
redact_reveals [] u v leaf h =
    let same' : redact_value u ≡ v = cc in
    inl (tt, ap some (sym (redact_value-IsLeaf u (subst IsLeaf (sym same') leaf)) ∙ same'))
redact_reveals (key ∷ path) (dict d) v leaf h = elim (Option-cases (get key d)) [
  | inl missing ↦ cc (rw (get-redact_dict key d, missing, at) at h)
  | inr (w, found) ↦
      let inside = sym (at_redacted key path d found) ∙ h in
      elim (Bool-cases (is_secret key)) [
        | inl s ↦
            let (last, same') = at-redacted_end path v (rw s at inside) in
            inr (same', EndsAtSecret-here key path d w s found last)
        | inr o ↦ elim (redact_reveals path w v leaf (rw o at inside)) [
          | inl (os, there') ↦ inl ((o, os), at_entry key path d found ∙ there')
          | inr (same', ends) ↦ inr (same', EndsAtSecret-cons key path d w o found ends)
        ]
      ]
]
redact_reveals (key ∷ path) _ v leaf h = cc

-- Behind every path of keys, through dicts within dicts, `redact_dict` leaves exactly this, dicts
-- aside: what was there, if no key on the path is secret; and the mark in place of what stands under
-- the first secret key. A list under an open key is left as it was, with any dicts that it holds.
pub redact_dict_iff :
    (path : List String) (payload : Fields) (v : Value)
    → IsLeaf v
    → (at path (dict (redact_dict payload)) ≡ some v) ↔ (
        (All IsOpen path × (at path (dict payload) ≡ some v))
        ⊎ ((v ≡ redacted) × EndsAtSecret path (dict payload)))
unfolding redact_value
redact_dict_iff path payload v leaf = (
  redact_reveals path (dict payload) v leaf,
  elim [
    | inl (os, there') ↦ at-open path (dict payload) v os there' ∙ ap some (leaf_kept v leaf)
    | inr (same', e) ↦
        rw (same', e.split)
          (at-secret e.before e.key (dict payload) e.hidden e.opened e.secret
            (ap (λ p. at p (dict payload)) (sym e.split) ∙ e.present))
  ],
)

mutual
  unfolding redact_value redact_dict

  redact_value_twice : (v : Value) → redact_value (redact_value v) ≡ redact_value v
  redact_value_twice (dict d) = ap dict (redact_dict_twice d)
  redact_value_twice null = refl
  redact_value_twice (bool b) = refl
  redact_value_twice (num n) = refl
  redact_value_twice (text t) = refl
  redact_value_twice (date d) = refl
  redact_value_twice (items vs) = refl

  redact_dict_twice : (d : Fields) → redact_dict (redact_dict d) ≡ redact_dict d
  redact_dict_twice end = refl
  redact_dict_twice (field key v rest) =
      ground (arith, redact_value_twice v, redact_dict_twice rest)

redact_record_twice : (d : Fields) → redact_record (redact_record d) ≡ redact_record d
unfolding redact_record
redact_record_twice end = refl
redact_record_twice (field key v rest) = ground (arith, redact_record_twice rest)

-- Redacting what is redacted changes nothing, and a record that went through the filter is not
-- changed by the filter again.
pub redact_dict_idempotent :
    (payload : Fields)
    → (redact_dict (redact_dict payload) ≡ redact_dict payload)
      × (redact_record (redact_record payload) ≡ redact_record payload)
redact_dict_idempotent payload = (redact_dict_twice payload, redact_record_twice payload)
