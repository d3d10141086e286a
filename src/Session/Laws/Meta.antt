-- ===== src/Session/Laws/Meta.antt =====
-- The metadata that the verifier of lirix/core/session.py asks of the traces, over a timeline.
use lirix.Prelude.{
  ◌≡◌, refl, true, false, Option, none, some, List, [], ◌∷◌, All, reverse, reverse_onto, Text, Dict,
  get, returned, value_or, inl, inr, Bool-cases,
}
use lirix.Session.Types.{Item, Entry, not_mapping, mapping, Scalar}
use lirix.Session.Methods.{TraceMeta}
use lirix.Session.Replay.{last_trace, first_trace, is_trace_kind, trace_of, or_else}
use lirix.Session.Verify.{check_artifacts, check_proof, hex_or_none}

-- What the verifier asks of the metadata of the last trace.
pub record MetaOk (fingerprint closure : Option Text) (artifacts : Option (Dict Text))
    (proof : Option (Dict Scalar)) : Type 0 where
  pub fingerprint_hex : hex_or_none fingerprint ≡ true
  pub closure_hex : hex_or_none closure ≡ true
  pub artifacts_ok : check_artifacts (value_or artifacts []) ≡ returned tt
  pub proof_ok : check_proof false (value_or proof []) ≡ returned tt

abbrev pub TraceMetaOk : TraceMeta → Type 0
TraceMetaOk info =
    MetaOk info.config_fingerprint info.registry_closure_digest info.artifact_digests
      info.replay_proof

abbrev pub ItemOk : Item → Type 0
ItemOk item =
    MetaOk item.config_fingerprint item.registry_closure_digest item.artifact_digests
      item.replay_proof
    × (hex_or_none item.trace_digest ≡ true)

abbrev pub EntryOk : Entry → Type 0
EntryOk not_mapping = Unit
EntryOk (mapping item) = ItemOk item

pub MetaOk-none : MetaOk none none none none
unfolding check_artifacts check_proof get
MetaOk-none = record {
  fingerprint_hex = refl;
  closure_hex = refl;
  artifacts_ok = refl;
  proof_ok = refl;
}

abbrev pub OptionOk : Option Item → Type 0
OptionOk none = Unit
OptionOk (some item) = ItemOk item

All-reverse_onto :
    (xs ys : List Entry) → All EntryOk xs → All EntryOk ys → All EntryOk (reverse_onto xs ys)
All-reverse_onto [] ys h k = k
All-reverse_onto (x ∷ xs) ys (p, h) k = All-reverse_onto xs (x ∷ ys) h (p, k)

trace_of-ok : (e : Entry) → EntryOk e → OptionOk (trace_of e)
trace_of-ok not_mapping p = tt
trace_of-ok (mapping item) p = elim (Bool-cases (is_trace_kind item.kind)) [
  | inl is_trace ↦ rw (is_trace, OptionOk) p
  | inr no_trace ↦ rw (no_trace, OptionOk) tt
]

or_else-ok : (o later : Option Item) → OptionOk o → OptionOk later → OptionOk (or_else o later)
or_else-ok none later h k = k
or_else-ok (some item) later h k = h

first_trace-ok : (es : List Entry) → All EntryOk es → OptionOk (first_trace es)
first_trace-ok [] h = tt
first_trace-ok (e ∷ es) (p, h) =
    or_else-ok (trace_of e) (first_trace es) (trace_of-ok e p) (first_trace-ok es h)

pub last_trace-ok : (es : List Entry) → All EntryOk es → OptionOk (last_trace es)
last_trace-ok es h = first_trace-ok (reverse es) (All-reverse_onto es [] h tt)
