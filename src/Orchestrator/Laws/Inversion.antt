-- ===== src/Orchestrator/Laws/Inversion.antt =====
-- What a call of lirix/core/orchestrator.py that returned tells of its parts.
use lirix.Prelude.{◌≡◌, refl, sym, ap, ◌∙◌, Bool, Bool-cases, inl, inr, Result, returned, raised}
use lirix.Session.Types.{Doc, TraceKind}
use lirix.Orchestrator.Types.{
  PipelineError, Client, RunState, Action, after, raise, is_lirix, ◌>>=◌, ◌>>◌,
}
use lirix.Orchestrator.Actions.{on_world, record_rejection, record_failure, handled, attempt}

module _ {V X W : Type 0} where
  -- A bind that returned.
  pub record Returned {A B : Type 0} (m : Action V X W A) (f : A → Action V X W B)
      (st : RunState V W) (b : B) (st' : RunState V W) : Type 0 where
    pub value : A
    pub mid : RunState V W
    pub first : m st ≡ (returned value, mid)
    pub rest : f value mid ≡ (returned b, st')

  after-returned :
      {A B : Type 0} (m : Action V X W A) (f : A → Action V X W B) (st : RunState V W) (b : B)
      (st' : RunState V W) (r : Result (PipelineError V X) A × RunState V W)
      → m st ≡ r
      → after r f ≡ (returned b, st')
      → Returned m f st b st'
  after-returned m f st b st' (returned a, mid) e h = record {
    value = a;
    mid = mid;
    first = e;
    rest = h;
  }
  after-returned m f st b st' (raised x, mid) e h = cc

  pub >>=-returned :
      {A B : Type 0} (m : Action V X W A) (f : A → Action V X W B) (st : RunState V W) {b : B}
      {st' : RunState V W}
      → (m >>= f) st ≡ (returned b, st')
      → Returned m f st b st'
  >>=-returned m f st h = after-returned m f st _ _ (m st) refl h

  -- A bind whose first call returns.
  pub >>=-eq :
      {A B : Type 0} (m : Action V X W A) (f : A → Action V X W B) (st : RunState V W) {a : A}
      {mid : RunState V W} {r : Result (PipelineError V X) B × RunState V W}
      → m st ≡ (returned a, mid)
      → f a mid ≡ r
      → (m >>= f) st ≡ r
  >>=-eq m f st h k = ap (λ x. after x f) h ∙ k

  -- A call on the world leaves the draft.
  pub on_world-returned :
      {A : Type 0} (call : W → Result (PipelineError V X) A × W) (st : RunState V W) {a : A}
      {st' : RunState V W}
      → on_world call st ≡ (returned a, st')
      → (call st.world ≡ (returned a, st'.world)) × (st'.draft ≡ st.draft)
  on_world-returned call st h = (ap (λ x. (x.0, x.1.world)) h, ap (λ x. x.1.draft) (sym h))

module _ {V O P X W A : Type 0} (client : Client V O P X W) (kind : TraceKind) (own : Bool)
    (note : Doc) where
  never-raise :
      (m : Action V X W (Unit {0})) (e : PipelineError V X) (st : RunState V W) {a : A}
      {st' : RunState V W}
      → (m >> raise e) st ≡ (returned a, st')
      → ⊥
  never-raise m e st h = let r = >>=-returned m (λ _. raise e) st h in cc r.rest

  handled-returned :
      (r : Result (PipelineError V X) A × RunState V W) {a : A} {st' : RunState V W}
      → handled client kind own note r ≡ (returned a, st')
      → r ≡ (returned a, st')
  unfolding record_failure
  handled-returned (returned a, st) h = h
  handled-returned (raised e, st) h = elim (Bool-cases (is_lirix e)) [
    | inl t ↦ absurd (never-raise (record_rejection client kind own note e) e st (rw t at h))
    | inr f ↦ cc (rw f at h)
  ]

  -- A run that returned has gone through its body.
  pub attempt-returned :
      (body : Action V X W A) (st : RunState V W) {a : A} {st' : RunState V W}
      → attempt client kind own note body st ≡ (returned a, st')
      → (end : RunState V W) × (body st ≡ (returned a, end))
  unfolding attempt
  attempt-returned body st h =
      let r = handled client kind own note (body st) in
      (r.1, handled-returned (body st) (ap (λ x. (x.0, r.1)) h))
