-- ===== src/Logging/Rpc/Correlation.antt =====
-- The request id of an RPC in internal/logging/interceptor.go, and the level of its line.
use audio_service.Base.{
  ℕ, ◌<◌, ◌≡◌, refl, ap, ◌↔◌, ◌⊎◌, inl, inr, false, Bool-cases, Option, none, some, List, [], ◌∷◌,
  ◌++◌, length, arith,
}
use audio_service.Base.Text.{Text, codes, is_empty}
use audio_service.Server.Status.{
  Code, code_internal, code_unknown, code_unavailable, code_data_loss,
}
use audio_service.Server.Handlers.{Outcome}
use mathlib.Core.List.{append_assoc}
use audio_service.Logging.{
  level_error, Carried, Attr, Metadata, level_for_code, is_health_method, enriched_attrs, enrich,
  resolved_id, present, new_request_id, metadata_value, request_id_header, tenant_id_header,
  attr_of,
}
use audio_service.Logging.Rpc.{
  set_header, called, logged, Served, Surroundings, code_of, rpc_attrs, log_rpc, intercept,
}

new_request_id-nonempty :
    (random : Option (List ℕ))
    → ((b : List ℕ) → random ≡ some b → 0 < length b)
    → is_empty (new_request_id random) ≡ false
unfolding new_request_id
new_request_id-nonempty none h = refl
new_request_id-nonempty (some []) h = absurd (omega (arith, h [] refl))
new_request_id-nonempty (some (b ∷ bs)) h = refl

resolved_id-nonempty :
    (md : Metadata) (random : Option (List ℕ))
    → ((b : List ℕ) → random ≡ some b → 0 < length b)
    → is_empty (resolved_id md random) ≡ false
unfolding resolved_id
resolved_id-nonempty md random h =
    elim (Bool-cases (is_empty (metadata_value md request_id_header))) [
      | inl e ↦ rw e (new_request_id-nonempty random h)
      | inr e ↦ rw e e
    ]

-- The tenant of a line: that of the metadata, or the one that the context had before.
abbrev pub tenant_attrs : Carried → List Attr
tenant_attrs ctx = attr_of (codes "tenant_id") (present ctx.tenant_id)

enrich-request_id :
    (md : Metadata) (random : Option (List ℕ)) (ctx : Carried)
    → (enrich md random ctx).request_id ≡ some (resolved_id md random)
unfolding enrich
enrich-request_id md random ctx =
    elim (Bool-cases (is_empty (metadata_value md tenant_id_header))) [
      | inl e ↦ rw e refl
      | inr e ↦ rw e refl
    ]

enriched_attrs_of_id :
    (ctx : Carried) (id : Text) (attrs : List Attr)
    → ctx.request_id ≡ some id
    → is_empty id ≡ false
    → enriched_attrs ctx attrs ≡ attrs ++ ((codes "request_id", id) ∷ tenant_attrs ctx)
unfolding enriched_attrs present
enriched_attrs_of_id ctx id attrs h e =
    rw h (rw e (append_assoc attrs ((codes "request_id", id) ∷ []) (tenant_attrs ctx)))

module _ {A : Type 0} (s : Surroundings) (ctx : Carried) (method : Text)
    (handler : Carried → Outcome A) where
  abbrev served : Served A
  served = intercept s ctx method handler

  -- If rand.Read fills in some bytes or fails, then an RPC has a request id that is not empty; the
  -- handler is called once, with a context that carries it, and its outcome is returned as it is;
  -- the id is the response header; and exactly one line is logged, at the level of the outcome,
  -- with the id among its attributes.
  pub intercept-correlates :
      ((b : List ℕ) → s.random ≡ some b → 0 < length b)
      → (is_empty (resolved_id s.metadata s.random) ≡ false)
        × ((enrich s.metadata s.random ctx).request_id ≡ some (resolved_id s.metadata s.random))
        × (served.outcome ≡ handler (enrich s.metadata s.random ctx))
        × (served.events
            ≡ set_header (resolved_id s.metadata s.random)
              ∷ called (enrich s.metadata s.random ctx)
              ∷ logged (level_for_code method (code_of served.outcome)) (
                  rpc_attrs s method served.outcome
                  ++ ((codes "request_id", resolved_id s.metadata s.random)
                      ∷ tenant_attrs (enrich s.metadata s.random ctx)))
              ∷ [])
  unfolding intercept log_rpc
  intercept-correlates h =
      let id = resolved_id s.metadata s.random in
      let ctx' = enrich s.metadata s.random ctx in
      let full = resolved_id-nonempty s.metadata s.random h in
      let kept = enrich-request_id s.metadata s.random ctx in
      (
        full,
        kept,
        refl,
        ap
            (λ attrs.
              set_header id
              ∷ called ctx'
              ∷ logged (level_for_code method (code_of (handler ctx'))) attrs
              ∷ [])
            (enriched_attrs_of_id ctx' id (rpc_attrs s method (handler ctx')) kept full),
      )

-- A line is logged as an error exactly when the method is no health probe and the code is one of
-- Internal, Unknown, Unavailable and DataLoss.
pub level_for_code-error_iff :
    (method : Text) (code : Code)
    → (level_for_code method code ≡ level_error) ↔ (
        (is_health_method method ≡ false)
        × (((code ≡ code_internal) ⊎ (code ≡ code_unknown))
            ⊎ ((code ≡ code_unavailable) ⊎ (code ≡ code_data_loss))))
unfolding level_for_code
level_for_code-error_iff method code = ground arith
