-- ===== src/Server/Handlers/Balance.antt =====
-- What the handlers of internal/server/server.go take and give back.
use audio_service.Base.{refl, Bool, true, false, not, List, [], ◌∷◌, if◌then◌else◌, arith}
use audio_service.Base.Int.{pos, ltb_ℤ, leb_ℤ}
use audio_service.Base.Text.{Text, is_empty, is_blank, trim_space}
use audio_service.Base.Float.{Floats}
use audio_service.Fault.{Error, Result, ok, err}
use audio_service.Effects.{incoming, World, Event, active_down, after, lift}
use audio_service.AudioEngine.Pool.Bracket.{Holding, nothing, Leads, Leads-append}
use audio_service.AudioEngine.Balance.{probe-Keeps, segment_cut-Keeps, normalize_audio-Keeps}
use audio_service.AudioEngine.Balance.Parts.{Keeps, silent, bind-Keeps, refuse_if-Keeps}
use audio_service.AudioEngine.Probe.Steps.{probe}
use audio_service.AudioEngine.Segment.{segment_cut}
use audio_service.AudioEngine.Normalize.{normalize_audio}
use audio_service.Transcribe.{Segment}
use audio_service.Transcribe.Client.{available, transcribe, result_of_response}
use audio_service.Transcribe.Request.{request_of}
use audio_service.Server.{Server, ProbeRequest, NormalizeRequest, TranscribeSegmentRequest}
use audio_service.Server.Status.{Code, Status, map_engine_err, map_transcribe_err}
use audio_service.Server.Handlers.{
  Call, reject, continue, with_hold, segment_of, model_of, handle_probe, handle_normalize,
  cut_and_transcribe, handle_transcribe_segment,
}

record Returns {A : Type 0} (h : Holding) (c : Call A) : Type 0 where
  leads : Leads c.events h h

rejected :
    {A : Type 0} {h : Holding} (code : Code) (text : Text) → Returns h (reject {A = A} code text)
rejected code text = record { leads = refl }

if-Returns :
    {A : Type 0} {h : Holding} (b : Bool) {c d : Call A}
    → Returns h c
    → Returns h d
    → Returns h (if b then c else d)
if-Returns true p q = p
if-Returns false p q = q

continue-Returns :
    {A B : Type 0} {h : Holding} (es : List Event) (r : Result A) (to_status : Error → Status)
    (f : A → Call B)
    → Leads es h h
    → ((a : A) → Returns h (f a))
    → Returns h (continue es r to_status f)
continue-Returns {h} es (ok a) to_status f p q = record {
  leads = Leads-append es (f a).events h h h p (q a).leads;
}
continue-Returns es (err e) to_status f p q = record { leads = p }

-- One mark, which `Hold` gives.
abbrev Marked : Holding
Marked = record { slots = 0; busy = 1; files = 0 }

module _ (fl : Floats) (s : Server) (w : World) where
  transcribe-Keeps : (seg : Segment) → Keeps Marked (transcribe fl w s.transcriber incoming seg)
  unfolding transcribe
  transcribe-Keeps seg = bind-Keeps (refuse_if-Keeps Marked (not (available s.transcriber)) _) (λ a.
      bind-Keeps (refuse_if-Keeps Marked (is_blank seg.model) _) (λ b.
        bind-Keeps (refuse_if-Keeps Marked (is_empty seg.audio) _)
          (λ c. record { leads = ((refl, omega arith), generated.leads) })))
    where
      generated : Keeps Marked (
          after []
            (w.generate incoming (request_of seg))
            (λ resp. lift (result_of_response fl seg resp)))
      generated = bind-Keeps silent (λ resp. silent)

  -- Whatever the request and the answers of the world, Probe gives back its worker slot and its
  -- mark, and runs its processes while it holds both.
  pub handle_probe-Leads :
      (req : ProbeRequest) → Leads (handle_probe fl s w req).events nothing nothing
  unfolding handle_probe
  handle_probe-Leads req =
      (if-Returns (is_empty (trim_space req.source_url)) (rejected _ _) (
        continue-Returns (probe fl w s.engine incoming (trim_space req.source_url)).events
          (probe fl w s.engine incoming (trim_space req.source_url)).result map_engine_err _
          (probe-Keeps fl nothing w s.engine incoming (trim_space req.source_url)).leads
          (λ res. record { leads = refl }))).leads

  -- Whatever the request and the answers of the world, Normalize gives back its worker slot and its
  -- mark, removes its temporary file, and runs its processes and its upload while it holds the slot
  -- and the mark.
  pub handle_normalize-Leads :
      (req : NormalizeRequest) → Leads (handle_normalize fl s w req).events nothing nothing
  unfolding handle_normalize
  handle_normalize-Leads req =
      (if-Returns (is_empty src) (rejected _ _) (
        if-Returns (is_empty dst) (rejected _ _) (
          continue-Returns
            (normalize_audio fl w s.engine incoming src dst req.target_sample_rate).events
            (normalize_audio fl w s.engine incoming src dst req.target_sample_rate).result
            map_engine_err _
            (normalize_audio-Keeps fl nothing w s.engine incoming src dst
              req.target_sample_rate).leads
            (λ res. record { leads = refl })))).leads
    where
      src : Text
      src = trim_space req.source_url

      dst : Text
      dst = trim_space req.dest_put_url

  cut_and_transcribe-Returns :
      (req : TranscribeSegmentRequest) (url model : Text)
      → Returns Marked (cut_and_transcribe fl s w req url model)
  unfolding cut_and_transcribe
  cut_and_transcribe-Returns req url model =
      continue-Returns (segment_cut fl w s.engine incoming url req.start_ms req.end_ms).events
        (segment_cut fl w s.engine incoming url req.start_ms req.end_ms).result map_engine_err _
        (segment_cut-Keeps fl Marked w s.engine incoming url req.start_ms req.end_ms).leads
        (λ seg.
          continue-Returns
            (transcribe fl w s.transcriber incoming (segment_of req seg model)).events
            (transcribe fl w s.transcriber incoming (segment_of req seg model)).result
            map_transcribe_err _ (transcribe-Keeps (segment_of req seg model)).leads
            (λ res. record { leads = refl }))

  with_hold-Returns : {A : Type 0} (c : Call A) → Returns Marked c → Returns nothing (with_hold c)
  with_hold-Returns c r = record {
    leads = (
      tt,
      Leads-append c.events (active_down ∷ []) Marked Marked nothing r.leads (omega arith, refl),
    );
  }

  -- Whatever the request and the answers of the world, TranscribeSegment gives back its worker slot
  -- and its marks, runs ffmpeg while it holds the slot, and calls Gemini while it holds no slot and
  -- while the engine still counts it as active.
  pub handle_transcribe_segment-Leads :
      (req : TranscribeSegmentRequest)
      → Leads (handle_transcribe_segment fl s w req).events nothing nothing
  unfolding handle_transcribe_segment
  handle_transcribe_segment-Leads req =
      (if-Returns (is_empty (trim_space req.normalized_url)) (rejected _ _) (
        if-Returns (ltb_ℤ req.start_ms (pos 0)) (rejected _ _) (
          if-Returns (leb_ℤ req.end_ms req.start_ms) (rejected _ _) (
            if-Returns (not (available s.transcriber)) (rejected _ _) (
              if-Returns (is_empty (model_of s req)) (rejected _ _) (
                with_hold-Returns _ (
                  cut_and_transcribe-Returns req (trim_space req.normalized_url)
                    (model_of s req)))))))).leads
