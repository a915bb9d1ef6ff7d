-- ===== src/Transcribe/Client/Success.antt =====
-- What a transcription that succeeds has done.
use audio_service.Base.{refl, ◌∷◌, ◌≡◌, true, false, Bool-cases, inl, inr, List, [], arith}
use audio_service.Base.Text.{text_eq, is_blank, is_empty}
use audio_service.Base.Float.{Floats}
use audio_service.Fault.{Result, ok, err}
use audio_service.Genai.{GenResponse}
use audio_service.Effects.{after, ask, Ctx, World, after-ok, lift}
use audio_service.Transcribe.{Segment, TranscribeResult, ModelReply, ModelUtterance}
use audio_service.Transcribe.Rebase.{rebase_utterances}
use audio_service.Transcribe.Reply.{parse_model_json}
use audio_service.Transcribe.Request.{request_of}
use audio_service.Transcribe.Client.{
  Client, available, finish_reason, finish_reason_max_tokens, usage_tokens, result_of_reply,
  result_of_response, transcribe,
}

module _ (fl : Floats) where
  result_of_reply-rebased :
      (seg : Segment) (resp : GenResponse) (r : Result ModelReply) (res : TranscribeResult)
      → result_of_reply fl seg resp r ≡ ok res
      → (us : List ModelUtterance) × (res.utterances ≡ rebase_utterances us seg)
  unfolding result_of_reply
  result_of_reply-rebased seg resp (ok parsed) res h = (parsed.utterances, ground arith)
  result_of_reply-rebased seg resp (err e) res h = cc

  pub result_of_response-rebased :
      (seg : Segment) (resp : GenResponse) (res : TranscribeResult)
      → result_of_response fl seg resp ≡ ok res
      → (us : List ModelUtterance) × (res.utterances ≡ rebase_utterances us seg)
  unfolding result_of_response
  result_of_response-rebased seg resp res h =
      elim (Bool-cases (text_eq (finish_reason resp) finish_reason_max_tokens)) [
        | inl cut ↦ cc (rw cut at h)
        | inr whole ↦
            result_of_reply-rebased seg resp (parse_model_json fl resp.text) res (rw whole at h)
      ]

  -- A transcription that succeeds has asked the service once, in the context that it was given, and
  -- its result is what is made of the response.
  pub transcribe-ok :
      (w : World) (c : Client) (ctx : Ctx) (seg : Segment) {res : TranscribeResult}
      → (transcribe fl w c ctx seg).result ≡ ok res
      → (resp : GenResponse) × (w.generate ctx (request_of seg) ≡ ok resp)
        × (result_of_response fl seg resp ≡ ok res)
  unfolding transcribe
  transcribe-ok w c ctx seg h = elim (Bool-cases (available c)) [
    | inr none_ ↦ cc (rw none_ at h)
    | inl keyed ↦ elim (Bool-cases (is_blank seg.model)) [
      | inl blank ↦ cc (rw blank at (rw keyed at h))
      | inr named ↦ elim (Bool-cases (is_empty seg.audio)) [
        | inl empty ↦ cc (rw empty at (rw named at (rw keyed at h)))
        | inr some_ ↦
            after-ok [] (w.generate ctx (request_of seg))
              (λ resp. lift (result_of_response fl seg resp))
              (rw some_ at (rw named at (rw keyed at h)))
      ]
    ]
  ]

  pub transcribe-events :
      (w : World) (c : Client) (ctx : Ctx) (seg : Segment) {res : TranscribeResult}
      → (transcribe fl w c ctx seg).result ≡ ok res
      → (transcribe fl w c ctx seg).events ≡ ask ctx (request_of seg) ∷ []
  unfolding transcribe
  transcribe-events w c ctx seg h = elim (Bool-cases (available c)) [
    | inr none_ ↦ cc (rw none_ at h)
    | inl keyed ↦ elim (Bool-cases (is_blank seg.model)) [
      | inl blank ↦ cc (rw blank at (rw keyed at h))
      | inr named ↦ elim (Bool-cases (is_empty seg.audio)) [
        | inl empty ↦ cc (rw empty at (rw named at (rw keyed at h)))
        | inr some_ ↦ rw keyed (rw named (rw some_ (asked (w.generate ctx (request_of seg)))))
      ]
    ]
  ]
    where
      asked :
          (r : Result GenResponse)
          → ask ctx (request_of seg)
              ∷ (after [] r (λ resp. lift (result_of_response fl seg resp))).events
            ≡ ask ctx (request_of seg) ∷ []
      asked (ok resp) = refl
      asked (err e) = refl

  -- A transcription succeeds where the service answers with a whole text that is read as a reply.
  pub transcribe-succeeds :
      (w : World) (c : Client) (ctx : Ctx) (seg : Segment) (resp : GenResponse) (r : ModelReply)
      → available c ≡ true
      → is_blank seg.model ≡ false
      → is_empty seg.audio ≡ false
      → w.generate ctx (request_of seg) ≡ ok resp
      → text_eq (finish_reason resp) finish_reason_max_tokens ≡ false
      → parse_model_json fl resp.text ≡ ok r
      → (transcribe fl w c ctx seg).result
        ≡ ok (record {
          detected_language = r.detected_language;
          utterances = rebase_utterances r.utterances seg;
          input_tokens = (usage_tokens resp).0;
          output_tokens = (usage_tokens resp).1;
        })
  unfolding transcribe result_of_response result_of_reply
  transcribe-succeeds w c ctx seg resp r keyed named some_ answered complete read =
      rw keyed (rw named (rw some_ (rw answered (rw complete (rw read refl)))))
