-- ===== src/Convert/Bookkeeping.antt =====
-- Bookkeeping entries of a transcript and the conversion to LLM messages.
use resolute_agent_core_go.Prelude.{
  String, Bool, true, List, [], ◌∷◌, ◌++◌, ◌≡◌, refl, ap, ◌∙◌, sym, All, Bool-cases, inl, inr,
  eq_iff, if◌then◌else◌,
}
use resolute_agent_core_go.Json.{RawMessage}
use resolute_agent_core_go.Message.{Message}
use resolute_agent_core_go.Compaction.{
  is_bookkeeping, has_bookkeeping, drop_bookkeeping, exclude_bookkeeping,
}
use resolute_agent_core_go.Convert.{convert_message, convert_images, default_convert_to_llm}

module _ (body_text : RawMessage → String) where
  nothing_sent :
      (m : Message)
      → is_bookkeeping m ≡ true
      → m.images ≡ []
      → convert_message body_text m ++ convert_images m ≡ []
  unfolding convert_message convert_images
  nothing_sent m h no_images = rw ((eq_iff m.type "active_tools_change").0 h, no_images) refl

  sent-cons :
      (m : Message) (ms : List Message)
      → default_convert_to_llm body_text (m ∷ ms)
        ≡ (convert_message body_text m ++ convert_images m) ++ default_convert_to_llm body_text ms
  unfolding default_convert_to_llm
  sent-cons m ms = refl

  drop_bookkeeping-sent :
      (ms : List Message)
      → All (λ m. is_bookkeeping m ≡ true → m.images ≡ []) ms
      → default_convert_to_llm body_text (drop_bookkeeping ms) ≡ default_convert_to_llm body_text ms
  unfolding drop_bookkeeping
  drop_bookkeeping-sent [] h = refl
  drop_bookkeeping-sent (m ∷ ms) (h, hs) = elim (Bool-cases (is_bookkeeping m)) [
    | inl entry ↦
        let unsent =
          ap (λ r. r ++ default_convert_to_llm body_text ms) (nothing_sent m entry (h entry)) in
        ap
          (λ (b : Bool).
            default_convert_to_llm body_text
              (if b then drop_bookkeeping ms else m ∷ drop_bookkeeping ms))
          entry
        ∙ drop_bookkeeping-sent ms hs
        ∙ sym unsent
        ∙ sym (sent-cons m ms)
    | inr other ↦
        ap
          (λ (b : Bool).
            default_convert_to_llm body_text
              (if b then drop_bookkeeping ms else m ∷ drop_bookkeeping ms))
          other
        ∙ sent-cons m (drop_bookkeeping ms)
        ∙ ap (λ r. (convert_message body_text m ++ convert_images m) ++ r)
            (drop_bookkeeping-sent ms hs)
        ∙ sym (sent-cons m ms)
  ]

  -- Leaving the bookkeeping entries out of a transcript changes nothing of what the model is sent, if
  -- those entries carry no images.
  pub default_convert_to_llm-exclude_bookkeeping :
      (ms : List Message)
      → All (λ m. is_bookkeeping m ≡ true → m.images ≡ []) ms
      → default_convert_to_llm body_text (exclude_bookkeeping ms)
        ≡ default_convert_to_llm body_text ms
  unfolding exclude_bookkeeping
  default_convert_to_llm-exclude_bookkeeping ms h = elim (Bool-cases (has_bookkeeping ms)) [
    | inl some_entry ↦ rw some_entry (drop_bookkeeping-sent ms h)
    | inr no_entry ↦ rw no_entry refl
  ]
