-- ===== src/Bash/Report.antt =====
-- What a result of the bash tool of tools/bash.go says of a command.
use mathlib.Core.Option.{none-ne-some}
use resolute_agent_core_go.Prelude.{
  String, ◌⊎◌, inl, inr, ap, if-true, if-false, Bool, true, false, Option, none, some, ◌≡◌, refl,
  sym, ◌∙◌, ◌↔◌, pos,
}
use resolute_agent_core_go.Shell.{Bytes, ShellCapture, ExecResult, default_options}
use resolute_agent_core_go.Shell.Snapshot.{over_limits, truncate_tail-totals}
use resolute_agent_core_go.Truncate.{TruncationResult, truncate_tail}
use resolute_agent_core_go.Shell.Execution.{IsCaptureOf}
use resolute_agent_core_go.Bash.{
  Status, BashContent, BashToolDetails, ran, notice_if, details_if, bash_details, with_status,
  failure_status, success_status, bash_result,
}
use resolute_agent_core_go.Bash.Statuses.{
  IsFailure, IsSuccess, failure_status-IsFailure, success_status-IsSuccess, failure_status-none,
}
use resolute_agent_core_go.Bash.Notices.{Shown, notice_if-Shown}

-- The details of a result: none for an output within the limits, else the truncation and the file that
-- has all of it.
abbrev pub IsDetailed :
    {W : Type 0} → (W → String → Bytes) → Bytes → W → Option BashToolDetails → Type 0
IsDetailed contents stream w details =
    ((over_limits stream ≡ false) × (details ≡ none))
    ⊎ ((over_limits stream ≡ true)
        × (path : String) × (details
            ≡ some (record {
              truncation = some (truncate_tail stream default_options);
              full_output_path = path;
            }))
        × (contents w path ≡ stream))

-- What a result says of the output and of how the command ended.
pub record IsReport {F W : Type 0} (contents : W → String → Bytes) (stream : Bytes)
    (result : ExecResult) (timeout : Option F) (w : W) (is_error : Bool) (content : BashContent F)
    (details : Option BashToolDetails) : Type 0 where
  pub shown : Shown contents stream w content.output content.notice
  pub succeeds :
      (is_error ≡ false)
      ↔ ((result.cancelled ≡ false) × (result.timed_out ≡ false) × (result.exit_code ≡ pos 0))
  pub fails :
      is_error ≡ true
      → IsFailure timeout result.cancelled result.timed_out result.exit_code content.status
  pub ends_well : is_error ≡ false → IsSuccess content
  pub fails_bare : is_error ≡ true → details ≡ none
  pub detailed : is_error ≡ false → IsDetailed contents stream w details

details_if-IsDetailed :
    {W : Type 0} (contents : W → String → Bytes) (stream : Bytes) (result : ExecResult) (w : W)
    (c : ShellCapture)
    → IsCaptureOf contents stream result w c
    → IsDetailed contents stream w (details_if c)
unfolding details_if bash_details
details_if-IsDetailed contents stream result w c h =
    let limited : c.truncation.truncated ≡ over_limits stream =
      ap (λ (t : TruncationResult). t.truncated) h.truncation ∙ (truncate_tail-totals stream).0 in
    elim h.full_output [
      | inl (within, _) ↦
          inl (within, if-false (λ d. d ≡ none) c.truncation.truncated _ _ (limited ∙ within) refl)
      | inr (over, file) ↦ inr (
        over,
        c.full_output_path,
        if-true
            (λ d.
              d
              ≡ some (record {
                truncation = some (truncate_tail stream default_options);
                full_output_path = c.full_output_path;
              }))
            c.truncation.truncated _ _ (limited ∙ over)
            (ap
              (λ (t : TruncationResult).
                some (record { truncation = some t; full_output_path = c.full_output_path }))
              h.truncation),
        file,
      )
    ]

-- What a finished call says of a captured command.
with_status-IsReport :
    {F E W : Type 0} (contents : W → String → Bytes) (stream : Bytes) (result : ExecResult) (w : W)
    (c : ShellCapture) (timeout : Option F) (s : Option (Status F))
    → Shown contents stream w c.output (notice_if c)
    → (s ≡ none)
      ↔ ((result.cancelled ≡ false) × (result.timed_out ≡ false) × (result.exit_code ≡ pos 0))
    → IsFailure timeout result.cancelled result.timed_out result.exit_code s
    → IsDetailed contents stream w (details_if c)
    → (is_error : Bool) × (content : BashContent F) × (details : Option BashToolDetails)
      × (with_status {E = E} s c ≡ ran is_error content details)
      × IsReport contents stream result timeout w is_error content details
unfolding with_status
with_status-IsReport contents stream result w c timeout none shown ended why full = (
  false,
  record {
    output = c.output;
    notice = notice_if c;
    status = success_status c.output (notice_if c);
  },
  details_if c,
  refl,
  record {
    shown = shown;
    succeeds = (λ h. ended.0 refl, λ h. refl);
    fails = λ h. absurd cc;
    ends_well = λ h. success_status-IsSuccess c.output (notice_if c);
    fails_bare = λ h. absurd cc;
    detailed = λ h. full;
  },
)
with_status-IsReport contents stream result w c timeout (some failed) shown ended why full = (
  true,
  record { output = c.output; notice = notice_if c; status = some failed },
  none,
  refl,
  record {
    shown = shown;
    succeeds = (λ h. absurd cc, λ h. absurd (none-ne-some failed (sym (ended.1 h))));
    fails = λ h. why;
    ends_well = λ h. absurd cc;
    fails_bare = λ h. refl;
    detailed = λ h. absurd cc;
  },
)

pub bash_result-IsReport :
    {F E W : Type 0} (contents : W → String → Bytes) (stream : Bytes) (result : ExecResult) (w : W)
    (c : ShellCapture) (timeout : Option F)
    → IsCaptureOf contents stream result w c
    → (is_error : Bool) × (content : BashContent F) × (details : Option BashToolDetails)
      × (bash_result {E = E} timeout c ≡ ran is_error content details)
      × IsReport contents stream result timeout w is_error content details
unfolding bash_result
bash_result-IsReport contents stream result w c timeout h =
    let (code, cancelled, late) = h.ended in
    let why = failure_status-IsFailure timeout c in
    let (to, from) = failure_status-none timeout c in
    with_status-IsReport contents stream result w c timeout (failure_status timeout c)
      (notice_if-Shown contents stream w result c h)
      (
        λ e. let (x, y, z) = to e in (sym cancelled ∙ x, sym late ∙ y, sym code ∙ z),
        λ (x, y, z). from (cancelled ∙ x, late ∙ y, code ∙ z),
      )
      (record {
        first_aborted = λ e. why.first_aborted (cancelled ∙ e);
        then_late = λ e f. why.then_late (cancelled ∙ e) (late ∙ f);
        then_code = λ e f n g. why.then_code (cancelled ∙ e) (late ∙ f) n (code ∙ g);
        then_signal = λ e f n g. why.then_signal (cancelled ∙ e) (late ∙ f) n (code ∙ g);
      })
      (details_if-IsDetailed contents stream result w c h)
