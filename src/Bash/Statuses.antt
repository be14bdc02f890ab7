-- ===== src/Bash/Statuses.antt =====
-- The status that the bash tool of tools/bash.go gives a command, by how it ended.
use mathlib.Core.Option.{none-ne-some}
use resolute_agent_core_go.Prelude.{
  ℕ, zero, suc, [], ◌∷◌, Bool, true, false, Option, none, some, ◌≡◌, refl, sym, ◌↔◌, ℤ, pos, negsuc,
  if◌then◌else◌, ◌≢◌,
}
use resolute_agent_core_go.Shell.{Bytes, ShellCapture}
use resolute_agent_core_go.Bash.{
  Notice, Status, aborted, terminated, no_output, timed_out, exited, BashContent, failure_status,
  success_status,
}

-- The status of a command that failed: a cancelled one was aborted, whatever else happened to it, one
-- that timed out names its timeout, whatever its exit code, and another names its exit code, or that a
-- signal ended it.
pub record IsFailure {F : Type 0} (timeout : Option F) (cancelled late : Bool) (code : ℤ)
    (status : Option (Status F)) : Type 0 where
  pub first_aborted : cancelled ≡ true → status ≡ some aborted
  pub then_late : cancelled ≡ false → late ≡ true → status ≡ some (timed_out timeout)
  pub then_code :
      cancelled ≡ false
      → late ≡ false
      → (n : ℕ) → code ≡ pos (suc n)
      → status ≡ some (exited (suc n))
  pub then_signal :
      cancelled ≡ false → late ≡ false → (n : ℕ) → code ≡ negsuc n → status ≡ some terminated

-- A command that ended well has a status just where there is nothing else to show.
pub record IsSuccess {F : Type 0} (content : BashContent F) : Type 0 where
  pub silent : content.output ≡ [] → content.notice ≡ none → content.status ≡ some no_output
  pub shows_output : content.output ≢ [] → content.status ≡ none
  pub shows_notice : content.notice ≢ none → content.status ≡ none

pub failure_status-IsFailure :
    {F : Type 0} (timeout : Option F) (c : ShellCapture)
    → IsFailure timeout c.cancelled c.timed_out c.exit_code (failure_status timeout c)
unfolding failure_status
failure_status-IsFailure timeout c = record {
  first_aborted = λ e. rw e refl;
  then_late = λ e f. rw (e, f) refl;
  then_code = λ e f n g. rw (e, f, g) refl;
  then_signal = λ e f n g. rw (e, f, g) refl;
}

pub success_status-IsSuccess :
    {F : Type 0} (output : Bytes) (notice : Option Notice)
    → IsSuccess {F = F}
        (record { output = output; notice = notice; status = success_status output notice })
unfolding success_status
success_status-IsSuccess [] none = record {
  silent = λ e f. refl;
  shows_output = λ h. absurd (h refl);
  shows_notice = λ h. absurd (h refl);
}
success_status-IsSuccess [] (some n) = record {
  silent = λ e f. absurd (none-ne-some n (sym f));
  shows_output = λ h. absurd (h refl);
  shows_notice = λ h. refl;
}
success_status-IsSuccess (x ∷ xs) none = record {
  silent = λ e f. absurd cc;
  shows_output = λ h. refl;
  shows_notice = λ h. refl;
}
success_status-IsSuccess (x ∷ xs) (some n) = record {
  silent = λ e f. absurd cc;
  shows_output = λ h. refl;
  shows_notice = λ h. refl;
}

-- A command ended well just where no status says otherwise.
pub failure_status-none :
    {F : Type 0} (timeout : Option F) (c : ShellCapture)
    → (failure_status timeout c ≡ none)
      ↔ ((c.cancelled ≡ false) × (c.timed_out ≡ false) × (c.exit_code ≡ pos 0))
unfolding failure_status
failure_status-none {F = F} timeout c = by_fields c.cancelled c.timed_out c.exit_code
  where
    by_fields :
        (cancelled late : Bool) (code : ℤ)
        → ((if cancelled
              then some aborted
              else if late
              then some (timed_out timeout)
              else elim code as (λ _. Option (Status F)) [
                | pos zero ↦ none
                | pos (suc n) ↦ some (exited (suc n))
                | negsuc n ↦ some terminated
              ])
            ≡ none)
          ↔ ((cancelled ≡ false) × (late ≡ false) × (code ≡ pos 0))
    by_fields true late code = (λ h. absurd cc, λ (x, y, z). absurd cc)
    by_fields false true code = (λ h. absurd cc, λ (x, y, z). absurd cc)
    by_fields false false (pos zero) = (λ h. (refl, refl, refl), λ h. refl)
    by_fields false false (pos (suc n)) = (λ h. absurd cc, λ (x, y, z). absurd cc)
    by_fields false false (negsuc n) = (λ h. absurd cc, λ (x, y, z). absurd cc)
