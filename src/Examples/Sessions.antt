-- ===== src/Examples/Sessions.antt =====
-- Sessions in memory and in files.
use resolute_agent_core_go.Prelude.{
  ℕ, zero, suc, String, true, false, List, [], ◌∷◌, Option, none, some, ok, err, ◌≡◌, ◌≢◌, refl,
  arith, All, str_eq, eq_iff, lookup, ◌==◌, if◌then◌else◌, length,
}
use resolute_agent_core_go.Message.{Message, new_text}
use resolute_agent_core_go.Session.Memory
use resolute_agent_core_go.Session.Log
use resolute_agent_core_go.Session.Log.{
  Op, created, appended, deleted, messages_of, summaries_of, memory-refines-log,
}
use resolute_agent_core_go.Session.Internal
use resolute_agent_core_go.Session.Internal.{internal-agrees-memory}
use resolute_agent_core_go.Session.FilePath.{has_slash}
use resolute_agent_core_go.Session.Jsonl
use resolute_agent_core_go.Session.Jsonl.{Codec, Dir, token_too_long, path, max_scan_token_size}
use resolute_agent_core_go.Session.Jsonl.Lines.{IsPrintable}
use resolute_agent_core_go.Session.Jsonl.RoundTrip.{jsonl_load-append, jsonl_load-append_ne}
use resolute_agent_core_go.Session.Jsonl.Listing.{load-list, load-too_long}

abbrev hello : Message
hello = new_text "user" "hello"

abbrev answer : Message
answer = new_text "assistant" "hi"

abbrev ops : List Op
ops =
    created "s" 1
    ∷ appended "s" (hello ∷ []) 2
    ∷ created "t" 3
    ∷ appended "s" (answer ∷ []) 4
    ∷ deleted "t"
    ∷ []

memory-refines-log_example :
    (Memory.load (Log.run ops Memory.new_memory_session) "s" ≡ messages_of "s" ops [])
    × (Memory.load_branch_summaries (Log.run ops Memory.new_memory_session) "s"
        ≡ summaries_of "s" ops [])
memory-refines-log_example = memory-refines-log ops "s"

internal-agrees-memory_example :
    (Internal.load (Internal.run ops Internal.new_internal_session) "s"
      ≡ Memory.load (Log.run ops Memory.new_memory_session) "s")
    × (Internal.load_branch_summaries (Internal.run ops Internal.new_internal_session) "s"
        ≡ Memory.load_branch_summaries (Log.run ops Memory.new_memory_session) "s")
    × (Internal.list (Internal.run ops Internal.new_internal_session)
        ≡ Memory.list (Log.run ops Memory.new_memory_session))
internal-agrees-memory_example = internal-agrees-memory ops "s"

-- One letter for each of the two messages.
abbrev decode_letter : List ℕ → Option Message
decode_letter [] = none
decode_letter (c ∷ []) = if c == 117 then some hello else if c == 97 then some answer else none
decode_letter (c ∷ d ∷ line) = none

abbrev letters : Codec Message
letters = record {
  encode = λ m. if str_eq m.role "user" then some (117 ∷ []) else some (97 ∷ []);
  decode = decode_letter;
}

-- A file whose last line was cut off before its newline.
abbrev torn : Dir
torn = (path "s", 117 ∷ []) ∷ []

jsonl_load-append_example :
    ((Jsonl.append letters "s" (answer ∷ hello ∷ []) torn).1 ≡ none)
    × (Jsonl.load letters (Jsonl.append letters "s" (answer ∷ hello ∷ []) torn).0 "s"
        ≡ ok (hello ∷ answer ∷ hello ∷ []))
unfolding Jsonl.load new_text lookup
jsonl_load-append_example =
    jsonl_load-append letters torn "s" (hello ∷ []) (answer ∷ hello ∷ []) refl (
      (97 ∷ [], refl, refl, (omega arith, tt), omega arith),
      ((117 ∷ [], refl, refl, (omega arith, tt), omega arith), tt),
    )

t-ne-s : ◌≢◌ {A = String} "t" "s"
t-ne-s e = let same : false ≡ true = (eq_iff "t" "s").1 e in cc

jsonl_load-append_ne_example :
    Jsonl.load letters (Jsonl.append letters "t" (answer ∷ []) torn).0 "s"
    ≡ Jsonl.load letters torn "s"
unfolding has_slash
jsonl_load-append_ne_example =
    jsonl_load-append_ne letters torn "t" "s" (answer ∷ []) refl refl t-ne-s

load-list_example : All (λ listed. Jsonl.load letters torn listed ≡ ok []) (Jsonl.list torn)
load-list_example = load-list letters "s" (117 ∷ [])

letter_line : ℕ → List ℕ
letter_line zero = []
letter_line (suc n) = 97 ∷ letter_line n

letter_line-IsPrintable : (n : ℕ) → IsPrintable (letter_line n)
unfolding letter_line
letter_line-IsPrintable zero = tt
letter_line-IsPrintable (suc n) = (omega arith, letter_line-IsPrintable n)

length-letter_line : (n : ℕ) → length (letter_line n) ≡ n
unfolding letter_line
length-letter_line zero = refl
length-letter_line (suc n) = omega (arith, length-letter_line n)

abbrev long_lines : Codec Message
long_lines = record {
  encode = λ m. some (letter_line max_scan_token_size);
  decode = λ line. some hello;
}

load-too_long_example :
    Jsonl.load long_lines (Jsonl.append long_lines "s" (hello ∷ []) (Jsonl.create "s" []).1).0 "s"
    ≡ err token_too_long
load-too_long_example =
    load-too_long long_lines "s" hello (letter_line max_scan_token_size) refl
      (letter_line-IsPrintable max_scan_token_size)
      (omega (arith, length-letter_line max_scan_token_size))
