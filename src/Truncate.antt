-- ===== src/Truncate.antt =====
-- tools/truncate.go: the cutting of tool outputs to a number of lines and of bytes. Strings are the
-- lists of their bytes. FormatSize, which formats floating point numbers, is left out.
pub mod Lines
pub mod Loop
pub mod Bounds
pub mod Suffix
pub mod Extended
pub mod Ending
pub mod Reversed
pub mod Tail
use resolute_agent_core_go.Prelude.{
  ℕ, zero, suc, ◌+◌, ◌-◌, ◌*◌, ◌/◌, ◌%◌, Bool, true, false, ◌&&◌, List, [], ◌∷◌, ◌++◌, Option, none,
  some, ℤ, pos, negsuc, leb_ℤ, ltb_ℤ, leb, ◌==◌, if◌then◌else◌, length, take, drop, last?,
}

abbrev pub newline : ℕ
newline = 10

abbrev pub default_max_lines : ℕ
default_max_lines = 2000

abbrev pub default_max_bytes : ℕ
default_max_bytes = 50 * 1024

-- The strings "", "lines" and "bytes".
pub data TruncatedBy : Type 0 where
  unlimited by_lines by_bytes : TruncatedBy

pub record TruncationResult : Type 0 where
  pub content : List ℕ
  pub truncated : Bool
  pub truncated_by : TruncatedBy
  pub total_lines : ℕ
  pub total_bytes : ℕ
  pub output_lines : ℕ
  pub output_bytes : ℕ
  pub last_line_partial : Bool
  pub first_line_exceeds_limit : Bool
  pub max_lines : ℤ
  pub max_bytes : ℤ

pub record TruncationOptions : Type 0 where
  pub max_lines : ℤ
  pub max_bytes : ℤ

or_default : ℤ → ℕ → ℤ
or_default (pos zero) d = pos d
or_default (pos (suc n)) d = pos (suc n)
or_default (negsuc n) d = negsuc n

unfoldable pub resolve_limits : TruncationOptions → ℤ × ℤ
unfolding or_default
resolve_limits opts =
    (or_default opts.max_lines default_max_lines, or_default opts.max_bytes default_max_bytes)

unfoldable pub put_first : ℕ → List (List ℕ) → List (List ℕ)
put_first b [] = (b ∷ []) ∷ []
put_first b (l ∷ ls) = (b ∷ l) ∷ ls

-- strings.Split at newlines
unfoldable pub split : List ℕ → List (List ℕ)
unfolding put_first
split [] = [] ∷ []
split (b ∷ s) = let rest = split s in if b == newline then [] ∷ rest else put_first b rest

-- strings.Join with newlines
unfoldable pub join : List (List ℕ) → List ℕ
join [] = []
join (l ∷ []) = l
join (l ∷ k ∷ ls) = l ++ newline ∷ join (k ∷ ls)

unfoldable pub has_newline_suffix : List ℕ → Bool
has_newline_suffix s = elim (last? s) [ none ↦ false | some b ↦ b == newline ]

unfoldable pub split_lines_for_counting : List ℕ → List (List ℕ)
unfolding split has_newline_suffix
split_lines_for_counting [] = []
split_lines_for_counting (b ∷ s) =
    let lines = split (b ∷ s) in
    if has_newline_suffix (b ∷ s) then take (length lines - 1) lines else lines

unfoldable pub no_truncation_result : List ℕ → ℕ → ℕ → ℤ → ℤ → TruncationResult
no_truncation_result content total_lines total_bytes max_lines max_bytes = record {
  content = content;
  truncated = false;
  truncated_by = unlimited;
  total_lines = total_lines;
  total_bytes = total_bytes;
  output_lines = total_lines;
  output_bytes = total_bytes;
  last_line_partial = false;
  first_line_exceeds_limit = false;
  max_lines = max_lines;
  max_bytes = max_bytes;
}

-- What a collecting loop leaves: the lines taken, their bytes with the newlines between them, and
-- whether the loop broke off at a line that does not fit.
pub record Collected : Type 0 where
  pub lines : List (List ℕ)
  pub bytes : ℕ
  pub broke : Bool

-- The loop of TruncateHead over the lines, and of TruncateTail over the lines from the last to the
-- first: `i` lines of `count` bytes are taken. TruncateTail's partial line is `partial_line`.
unfoldable pub collect : ℤ → ℤ → List (List ℕ) → ℕ → ℕ → Collected
collect max_lines max_bytes [] i count = record { lines = []; bytes = count; broke = false }
collect max_lines max_bytes (line ∷ more) i count =
    let line_bytes = if leb 1 i then suc (length line) else length line in
    let rest = collect max_lines max_bytes more (suc i) (count + line_bytes) in
    if ltb_ℤ (pos i) max_lines
    then (if leb_ℤ (pos (count + line_bytes)) max_bytes
        then record { lines = line ∷ rest.lines; bytes = rest.bytes; broke = rest.broke }
        else record { lines = []; bytes = count; broke = true })
    else record { lines = []; bytes = count; broke = false }

-- The limit that the result names.
unfoldable pub limit_of : ℤ → ℤ → Collected → TruncatedBy
limit_of max_lines max_bytes c =
    if leb_ℤ max_lines (pos (length c.lines)) && leb_ℤ (pos c.bytes) max_bytes
    then by_lines
    else if c.broke
    then by_bytes
    else by_lines

-- TruncateHead with its limits and its lines computed. `none` is the panic of lines[0] where there is
-- no line, which a negative limit reaches.
unfoldable pub cut_head : ℤ → ℤ → List ℕ → List (List ℕ) → Option TruncationResult
unfolding no_truncation_result collect limit_of join
cut_head max_lines max_bytes content [] =
    if leb_ℤ (pos 0) max_lines && leb_ℤ (pos (length content)) max_bytes
    then some (no_truncation_result content 0 (length content) max_lines max_bytes)
    else none
cut_head max_lines max_bytes content (first ∷ others) =
    let total_lines = length (first ∷ others) in
    let c = collect max_lines max_bytes (first ∷ others) 0 0 in
    if leb_ℤ (pos total_lines) max_lines && leb_ℤ (pos (length content)) max_bytes
    then some (no_truncation_result content total_lines (length content) max_lines max_bytes)
    else if leb_ℤ (pos (length first)) max_bytes
    then some (record {
      content = join c.lines;
      truncated = true;
      truncated_by = limit_of max_lines max_bytes c;
      total_lines = total_lines;
      total_bytes = length content;
      output_lines = length c.lines;
      output_bytes = length (join c.lines);
      last_line_partial = false;
      first_line_exceeds_limit = false;
      max_lines = max_lines;
      max_bytes = max_bytes;
    })
    else some (record {
      content = [];
      truncated = true;
      truncated_by = by_bytes;
      total_lines = total_lines;
      total_bytes = length content;
      output_lines = 0;
      output_bytes = 0;
      last_line_partial = false;
      first_line_exceeds_limit = true;
      max_lines = max_lines;
      max_bytes = max_bytes;
    })

unfoldable pub truncate_head : List ℕ → TruncationOptions → Option TruncationResult
unfolding resolve_limits split_lines_for_counting cut_head
truncate_head content opts =
    cut_head (resolve_limits opts).0 (resolve_limits opts).1 content
      (split_lines_for_counting content)

-- c & 0xc0 == 0x80
unfoldable pub is_continuation : ℕ → Bool
is_continuation c = c % 256 / 64 == 2

unfoldable pub skip_continuation : List ℕ → List ℕ
unfolding is_continuation
skip_continuation [] = []
skip_continuation (c ∷ s) =
    let rest = skip_continuation s in if is_continuation c then rest else c ∷ s

unfoldable pub truncate_string_to_bytes_from_end : List ℕ → ℤ → List ℕ
unfolding skip_continuation
truncate_string_to_bytes_from_end s (negsuc n) = []
truncate_string_to_bytes_from_end s (pos zero) = []
truncate_string_to_bytes_from_end s (pos (suc n)) =
    if leb (length s) (suc n) then s else skip_continuation (drop (length s - suc n) s)

unfoldable pub reverse_onto : List (List ℕ) → List (List ℕ) → List (List ℕ)
reverse_onto [] acc = acc
reverse_onto (l ∷ ls) acc = reverse_onto ls (l ∷ acc)

-- The edge case of TruncateTail's loop: it broke off at its first line.
unfoldable pub partial_line : ℤ → List (List ℕ) → Collected → Collected × Bool
unfolding truncate_string_to_bytes_from_end
partial_line max_bytes [] c = (c, false)
partial_line max_bytes (line ∷ more) c =
    let cut = truncate_string_to_bytes_from_end line max_bytes in
    elim c.lines [
      | [] ↦
          if c.broke
          then (record { lines = cut ∷ []; bytes = length cut; broke = true }, true)
          else (c, false)
      | taken ∷ others ↦ (c, false)
    ]

-- TruncateTail with its limits and its lines computed.
unfoldable pub cut_tail : ℤ → ℤ → List ℕ → List (List ℕ) → TruncationResult
unfolding no_truncation_result collect limit_of join partial_line reverse_onto
cut_tail max_lines max_bytes content lines =
    let reversed = reverse_onto lines [] in
    let c = partial_line max_bytes reversed (collect max_lines max_bytes reversed 0 0) in
    let output_lines = reverse_onto c.0.lines [] in
    if leb_ℤ (pos (length lines)) max_lines && leb_ℤ (pos (length content)) max_bytes
    then no_truncation_result content (length lines) (length content) max_lines max_bytes
    else record {
      content = join output_lines;
      truncated = true;
      truncated_by = limit_of max_lines max_bytes c.0;
      total_lines = length lines;
      total_bytes = length content;
      output_lines = length output_lines;
      output_bytes = length (join output_lines);
      last_line_partial = c.1;
      first_line_exceeds_limit = false;
      max_lines = max_lines;
      max_bytes = max_bytes;
    }

unfoldable pub truncate_tail : List ℕ → TruncationOptions → TruncationResult
unfolding resolve_limits split_lines_for_counting cut_tail
truncate_tail content opts =
    cut_tail (resolve_limits opts).0 (resolve_limits opts).1 content
      (split_lines_for_counting content)
