-- ===== src/Session/Jsonl.antt =====
-- session/jsonl.go: JSONLSession, one file of lines for each session and one for its summaries.
-- The directory is a map from file names, relative to it, to bytes; operating system errors are left out. json.Marshal
-- and json.Unmarshal of a record are parameters: `encode` fails on a body that is no JSON document.
pub mod Lines
pub mod RoundTrip
pub mod Listing
use Prim.Native.String.{◌++◌ as concat}
use resolute_agent_core_go.Prelude.{
  ℕ, zero, suc, ◌<◌, String, Bool, true, false, List, [], ◌∷◌, ◌++◌, Option, none, some, Outcome,
  ok, err, Dict, lookup, insert, delete, ltb, leb, ◌==◌, if◌then◌else◌, length, last?,
}
use resolute_agent_core_go.Message.{Message}
use resolute_agent_core_go.Session.FilePath.{has_slash, clean}
use resolute_agent_core_go.Compaction.{BranchSummary}

abbrev pub newline : ℕ
newline = 10

abbrev pub carriage_return : ℕ
carriage_return = 13

-- bufio.MaxScanTokenSize: a line and its newline must fit
abbrev pub max_scan_token_size : ℕ
max_scan_token_size = 65536

pub data Error : Type 0 where
  marshaling token_too_long : Error

-- The writer and the reader of one kind of record.
pub record Codec (R : Type 0) : Type 0 where
  pub encode : R → Option (List ℕ)
  pub decode : List ℕ → Option R

-- Drops a carriage return at the end of a line, as bufio.ScanLines does.
unfoldable pub drop_cr : List ℕ → List ℕ
drop_cr [] = []
drop_cr (c ∷ []) = if c == carriage_return then [] else c ∷ []
drop_cr (c ∷ d ∷ s) = c ∷ drop_cr (d ∷ s)

-- The lines of a file, or `none` where one is too long; `cur` is the line read so far.
unfoldable pub scan : List ℕ → List ℕ → Option (List (List ℕ))
unfolding drop_cr
scan [] [] = some []
scan [] (b ∷ cur) =
    if leb max_scan_token_size (length (b ∷ cur)) then none else some (drop_cr (b ∷ cur) ∷ [])
scan (c ∷ s) cur = elim (c == newline) [
  | true ↦ elim (leb max_scan_token_size (length cur)) [
    | true ↦ none
    | false ↦ elim (scan s []) [ none ↦ none | some ls ↦ some (drop_cr cur ∷ ls) ]
  ]
  | false ↦ scan s (cur ++ c ∷ [])
]

-- Nothing for an empty file or one that ends in a newline.
unfoldable pub ensure_trailing_newline : List ℕ → List ℕ
ensure_trailing_newline file = elim (last? file) [
  | none ↦ file
  | some b ↦ if b == newline then file else file ++ newline ∷ []
]

module _ {R : Type 0} (codec : Codec R) where
  -- The loop over the records: what was written before an error stays written.
  unfoldable pub write_records : List R → List ℕ → List ℕ × Option Error
  write_records [] file = (file, none)
  write_records (r ∷ rs) file = elim (codec.encode r) [
    | none ↦ (file, some marshaling)
    | some line ↦ write_records rs (file ++ (line ++ newline ∷ []))
  ]

  -- Lines that do not decode are passed over.
  unfoldable pub decode_lines : List (List ℕ) → List R
  decode_lines [] = []
  decode_lines (l ∷ ls) = elim (codec.decode l) [
    | none ↦ decode_lines ls
    | some r ↦ r ∷ decode_lines ls
  ]

  unfoldable pub read_records : List ℕ → Outcome Error (List R)
  unfolding scan decode_lines
  read_records file = elim (scan file []) [
    | none ↦ err token_too_long
    | some ls ↦ ok (decode_lines ls)
  ]

abbrev pub Dir : Type 0
Dir = Dict (List ℕ)

-- path, relative to the directory: a name that stays in it has no slash, one with slashes is in a
-- directory below it or, where it begins with `..`, outside.
unfoldable pub path : String → String
unfolding clean
path id = clean (concat id ".jsonl")

unfoldable pub summaries_path : String → String
unfolding path
summaries_path id = concat (path id) ".summaries"

unfoldable pub file_at : String → Dir → List ℕ
file_at name dir = elim (lookup name dir) [ none ↦ [] | some file ↦ file ]

-- os.OpenFile with O_APPEND and O_CREATE, the repair, and the writes
pub append_to : {R : Type 0} → Codec R → String → List R → Dir → Dir × Option Error
unfolding file_at ensure_trailing_newline write_records
append_to codec name rs dir =
    let (file, e) = write_records codec rs (ensure_trailing_newline (file_at name dir)) in
    (insert name file dir, e)

-- A file that is not there has no records.
pub load_from : {R : Type 0} → Codec R → String → Dir → Outcome Error (List R)
unfolding read_records
load_from codec name dir = elim (lookup name dir) [
  | none ↦ ok []
  | some file ↦ read_records codec file
]

unfoldable pub create : String → Dir → String × Dir
unfolding path
create id dir = (id, insert (path id) [] dir)

unfoldable pub append : Codec Message → String → List Message → Dir → Dir × Option Error
unfolding append_to path
append codec id msgs dir = append_to codec (path id) msgs dir

unfoldable pub load : Codec Message → Dir → String → Outcome Error (List Message)
unfolding load_from path
load codec dir id = load_from codec (path id) dir

unfoldable pub append_branch_summary :
    Codec BranchSummary → String → BranchSummary → Dir → Dir × Option Error
unfolding append_to summaries_path
append_branch_summary codec id s dir = append_to codec (summaries_path id) (s ∷ []) dir

unfoldable pub load_branch_summaries :
    Codec BranchSummary → Dir → String → Outcome Error (List BranchSummary)
unfolding load_from summaries_path
load_branch_summaries codec dir id = load_from codec (summaries_path id) dir

-- os.ReadDir gives the entries of the directory itself, not of those below it; each name of a file is
-- taken for a session id.
unfoldable pub list : Dir → List String
unfolding has_slash
list [] = []
list ((name, file) ∷ dir) = let rest = list dir in if has_slash name then rest else name ∷ rest

unfoldable pub delete_session : String → Dir → Dir
unfolding path summaries_path
delete_session id dir = delete (summaries_path id) (delete (path id) dir)
