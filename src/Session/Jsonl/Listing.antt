-- ===== src/Session/Jsonl/Listing.antt =====
-- Two inputs on which the file backend does not do what the memory backends do: the ids that List
-- gives, and long lines.
use package.text.Mathlib.TextPositions.{len-append}
use Prim.Native.String.{len}
use resolute_agent_core_go.Prelude.{
  sym, false, Bool-cases, inl, inr, ℕ, ◌≤◌, String, Bool, true, List, [], ◌∷◌, ◌++◌, none, some,
  ◌≡◌, ◌≢◌, ap, ◌∙◌, arith, leb, if◌then◌else◌, length, All, ok, err, lookup, insert, le→leb,
  eq_iff,
}
use resolute_agent_core_go.Message.{Message}
use resolute_agent_core_go.Session.Jsonl.{
  newline, max_scan_token_size, scan, token_too_long, Codec, write_records, read_records, Dir,
  ensure_trailing_newline, path, file_at, append_to, load_from, create, append, load, list,
}
use resolute_agent_core_go.Session.Jsonl.RoundTrip.{load_from-insert, path-plain}
use resolute_agent_core_go.Session.FilePath.{has_slash}
use resolute_agent_core_go.Session.Jsonl.Lines.{scan-line, IsPrintable}

path-longer : (name : String) → has_slash name ≡ false → path name ≢ name
path-longer name plain e =
    absurd (omega (arith, len-append name ".jsonl", ap len (sym (path-plain name plain) ∙ e)))

load-missing :
    (codec : Codec Message) (dir : Dir) (j : String)
    → lookup (path j) dir ≡ none
    → load codec dir j ≡ ok []
unfolding load load_from
load-missing codec dir j h = ground arith

not_there :
    (id : String) (file : List ℕ)
    → has_slash (path id) ≡ false
    → lookup (path (path id)) ((path id, file) ∷ []) ≡ none
unfolding lookup
not_there id file plain =
    ground (arith, eq_iff (path id) (path (path id)), path-longer (path id) plain)

-- In a directory with one session, every id that List gives loads as a session without messages,
-- whatever the session holds: List gives the name of the file, and Load adds the ending again.
pub load-list :
    (codec : Codec Message) (id : String) (file : List ℕ)
    → All (λ listed. load codec ((path id, file) ∷ []) listed ≡ ok []) (list ((path id, file) ∷ []))
unfolding list
load-list codec id file = elim (Bool-cases (has_slash (path id))) [
  | inl below ↦ rw (below, list) tt
  | inr plain ↦
      rw (plain, list)
        (load-missing codec ((path id, file) ∷ []) (path id) (not_there id file plain), tt)
]

file_at-fresh : (name : String) → file_at name (insert name [] []) ≡ []
unfolding file_at insert lookup
file_at-fresh name = ground arith

written :
    (codec : Codec Message) (m : Message) (line : List ℕ)
    → codec.encode m ≡ some line
    → (write_records codec (m ∷ []) (ensure_trailing_newline [])).0 ≡ line ++ newline ∷ []
unfolding write_records ensure_trailing_newline
written codec m line e = rw (e, write_records)

read-too_long :
    (codec : Codec Message) (line : List ℕ)
    → IsPrintable line
    → max_scan_token_size ≤ length line
    → read_records codec (line ++ newline ∷ []) ≡ err token_too_long
unfolding read_records
read-too_long codec line printable long =
    let over : leb max_scan_token_size (length line) ≡ true = le→leb _ _ long in
    let stopped : scan (line ++ newline ∷ []) [] ≡ none =
      scan-line line printable ∙ ap (λ (b : Bool). if b then none else some (line ∷ [])) over in
    rw (stopped, read_records)

-- After a message whose line is printable and takes 64 KiB or more has been appended to a new session, Load fails.
pub load-too_long :
    (codec : Codec Message) (id : String) (m : Message) (line : List ℕ)
    → codec.encode m ≡ some line
    → IsPrintable line
    → max_scan_token_size ≤ length line
    → load codec (append codec id (m ∷ []) (create id []).1).0 id ≡ err token_too_long
unfolding load append create append_to
load-too_long codec id m line e printable long =
    load_from-insert codec (path id) _ (insert (path id) [] [])
    ∙ ap (read_records codec) (
        ap (λ f. (write_records codec (m ∷ []) (ensure_trailing_newline f)).0)
          (file_at-fresh (path id))
        ∙ written codec m line e)
    ∙ read-too_long codec line printable long
