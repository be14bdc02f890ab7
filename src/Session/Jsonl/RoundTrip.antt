-- ===== src/Session/Jsonl/RoundTrip.antt =====
-- What Append writes, Load reads.
use mathlib.Core.Path.{ap₂}
use Prim.Native.String.{◌++◌ as concat}
use package.text.Mathlib.TextPositions.{len-append}
use resolute_agent_core_go.Session.FilePath.{has_slash, clean-plain, has_slash-append}
use package.text.Mathlib.TextLemmas.{append_cancel_right}
use resolute_agent_core_go.Prelude.{
  ℕ, ◌<◌, String, Bool, false, List, [], ◌∷◌, ◌++◌, none, some, ◌≡◌, ◌≢◌, refl, sym, ap, ◌∙◌, ◌⊎◌,
  inl, inr, ◌||◌, arith, leb, ◌==◌, if◌then◌else◌, length, last?, All, Bool-cases, Option-cases,
  append_assoc, append-nil, last?-split, ok, lookup, insert, lookup-insert, eq_iff,
}
use resolute_agent_core_go.Message.{Message}
use resolute_agent_core_go.Session.Jsonl.{
  newline, max_scan_token_size, scan, ensure_trailing_newline, Codec, write_records, decode_lines,
  read_records, Dir, path, file_at, append_to, load_from, append, load,
}
use resolute_agent_core_go.Session.Jsonl.Lines.{
  only_line, scan-nil, scan-then, scan-repair, scan-line, IsPrintable, then_lines,
}

-- Empty, or ending in a newline.
abbrev IsClosed : List ℕ → Type 0
IsClosed f = (f ≡ []) ⊎ ((g : List ℕ) × (f ≡ g ++ newline ∷ []))

ensure-last :
    (c : ℕ) (s : List ℕ) (b : ℕ)
    → last? (c ∷ s) ≡ some b
    → ensure_trailing_newline (c ∷ s) ≡ (if b == newline then c ∷ s else (c ∷ s) ++ newline ∷ [])
unfolding ensure_trailing_newline
ensure-last c s b l = rw (l, ensure_trailing_newline)

ensure-IsClosed : (f : List ℕ) → IsClosed (ensure_trailing_newline f)
ensure-IsClosed [] = inl (unfold ensure_trailing_newline in refl)
ensure-IsClosed (c ∷ s) =
    let (g, b, e, l) = last?-split c s in
    rw (ensure-last c s b l) (elim (Bool-cases (b == newline)) [
      | inl closed ↦
          let b-newline : b ≡ newline = ground arith in
          rw closed (inr (g, e ∙ ap (λ t. g ++ t ∷ []) b-newline))
      | inr open_line ↦ rw open_line (inr (c ∷ s, refl))
    ])

scan-ensure : (f : List ℕ) → scan (ensure_trailing_newline f) [] ≡ scan f []
scan-ensure [] = unfold ensure_trailing_newline in refl
scan-ensure (c ∷ s) =
    let (g, b, e, l) = last?-split c s in
    rw (ensure-last c s b l) (elim (Bool-cases (b == newline)) [
      | inl closed ↦ rw closed
      | inr open_line ↦ rw open_line (scan-repair c s [] b l open_line)
    ])

scan-closed : (f g : List ℕ) → IsClosed f → scan (f ++ g) [] ≡ then_lines (scan f []) (scan g [])
scan-closed f g (inl e) =
    rw e (sym (only_line (scan g [])) ∙ ap (λ t. then_lines t (scan g [])) (sym scan-nil))
scan-closed f g (inr (f', e)) =
    rw e (ap (λ t. scan t []) (append_assoc f' (newline ∷ []) g) ∙ scan-then f' g [])

abbrev pub IsShortLine : List ℕ → Type 0
IsShortLine line = length line < max_scan_token_size

module _ {R : Type 0} (codec : Codec R) where
  -- Records that Append can write, and that Load can read back.
  abbrev pub IsWritable : R → Type 0
  IsWritable r =
      (line : List ℕ) × (codec.encode r ≡ some line)
      × (codec.decode line ≡ some r)
      × IsPrintable line
      × IsShortLine line

  IsClosed-line : (f line : List ℕ) → IsClosed (f ++ (line ++ newline ∷ []))
  IsClosed-line f line = inr (f ++ line, sym (append_assoc f line (newline ∷ [])))

  decode_lines-append :
      (ls : List (List ℕ)) (line : List ℕ) (r : R)
      → codec.decode line ≡ some r
      → decode_lines codec (ls ++ line ∷ []) ≡ decode_lines codec ls ++ r ∷ []
  unfolding decode_lines
  decode_lines-append [] line r d = rw d
  decode_lines-append (l ∷ ls) line r d = ground (arith, decode_lines-append ls line r d)

  write_records-scan :
      (rs : List R) (f : List ℕ) (ls : List (List ℕ))
      → IsClosed f
      → scan f [] ≡ some ls
      → All IsWritable rs
      → (ls' : List (List ℕ)) × ((write_records codec rs f).1 ≡ none)
        × (scan (write_records codec rs f).0 [] ≡ some ls')
        × (decode_lines codec ls' ≡ decode_lines codec ls ++ rs)
  unfolding write_records
  write_records-scan [] f ls closed e h = (ls, refl, e, sym (append-nil _))
  write_records-scan (r ∷ rs) f ls closed e ((line, enc, dec, printable, short), h) =
      let fits : leb max_scan_token_size (length line) ≡ false = ground arith in
      let read : scan (f ++ (line ++ newline ∷ [])) [] ≡ some (ls ++ line ∷ []) =
        scan-closed f (line ++ newline ∷ []) closed
        ∙ ap₂ then_lines e (
            scan-line line printable
            ∙ ap (λ (b : Bool). if b then none else some (line ∷ [])) fits) in
      let (ls', done, scanned, decoded) =
        write_records-scan rs (f ++ (line ++ newline ∷ [])) (ls ++ line ∷ []) (IsClosed-line f line)
          read h in
      rw (enc, write_records)
        (
          ls',
          done,
          scanned,
          decoded
              ∙ ap (λ t. t ++ rs) (decode_lines-append ls line r dec)
              ∙ append_assoc (decode_lines codec ls) (r ∷ []) rs,
        )

  read-scan :
      (f : List ℕ) (rs : List R)
      → read_records codec f ≡ ok rs
      → (ls : List (List ℕ)) × (scan f [] ≡ some ls) × (decode_lines codec ls ≡ rs)
  unfolding read_records
  read-scan f rs e = elim (Option-cases (scan f [])) [
    | inl too_long ↦ ground arith
    | inr (ls, scanned) ↦ (ls, scanned, ground arith)
  ]

  load_from-file_at :
      (name : String) (dir : Dir) (rs : List R)
      → load_from codec name dir ≡ ok rs
      → read_records codec (file_at name dir) ≡ ok rs
  unfolding load_from file_at read_records scan decode_lines
  load_from-file_at name dir rs e = elim (Option-cases (lookup name dir)) [
    | inl missing ↦ ground arith
    | inr (file, found) ↦ ground arith
  ]

  read_records-scan :
      (f : List ℕ) (ls : List (List ℕ))
      → scan f [] ≡ some ls
      → read_records codec f ≡ ok (decode_lines codec ls)
  unfolding read_records
  read_records-scan f ls e = rw (e, read_records)

  pub load_from-insert :
      (name : String) (f : List ℕ) (dir : Dir)
      → load_from codec name (insert name f dir) ≡ read_records codec f
  unfolding load_from
  load_from-insert name f dir = ground (arith, lookup-insert name name f dir, eq_iff name name)

  load_from-insert_ne :
      (name other : String) (f : List ℕ) (dir : Dir)
      → other ≢ name
      → load_from codec name (insert other f dir) ≡ load_from codec name dir
  unfolding load_from
  load_from-insert_ne name other f dir h =
      ground (arith, lookup-insert other name f dir, eq_iff other name)

  load_from-append_to :
      (name : String) (dir : Dir) (before rs : List R)
      → load_from codec name dir ≡ ok before
      → All IsWritable rs
      → ((append_to codec name rs dir).1 ≡ none)
        × (load_from codec name (append_to codec name rs dir).0 ≡ ok (before ++ rs))
  unfolding append_to
  load_from-append_to name dir before rs e h =
      let file = file_at name dir in
      let (ls, scanned, decoded) = read-scan file before (load_from-file_at name dir before e) in
      let (ls', done, scanned', decoded') =
        write_records-scan rs (ensure_trailing_newline file) ls (ensure-IsClosed file)
          (scan-ensure file ∙ scanned) h in
      (
        done,
        load_from-insert name _ dir
            ∙ read_records-scan _ ls' scanned'
            ∙ ap ok (decoded' ∙ ap (λ t. t ++ rs) decoded),
      )

-- Append writes every message, and Load then answers with what it answered before and the messages
-- behind it, also where the file did not end in a newline; for messages that are written on one
-- printable line each, of less than 64 KiB, which decodes to the message.
pub jsonl_load-append :
    (codec : Codec Message) (dir : Dir) (id : String) (before msgs : List Message)
    → load codec dir id ≡ ok before
    → All (IsWritable codec) msgs
    → ((append codec id msgs dir).1 ≡ none)
      × (load codec (append codec id msgs dir).0 id ≡ ok (before ++ msgs))
unfolding load append
jsonl_load-append codec dir id before msgs e h =
    load_from-append_to codec (path id) dir before msgs e h

-- The file of an id without slashes, which cleaning leaves as it is.
pub path-plain : (id : String) → has_slash id ≡ false → path id ≡ concat id ".jsonl"
unfolding path has_slash
path-plain id plain =
    clean-plain (concat id ".jsonl")
      (has_slash-append id ".jsonl" ∙ ap (λ (b : Bool). b || false) plain ∙ refl)
      (omega (arith, len-append id ".jsonl"))

path-injective :
    (id j : String) → has_slash id ≡ false → has_slash j ≡ false → path id ≡ path j → id ≡ j
path-injective id j plain plain' e =
    append_cancel_right id j ".jsonl" (sym (path-plain id plain) ∙ e ∙ path-plain j plain')

-- Where the ids have no slash, the other sessions are left as they were.
pub jsonl_load-append_ne :
    (codec : Codec Message) (dir : Dir) (id j : String) (msgs : List Message)
    → has_slash id ≡ false
    → has_slash j ≡ false
    → id ≢ j
    → load codec (append codec id msgs dir).0 j ≡ load codec dir j
unfolding load append
jsonl_load-append_ne codec dir id j msgs plain plain' h =
    load_from-insert_ne codec (path j) (path id) _ dir (λ e. h (path-injective id j plain plain' e))
