-- ===== src/Edit/Woven.antt =====
-- What an exact edit of a file does (ApplyEditsToNormalizedContent, tools/editdiff.go).
use mathlib.Core.List.{Perm}
use mathlib.Core.List.Perm
use resolute_agent_core_go.Prelude.{
  ℕ, ◌+◌, ◌-◌, ◌≤◌, Bool, true, false, List, [], ◌∷◌, ◌++◌, Option, none, some, ◌≡◌, ◌∙◌, refl, sym,
  ap, inl, inr, ltb, ltb→ge, leb, Bool-cases, if◌then◌else◌, length, take, drop, map,
  take-append-drop, append_assoc, arith,
}
use resolute_agent_core_go.Edit.Text.{Bytes}
use resolute_agent_core_go.Edit.Fuzzy.{Unicode}
use resolute_agent_core_go.Edit.Apply.{
  Edit, MatchedEdit, apply_replacements, insert_match, sort_matches, first_overlap,
}
use resolute_agent_core_go.Edit.Slices.{take_within, drop_behind, take_split, drop_split}

-- An edit and the text that stands before its place.
pub record Piece : Type 0 where
  pub gap : Bytes
  pub edit : Edit

-- The text that the pieces make up with the old or the new texts, and what follows them.
pub weave : (Edit → Bytes) → List Piece → Bytes → Bytes
weave f [] rest = rest
weave f (p ∷ ps) rest = p.gap ++ (f p.edit ++ weave f ps rest)

-- The match of an edit in a content.
pub record Located (content : Bytes) (r : MatchedEdit) (e : Edit) : Type 0 where
  pub inside : r.match_index + r.match_length ≤ length content
  pub here :
      drop r.match_index content ≡ e.old_text ++ drop (r.match_index + r.match_length) content
  pub new_is : r.new_text ≡ e.new_text

unfoldable pub Locates : Bytes → List MatchedEdit → List Edit → Type 0
Locates content [] [] = Unit
Locates content [] (e ∷ es) = ⊥
Locates content (r ∷ rs) [] = ⊥
Locates content (r ∷ rs) (e ∷ es) = Located content r e × Locates content rs es

-- Matches from an offset on that do not overlap.
unfoldable pub Ordered : ℕ → List MatchedEdit → Type 0
Ordered o [] = Unit
Ordered o (r ∷ rs) = (o ≤ r.match_index) × Ordered (r.match_index + r.match_length) rs

pub record Weaves (content : Bytes) (o : ℕ) (rs : List MatchedEdit) (es : List Edit) : Type 0 where
  pub pieces : List Piece
  pub rest : Bytes
  pub edits : map (λ p. p.edit) pieces ≡ es
  pub before : drop o content ≡ weave (λ e. e.old_text) pieces rest
  pub after :
      apply_replacements content rs 0 ≡ take o content ++ weave (λ e. e.new_text) pieces rest

-- One more replacement, before those that were made.
replace_lem :
    (content y new : Bytes) (o i n : ℕ)
    → o ≤ i
    → i + n ≤ length content
    → (take i (take (i + n) content ++ y) ++ new) ++ drop (i + n) (take (i + n) content ++ y)
      ≡ take o content ++ (take (i - o) (drop o content) ++ (new ++ y))
replace_lem content y new o i n from inside =
    ap (λ l. (l ++ new) ++ drop (i + n) (take (i + n) content ++ y))
      (take_within i (i + n) content y (omega arith) inside)
    ∙ ap (λ l. (take i content ++ new) ++ l) (drop_behind (i + n) content y inside)
    ∙ append_assoc (take i content) new y
    ∙ ap (λ l. l ++ (new ++ y)) (take_split o i content from)
    ∙ append_assoc (take o content) (take (i - o) (drop o content)) (new ++ y)

replaced_lem :
    (content result y new : Bytes) (o i n : ℕ)
    → o ≤ i
    → i + n ≤ length content
    → result ≡ take (i + n) content ++ y
    → (take (i - 0) result ++ new) ++ drop (i - 0 + n) result
      ≡ take o content ++ (take (i - o) (drop o content) ++ (new ++ y))
replaced_lem content result y new o i n from inside same =
    ap (λ k. (take k result ++ new) ++ drop (k + n) result) (omega arith)
    ∙ ap (λ l. (take i l ++ new) ++ drop (i + n) l) same
    ∙ replace_lem content y new o i n from inside

pub weaves :
    (content : Bytes) (rs : List MatchedEdit) (es : List Edit) (o : ℕ)
    → Locates content rs es
    → Ordered o rs
    → o ≤ length content
    → Weaves content o rs es
unfolding Locates Ordered weave apply_replacements
weaves content [] [] o h ordered within = record {
  pieces = [];
  rest = drop o content;
  edits = refl;
  before = refl;
  after = sym (take-append-drop o content);
}
weaves content (r ∷ rs) (e ∷ es) o (h, hs) (from, ordered) within =
    let w : Weaves content (r.match_index + r.match_length) rs es =
      weaves content rs es _ hs ordered h.inside in
    record {
      pieces = record { gap = take (r.match_index - o) (drop o content); edit = e } ∷ w.pieces;
      rest = w.rest;
      edits = ap (λ l. e ∷ l) w.edits;
      before =
          drop_split o r.match_index content from
          ∙ ap (λ l. take (r.match_index - o) (drop o content) ++ l)
              (h.here ∙ ap (λ l. e.old_text ++ l) w.before);
      after =
          replaced_lem content (apply_replacements content rs 0)
            (weave (λ e'. e'.new_text) w.pieces w.rest) r.new_text o r.match_index r.match_length
            from h.inside w.after
          ∙ ap
              (λ t.
                take o content
                ++ (take (r.match_index - o) (drop o content)
                    ++ (t ++ weave (λ e'. e'.new_text) w.pieces w.rest)))
              h.new_is;
    }
weaves content [] (e ∷ es) o h ordered within = elim h [ ]
weaves content (r ∷ rs) [] o h ordered within = elim h [ ]

-- Sorting keeps the edits with their matches.
pub record Sorted (content : Bytes) (rs : List MatchedEdit) (es : List Edit) : Type 0 where
  pub order : List Edit
  pub located : Locates content rs order
  pub same_edits : Perm order es

insert_match-Sorted :
    (content : Bytes) (r : MatchedEdit) (e : Edit) (ss : List MatchedEdit) (es : List Edit)
    → Located content r e
    → Locates content ss es
    → Sorted content (insert_match r ss) (e ∷ es)
unfolding Locates insert_match
insert_match-Sorted content r e [] [] h hs = record {
  order = e ∷ [];
  located = (h, tt);
  same_edits = Perm.rfl;
}
insert_match-Sorted content r e [] (d ∷ es) h hs = elim hs [ ]
insert_match-Sorted content r e (s ∷ ss) [] h hs = elim hs [ ]
insert_match-Sorted content r e (s ∷ ss) (d ∷ es) h (hd, hs) =
    elim (Bool-cases (leb r.match_index s.match_index)) [
      | inl before ↦
          rw (before, insert_match)
            (record { order = e ∷ d ∷ es; located = (h, (hd, hs)); same_edits = Perm.rfl })
      | inr behind ↦
          let later : Sorted content (insert_match r ss) (e ∷ es) =
            insert_match-Sorted content r e ss es h hs in
          rw (behind, insert_match)
            (record {
              order = d ∷ later.order;
              located = (hd, later.located);
              same_edits = Perm.trans (Perm.cons d later.same_edits) (Perm.swap e d es);
            })
    ]

pub sort_matches-Sorted :
    (content : Bytes) (rs : List MatchedEdit) (es : List Edit)
    → Locates content rs es
    → Sorted content (sort_matches rs) es
unfolding Locates sort_matches
sort_matches-Sorted content [] [] h = record { order = []; located = tt; same_edits = Perm.rfl }
sort_matches-Sorted content [] (e ∷ es) h = elim h [ ]
sort_matches-Sorted content (r ∷ rs) [] h = elim h [ ]
sort_matches-Sorted content (r ∷ rs) (e ∷ es) (h, hs) =
    let rest : Sorted content (sort_matches rs) es = sort_matches-Sorted content rs es hs in
    let whole : Sorted content (insert_match r (sort_matches rs)) (e ∷ rest.order) =
      insert_match-Sorted content r e (sort_matches rs) rest.order h rest.located in
    record {
      order = whole.order;
      located = whole.located;
      same_edits = Perm.trans whole.same_edits (Perm.cons e rest.same_edits);
    }

-- Sorted matches without overlap are ordered.
unfoldable pub IsNone : {A : Type 0} → Option A → Type 0
IsNone none = Unit
IsNone (some a) = ⊥

IsNone-left :
    {A : Type 0} (b : Bool) (a : A) (o : Option A)
    → IsNone (if b then some a else o)
    → (b ≡ false) × IsNone o
unfolding IsNone
IsNone-left true a o h = elim h [ ]
IsNone-left false a o h = (refl, h)

pub first_overlap-Ordered :
    (u : Unicode) (o : ℕ) (r : MatchedEdit) (rs : List MatchedEdit)
    → o ≤ r.match_index
    → IsNone (first_overlap u (r ∷ rs))
    → Ordered o (r ∷ rs)
unfolding first_overlap Ordered IsNone
first_overlap-Ordered u o r [] from h = (from, tt)
first_overlap-Ordered u o r (s ∷ rs) from h =
    let (fine, later) =
      IsNone-left (ltb s.match_index (r.match_index + r.match_length)) (r.edit_index, s.edit_index)
        (first_overlap u (s ∷ rs)) h in
    (from, first_overlap-Ordered u (r.match_index + r.match_length) s rs (ltb→ge _ _ fine) later)
