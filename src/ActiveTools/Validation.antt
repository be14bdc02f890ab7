-- ===== src/ActiveTools/Validation.antt =====
-- What validateToolConfig accepts.
use resolute_agent_core_go.Prelude.{
  String, true, false, ◌||◌, List, [], ◌∷◌, Option, none, some, Outcome-cases, ok, ◌≡◌, ◌≢◌, refl,
  ◌∙◌, ◌↔◌, inl, inr, arith, eq_iff, All,
}
use resolute_agent_core_go.ActiveTools.{
  RegisteredTool, contains, is_valid_schema, tool_names, register, check_active,
  validate_tool_config,
}

-- No name twice.
abbrev pub Distinct : List String → Type 0
Distinct [] = Unit
Distinct (x ∷ xs) = All (λ y. x ≢ y) xs × Distinct xs

abbrev Fresh : List String → List String → Type 0
Fresh seen = All (λ n. contains n seen ≡ false)

pub HasSchema : {X : Type 0} → RegisteredTool X → Type 0
HasSchema t = is_valid_schema t.schema ≡ true

Fresh-cons :
    (x : String) (seen ns : List String) → All (λ y. x ≢ y) ns → Fresh seen ns → Fresh (x ∷ seen) ns
unfolding contains
Fresh-cons x seen [] d f = tt
Fresh-cons x seen (n ∷ ns) (d, ds) (f, fs) =
    (ground (arith, eq_iff x n), Fresh-cons x seen ns ds fs)

Fresh-uncons :
    (x : String) (seen ns : List String) → Fresh (x ∷ seen) ns → All (λ y. x ≢ y) ns × Fresh seen ns
unfolding contains
Fresh-uncons x seen [] f = (tt, tt)
Fresh-uncons x seen (n ∷ ns) (f, fs) =
    let (ds, gs) = Fresh-uncons x seen ns fs in
    ((ground (arith, eq_iff x n), ds), (ground (arith, eq_iff x n), gs))

or_swap :
    (x n : String) (names seen : List String)
    → (contains n names || contains n (x ∷ seen)) ≡ (contains n (x ∷ names) || contains n seen)
unfolding contains
or_swap x n names seen = ground arith

module _ {X : Type 0} where
  abbrev IsRegistrable : List (RegisteredTool X) → List String → Type 0
  IsRegistrable tools seen =
      Distinct (tool_names tools) × Fresh seen (tool_names tools) × All HasSchema tools

  register-step :
      (t : RegisteredTool X) (ts : List (RegisteredTool X)) (seen r : List String)
      → register (t ∷ ts) seen ≡ ok r
      → (contains t.name seen ≡ false)
        × (is_valid_schema t.schema ≡ true)
        × (register ts (t.name ∷ seen) ≡ ok r)
  unfolding register
  register-step t ts seen r e = ground arith

  -- The set that a successful registration gives, behind the names that were there.
  register-ok :
      (tools : List (RegisteredTool X)) (seen r : List String)
      → register tools seen ≡ ok r
      → IsRegistrable tools seen
        × ((n : String) → contains n r ≡ (contains n (tool_names tools) || contains n seen))
  unfolding register tool_names HasSchema
  register-ok [] seen r e = ((tt, tt, tt), λ n. cc)
  register-ok (t ∷ ts) seen r e =
      let (unseen, valid, more) = register-step t ts seen r e in
      let ((distinct, fresh, schemas), members) = register-ok ts (t.name ∷ seen) r more in
      let (others, fresh') = Fresh-uncons t.name seen (tool_names ts) fresh in
      (
        ((others, distinct), (unseen, fresh'), (valid, schemas)),
        λ n. members n ∙ or_swap t.name n (tool_names ts) seen,
      )

  register-registrable :
      (tools : List (RegisteredTool X)) (seen : List String)
      → IsRegistrable tools seen
      → (r : List String) × (register tools seen ≡ ok r)
  unfolding register tool_names HasSchema
  register-registrable [] seen h = (seen, refl)
  register-registrable (t ∷ ts) seen ((others, distinct), (unseen, fresh), (valid, schemas)) =
      let (r, e) =
        register-registrable ts (t.name ∷ seen)
          (distinct, Fresh-cons t.name seen (tool_names ts) others fresh, schemas) in
      (r, rw (unseen, valid) e)

-- check_active accepts just the distinct registered names that are not active yet.
check_active-none :
    (registered ns active : List String)
    → check_active registered ns active ≡ none
    → Distinct ns × Fresh active ns × All (λ n. contains n registered ≡ true) ns
unfolding check_active
check_active-none registered [] active e = (tt, tt, tt)
check_active-none registered (n ∷ ns) active e =
    let more : check_active registered ns (n ∷ active) ≡ none = ground arith in
    let (distinct, fresh, known) = check_active-none registered ns (n ∷ active) more in
    let (others, fresh') = Fresh-uncons n active ns fresh in
    ((others, distinct), (ground arith, fresh'), (ground arith, known))

none-check_active :
    (registered ns active : List String)
    → Distinct ns
    → Fresh active ns
    → All (λ n. contains n registered ≡ true) ns
    → check_active registered ns active ≡ none
unfolding check_active
none-check_active registered [] active d f k = refl
none-check_active registered (n ∷ ns) active (d, ds) (f, fs) (k, ks) =
    rw (k, f) (none-check_active registered ns (n ∷ active) ds (Fresh-cons n active ns d fs) ks)

-- A configuration that the code means to accept.
pub record IsValidConfig {X : Type 0} (tools : List (RegisteredTool X))
    (active : Option (List String)) : Type 0 where
  pub names_distinct : Distinct (tool_names tools)
  pub schemas_valid : All HasSchema tools
  pub active_distinct : (names : List String) → active ≡ some names → Distinct names
  pub active_registered :
      (names : List String)
      → active ≡ some names
      → All (λ n. contains n (tool_names tools) ≡ true) names

Fresh-nil : (ns : List String) → Fresh [] ns
unfolding contains
Fresh-nil [] = tt
Fresh-nil (n ∷ ns) = (refl, Fresh-nil ns)

known-eq :
    (r names ns : List String)
    → ((n : String) → contains n r ≡ (contains n names || contains n []))
    → All (λ n. contains n r ≡ true) ns
    → All (λ n. contains n names ≡ true) ns
unfolding contains
known-eq r names [] m k = tt
known-eq r names (n ∷ ns) m (k, ks) = (ground (arith, m n), known-eq r names ns m ks)

known-eq_back :
    (r names ns : List String)
    → ((n : String) → contains n r ≡ (contains n names || contains n []))
    → All (λ n. contains n names ≡ true) ns
    → All (λ n. contains n r ≡ true) ns
unfolding contains
known-eq_back r names [] m k = tt
known-eq_back r names (n ∷ ns) m (k, ks) = (ground (arith, m n), known-eq_back r names ns m ks)

module _ {X : Type 0} where
  accepted :
      (tools : List (RegisteredTool X)) (active : Option (List String))
      → validate_tool_config tools active ≡ none
      → (r : List String) × (register tools [] ≡ ok r)
        × ((names : List String) → active ≡ some names → check_active r names [] ≡ none)
  unfolding validate_tool_config
  accepted tools none h = elim (Outcome-cases (register tools [])) [
    | inl (r, e) ↦ (r, e, λ names a. cc)
    | inr (e, failed) ↦ ground arith
  ]
  accepted tools (some active) h = elim (Outcome-cases (register tools [])) [
    | inl (r, e) ↦ (r, e, λ names a. ground arith)
    | inr (e, failed) ↦ ground arith
  ]

  sound :
      (tools : List (RegisteredTool X)) (active : Option (List String))
      → validate_tool_config tools active ≡ none
      → IsValidConfig tools active
  sound tools active h =
      let (r, e, checks) = accepted tools active h in
      let ((distinct, _, schemas), members) = register-ok tools [] r e in
      record {
        names_distinct = distinct;
        schemas_valid = schemas;
        active_distinct = λ names a. (check_active-none r names [] (checks names a)).0;
        active_registered = λ names a.
            known-eq r (tool_names tools) names members
              (check_active-none r names [] (checks names a)).2;
      }

  complete :
      (tools : List (RegisteredTool X)) (active : Option (List String))
      → IsValidConfig tools active
      → validate_tool_config tools active ≡ none
  unfolding validate_tool_config
  complete tools none v =
      let (r, e) = register-registrable tools [] (v.names_distinct, Fresh-nil _, v.schemas_valid) in
      rw (e, validate_tool_config)
  complete tools (some names) v =
      let (r, e) = register-registrable tools [] (v.names_distinct, Fresh-nil _, v.schemas_valid) in
      let known =
        known-eq_back r (tool_names tools) names (register-ok tools [] r e).1
          (v.active_registered names refl) in
      rw (e, validate_tool_config)
        (none-check_active r names [] (v.active_distinct names refl) (Fresh-nil names) known)

-- validateToolConfig reports no error exactly for the registered names that are distinct, with valid
-- schemas, and an active set that is nil or a list of distinct registered names.
pub validate_tool_config-IsValidConfig :
    {X : Type 0} (tools : List (RegisteredTool X)) (active : Option (List String))
    → (validate_tool_config tools active ≡ none) ↔ IsValidConfig tools active
validate_tool_config-IsValidConfig tools active = (sound tools active, complete tools active)
