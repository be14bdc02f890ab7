-- ===== src/ActiveTools/Sets.antt =====
-- sameStringSet of active_tools.go.
use resolute_agent_core_go.Prelude.{
  suc, ◌≤◌, String, Bool, true, false, ◌&&◌, List, [], ◌∷◌, ◌≡◌, ◌↔◌, refl, ap, sym, ◌∙◌, inl, inr,
  arith, subst, str_eq, eq_iff, if◌then◌else◌, length, Bool-cases,
}
use resolute_agent_core_go.ActiveTools.{contains, dedup, all_in, same_string_set}

-- ys without the first x.
remove : String → List String → List String
remove x [] = []
remove x (y ∷ ys) = if str_eq y x then ys else y ∷ remove x ys

contains-same_name :
    (x y : String) (ys : List String) → str_eq x y ≡ true → contains x ys ≡ contains y ys
contains-same_name x y ys e = ap (λ k. contains k ys) ((eq_iff x y).0 e)

length-remove :
    (x : String) (ys : List String) → contains x ys ≡ true → suc (length (remove x ys)) ≡ length ys
unfolding contains remove
length-remove x [] h = cc
length-remove x (y ∷ ys) h = elim (Bool-cases (str_eq y x)) [
  | inl same ↦ rw same refl
  | inr other ↦ rw other (omega (arith, length-remove x ys (ground arith)))
]

contains-remove :
    (x n : String) (ys : List String)
    → str_eq x n ≡ false
    → contains n (remove x ys) ≡ contains n ys
unfolding contains remove
contains-remove x n [] h = refl
contains-remove x n (y ∷ ys) h = elim (Bool-cases (str_eq y x)) [
  | inl same ↦ ground (arith, eq_iff y x, eq_iff y n, eq_iff x n)
  | inr other ↦ ground (arith, contains-remove x n ys h)
]

-- Every name of xs is one of ys, and no name of xs stands there twice.
Within : List String → List String → Type 0
Within [] ys = Unit
Within (x ∷ xs) ys = (contains x ys ≡ true) × (contains x xs ≡ false) × Within xs ys

Within-remove :
    (x : String) (xs ys : List String)
    → contains x xs ≡ false
    → Within xs ys
    → Within xs (remove x ys)
unfolding Within contains
Within-remove x [] ys fresh h = tt
Within-remove x (y ∷ xs) ys fresh (h, once, hs) = (
  ground (arith, contains-remove x y ys, eq_iff x y, eq_iff y x),
  once,
  Within-remove x xs ys (ground arith) hs,
)

-- As many distinct names as ys has, all of ys, are all that ys has.
Within-all :
    (xs ys : List String) (n : String)
    → Within xs ys
    → length ys ≤ length xs
    → contains n ys ≡ true
    → contains n xs ≡ true
unfolding Within contains
Within-all [] [] n h few c = cc
Within-all [] (y ∷ ys) n h few c = absurd (omega arith)
Within-all (x ∷ xs) ys n (here, once, hs) few c = elim (Bool-cases (str_eq x n)) [
  | inl same ↦ ground arith
  | inr other ↦
      let fewer : length (remove x ys) ≤ length xs = omega (arith, length-remove x ys here) in
      ground (
        arith,
        contains-remove x n ys other,
        Within-all xs (remove x ys) n (Within-remove x xs ys once hs) fewer,
      )
]

contains-dedup : (n : String) (xs : List String) → contains n (dedup xs) ≡ contains n xs
unfolding contains dedup
contains-dedup n [] = refl
contains-dedup n (x ∷ xs) = elim (Bool-cases (contains x (dedup xs))) [
  | inl there ↦ elim (Bool-cases (str_eq x n)) [
    | inl same ↦ ground (arith, contains-dedup n xs, contains-same_name x n (dedup xs) same)
    | inr other ↦ ground (arith, contains-dedup n xs)
  ]
  | inr new ↦ ground (arith, contains-dedup n xs)
]

dedup-Within : (xs ys : List String) → all_in (dedup xs) ys ≡ true → Within (dedup xs) ys
unfolding dedup all_in Within
dedup-Within [] ys h = tt
dedup-Within (x ∷ xs) ys h = elim (Bool-cases (contains x (dedup xs))) [
  | inl there ↦
      let rest : all_in (dedup xs) ys ≡ true =
        subst (λ b. all_in (if b then dedup xs else x ∷ dedup xs) ys ≡ true) there h in
      rw there (dedup-Within xs ys rest)
  | inr new ↦
      let whole : (contains x ys && all_in (dedup xs) ys) ≡ true =
        subst (λ b. all_in (if b then dedup xs else x ∷ dedup xs) ys ≡ true) new h in
      rw new (ground arith, new, dedup-Within xs ys (ground arith))
]

Within-length : (xs ys : List String) → Within xs ys → length xs ≤ length ys
unfolding Within
Within-length [] ys h = omega arith
Within-length (x ∷ xs) ys (here, once, hs) =
    omega (
      arith,
      length-remove x ys here,
      Within-length xs (remove x ys) (Within-remove x xs ys once hs),
    )

Within-contains :
    (xs ys : List String) (n : String) → Within xs ys → contains n xs ≡ true → contains n ys ≡ true
unfolding Within contains
Within-contains [] ys n h c = cc
Within-contains (x ∷ xs) ys n (here, once, hs) c = elim (Bool-cases (str_eq x n)) [
  | inl same ↦ ground (arith, contains-same_name x n ys same)
  | inr other ↦ Within-contains xs ys n hs (ground arith)
]

all_in-contained :
    (xs ys : List String)
    → ((n : String) → contains n xs ≡ true → contains n ys ≡ true)
    → all_in xs ys ≡ true
unfolding all_in contains
all_in-contained [] ys h = refl
all_in-contained (x ∷ xs) ys h =
    let rest = all_in-contained xs ys (λ n c. h n (ground arith)) in
    let here : contains x ys ≡ true = h x (ground (arith, eq_iff x x)) in ground arith

same_bool : (p q : Bool) → (p ≡ true → q ≡ true) → (q ≡ true → p ≡ true) → p ≡ q
same_bool true q f g = sym (f refl)
same_bool false true f g = g refl
same_bool false false f g = refl

same-contains :
    (a b : List String) (n : String)
    → same_string_set a b ≡ true
    → contains n (dedup a) ≡ contains n (dedup b)
unfolding same_string_set
same-contains a b n h =
    let inside = dedup-Within a (dedup b) (ground arith) in
    let size : length (dedup a) ≡ length (dedup b) = ground arith in
    same_bool (contains n (dedup a)) (contains n (dedup b))
      (Within-contains (dedup a) (dedup b) n inside)
      (Within-all (dedup a) (dedup b) n inside (omega arith))

contains-same :
    (a b : List String)
    → ((n : String) → contains n (dedup a) ≡ contains n (dedup b))
    → same_string_set a b ≡ true
unfolding same_string_set
contains-same a b h =
    let forth = all_in-contained (dedup a) (dedup b) (λ n c. sym (h n) ∙ c) in
    let back = all_in-contained (dedup b) (dedup a) (λ n c. h n ∙ c) in
    let up = Within-length (dedup a) (dedup b) (dedup-Within a (dedup b) forth) in
    let down = Within-length (dedup b) (dedup a) (dedup-Within b (dedup a) back) in ground arith

-- sameStringSet holds exactly of two lists that have the same names, in any order and any number of
-- times.
pub same_string_set-contains :
    (a b : List String)
    → (same_string_set a b ≡ true) ↔ ((n : String) → contains n a ≡ contains n b)
same_string_set-contains a b = (
  (λ h n. sym (contains-dedup n a) ∙ same-contains a b n h ∙ contains-dedup n b),
  (λ h. contains-same a b (λ n. contains-dedup n a ∙ h n ∙ sym (contains-dedup n b))),
)
