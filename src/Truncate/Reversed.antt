-- ===== src/Truncate/Reversed.antt =====
-- Lines in reverse, as the loop of TruncateTail walks them: their number, their bytes, their order.
use resolute_agent_core_go.Prelude.{
  ℕ, suc, ◌+◌, ◌-◌, ◌≤◌, List, [], ◌∷◌, ◌++◌, ◌≡◌, refl, ap, sym, ◌∙◌, arith, length, take, drop,
  append_assoc, take-append-drop, take-append, length-drop,
}
use resolute_agent_core_go.Truncate.{reverse_onto, join}
use resolute_agent_core_go.Truncate.Lines.{size_from, length-join}

pub reverse_onto-append :
    (xs ys acc : List (List ℕ))
    → reverse_onto (xs ++ ys) acc ≡ reverse_onto ys (reverse_onto xs acc)
unfolding reverse_onto
reverse_onto-append [] ys acc = refl
reverse_onto-append (x ∷ xs) ys acc = reverse_onto-append xs ys (x ∷ acc)

pub reverse_onto-nil : (xs acc : List (List ℕ)) → reverse_onto xs acc ≡ reverse_onto xs [] ++ acc
unfolding reverse_onto
reverse_onto-nil [] acc = refl
reverse_onto-nil (x ∷ xs) acc =
    reverse_onto-nil xs (x ∷ acc)
    ∙ sym (append_assoc (reverse_onto xs []) (x ∷ []) acc)
    ∙ ap (λ r. r ++ acc) (sym (reverse_onto-nil xs (x ∷ [])))

pub reverse_onto-twice :
    (xs acc : List (List ℕ)) → reverse_onto (reverse_onto xs acc) [] ≡ reverse_onto acc xs
unfolding reverse_onto
reverse_onto-twice [] acc = refl
reverse_onto-twice (x ∷ xs) acc = reverse_onto-twice xs (x ∷ acc)

pub length-reverse_onto :
    (xs acc : List (List ℕ)) → length (reverse_onto xs acc) ≡ length xs + length acc
unfolding reverse_onto
length-reverse_onto [] acc = omega arith
length-reverse_onto (x ∷ xs) acc = omega (arith, length-reverse_onto xs (x ∷ acc))

-- The last k lines, taken in reverse.
pub reverse_onto-take :
    (k : ℕ) (xs : List (List ℕ))
    → k ≤ length xs
    → reverse_onto (take k (reverse_onto xs [])) [] ≡ drop (length xs - k) xs
unfolding reverse_onto
reverse_onto-take k xs h =
    let a = take (length xs - k) xs in
    let b = drop (length xs - k) xs in
    let size : length (reverse_onto b []) ≡ k =
      omega (arith, length-reverse_onto b [], length-drop (length xs - k) xs) in
    let parts : reverse_onto xs [] ≡ reverse_onto b [] ++ reverse_onto a [] =
      ap (λ l. reverse_onto l []) (sym (take-append-drop (length xs - k) xs))
      ∙ reverse_onto-append a b []
      ∙ reverse_onto-nil b (reverse_onto a []) in
    let front : take k (reverse_onto xs []) ≡ reverse_onto b [] =
      ap (take k) parts
      ∙ ap (λ m. take m (reverse_onto b [] ++ reverse_onto a [])) (sym size)
      ∙ take-append (reverse_onto b []) (reverse_onto a []) in
    ap (λ l. reverse_onto l []) front ∙ reverse_onto-twice b []

weight : List (List ℕ) → ℕ
weight [] = 0
weight (l ∷ ls) = suc (length l) + weight ls

weight-reverse_onto :
    (xs acc : List (List ℕ)) → weight (reverse_onto xs acc) ≡ weight xs + weight acc
unfolding weight reverse_onto
weight-reverse_onto [] acc = omega arith
weight-reverse_onto (x ∷ xs) acc = omega (arith, weight-reverse_onto xs (x ∷ acc))

size_from-suc : (i : ℕ) (ls : List (List ℕ)) → size_from (suc i) ls ≡ weight ls
unfolding weight
size_from-suc i [] = refl
size_from-suc i (l ∷ ls) = ground (arith, size_from-suc (suc i) ls)

size_from-weight : (ls : List (List ℕ)) → size_from 0 ls ≡ weight ls - 1
unfolding weight
size_from-weight [] = refl
size_from-weight (l ∷ ls) = ground (arith, size_from-suc 0 ls)

-- The order of the lines does not change the bytes that they take.
pub length-join-reverse_onto :
    (ls : List (List ℕ)) → length (join (reverse_onto ls [])) ≡ size_from 0 ls
unfolding weight
length-join-reverse_onto ls =
    length-join (reverse_onto ls [])
    ∙ size_from-weight (reverse_onto ls [])
    ∙ ap (λ w. w - 1) (weight-reverse_onto ls [] ∙ nothing_more (weight ls))
    ∙ sym (size_from-weight ls)
  where
    nothing_more : (n : ℕ) → n + 0 ≡ n
    nothing_more n = omega arith
