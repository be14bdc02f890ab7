-- ===== src/Truncate/Loop.antt =====
-- What the collecting loop takes: as many lines as the two limits allow.
use resolute_agent_core_go.Prelude.{
  ℕ, suc, ◌+◌, ◌≤◌, ◌<◌, true, List, [], ◌∷◌, ◌≡◌, refl, ap, ◌⊎◌, inl, inr, pos, leb_ℤ, ltb_ℤ, leb,
  arith, if◌then◌else◌, length, take, Bool-cases,
}
use resolute_agent_core_go.Truncate.{Collected, collect}
use resolute_agent_core_go.Truncate.Lines.{size_from}

-- The loop, with i lines of count bytes behind it, takes the first k of the lines ls.
pub record Takes (ml mb : ℕ) (ls : List (List ℕ)) (i count k : ℕ) (c : Collected) : Type 0 where
  pub within : k ≤ length ls
  pub taken : c.lines ≡ take k ls
  pub counted : c.bytes ≡ count + size_from i (take k ls)
  pub lines_fit : i ≤ ml → i + k ≤ ml
  pub bytes_fit : count ≤ mb → count + size_from i (take k ls) ≤ mb
  pub no_more : k < length ls → (ml ≤ i + k) ⊎ (mb < count + size_from i (take (suc k) ls))
  pub broke_off : c.broke ≡ true → (k < length ls) × (mb < count + size_from i (take (suc k) ls))

take_zero : (ls : List (List ℕ)) → take 0 ls ≡ []
take_zero [] = refl
take_zero (l ∷ ls) = refl

abbrev line_bytes : ℕ → List ℕ → ℕ
line_bytes i l = if leb 1 i then suc (length l) else length l

Takes-line :
    (ml mb : ℕ) (l : List ℕ) (ls : List (List ℕ)) (i count k : ℕ) (c : Collected)
    → i < ml
    → count + line_bytes i l ≤ mb
    → Takes ml mb ls (suc i) (count + line_bytes i l) k c
    → Takes ml mb
        (l ∷ ls)
        i
        count
        (suc k)
        (record { lines = l ∷ c.lines; bytes = c.bytes; broke = c.broke })
Takes-line ml mb l ls i count k c lt fits t = record {
  within = omega (arith, t.within);
  taken = ap (λ r. l ∷ r) t.taken;
  counted = omega (arith, t.counted);
  lines_fit = λ h. omega (arith, t.lines_fit lt);
  bytes_fit = λ h. omega (arith, t.bytes_fit fits);
  no_more = λ h. ground (arith, t.no_more (omega arith));
  broke_off = λ h. (omega (arith, (t.broke_off h).0), omega (arith, (t.broke_off h).1));
}

pub collect-Takes :
    (ml mb : ℕ) (ls : List (List ℕ)) (i count : ℕ)
    → (k : ℕ) × Takes ml mb ls i count k (collect (pos ml) (pos mb) ls i count)
unfolding collect
collect-Takes ml mb [] i count = (
  0,
  record {
    within = omega arith;
    taken = refl;
    counted = omega arith;
    lines_fit = λ h. omega arith;
    bytes_fit = λ h. omega arith;
    no_more = λ h. absurd (omega arith);
    broke_off = λ h. absurd (ground arith);
  },
)
collect-Takes ml mb (l ∷ ls) i count =
    let (k, t) = collect-Takes ml mb ls (suc i) (count + line_bytes i l) in
    elim (Bool-cases (ltb_ℤ (pos i) (pos ml))) [
      | inr full ↦ rw full (
        0,
        record {
          within = omega arith;
          taken = refl;
          counted = omega arith;
          lines_fit = λ h. omega arith;
          bytes_fit = λ h. omega arith;
          no_more = λ h. inl (ground arith);
          broke_off = λ h. absurd (ground arith);
        },
      )
      | inl room ↦ elim (Bool-cases (leb_ℤ (pos (count + line_bytes i l)) (pos mb))) [
        | inl fits ↦
            rw (room, fits)
              (suc k, Takes-line ml mb l ls i count k _ (ground arith) (ground arith) t)
        | inr over ↦
            rw (room, over)
              (
                0,
                record {
                  within = omega arith;
                  taken = refl;
                  counted = omega arith;
                  lines_fit = λ h. omega arith;
                  bytes_fit = λ h. omega arith;
                  no_more = λ h. inr (ground arith);
                  broke_off = λ h. (omega arith, ground arith);
                },
              )
      ]
    ]
