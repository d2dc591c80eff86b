-- ===== src/TcglogValidate/Selected.antt =====
-- The PCRs that tcglog-validate works on.
use mathlib.Core.List.Memᴰ
use mathlib.Core.List.{Memᴰ}
use tcglog_parser.Common.{
  ℕ, ◌≤◌, ◌≡◌, refl, ◌↔◌, ◌⊎◌, inl, inr, Bool, true, false, List, [], ◌∷◌, ◌++◌, arith, All, leb,
  if◌then◌else◌,
}
use tcglog_parser.TcglogValidate.{Flags, default_pcrs, insert_sorted, sort, selected_pcrs}

-- Each element is at most as large as those behind it.
abbrev pub AreAscending : List ℕ → Type 0
AreAscending [] = Unit
AreAscending (i ∷ l) = All (λ j. i ≤ j) l × AreAscending l

All-le : (i j : ℕ) (l : List ℕ) → i ≤ j → All (λ k. j ≤ k) l → All (λ k. i ≤ k) l
All-le i j [] h a = tt
All-le i j (k ∷ l) h (b, a) = (omega (arith, b), All-le i j l h a)

insert_sorted-All :
    (b i : ℕ) (l : List ℕ) → b ≤ i → All (λ k. b ≤ k) l → All (λ k. b ≤ k) (insert_sorted i l)
unfolding insert_sorted
insert_sorted-All b i [] h a = (h, tt)
insert_sorted-All b i (j ∷ l) h (h', a) = go (leb i j) (insert_sorted-All b i l h a)
  where
    go :
        (t : Bool)
        → All (λ k. b ≤ k) (insert_sorted i l)
        → All (λ k. b ≤ k) (if t then i ∷ j ∷ l else j ∷ insert_sorted i l)
    go true rest = (h, (h', a))
    go false rest = (h', rest)

insert_sorted-AreAscending :
    (i : ℕ) (l : List ℕ) → AreAscending l → AreAscending (insert_sorted i l)
unfolding insert_sorted
insert_sorted-AreAscending i [] h = (tt, tt)
insert_sorted-AreAscending i (j ∷ l) (a, h) = go (leb i j) refl (insert_sorted-AreAscending i l h)
  where
    go :
        (t : Bool)
        → leb i j ≡ t
        → AreAscending (insert_sorted i l)
        → AreAscending (if t then i ∷ j ∷ l else j ∷ insert_sorted i l)
    go true e rest = let le : i ≤ j = ground arith in ((le, All-le i j l le a), (a, h))
    go false e rest = let le : j ≤ i = ground arith in (insert_sorted-All j i l le a, rest)

sort-AreAscending : (l : List ℕ) → AreAscending (sort l)
unfolding sort
sort-AreAscending [] = tt
sort-AreAscending (i ∷ l) = insert_sorted-AreAscending i (sort l) (sort-AreAscending l)

Memᴰ-swap : {k i j : ℕ} {l : List ℕ} → Memᴰ k (i ∷ j ∷ l) → Memᴰ k (j ∷ i ∷ l)
Memᴰ-swap m = elim (Memᴰ.cases_cons m) [
  | inl e ↦ Memᴰ.tail (Memᴰ.head e)
  | inr m' ↦ elim (Memᴰ.cases_cons m') [ inl e ↦ Memᴰ.head e | inr m'' ↦ Memᴰ.tail (Memᴰ.tail m'') ]
]

Memᴰ-under : {k i : ℕ} {l l' : List ℕ} → (Memᴰ k l → Memᴰ k l') → Memᴰ k (i ∷ l) → Memᴰ k (i ∷ l')
Memᴰ-under f m = elim (Memᴰ.cases_cons m) [ inl e ↦ Memᴰ.head e | inr m' ↦ Memᴰ.tail (f m') ]

insert_sorted-Memᴰ : (k i : ℕ) (l : List ℕ) → Memᴰ k (insert_sorted i l) ↔ Memᴰ k (i ∷ l)
unfolding insert_sorted
insert_sorted-Memᴰ k i [] = (λ m. m, λ m. m)
insert_sorted-Memᴰ k i (j ∷ l) = go (leb i j) (insert_sorted-Memᴰ k i l)
  where
    go :
        (t : Bool)
        → Memᴰ k (insert_sorted i l) ↔ Memᴰ k (i ∷ l)
        → Memᴰ k (if t then i ∷ j ∷ l else j ∷ insert_sorted i l) ↔ Memᴰ k (i ∷ j ∷ l)
    go true rest = (λ m. m, λ m. m)
    go false rest = (λ m. Memᴰ-swap (Memᴰ-under rest.0 m), λ m. Memᴰ-under rest.1 (Memᴰ-swap m))

sort-Memᴰ : (k : ℕ) (l : List ℕ) → Memᴰ k (sort l) ↔ Memᴰ k l
unfolding sort
sort-Memᴰ k [] = (λ m. m, λ m. m)
sort-Memᴰ k (i ∷ l) =
    let (to, from) = insert_sorted-Memᴰ k i (sort l) in
    let (to', from') = sort-Memᴰ k l in (λ m. Memᴰ-under to' (to m), λ m. from (Memᴰ-under from' m))

-- The PCRs that tcglog-validate works on stand in ascending order, and are exactly those of the
-- flags and, unless the flags exclude them, the default ones.
pub selected_pcrs-AreAscending :
    (flags : Flags)
    → AreAscending (selected_pcrs flags)
      × ((i : ℕ)
          → Memᴰ i (selected_pcrs flags) ↔ (
              Memᴰ i flags.pcrs
              ⊎ ((flags.no_default_pcrs ≡ false) × Memᴰ i (default_pcrs flags.with_grub))))
unfolding selected_pcrs
selected_pcrs-AreAscending flags = (sort-AreAscending _, λ i. go flags.no_default_pcrs i)
  where
    go :
        (b : Bool) (i : ℕ)
        → Memᴰ i (sort (if b then flags.pcrs else flags.pcrs ++ default_pcrs flags.with_grub))
          ↔ (Memᴰ i flags.pcrs ⊎ ((b ≡ false) × Memᴰ i (default_pcrs flags.with_grub)))
    go true i =
        let (to, from) = sort-Memᴰ i flags.pcrs in
        (λ m. inl (to m), λ o. elim o [ inl m ↦ from m | inr (e, m) ↦ cc e ])
    go false i =
        let (to, from) = sort-Memᴰ i (flags.pcrs ++ default_pcrs flags.with_grub) in
        (
          λ m. elim (Memᴰ.append_cases flags.pcrs (to m)) [
            | inl here ↦ inl here
            | inr there ↦ inr (refl, there)
          ],
          λ o. elim o [
            | inl m ↦ from (Memᴰ.append_left (default_pcrs flags.with_grub) m)
            | inr (e, m) ↦ from (Memᴰ.append_right flags.pcrs m)
          ],
        )
