-- ===== src/LogClean/Fits.antt =====
-- What the size limit of `plan` (src/queuer/logclean.py) guarantees.
use custom_queuer.Prelude.{
  All, Bool-cases, List, [], arith, exists, false, false≢true, inl, inr, leb, refl, subst, sym,
  true, ℕ, ◌&&◌, ◌+◌, ◌-◌, ◌==◌, ◌∷◌, ◌≡◌, ◌≤◌, ◌⊎◌,
}
use custom_queuer.Tables.{Text, text_eq}
use custom_queuer.LogClean.{Candidate, Counted, choose_more, is_chosen, total_left}

-- One more path takes off at least the size of a counted file that has it.
total_left_drop :
    (chosen : List Text) (p : Text) (fs : List Counted)
    → total_left (p ∷ chosen) fs ≤ total_left chosen fs
unfolding total_left is_chosen
total_left_drop chosen p [] = ground arith
total_left_drop chosen p (f ∷ fs) = let rest = total_left_drop chosen p fs in ground arith

pub text_eq→≡ : (s t : Text) → text_eq s t ≡ true → s ≡ t
unfolding text_eq
text_eq→≡ [] [] h = refl
text_eq→≡ [] (b ∷ t) h = absurd (false≢true h)
text_eq→≡ (a ∷ s) [] h = absurd (false≢true h)
text_eq→≡ (a ∷ s) (b ∷ t) h = let rest = text_eq→≡ s t in ground (arith, h, rest)

pub text_eq_refl : (s : Text) → text_eq s s ≡ true
unfolding text_eq
text_eq_refl [] = refl
text_eq_refl (a ∷ s) = let rest = text_eq_refl s in ground arith

abbrev pub IsCounted : List Counted → Candidate → Type 0
IsCounted fs c = exists (λ g. text_eq g.path c.path && g.size == c.size) fs ≡ true

total_left_less :
    (chosen : List Text) (c : Candidate) (fs : List Counted)
    → IsCounted fs c
    → is_chosen chosen c.path ≡ false
    → total_left (c.path ∷ chosen) fs + c.size ≤ total_left chosen fs
unfolding total_left is_chosen exists
total_left_less chosen c [] h fresh = absurd (false≢true h)
total_left_less chosen c (f ∷ fs) h fresh = elim (Bool-cases (text_eq f.path c.path)) [
  | inl same ↦
      let path = text_eq→≡ f.path c.path same in
      let free = subst (λ p. is_chosen chosen p ≡ false) (sym path) fresh in
      let rest = total_left_less chosen c fs in
      let less = total_left_drop chosen c.path fs in ground arith
  | inr other ↦ let rest = total_left_less chosen c fs in ground arith
]

is_chosen-choose_more :
    (m : ℕ) (cs : List Candidate) (total : ℕ) (chosen : List Text) (p : Text)
    → is_chosen chosen p ≡ true
    → is_chosen (choose_more m cs total chosen) p ≡ true
unfolding choose_more is_chosen exists
is_chosen-choose_more m [] total chosen p h = h
is_chosen-choose_more m (c ∷ cs) total chosen p h =
    let kept = is_chosen-choose_more m cs total chosen p h in
    let more = is_chosen-choose_more m cs (total - c.size) (c.path ∷ chosen) p in ground arith

first_chosen : (p : Text) (chosen : List Text) → is_chosen (p ∷ chosen) p ≡ true
unfolding is_chosen exists
first_chosen p chosen = let same = text_eq_refl p in ground arith

-- The logs that are left fit, or every candidate is chosen.
abbrev pub Fits : ℕ → List Counted → List Candidate → List Text → Type 0
Fits m fs cs chosen = (total_left chosen fs ≤ m) ⊎ All (λ c. is_chosen chosen c.path ≡ true) cs

Fits-cons :
    (m : ℕ) (fs : List Counted) (c : Candidate) (cs : List Candidate) (chosen : List Text)
    → is_chosen chosen c.path ≡ true
    → Fits m fs cs chosen
    → Fits m fs (c ∷ cs) chosen
Fits-cons m fs c cs chosen here (inl fits) = inl fits
Fits-cons m fs c cs chosen here (inr all) = inr (here, all)

pub choose_more-Fits :
    (m : ℕ) (fs : List Counted) (cs : List Candidate) (total : ℕ) (chosen : List Text)
    → All (IsCounted fs) cs
    → total_left chosen fs ≤ total
    → Fits m fs cs (choose_more m cs total chosen)
unfolding choose_more
choose_more-Fits m fs [] total chosen counted le = inr tt
choose_more-Fits m fs (c ∷ cs) total chosen counted le = elim (Bool-cases (leb total m)) [
  | inl fits ↦ subst (Fits m fs (c ∷ cs)) (stops fits) (inl (ground arith))
  | inr large ↦ elim (Bool-cases (is_chosen chosen c.path)) [
    | inl taken ↦ subst (Fits m fs (c ∷ cs)) (skips large taken) (
        Fits-cons m fs c cs (choose_more m cs total chosen)
          (is_chosen-choose_more m cs total chosen c.path taken)
          (choose_more-Fits m fs cs total chosen counted.1 le))
    | inr fresh ↦ subst (Fits m fs (c ∷ cs)) (chooses large fresh) (
        Fits-cons m fs c cs (choose_more m cs (total - c.size) (c.path ∷ chosen))
          (is_chosen-choose_more m cs (total - c.size) (c.path ∷ chosen) c.path
            (first_chosen c.path chosen))
          (choose_more-Fits m fs cs (total - c.size) (c.path ∷ chosen) counted.1 (left_le fresh)))
  ]
]
  where
    left_le : is_chosen chosen c.path ≡ false → total_left (c.path ∷ chosen) fs ≤ total - c.size
    left_le fresh = let less = total_left_less chosen c fs counted.0 fresh in ground arith

    stops : leb total m ≡ true → chosen ≡ choose_more m (c ∷ cs) total chosen
    stops fits = rw fits refl

    skips :
        leb total m ≡ false
        → is_chosen chosen c.path ≡ true
        → choose_more m cs total chosen ≡ choose_more m (c ∷ cs) total chosen
    skips large taken = rw (large, taken) refl

    chooses :
        leb total m ≡ false
        → is_chosen chosen c.path ≡ false
        → choose_more m cs (total - c.size) (c.path ∷ chosen) ≡ choose_more m (c ∷ cs) total chosen
    chooses large fresh = rw (large, fresh) refl
