-- ===== src/Stdlib/Strings/Pieces.antt =====
-- The pieces of a text before, inside and behind what an edit changes.
use mathlib.Core.List.{append_assoc}
use mathlib.Core.Path.{subst}
use robocpp.Base.{
  ℕ, zero, suc, ◌+◌, ◌-◌, ◌<◌, ◌≤◌, ◌≡◌, refl, sym, ap, ◌∙◌, true, false, [], ◌∷◌, ◌++◌, arith,
  length, take, drop, ltb, leb, Bool-cases, inl, inr,
}
use robocpp.Base.Text.{Text}
use robocpp.Stdlib.Strings.{insert_at, insert_chars, keep_outside, outside}

suc_right : (a b : ℕ) → a + suc b ≡ suc (a + b)
suc_right a b = omega arith

drop-nil : (n : ℕ) → ◌≡◌ {A = Text} [] (drop n [])
drop-nil zero = refl
drop-nil (suc n) = refl

keep_from : (from len j : ℕ) (s : Text) → keep_outside from len (from + j) s ≡ drop (len - j) s
unfolding keep_outside
keep_from from len j [] = drop-nil (len - j)
keep_from from len j (c ∷ s) =
    let ih = rw (suc_right from j) at (keep_from from len (suc j) s) in
    let low : leb from (from + j) ≡ true = ground arith in
    elim (Bool-cases (ltb (from + j) (from + len))) [
      | inl e ↦
          let n : len - j ≡ suc (len - suc j) = ground arith in
          rw (low, e) (ih ∙ ap (λ k. drop k (c ∷ s)) (sym n))
      | inr e ↦
          let n : len - j ≡ 0 = ground arith in
          let m : len - suc j ≡ 0 = ground arith in
          rw (low, e)
            (ap (λ t. c ∷ t) (ih ∙ ap (λ k. drop k s) m) ∙ ap (λ k. drop k (c ∷ s)) (sym n))
    ]

pub keep_outside-take :
    (i a len : ℕ) (s : Text) → keep_outside (i + a) len i s ≡ take a s ++ drop (a + len) s
unfolding keep_outside
keep_outside-take i zero len s = rw (i_zero i) (
    ap (λ k. keep_outside i len k s) (sym (i_zero i))
    ∙ keep_from i len 0 s
    ∙ ap (λ k. drop k s) (omega arith))
  where
    i_zero : (i : ℕ) → i + 0 ≡ i
    i_zero i = omega arith
keep_outside-take i (suc a) len [] = drop-nil (suc a + len)
keep_outside-take i (suc a) len (c ∷ s) =
    let low : leb (i + suc a) i ≡ false = ground arith in
    let e : i + suc a ≡ suc i + a = omega arith in
    let n : suc a + len ≡ suc (a + len) = omega arith in
    let ih : keep_outside (i + suc a) len (suc i) s ≡ take a s ++ drop (a + len) s =
      subst (λ (k : ℕ). keep_outside k len (suc i) s ≡ take a s ++ drop (a + len) s) (sym e)
        (keep_outside-take (suc i) a len s) in
    rw (low, n) (ap (λ t. c ∷ t) ih)

take-insert_at :
    (place c : ℕ) (s : Text)
    → place ≤ length s
    → take (suc place) (insert_at place c s) ≡ take place s ++ c ∷ []
take-insert_at zero c s h = refl
take-insert_at (suc place) c [] h = absurd (omega arith)
take-insert_at (suc place) c (d ∷ s) h = ap (λ t. d ∷ t) (take-insert_at place c s (omega arith))

drop-insert_at :
    (place c : ℕ) (s : Text)
    → place ≤ length s
    → drop (suc place) (insert_at place c s) ≡ drop place s
drop-insert_at zero c s h = refl
drop-insert_at (suc place) c [] h = absurd (omega arith)
drop-insert_at (suc place) c (d ∷ s) h = drop-insert_at place c s (omega arith)

length-insert_at :
    (place c : ℕ) (s : Text) → place ≤ length s → length (insert_at place c s) ≡ suc (length s)
length-insert_at zero c s h = refl
length-insert_at (suc place) c [] h = absurd (omega arith)
length-insert_at (suc place) c (d ∷ s) h = ap suc (length-insert_at place c s (omega arith))

pub take-drop : (n : ℕ) (s : Text) → take n s ++ drop n s ≡ s
take-drop zero s = refl
take-drop (suc n) [] = refl
take-drop (suc n) (c ∷ s) = ap (λ t. c ∷ t) (take-drop n s)

pub insert_chars-between :
    (place : ℕ) (t s : Text)
    → place ≤ length s
    → insert_chars place t s ≡ take place s ++ (t ++ drop place s)
unfolding insert_chars
insert_chars-between place [] s h = sym (take-drop place s)
insert_chars-between place (c ∷ t) s h =
    insert_chars-between (suc place) t (insert_at place c s)
      (omega (arith, length-insert_at place c s h))
    ∙ rw (take-insert_at place c s h, drop-insert_at place c s h)
        (append_assoc (take place s) (c ∷ []) _)

length-drop : (b : ℕ) (s : Text) → b ≤ length s → length (drop b s) + b ≡ length s
length-drop zero s h = omega arith
length-drop (suc b) [] h = absurd (omega arith)
length-drop (suc b) (c ∷ s) h = omega (arith, length-drop b s (omega arith))

pub length-kept :
    (a b : ℕ) (s : Text) → a + b ≤ length s → length (take a s ++ drop (a + b) s) + b ≡ length s
length-kept zero b s h = let e : 0 + b ≡ b = omega arith in rw e (length-drop b s (omega arith))
length-kept (suc a) b [] h = absurd (omega arith)
length-kept (suc a) b (c ∷ s) h =
    let n : suc a + b ≡ suc (a + b) = omega arith in
    rw n (omega (arith, length-kept a b s (omega arith)))

pub take-append : (a : ℕ) (s r : Text) → a ≤ length s → take a (take a s ++ r) ≡ take a s
take-append zero s r h = refl
take-append (suc a) [] r h = absurd (omega arith)
take-append (suc a) (c ∷ s) r h = ap (λ t. c ∷ t) (take-append a s r (omega arith))

pub drop-append : (a : ℕ) (s r : Text) → a ≤ length s → drop a (take a s ++ r) ≡ r
drop-append zero s r h = refl
drop-append (suc a) [] r h = absurd (omega arith)
drop-append (suc a) (c ∷ s) r h = drop-append a s r (omega arith)

drop-length : (t r : Text) → drop (length t) (t ++ r) ≡ r
drop-length [] r = refl
drop-length (c ∷ t) r = drop-length t r

-- Behind what comes before and what was inserted.
pub drop-inserted :
    (a : ℕ) (s t r : Text) → a ≤ length s → drop (a + length t) (take a s ++ (t ++ r)) ≡ r
drop-inserted zero s t r h = let e : 0 + length t ≡ length t = omega arith in rw e (drop-length t r)
drop-inserted (suc a) [] t r h = absurd (omega arith)
drop-inserted (suc a) (c ∷ s) t r h =
    let e : suc a + length t ≡ suc (a + length t) = omega arith in
    rw e (drop-inserted a s t r (omega arith))

length-append : (s t : Text) → length (s ++ t) ≡ length s + length t
length-append [] t = omega arith
length-append (c ∷ s) t = omega (arith, length-append s t)

pub length-inserted :
    (a : ℕ) (s t : Text) → length (take a s ++ (t ++ drop a s)) ≡ length s + length t
length-inserted zero s t = omega (arith, length-append t s)
length-inserted (suc a) [] t = omega (arith, length-append t [])
length-inserted (suc a) (c ∷ s) t = omega (arith, length-inserted a s t)

pub inside : (place len : ℕ) (s : Text) → outside (suc place) len s ≡ false → place + len ≤ length s
inside place len s h = ground arith

pub not_outside :
    (place len : ℕ) (s : Text)
    → 0 < len
    → place + len ≤ length s
    → outside (suc place) len s ≡ false
not_outside place len s h k = ground arith
