-- ===== src/Stdlib/Strings/Edits.antt =====
-- INSERT, DELETE and REPLACE, crates/iec_stdlib/src/lib.rs.
use robocpp.Base.{
  ℕ, suc, ◌+◌, ◌-◌, ◌≤◌, ◌≡◌, refl, ap, ◌∙◌, Bool, true, false, some, [], ◌∷◌, ◌++◌, arith, length,
  take, drop, ltb,
}
use robocpp.Base.Int.{pos}
use robocpp.Base.Text.{Text}
use robocpp.Ir.Value.{Floats, Value, int, string, wstring}
use robocpp.Stdlib.Args.{◌>>=◌}
use robocpp.Stdlib.Strings.{insert_chars, outside, string_insert, string_delete, string_replace}
use robocpp.Stdlib.Strings.Pieces.{
  keep_outside-take, take-drop, insert_chars-between, length-kept, take-append, drop-append,
  drop-inserted, length-inserted, inside, not_outside,
}

module _ {F : Floats} where
  -- A STRING or a WSTRING.
  abbrev pub text : Bool → Text → Value F
  text true t = wstring t
  text false t = string t

  string_insert-between :
      (wide also : Bool) (s t : Text) (place : ℕ)
      → place ≤ length s
      → string_insert (text wide s ∷ text also t ∷ int (pos place) ∷ [])
        ≡ some (text wide (take place s ++ (t ++ drop place s)))
  unfolding string_insert
  string_insert-between wide also s t place h =
      let e : ltb (length s) place ≡ false = ground arith in
      let r = insert_chars-between place t s h in by_kind wide also e r
    where
      by_kind :
          (wide also : Bool)
          → ltb (length s) place ≡ false
          → insert_chars place t s ≡ take place s ++ (t ++ drop place s)
          → string_insert (text wide s ∷ text also t ∷ int (pos place) ∷ [])
            ≡ some (text wide (take place s ++ (t ++ drop place s)))
      by_kind true true e r = rw (e, r) refl
      by_kind true false e r = rw (e, r) refl
      by_kind false true e r = rw (e, r) refl
      by_kind false false e r = rw (e, r) refl

  string_delete-outside :
      (wide : Bool) (s : Text) (len place : ℕ)
      → outside (suc place) len s ≡ false
      → string_delete (text wide s ∷ int (pos len) ∷ int (pos (suc place)) ∷ [])
        ≡ some (text wide (take place s ++ drop (place + len) s))
  unfolding string_delete
  string_delete-outside true s len place h =
      let n : suc place - 1 ≡ 0 + place = omega arith in
      rw h (rw n (rw (keep_outside-take 0 place len s) refl))
  string_delete-outside false s len place h =
      let n : suc place - 1 ≡ 0 + place = omega arith in
      rw h (rw n (rw (keep_outside-take 0 place len s) refl))

  inserted_again :
      (wide also : Bool) (s t : Text) (len place : ℕ)
      → place + len ≤ length s
      → string_insert (
          text wide (take place s ++ drop (place + len) s)
          ∷ text also t
          ∷ int (pos (suc place - 1))
          ∷ [])
        ≡ some (text wide (take place s ++ (t ++ drop (place + len) s)))
  inserted_again wide also s t len place fits =
      let u = take place s ++ drop (place + len) s in
      let e =
        string_insert-between wide also u t place (omega (arith, length-kept place len s fits)) in
      let n : suc place - 1 ≡ place = omega arith in
      let f : take place u ≡ take place s = take-append place s _ (omega arith) in
      let g : drop place u ≡ drop (place + len) s = drop-append place s _ (omega arith) in
      rw n (e ∙ ap (λ x. some (text wide x)) (rw (f, g) refl))

  -- REPLACE gives the text before the place, the new text, and the text behind what it stands for.
  pub string_replace-between :
      (wide also : Bool) (s t : Text) (len place : ℕ)
      → outside (suc place) len s ≡ false
      → string_replace (text wide s ∷ text also t ∷ int (pos len) ∷ int (pos (suc place)) ∷ [])
        ≡ some (text wide (take place s ++ (t ++ drop (place + len) s)))
  unfolding string_replace
  string_replace-between true also s t len place h =
      rw (string_delete-outside true s len place h)
        (inserted_again true also s t len place (inside place len s h))
  string_replace-between false also s t len place h =
      rw (string_delete-outside false s len place h)
        (inserted_again false also s t len place (inside place len s h))

  -- DELETE of what INSERT inserted gives the text back.
  pub string_delete-string_insert :
      (wide also : Bool) (s : Text) (c : ℕ) (t : Text) (place : ℕ)
      → place ≤ length s
      → (string_insert (text wide s ∷ text also (c ∷ t) ∷ int (pos place) ∷ []) >>= λ v.
          string_delete (v ∷ int (pos (length (c ∷ t))) ∷ int (pos (suc place)) ∷ []))
        ≡ some (text wide s)
  string_delete-string_insert wide also s c t place h =
      let u = take place s ++ ((c ∷ t) ++ drop place s) in
      let inserted = string_insert-between wide also s (c ∷ t) place h in
      let deleted = string_delete-outside wide u (suc (length t)) place (
        not_outside place (suc (length t)) u (omega arith)
          (omega (arith, length-inserted place s (c ∷ t), h))) in
      rw inserted (
        deleted
        ∙ ap (λ x. some (text wide x))
            (rw
              (
                take-append place s ((c ∷ t) ++ drop place s) h,
                drop-inserted place s (c ∷ t) (drop place s) h,
              )
              (take-drop place s)))
