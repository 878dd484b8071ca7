-- ===== src/Syntax/Skip/Skips.antt =====
-- What may be skipped between tokens.
use robocpp.Base.{
  ℕ, ◌+◌, ◌≡◌, refl, Bool, true, false, ◌||◌, [], ◌∷◌, ◌++◌, arith, ◌==◌, if◌then◌else◌, Bool-cases,
  inl, inr, ==_iff,
}
use robocpp.Base.Text.{Text, codes, is_whitespace}
use robocpp.Base.Utf8.{len_utf8}
use robocpp.Syntax.Cursor.{Cursor, cursor, starts_with, advance, advance_while, comment_rounds}
use robocpp.Syntax.Cursor.Moves.{all}
use robocpp.Syntax.Skip.{in_pragma}

abbrev tail : Text → Text
tail [] = []
tail (c ∷ s) = s

-- The text behind the first end of a comment, or of a pragma; nothing where there is none.
abbrev pub comment_rest : Text → Text
comment_rest [] = []
comment_rest (c ∷ s) = if starts_with (codes "*)") (c ∷ s) then tail s else comment_rest s

abbrev pub pragma_rest : Text → Text
pragma_rest [] = []
pragma_rest (c ∷ s) = if c == b'}' then s else pragma_rest s

-- The second text is the first one behind whitespace, comments and pragmas.
pub data Skips : Text → Text → Type 0 where
  done : {s : Text} → Skips s s
  blank : {c : ℕ} {s t : Text} → is_whitespace c ≡ true → Skips s t → Skips (c ∷ s) t
  comment : {s t : Text} → Skips (comment_rest s) t → Skips (b'(' ∷ b'*' ∷ s) t
  pragma : {s t : Text} → Skips (pragma_rest s) t → Skips (b'{' ∷ s) t

pub Skips-trans : {s t u : Text} → Skips s t → Skips t u → Skips s u
Skips-trans done q = q
Skips-trans (blank e p) q = blank e (Skips-trans p q)
Skips-trans (comment p) q = comment (Skips-trans p q)
Skips-trans (pragma p) q = pragma (Skips-trans p q)

-- Something that is skipped starts here.
abbrev pub starts_skip : Text → Bool
starts_skip [] = false
starts_skip (c ∷ s) =
    is_whitespace c || (starts_with (codes "(*") (c ∷ s) || starts_with (codes "{") (c ∷ s))

Skips-all : (part s : Text) → all is_whitespace part ≡ true → Skips (part ++ s) s
Skips-all [] s h = done
Skips-all (c ∷ part) s h = elim (Bool-cases (is_whitespace c)) [
  | inl e ↦ blank e (Skips-all part s (rw e at h))
  | inr e ↦ let wrong : false ≡ true = rw e at h in cc
]

pub Skips-passed : (part s t : Text) → t ≡ part ++ s → all is_whitespace part ≡ true → Skips t s
Skips-passed part s t e h = rw e (Skips-all part s h)

pub starts_with-two :
    (a b : ℕ) (t : Text) → starts_with (a ∷ b ∷ []) t ≡ true → (s : Text) × (t ≡ a ∷ b ∷ s)
starts_with-two a b [] h = absurd (cc)
starts_with-two a b (c ∷ []) h = ground arith
starts_with-two a b (c ∷ d ∷ s) h = (s, ground arith)

pub starts_with-one : (a : ℕ) (t : Text) → starts_with (a ∷ []) t ≡ true → (s : Text) × (t ≡ a ∷ s)
starts_with-one a [] h = absurd (cc)
starts_with-one a (c ∷ s) h = (s, ground arith)

abbrev pub comment_end : Cursor → Cursor
comment_end c = if starts_with (codes "*)") c.rest then advance (advance c) else c

abbrev pub pragma_end : Cursor → Cursor
pragma_end c = if starts_with (codes "}") c.rest then advance c else c

pub rest-comment_end :
    (nested : Bool) (pos : ℕ) (s : Text)
    → (comment_end (comment_rounds nested pos s).1).rest ≡ comment_rest s
unfolding comment_rounds advance
rest-comment_end nested pos [] = refl
rest-comment_end nested pos (c ∷ s) = elim (Bool-cases (starts_with (codes "*)") (c ∷ s))) [
  | inl e ↦ rw e (rw e (rest-two c s))
  | inr e ↦
      rw e (rest-comment_end (nested || starts_with (codes "(*") (c ∷ s)) (pos + len_utf8 c) s)
]
  where
    rest-two : (c : ℕ) (s : Text) → (advance (advance (cursor pos (c ∷ s)))).rest ≡ tail s
    rest-two c [] = refl
    rest-two c (d ∷ s) = refl

pub rest-pragma_end :
    (pos : ℕ) (s : Text) → (pragma_end (advance_while in_pragma pos s)).rest ≡ pragma_rest s
unfolding advance_while advance
rest-pragma_end pos [] = refl
rest-pragma_end pos (c ∷ s) = elim (Bool-cases (c == b'}')) [
  | inl e ↦ rw e (rw ((==_iff c b'}').0 e) refl)
  | inr e ↦ rw e (rest-pragma_end (pos + len_utf8 c) s)
]
