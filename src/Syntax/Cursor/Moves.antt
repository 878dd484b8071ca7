-- ===== src/Syntax/Cursor/Moves.antt =====
-- What the loops over the source text read: the text between two places.
use robocpp.Base.{
  ℕ, zero, suc, ◌+◌, ◌≤◌, ◌<◌, ◌≡◌, ◌⊎◌, List, refl, sym, ap, ◌∙◌, Bool, true, false, not, ◌&&◌,
  ◌||◌, [], ◌∷◌, ◌++◌, arith, ◌==◌, if◌then◌else◌, Bool-cases, inl, inr, length,
}
use mathlib.Core.List.{append_assoc}
use robocpp.Base.Text.{Text, codes}
use robocpp.Base.Utf8.{len_utf8, byte_length, byte_length-append, slice, slice-append}
use robocpp.Syntax.Cursor.{
  Cursor, cursor, starts_with, advance, advance_while, comment_rounds, ends_item, digit_next,
  consume_hash_literal_tail, typed_string_rounds, consume_typed_string_literal_tail, is_quote,
  is_hexdigit, hex_rounds,
}

-- From `c` to `d` lies `part`.
pub record Reads (c d : Cursor) (part : Text) : Type 0 where
  pub splits : c.rest ≡ part ++ d.rest
  pub place : d.pos ≡ c.pos + byte_length part

pub Reads-nil : (c : Cursor) → Reads c c []
unfolding byte_length
Reads-nil c = record { splits = refl; place = omega arith }

pub Reads-append : {c d e : Cursor} (s t : Text) → Reads c d s → Reads d e t → Reads c e (s ++ t)
Reads-append s t a b = record {
  splits = a.splits ∙ ap (λ r. s ++ r) b.splits ∙ sym (append_assoc s t _);
  place = omega (arith, a.place, b.place, byte_length-append s t);
}

pub Reads-cons :
    {pos : ℕ} {d : Cursor} (c : ℕ) (s : Text) (part : Text)
    → Reads (cursor (pos + len_utf8 c) s) d part
    → Reads (cursor pos (c ∷ s)) d (c ∷ part)
unfolding byte_length
Reads-cons c s part r = record { splits = ap (λ t. c ∷ t) r.splits; place = omega (arith, r.place) }

pub record Moves (c d : Cursor) : Type 0 where
  pub part : Text
  pub reads : Reads c d part

pub Moves-refl : (c : Cursor) → Moves c c
Moves-refl c = record { part = []; reads = Reads-nil c }

pub Moves-trans : {c d e : Cursor} → Moves c d → Moves d e → Moves c e
Moves-trans m n = record {
  part = m.part ++ n.part;
  reads = Reads-append m.part n.part m.reads n.reads;
}

pub Moves-cons :
    {pos : ℕ} {d : Cursor} (c : ℕ) (s : Text)
    → Moves (cursor (pos + len_utf8 c) s) d
    → Moves (cursor pos (c ∷ s)) d
Moves-cons c s m = record { part = c ∷ m.part; reads = Reads-cons c s m.part m.reads }

pub Moves-if : {c d e : Cursor} (b : Bool) → Moves c d → Moves c e → Moves c (if b then d else e)
Moves-if true m n = m
Moves-if false m n = n

pub advance-cons :
    (pos c : ℕ) (s : Text) → advance (cursor pos (c ∷ s)) ≡ cursor (pos + len_utf8 c) s
unfolding advance
advance-cons pos c s = refl

Moves-advance_at : (pos : ℕ) (s : Text) → Moves (cursor pos s) (advance (cursor pos s))
unfolding advance
Moves-advance_at pos [] = Moves-refl _
Moves-advance_at pos (c ∷ s) = Moves-cons c s (Moves-refl _)

pub Moves-advance : (c : Cursor) → Moves c (advance c)
Moves-advance c = Moves-advance_at c.pos c.rest

abbrev pub all : (ℕ → Bool) → Text → Bool
all p [] = true
all p (c ∷ s) = p c && all p s

abbrev pub fails_next : (ℕ → Bool) → Text → Bool
fails_next p [] = true
fails_next p (c ∷ s) = not (p c)

-- The characters that `advance_while` passes all satisfy the test, and the next one does not.
pub record Passes (p : ℕ → Bool) (c d : Cursor) : Type 0 where
  pub part : Text
  pub reads : Reads c d part
  pub every : all p part ≡ true
  pub stops : fails_next p d.rest ≡ true

pub advance_while-Passes :
    (p : ℕ → Bool) (pos : ℕ) (s : Text) → Passes p (cursor pos s) (advance_while p pos s)
unfolding advance_while
advance_while-Passes p pos [] = record {
  part = [];
  reads = Reads-nil _;
  every = refl;
  stops = refl;
}
advance_while-Passes p pos (c ∷ s) = elim (Bool-cases (p c)) [
  | inl e ↦
      let later = advance_while-Passes p (pos + len_utf8 c) s in
      rw e record {
        part = c ∷ later.part;
        reads = Reads-cons c s later.part later.reads;
        every = rw e later.every;
        stops = later.stops;
      }
  | inr e ↦ rw e record { part = []; reads = Reads-nil _; every = refl; stops = rw e refl }
]

pub Moves-advance_while :
    (p : ℕ → Bool) (pos : ℕ) (s : Text) → Moves (cursor pos s) (advance_while p pos s)
Moves-advance_while p pos s =
    let r = advance_while-Passes p pos s in record { part = r.part; reads = r.reads }

pub Moves-comment_rounds :
    (nested : Bool) (pos : ℕ) (s : Text) → Moves (cursor pos s) (comment_rounds nested pos s).1
unfolding comment_rounds
Moves-comment_rounds nested pos [] = Moves-refl _
Moves-comment_rounds nested pos (c ∷ s) = elim (Bool-cases (starts_with (codes "*)") (c ∷ s))) [
  | inl e ↦ rw e (Moves-refl _)
  | inr e ↦ rw e (
      Moves-cons c s
        (Moves-comment_rounds (nested || starts_with (codes "(*") (c ∷ s)) (pos + len_utf8 c) s))
]

pub Moves-consume_hash_literal_tail :
    (colon : Bool) (pos : ℕ) (s : Text)
    → Moves (cursor pos s) (consume_hash_literal_tail colon pos s)
unfolding consume_hash_literal_tail
Moves-consume_hash_literal_tail colon pos [] = Moves-refl _
Moves-consume_hash_literal_tail colon pos (c ∷ s) =
    Moves-if (ends_item c || (not colon && c == b':' && not (digit_next s))) (Moves-refl _)
      (Moves-cons c s (Moves-consume_hash_literal_tail colon (pos + len_utf8 c) s))

Moves-typed_string_rounds :
    (quote : ℕ) (escaped : Bool) (pos : ℕ) (s : Text)
    → Moves (cursor pos s) (typed_string_rounds quote escaped pos s)
unfolding typed_string_rounds
Moves-typed_string_rounds quote escaped pos [] = Moves-refl _
Moves-typed_string_rounds quote escaped pos (c ∷ s) =
    Moves-if (not escaped && not (c == b'$') && c == quote) (Moves-cons c s (Moves-refl _)) (
      Moves-cons c s
        (Moves-typed_string_rounds quote (not escaped && c == b'$') (pos + len_utf8 c) s))

pub Moves-consume_typed_string_literal_tail :
    (pos : ℕ) (s : Text) → Moves (cursor pos s) (consume_typed_string_literal_tail pos s)
unfolding consume_typed_string_literal_tail
Moves-consume_typed_string_literal_tail pos [] = Moves-refl _
Moves-consume_typed_string_literal_tail pos (c ∷ s) =
    Moves-if (is_quote c) (Moves-cons c s (Moves-typed_string_rounds c false (pos + len_utf8 c) s))
      (Moves-cons c s (Moves-refl _))

pub Moves-hex_rounds :
    (left : ℕ) (digits : Text) (pos : ℕ) (s : Text)
    → Moves (cursor pos s) (hex_rounds left digits pos s).1
unfolding hex_rounds
Moves-hex_rounds zero digits pos s = Moves-refl _
Moves-hex_rounds (suc left) digits pos [] = Moves-refl _
Moves-hex_rounds (suc left) digits pos (c ∷ s) = elim (Bool-cases (is_hexdigit c)) [
  | inl e ↦ rw e (Moves-cons c s (Moves-hex_rounds left (digits ++ c ∷ []) (pos + len_utf8 c) s))
  | inr e ↦ rw e (Moves-refl _)
]

length-append : (s t : Text) → length (s ++ t) ≡ length s + length t
length-append [] t = omega arith
length-append (c ∷ s) t = omega (arith, length-append s t)

-- The rest never grows.
pub length-Moves : {c d : Cursor} → Moves c d → length d.rest ≤ length c.rest
length-Moves {d = d} m = omega (arith, ap length m.reads.splits, length-append m.part d.rest)

-- `c` is a place of the text.
pub record IsPlace (text : Text) (c : Cursor) : Type 0 where
  pub before : Text
  pub whole : text ≡ before ++ c.rest
  pub offset : c.pos ≡ byte_length before

pub Moves-IsPlace : {text : Text} {c d : Cursor} → IsPlace text c → Moves c d → IsPlace text d
Moves-IsPlace p m = record {
  before = p.before ++ m.part;
  whole = p.whole ∙ ap (λ t. p.before ++ t) m.reads.splits ∙ sym (append_assoc p.before m.part _);
  offset = omega (arith, p.offset, m.reads.place, byte_length-append p.before m.part);
}

-- The slice between two places is the text that lies between them.
pub slice-Reads :
    {text : Text} {c d : Cursor} (part : Text)
    → IsPlace text c
    → Reads c d part
    → slice c.pos d.pos text ≡ part
slice-Reads {d = d} part p r =
    rw (p.whole, r.splits, r.place, p.offset) (slice-append p.before part d.rest)

pub List-cases {ℓ} : {A : Type ℓ} (t : List A) → (t ≡ []) ⊎ ((x : A) × (s : List A) × (t ≡ x ∷ s))
List-cases [] = inl refl
List-cases (x ∷ s) = inr (x, s, refl)

length-advance_at :
    (pos x : ℕ) (s t : Text) → t ≡ x ∷ s → length (advance (cursor pos t)).rest < length t
length-advance_at pos x s t h = rw h (rw (advance-cons pos x s) (omega arith))

-- Behind a character that is there, the rest is shorter.
pub length-advance :
    (c : Cursor) (x : ℕ) (s : Text) → c.rest ≡ x ∷ s → length (advance c).rest < length c.rest
length-advance c x s h = length-advance_at c.pos x s c.rest h
