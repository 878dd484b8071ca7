-- ===== src/Syntax/Strings/Ends.antt =====
-- How far a character string is read.
use robocpp.Base.{
  ℕ, zero, suc, ◌<◌, ◌≡◌, refl, Bool, false, Option, none, some, [], ◌∷◌, arith, ◌==◌, Bool-cases,
  inl, inr, length,
}
use robocpp.Base.Text.{Text}
use robocpp.Syntax.Cursor.{Cursor, advance, is_hexdigit, hex_rounds}
use robocpp.Syntax.Cursor.Moves.{
  Moves, Moves-refl, Moves-trans, Moves-advance, Moves-hex_rounds, length-Moves, length-advance,
}
use robocpp.Syntax.Source.{Source, Lexer, move, token}
use robocpp.Syntax.Strings.{
  required_digits, string_kind, decode_digits, lex_hex_string_escape, escape_with, escape_at,
  decode_escape, lex_string_escape, string_char, string_round, string_rounds, lex_string,
}

module _ (source : Source) where
  decode_digits-cursor :
      (start quote : ℕ) (value digits : Text) (l : Lexer)
      → (decode_digits source start quote value digits l).1.cursor ≡ l.cursor
  unfolding decode_digits
  decode_digits-cursor start quote value digits l = ground arith

  escape-Moves :
      (start quote : ℕ) (value : Text) (c : ℕ) (o : Option ℕ) (l : Lexer)
      → Moves l.cursor (escape_with source start quote value c o l).1.cursor
  unfolding escape_with lex_hex_string_escape
  escape-Moves start quote value c (some d) l = Moves-advance l.cursor
  escape-Moves start quote value c none l = elim (Bool-cases (is_hexdigit c)) [
    | inl e ↦ rw e (
        rw
          (decode_digits-cursor start quote value
            (hex_rounds (required_digits quote) [] l.cursor.pos l.cursor.rest).0
            (move l (hex_rounds (required_digits quote) [] l.cursor.pos l.cursor.rest).1))
          (Moves-hex_rounds (required_digits quote) [] l.cursor.pos l.cursor.rest))
    | inr e ↦ rw e (Moves-advance l.cursor)
  ]

  escape_at-Moves :
      (start quote : ℕ) (value t : Text) (l : Lexer)
      → Moves l.cursor (escape_at source start quote value t l).1.cursor
  escape_at-Moves start quote value [] l = Moves-refl l.cursor
  escape_at-Moves start quote value (c ∷ s) l = escape-Moves start quote value c (decode_escape c) l

  string_char-Moves :
      (quote c : ℕ) (value : Text) (l : Lexer)
      → Moves (advance l.cursor) (string_char source quote c value l).1.cursor
  unfolding string_char lex_string_escape
  string_char-Moves quote c value l = elim (Bool-cases (c == b'$')) [
    | inl e ↦ rw e (
        escape_at-Moves l.cursor.pos quote value (advance l.cursor).rest
          (move l (advance l.cursor)))
    | inr e ↦ rw e (Moves-refl (advance l.cursor))
  ]

  -- With enough fuel a string ends behind its closing quote, or at the end of the text.
  pub record Ends (c : Cursor) (r : Text × Bool × Lexer) : Type 0 where
    pub moves : Moves c r.2.cursor
    pub exhausted : r.1 ≡ false → r.2.cursor.rest ≡ []

  string_round-Ends :
      (later : Text → Lexer → Text × Bool × Lexer) (quote : ℕ) (value t : Text) (l : Lexer)
      → l.cursor.rest ≡ t
      → ((v : Text) (m : Lexer)
          → length m.cursor.rest < length l.cursor.rest
          → Ends m.cursor (later v m))
      → Ends l.cursor (string_round source later quote value t l)
  string_round-Ends later quote value [] l e ih = record {
    moves = Moves-refl l.cursor;
    exhausted = λ _. e;
  }
  string_round-Ends later quote value (c ∷ s) l e ih =
      let next = string_char source quote c value l in
      let m = string_char-Moves quote c value l in
      let rest = ih next.0 next.1 (omega (arith, length-Moves m, length-advance l.cursor c s e)) in
      elim (Bool-cases (c == quote)) [
        | inl q ↦ rw q record { moves = Moves-advance l.cursor; exhausted = λ w. cc }
        | inr q ↦ rw q record {
          moves = Moves-trans (Moves-advance l.cursor) (Moves-trans m rest.moves);
          exhausted = rest.exhausted;
        }
      ]

  string_rounds-Ends :
      (fuel quote : ℕ) (value : Text) (l : Lexer)
      → length l.cursor.rest < fuel
      → Ends l.cursor (string_rounds source fuel quote value l)
  unfolding string_rounds
  string_rounds-Ends zero quote value l h = elim h [ ]
  string_rounds-Ends (suc fuel) quote value l h =
      string_round-Ends (string_rounds source fuel quote) quote value l.cursor.rest l refl
        (λ v m shorter. string_rounds-Ends fuel quote v m (omega (arith, h, shorter)))

  pub lex_string-Moves :
      (start quote : ℕ) (l : Lexer)
      → Moves (advance l.cursor) (lex_string source start quote l).1.cursor
  unfolding lex_string
  lex_string-Moves start quote l =
      let opened = move l (advance l.cursor) in
      let run = string_rounds source (suc (length opened.cursor.rest)) quote [] opened in
      let ends =
        string_rounds-Ends (suc (length opened.cursor.rest)) quote [] opened (omega arith) in
      elim (Bool-cases run.1) [ inl e ↦ rw e ends.moves | inr e ↦ rw e ends.moves ]

  -- The token runs from the quote to where the string ends.
  pub lex_string-token :
      (start quote : ℕ) (l : Lexer)
      → let r = lex_string source start quote l in
        (value : Text) × (r.0 ≡ token source start (string_kind quote value) r.1.cursor)
  unfolding lex_string
  lex_string-token start quote l =
      let opened = move l (advance l.cursor) in
      ((string_rounds source (suc (length opened.cursor.rest)) quote [] opened).0, refl)
