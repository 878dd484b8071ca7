-- ===== src/Syntax/Strings.antt =====
-- Character strings, `Lexer::lex_string` with its escapes, crates/iec_syntax/src/lexer.rs.
pub mod Ends
use robocpp.Base.{
  ℕ, zero, suc, ◌+◌, Bool, true, false, ◌||◌, ◌&&◌, Option, none, some, List, [], ◌∷◌, ◌++◌, ltb,
  ◌==◌, if◌then◌else◌, length,
}
use robocpp.Base.Decimal.{print_ℕ}
use robocpp.Base.Text.{Text, codes}
use robocpp.Base.Utf8.{len_utf8}
use robocpp.Diagnostics.{DiagnosticCode}
use robocpp.Syntax.Cursor.{Cursor, cursor, advance, is_control, is_hexdigit, hex_rounds}
use robocpp.Syntax.Source.{
  Source, Lexer, move, report, control_char_label, from_hex, is_char, token,
}
use robocpp.Syntax.Token.{TokenKind, string_literal, wstring_literal, Token}

-- The character that `$` and a letter or sign stand for.
unfoldable pub decode_escape : ℕ → Option ℕ
decode_escape c =
    if c == b'$' || c == b'\'' || c == b'"'
    then some c
    else if c == b'L' || c == b'l' || c == b'N' || c == b'n'
    then some 10
    else if c == b'P' || c == b'p'
    then some 12
    else if c == b'R' || c == b'r'
    then some 13
    else if c == b'T' || c == b't'
    then some 9
    else none

abbrev required_digits : ℕ → ℕ
required_digits quote = if quote == b'\'' then 2 else 4

abbrev hex_message : Text → ℕ → Text
hex_message digits required =
    codes "invalid character string hex escape '$"
    ++ (digits ++ (codes "': expected " ++ (print_ℕ required ++ codes " hexadecimal digit(s)")))

abbrev code_message : Text → Text
code_message digits =
    codes "invalid character code '$" ++ (digits ++ codes "' in character string literal")

abbrev control_message : ℕ → Text
control_message c =
    codes "unescaped control character "
    ++ (control_char_label c ++ codes " in character string literal")

abbrev range_message : ℕ → Text
range_message c =
    codes "character "
    ++ (control_char_label c
        ++ codes " exceeds single-byte STRING range in character string literal")

abbrev pub string_kind : ℕ → Text → TokenKind
string_kind quote value = if quote == b'"' then wstring_literal value else string_literal value

module _ (source : Source) where
  -- Behind the digits.
  unfoldable pub decode_digits : ℕ → ℕ → Text → Text → Lexer → Text × Lexer
  decode_digits escape_start quote value digits l =
      if not_enough
      then (
        value,
        report source DiagnosticCode.lexical (hex_message digits required) escape_start l.cursor.pos
            l,
      )
      else if is_char (from_hex 0 digits)
      then (value ++ from_hex 0 digits ∷ [], l)
      else (
        value,
        report source DiagnosticCode.lexical (code_message digits) escape_start l.cursor.pos l,
      )
    where
      required : ℕ
      required = required_digits quote

      not_enough : Bool
      not_enough = ltb (length digits) required

  unfoldable pub lex_hex_string_escape : ℕ → ℕ → Text → Lexer → Text × Lexer
  lex_hex_string_escape escape_start quote value l =
      let (digits, c) = hex_rounds (required_digits quote) [] l.cursor.pos l.cursor.rest in
      decode_digits escape_start quote value digits (move l c)

  abbrev escape_message : ℕ → Text
  escape_message c = codes "invalid character string escape '$" ++ (c ∷ codes "'")

  -- Before the character behind `$`.
  unfoldable pub escape_with : ℕ → ℕ → Text → ℕ → Option ℕ → Lexer → Text × Lexer
  escape_with escape_start quote value c (some decoded) l =
      (value ++ decoded ∷ [], move l (advance l.cursor))
  escape_with escape_start quote value c none l =
      if is_hexdigit c
      then lex_hex_string_escape escape_start quote value l
      else (value, move reported (advance l.cursor))
    where
      reported : Lexer
      reported =
          report source DiagnosticCode.lexical (escape_message c) escape_start
            (l.cursor.pos + len_utf8 c) l

  abbrev escape_at : ℕ → ℕ → Text → Text → Lexer → Text × Lexer
  escape_at escape_start quote value [] l = (
    value,
    report source DiagnosticCode.lexical (codes "unterminated character string escape") escape_start
        l.cursor.pos l,
  )
  escape_at escape_start quote value (c ∷ s) l =
      escape_with escape_start quote value c (decode_escape c) l

  unfoldable pub lex_string_escape : ℕ → ℕ → Text → Lexer → Text × Lexer
  lex_string_escape escape_start quote value l = escape_at escape_start quote value l.cursor.rest l

  -- What is reported of a character that stands for itself.
  unfoldable pub check_char : ℕ → ℕ → Lexer → Lexer
  check_char quote c l =
      let stop = l.cursor.pos + len_utf8 c in
      let l1 =
        if is_control c
        then report source DiagnosticCode.lexical (control_message c) l.cursor.pos stop l
        else l in
      if quote == b'\'' && ltb 0xff c
      then report source DiagnosticCode.lexical (range_message c) l.cursor.pos stop l1
      else l1

  -- One round of the loop, before the character `c`.
  unfoldable pub string_char : ℕ → ℕ → Text → Lexer → Text × Lexer
  string_char quote c value l =
      if c == b'$'
      then lex_string_escape l.cursor.pos quote value (move l (advance l.cursor))
      else (value ++ c ∷ [], move (check_char quote c l) (advance l.cursor))

  -- The value, whether the closing quote was met, and the state behind it.
  abbrev pub string_round :
      (Text → Lexer → Text × Bool × Lexer) → ℕ → Text → Text → Lexer → Text × Bool × Lexer
  string_round later quote value [] l = (value, false, l)
  string_round later quote value (c ∷ s) l =
      if c == quote
      then (value, true, move l (advance l.cursor))
      else (let (value', l') = string_char quote c value l in later value' l')

  unfoldable pub string_rounds : ℕ → ℕ → Text → Lexer → Text × Bool × Lexer
  string_rounds zero quote value l = (value, false, l)
  string_rounds (suc fuel) quote value l =
      string_round (string_rounds fuel quote) quote value l.cursor.rest l

  unfoldable pub lex_string : ℕ → ℕ → Lexer → Token × Lexer
  unfolding string_rounds string_char lex_string_escape check_char escape_with decode_escape
      lex_hex_string_escape decode_digits
  lex_string start quote l =
      let opened = move l (advance l.cursor) in
      let (value, closed, l1) = string_rounds (suc (length opened.cursor.rest)) quote [] opened in
      let l2 =
        if closed
        then l1
        else report source DiagnosticCode.lexical (codes "unterminated string literal") start
            l1.cursor.pos l1 in
      (token source start (string_kind quote value) l2.cursor, l2)
