-- ===== src/Syntax/Source.antt =====
-- What a `Lexer` holds, and what it reports, crates/iec_syntax/src/lexer.rs. The name of the source, the
-- text and the parameters never change and stand apart from the state.
use robocpp.Base.{
  ℕ, zero, suc, ◌+◌, ◌-◌, ◌*◌, ◌/◌, ◌%◌, Bool, ◌&&◌, ◌||◌, some, List, [], ◌∷◌, ◌++◌, ltb, leb,
  if◌then◌else◌, length, replicate,
}
use robocpp.Base.Text.{Text, codes, is_digit, is_lower}
use robocpp.Base.Utf8.{slice}
use robocpp.Diagnostics.{Diagnostic, DiagnosticCode, error_diagnostic, span}
use robocpp.Syntax.Cursor.{Cursor}
use robocpp.Syntax.Token.{TokenKind, Token}

-- The implementation parameters that the lexer reads.
pub record ImplementationParameters : Type 0 where
  pub max_comment_length : ℕ
  pub pragmas_enabled : Bool

pub record Source : Type 0 where
  pub name : Text
  pub text : Text
  pub implementation : ImplementationParameters

pub record Lexer : Type 0 where
  pub cursor : Cursor
  pub diagnostics : List Diagnostic

abbrev pub move : Lexer → Cursor → Lexer
move l c = record l { cursor = c }

abbrev hex_digit : ℕ → ℕ
hex_digit n = if ltb n 10 then b'0' + n else b'A' + (n - 10)

hex_digits : ℕ → ℕ → Text
hex_digits zero n = []
hex_digits (suc fuel) n =
    let front = hex_digits fuel (n / 16) in
    if ltb n 16 then hex_digit n ∷ [] else front ++ hex_digit (n % 16) ∷ []

-- `control_char_label`, the format `U+{:04X}`.
unfoldable pub control_char_label : ℕ → Text
unfolding hex_digits
control_char_label c =
    let digits = hex_digits 8 c in codes "U+" ++ (replicate (4 - length digits) b'0' ++ digits)

abbrev pub hex_value : ℕ → ℕ
hex_value c = if is_digit c then c - b'0' else if is_lower c then c - b'a' + 10 else c - b'A' + 10

-- `u32::from_str_radix(digits, 16)` for the few digits of an escape.
unfoldable pub from_hex : ℕ → Text → ℕ
from_hex n [] = n
from_hex n (c ∷ s) = from_hex (16 * n + hex_value c) s

-- `char::from_u32` succeeds.
abbrev pub is_char : ℕ → Bool
is_char n = ltb n 0xd800 || (leb 0xe000 n && ltb n 0x11_0000)

module _ (source : Source) where
  abbrev pub report : DiagnosticCode → Text → ℕ → ℕ → Lexer → Lexer
  report code message start stop l = record l {
    diagnostics =
        l.diagnostics
        ++ error_diagnostic code message (some (span source.name start stop source.text)) ∷ [];
  }

  -- `self.source[start..self.pos]`
  abbrev pub text_from : ℕ → Cursor → Text
  text_from start c = slice start c.pos source.text

  unfoldable pub token : ℕ → TokenKind → Cursor → Token
  token start kind c = record {
    kind = kind;
    lexeme = text_from start c;
    span = span source.name start c.pos source.text;
  }
