-- ===== src/Syntax/Token.antt =====
-- Tokens, crates/iec_syntax/src/token.rs.
use robocpp.Base.Text.{Text}
use robocpp.Diagnostics.{Span}

pub data Symbol : Type 0 where
  colon semicolon assign comma lparen rparen lbracket rbracket dot range : Symbol
  plus minus star slash power eq ne lt le gt ge amp arrow hash : Symbol

pub data TokenKind : Type 0 where
  ident : Text → TokenKind
  number : Text → TokenKind
  string_literal : Text → TokenKind
  wstring_literal : Text → TokenKind
  hash_literal : Text → TokenKind
  direct_variable : Text → TokenKind
  symbol : Symbol → TokenKind
  eof : TokenKind

pub record Token : Type 0 where
  pub kind : TokenKind
  pub lexeme : Text
  pub span : Span
