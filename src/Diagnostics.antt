-- ===== src/Diagnostics.antt =====
-- Diagnostics, crates/iec_diagnostics/src/lib.rs.
use robocpp.Base.{ℕ, ◌+◌, Option, none, [], ◌∷◌, ◌==◌, if◌then◌else◌}
use robocpp.Base.Text.{Text}
use robocpp.Base.Utf8.{take_bytes}

pub record Span : Type 0 where
  pub source : Text
  pub start : ℕ
  pub stop : ℕ
  pub line : ℕ
  pub column : ℕ

pub data Severity : Type 0 where
  error warning note : Severity

pub data DiagnosticCode : Type 0 where
  io lexical syntax semantic compliance runtime unsupported : DiagnosticCode

pub record Diagnostic : Type 0 where
  pub severity : Severity
  pub code : DiagnosticCode
  pub message : Text
  pub span : Option Span
  pub help : Option Text

-- `Diagnostic::error`
abbrev pub error_diagnostic : DiagnosticCode → Text → Option Span → Diagnostic
error_diagnostic c m s = record { severity = error; code = c; message = m; span = s; help = none }

-- `Diagnostic::warning`
abbrev pub warning_diagnostic : DiagnosticCode → Text → Option Span → Diagnostic
warning_diagnostic c m s = record {
  severity = warning;
  code = c;
  message = m;
  span = s;
  help = none;
}

-- The line and the column after a text, both from 1.
unfoldable pub line_column : ℕ → ℕ → Text → ℕ × ℕ
line_column line column [] = (line, column)
line_column line column (c ∷ s) =
    let below = line_column (line + 1) 1 s in
    let along = line_column line (column + 1) s in if c == b'\n' then below else along

-- `Span::new`
unfoldable pub span : Text → ℕ → ℕ → Text → Span
unfolding line_column
span source start stop text =
    let (line, column) = line_column 1 1 (take_bytes start text) in
    record { source = source; start = start; stop = stop; line = line; column = column }
