-- ===== src/Tests.antt =====
-- The data of the tests: a small model of the numbers, a state of the interpreter and its inputs.
mod Ir
mod Blocks
mod Sfc
mod Target
mod Pdo
mod Ros2
mod Supervisor
mod Interpreter
mod Lexer
mod Stdlib
mod Eval
mod Statements
mod Charts
mod Retain
mod Arrays
use robocpp.Base.{not, arith, List, [], ◌∷◌, if◌then◌else◌, leb}
use robocpp.Base.Int.{◌+ℤ◌, ◌-ℤ◌, leb_ℤ, ℤ, pos, negsuc, IsI64, clamp, eqb_ℤ}
use robocpp.Base.Decimal.{print_ℤ, parse_ℤ}
use robocpp.Ir.Value.{Floats, unit}
use robocpp.Runtime.State.{RuntimeOptions, Runtime}

abbrev pub saturate : ℤ → ℤ
saturate z = clamp (negsuc 0x7fff_ffff_ffff_ffff) (pos 0x7fff_ffff_ffff_ffff) z

pub saturate-IsI64 : (z : ℤ) → IsI64 (saturate z)
saturate-IsI64 (pos n) = ground arith
saturate-IsI64 (negsuc n) = ground arith

-- Whole numbers in place of `f64`.
abbrev pub whole : Floats
whole = record {
  Real = ℤ;
  is_zero = λ x. eqb_ℤ x (pos 0);
  to_i64 = saturate;
  show = print_ℤ;
  read = parse_ℤ;
  of_i64 = λ z. z;
  neg = λ x. pos 0 -ℤ x;
  add = λ x y. x +ℤ y;
  sub = λ x y. x -ℤ y;
  mul = λ x y. x;
  div = λ x y. x;
  pow = λ x y. x;
  near = eqb_ℤ;
  less = λ x y. not (leb_ℤ y x);
  to_i64-IsI64 = saturate-IsI64;
}

abbrev pub options : RuntimeOptions
options = record {
  max_loop_iterations = 1000;
  max_scan_cycles = 10;
  cycle_time_ms = pos 10;
  warm_restart_before_cycles = [];
}

abbrev pub fresh : Runtime whole
fresh = record {
  env = [];
  il_accumulator = unit;
  diagnostics = [];
  options = options;
  call_depth = 0;
}
