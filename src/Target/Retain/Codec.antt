-- ===== src/Target/Retain/Codec.antt =====
-- What the retained values are read back as, crates/rbcpp_target/src/lib.rs.
use robocpp.Base.{◌≡◌, refl, Bool, true, false, some, [], ◌∷◌, ◌++◌, arith}
use robocpp.Base.Int.{ℤ, IsI64, IsI128}
use robocpp.Base.Text.{Text, codes, eqb}
use robocpp.Base.Decimal.{
  print_ℤ, parse_i64-print_ℤ, parse_i128-print_ℤ, IsPrintable, print_ℤ-IsPrintable,
}
use robocpp.Ir.Value.{Floats, Value, bool, int, real, string, wstring, time_ms, array, struct, unit}
use robocpp.Target.Retain.{
  trim_newlines, split_colon, encode_typed_value, decode_kind, decode_typed_value,
}

-- A text that does not end in a line break
abbrev pub IsPlain : Text → Type 0
IsPlain t = trim_newlines t ≡ t

-- The values that can be read back: no array or structure, no text that ends in a line break, and
-- only reals that `Display` and `from_str` of `f64` take back to themselves.
abbrev pub Storable : {F : Floats} → Value F → Type 0
Storable (bool b) = Unit
Storable (int n) = IsI64 n
Storable {F} (real x) = (F.read (F.show x) ≡ some x) × IsPlain (F.show x)
Storable (string t) = IsPlain t
Storable (wstring t) = IsPlain t
Storable (time_ms t) = IsI128 t
Storable _ = ⊥

trim-newline : (t : Text) → trim_newlines (t ++ codes "\n") ≡ trim_newlines t
unfolding trim_newlines
trim-newline [] = refl
trim-newline (c ∷ t) = rw (trim-newline t) refl

IsPrintable-IsPlain : (t : Text) → IsPrintable t → IsPlain t
unfolding trim_newlines
IsPrintable-IsPlain [] h = refl
IsPrintable-IsPlain (c ∷ t) h = rw (IsPrintable-IsPlain t h.1) (ground arith)

-- The line that is written, less its end
module _ {F : Floats} (zero : F.Real) where
  bool-decode :
      (b : Bool)
      → decode_typed_value {F = F} zero (trim_newlines (encode_typed_value {F = F} (bool b)))
        ≡ bool b
  unfolding decode_typed_value decode_kind split_colon trim_newlines encode_typed_value eqb
  bool-decode true = refl
  bool-decode false = refl

  int-decode :
      (n : ℤ)
      → IsI64 n
      → decode_typed_value {F = F} zero (trim_newlines (codes "INT:" ++ (print_ℤ n ++ codes "\n")))
        ≡ int n
  unfolding decode_typed_value decode_kind split_colon trim_newlines eqb
  int-decode n h =
      rw
        (
          trim-newline (print_ℤ n),
          IsPrintable-IsPlain (print_ℤ n) (print_ℤ-IsPrintable n),
          parse_i64-print_ℤ n h,
        )
        refl

  time-decode :
      (n : ℤ)
      → IsI128 n
      → decode_typed_value {F = F} zero (trim_newlines (codes "TIME:" ++ (print_ℤ n ++ codes "\n")))
        ≡ time_ms n
  unfolding decode_typed_value decode_kind split_colon trim_newlines eqb
  time-decode n h =
      rw
        (
          trim-newline (print_ℤ n),
          IsPrintable-IsPlain (print_ℤ n) (print_ℤ-IsPrintable n),
          parse_i128-print_ℤ n h,
        )
        refl

  real-decode :
      (x : F.Real)
      → F.read (F.show x) ≡ some x
      → IsPlain (F.show x)
      → decode_typed_value {F = F} zero (trim_newlines (codes "REAL:" ++ (F.show x ++ codes "\n")))
        ≡ real x
  unfolding decode_typed_value decode_kind split_colon trim_newlines eqb
  real-decode x h k = rw (trim-newline (F.show x), k, h) refl

  string-decode :
      (t : Text)
      → IsPlain t
      → decode_typed_value {F = F} zero (trim_newlines (codes "STRING:" ++ (t ++ codes "\n")))
        ≡ string t
  unfolding decode_typed_value decode_kind split_colon trim_newlines eqb
  string-decode t k = rw (trim-newline t, k) refl

  wstring-decode :
      (t : Text)
      → IsPlain t
      → decode_typed_value {F = F} zero (trim_newlines (codes "WSTRING:" ++ (t ++ codes "\n")))
        ≡ wstring t
  unfolding decode_typed_value decode_kind split_colon trim_newlines eqb
  wstring-decode t k = rw (trim-newline t, k) refl

  -- A value that can be stored is read back from its line as itself.
  pub decode_typed_value-encode_typed_value :
      (v : Value F)
      → Storable v
      → decode_typed_value {F = F} zero (trim_newlines (encode_typed_value v)) ≡ v
  unfolding encode_typed_value
  decode_typed_value-encode_typed_value (bool b) h = bool-decode b
  decode_typed_value-encode_typed_value (int n) h = int-decode n h
  decode_typed_value-encode_typed_value (real x) h = real-decode x h.0 h.1
  decode_typed_value-encode_typed_value (string t) h = string-decode t h
  decode_typed_value-encode_typed_value (wstring t) h = wstring-decode t h
  decode_typed_value-encode_typed_value (time_ms n) h = time-decode n h
  decode_typed_value-encode_typed_value (array vs) h = elim h [ ]
  decode_typed_value-encode_typed_value (struct fs) h = elim h [ ]
  decode_typed_value-encode_typed_value unit h = elim h [ ]
