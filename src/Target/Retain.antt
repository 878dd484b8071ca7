-- ===== src/Target/Retain.antt =====
-- Retained values on disk, `RetainStore` of crates/rbcpp_target/src/lib.rs. The disk is a map from
-- file names below the store's directory to contents; its failures are left out.
pub mod Codec
pub mod Restart
pub mod Supervised
use robocpp.Base.{
  ℕ, Bool, true, false, ◌&&◌, ◌||◌, Option, none, some, List, [], ◌∷◌, ◌++◌, map, if◌then◌else◌,
  ◌==◌, unwrap_or, map_option,
}
use robocpp.Base.Int.{pos}
use robocpp.Base.Text.{Text, codes, eqb, is_alphanumeric, is_empty}
use robocpp.Base.Map.{Map, lookup, insert}
use robocpp.Base.Decimal.{print_ℤ, parse_i64, parse_i128}
use robocpp.Ir.Value.{Floats, Value, bool, int, real, string, wstring, time_ms, array, struct, unit}
use robocpp.Ir.Display.{show}
use robocpp.Target.Symbol.{canonical_key}
use robocpp.Target.Access.{TargetState, AccessRuntime}
use robocpp.Base.Result.{ok}
use robocpp.Target.Supervisor.{Retain}

abbrev pub is_newline : ℕ → Bool
is_newline c = c == 10 || c == 13

-- `trim_end_matches(['\n', '\r'])`
unfoldable pub trim_newlines : Text → Text
trim_newlines [] = []
trim_newlines (c ∷ t) =
    let rest = trim_newlines t in if is_newline c && is_empty rest then [] else c ∷ rest

abbrev pub prepend : ℕ → Option (Text × Text) → Option (Text × Text)
prepend c none = none
prepend c (some (kind, value)) = some (c ∷ kind, value)

-- `split_once(':')`
unfoldable pub split_colon : Text → Option (Text × Text)
split_colon [] = none
split_colon (c ∷ t) = let rest = split_colon t in if c == b':' then some ([], t) else prepend c rest

abbrev pub safe_char : ℕ → ℕ
safe_char c = if is_alphanumeric c || (c == b'_' || c == b'-' || c == b'.') then c else b'_'

abbrev pub or_underscore : Text → Text
or_underscore [] = b'_' ∷ []
or_underscore (c ∷ t) = c ∷ t

unfoldable pub safe_file_component : Text → Text
safe_file_component name = or_underscore (map safe_char name)

module _ {F : Floats} where
  unfoldable pub encode_typed_value : Value F → Text
  unfolding show
  encode_typed_value (bool true) = codes "BOOL:1\n"
  encode_typed_value (bool false) = codes "BOOL:0\n"
  encode_typed_value (int n) = codes "INT:" ++ (print_ℤ n ++ codes "\n")
  encode_typed_value (real x) = codes "REAL:" ++ (F.show x ++ codes "\n")
  encode_typed_value (string t) = codes "STRING:" ++ (t ++ codes "\n")
  encode_typed_value (wstring t) = codes "WSTRING:" ++ (t ++ codes "\n")
  encode_typed_value (time_ms t) = codes "TIME:" ++ (print_ℤ t ++ codes "\n")
  encode_typed_value v = codes "STRING:" ++ (show v ++ codes "\n")

  -- `zero` stands for the literal `0.0`.
  unfoldable pub decode_kind : F.Real → Text → Text → Value F
  decode_kind zero kind value =
      if eqb kind (codes "BOOL")
      then bool (eqb value (codes "1") || (eqb value (codes "TRUE") || eqb value (codes "true")))
      else if eqb kind (codes "INT")
      then int (unwrap_or (pos 0) (parse_i64 value))
      else if eqb kind (codes "REAL")
      then real (unwrap_or zero (F.read value))
      else if eqb kind (codes "WSTRING")
      then wstring value
      else if eqb kind (codes "TIME")
      then time_ms (unwrap_or (pos 0) (parse_i128 value))
      else string value

  abbrev pub decode_split : F.Real → Text → Option (Text × Text) → Value F
  decode_split zero raw none = string raw
  decode_split zero raw (some (kind, value)) = decode_kind zero kind value

  unfoldable pub decode_typed_value : F.Real → Text → Value F
  unfolding decode_kind split_colon
  decode_typed_value zero raw = decode_split zero raw (split_colon raw)

abbrev pub Disk : Type 0
Disk = Map Text

unfoldable pub path_for : Text → Text
unfolding safe_file_component
path_for name = safe_file_component (canonical_key name) ++ codes ".retain"

unfoldable pub legacy_path_for : Text → Option Text
unfolding path_for safe_file_component
legacy_path_for name =
    let legacy = safe_file_component name ++ codes ".retain" in
    if eqb legacy (path_for name) then none else some legacy

-- The contents of the file with the first name, or of the file with the other name.
abbrev pub or_legacy : Option Text → Option Text → Disk → Option Text
or_legacy (some raw) legacy disk = some raw
or_legacy none (some legacy) disk = lookup legacy disk
or_legacy none none disk = none

module _ {F : Floats} (zero : F.Real) where
  unfoldable pub load : Text → Disk → Option (Value F)
  unfolding decode_typed_value trim_newlines path_for legacy_path_for
  load name disk =
      map_option (λ raw. decode_typed_value zero (trim_newlines raw))
        (or_legacy (lookup (path_for name) disk) (legacy_path_for name) disk)

  abbrev pub insert_found : Text → Option (Value F) → Map (Value F) → Map (Value F)
  insert_found target none values = values
  insert_found target (some v) values = insert target v values

  unfoldable pub load_all : List Text → Disk → Map (Value F) → Map (Value F)
  unfolding load
  load_all [] disk values = values
  load_all (target ∷ targets) disk values =
      load_all targets disk (insert_found target (load target disk) values)

  unfoldable pub load_retained : Disk → TargetState F → TargetState F
  unfolding load_all
  load_retained disk s = record s { values = load_all s.retained disk s.values }

module _ {F : Floats} where
  unfoldable pub save : Text → Value F → Disk → Disk
  unfolding encode_typed_value path_for
  save name v disk = insert (path_for name) (encode_typed_value v) disk

  abbrev pub save_found : Text → Option (Value F) → Disk → Disk
  save_found target none disk = disk
  save_found target (some v) disk = save target v disk

  unfoldable pub save_all : List Text → Map (Value F) → Disk → Disk
  unfolding save
  save_all [] values disk = disk
  save_all (target ∷ targets) values disk =
      save_all targets values (save_found target (lookup target values) disk)

  unfoldable pub save_retained : TargetState F → Disk → Disk
  unfolding save_all
  save_retained s disk = save_all s.retained s.values disk

-- `load_retained` and `save_retained` of `AccessRuntime`, for the supervisor
abbrev pub disk_retain : (F : Floats) → F.Real → Retain F Disk
disk_retain F zero = record {
  load_retained = λ disk r. (ok tt, record r { state = load_retained {F = F} zero disk r.state });
  save_retained = λ disk r. (ok tt, save_retained r.state disk);
}
