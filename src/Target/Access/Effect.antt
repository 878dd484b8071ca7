-- ===== src/Target/Access/Effect.antt =====
-- What a write through a path changes, crates/rbcpp_target/src/lib.rs.
use mathlib.Core.Path.{subst}
use robocpp.Base.{
  ap, ◌∙◌, ◌≡◌, refl, ◌⊎◌, inl, inr, true, Bool-cases, Option, none, some, if◌then◌else◌,
}
use robocpp.Base.Text.{Text, eqb, eqb→eq}
use robocpp.Base.Map.{lookup, lookup-insert}
use robocpp.Base.Result.{Result, ok, err, ok_or, ◌>>=◌}
use robocpp.Ir.Names.{AccessDirection, read_write, read_only}
use robocpp.Ir.Value.{Floats, Value}
use robocpp.Target.Symbol.{canonical_key, IoSymbol, TargetHal}
use robocpp.Target.Access.{
  TargetError, AccessTarget, state, io, unknown_access_path, check_direction, write_bound_with_hal,
  AccessPathBinding, AccessRuntime, read_state, set_state, binding, ensure_writable, permitted,
  write_permitted_with_hal, write_access_with_hal, read_access_with_hal, read_bound,
}

checked :
    (b c : AccessPathBinding) (d : AccessDirection) (name : Text)
    → (check_direction d name >>= λ _. ok c) ≡ ok b
    → (c ≡ b) × (d ≡ read_write)
checked b c read_write name h = (cc, refl)
checked b c read_only name h = cc

found :
    (b : AccessPathBinding) (e : TargetError) (o : Option AccessPathBinding)
    → (ok_or e o >>= λ c. ensure_writable c >>= λ _. ok c) ≡ ok b
    → (o ≡ some b) × (b.direction ≡ read_write)
unfolding ensure_writable
found b e none h = cc
found b e (some c) h =
    let (same, direction) = checked b c c.direction c.name h in
    (ap some same, subst (λ x. x.direction ≡ read_write) same direction)

module _ {F : Floats} where
  -- The path is bound to `b`, for reading and writing.
  pub record Writable (name : Text) (r : AccessRuntime F) (b : AccessPathBinding) : Type 0 where
    pub bound : lookup (canonical_key name) r.bindings ≡ some b
    pub direction : b.direction ≡ read_write

  permitted-Writable :
      (name : Text) (r : AccessRuntime F) (b : AccessPathBinding)
      → permitted name r ≡ ok b
      → Writable name r b
  unfolding permitted binding
  permitted-Writable name r b h =
      let (bound, direction) =
        found b (unknown_access_path name) (lookup (canonical_key name) r.bindings) h in
      record { bound = bound; direction = direction }

  Writable-permitted :
      (name : Text) (r : AccessRuntime F) (b : AccessPathBinding)
      → Writable name r b
      → permitted name r ≡ ok b
  unfolding permitted binding ensure_writable
  Writable-permitted name r b h =
      ap (λ o. ok_or (unknown_access_path name) o >>= λ c. ensure_writable c >>= λ _. ok c) h.bound
      ∙ ap (λ d. check_direction d b.name >>= λ _. ok b) h.direction

  -- How the cells of the state and the HAL stand after a write through the path.
  pub record Justified {H : Type 0} (name : Text) (r r' : AccessRuntime F) (hal hal' : H)
      (v : Value F) : Type 0 where
    pub cell :
        (t : Text)
        → (read_state t r'.state ≡ read_state t r.state)
          ⊎ ((b : AccessPathBinding) × (s : Text) × Writable name r b
              × (b.target_binding ≡ state s)
              × (canonical_key s ≡ canonical_key t)
              × (read_state t r'.state ≡ some v))
    pub outside :
        (hal' ≡ hal)
        ⊎ ((b : AccessPathBinding) × (symbol : IoSymbol) × Writable name r b
            × (b.target_binding ≡ io symbol))
    pub kept : (r'.bindings ≡ r.bindings) × (r'.state.retained ≡ r.state.retained)

  read_state-set_state :
      (s t : Text) (v : Value F) (r : AccessRuntime F)
      → read_state t (set_state s v r.state)
        ≡ (if eqb (canonical_key s) (canonical_key t) then some v else read_state t r.state)
  unfolding read_state set_state
  read_state-set_state s t v r = lookup-insert (canonical_key s) (canonical_key t) v r.state.values

  module _ {H : Type 0} (ops : TargetHal F H) (name : Text) (v : Value F) (r : AccessRuntime F)
      (hal : H) where
    bound_write :
        (b : AccessPathBinding) (target : AccessTarget)
        → Writable name r b
        → b.target_binding ≡ target
        → Justified name r
            (write_bound_with_hal ops b.name target v r hal).1.0
            hal
            (write_bound_with_hal ops b.name target v r hal).1.1
            v
    unfolding set_state
    bound_write b (state s) w e = record {
      cell = λ t. elim (Bool-cases (eqb (canonical_key s) (canonical_key t))) [
        | inl same ↦ inr (b, s, w, e, eqb→eq _ _ same, read_state-set_state s t v r ∙ rw same refl)
        | inr other ↦ inl (read_state-set_state s t v r ∙ rw other refl)
      ];
      outside = inl refl;
      kept = (refl, refl);
    }
    bound_write b (io symbol) w e = record {
      cell = λ t. inl refl;
      outside = inr (b, symbol, w, e);
      kept = (refl, refl);
    }

    permitted_write :
        (p : Result TargetError AccessPathBinding)
        → permitted name r ≡ p
        → Justified name r
            (write_permitted_with_hal ops p v r hal).1.0
            hal
            (write_permitted_with_hal ops p v r hal).1.1
            v
    permitted_write (err e) h = record {
      cell = λ t. inl refl;
      outside = inl refl;
      kept = (refl, refl);
    }
    permitted_write (ok b) h = bound_write b b.target_binding (permitted-Writable name r b h) refl

    -- A write through a path, whatever the path, leaves the registered paths and the retained names
    -- as they are. It changes a cell of the state only if the path is bound, for reading and
    -- writing, to a state target with the cell's key, and then the cell holds the value; it changes
    -- the HAL only if the path is bound, for reading and writing, to an I/O symbol.
    pub access_write-Justified :
        Justified name r
          (write_access_with_hal ops name v r hal).1.0
          hal
          (write_access_with_hal ops name v r hal).1.1
          v
    unfolding write_access_with_hal
    access_write-Justified = permitted_write (permitted name r) refl

    writes_state :
        (b : AccessPathBinding) (s : Text)
        → Writable name r b
        → b.target_binding ≡ state s
        → write_access_with_hal ops name v r hal
          ≡ (ok true, (record r { state = set_state s v r.state }, hal))
    unfolding write_access_with_hal
    writes_state b s w e =
        ap (λ p. write_permitted_with_hal ops p v r hal) (Writable-permitted name r b w)
        ∙ ap (λ target. write_bound_with_hal ops b.name target v r hal) e

    reads_state :
        (c : AccessPathBinding) (t other : Text) (r' : AccessRuntime F) (hal' : H)
        → lookup (canonical_key other) r'.bindings ≡ some c
        → c.target_binding ≡ state t
        → read_access_with_hal ops other r' hal' ≡ ok (read_state t r'.state)
    unfolding read_access_with_hal binding
    reads_state c t other r' hal' h e =
        ap
          (λ o. ok_or (unknown_access_path other) o >>= λ b.
            read_bound ops b.name b.target_binding r' hal')
          h
        ∙ ap (λ target. read_bound ops c.name target r' hal') e

    -- After a write through a path bound to state for reading and writing, which answers yes and
    -- leaves the HAL alone, a read through any path bound to state gives the value, if the two
    -- targets have one key, and what it gave before otherwise.
    pub access_read_back :
        (b c : AccessPathBinding) (s t other : Text)
        → Writable name r b
        → b.target_binding ≡ state s
        → lookup (canonical_key other) r.bindings ≡ some c
        → c.target_binding ≡ state t
        → (let out = write_access_with_hal ops name v r hal in
            (out.0 ≡ ok true)
            × (out.1.1 ≡ hal)
            × (read_access_with_hal ops other out.1.0 out.1.1
                ≡ ok (
                    if eqb (canonical_key s) (canonical_key t)
                    then some v
                    else read_state t r.state)))
    access_read_back b c s t other w e h h' =
        let done = writes_state b s w e in
        let r' = record r { state = set_state s v r.state } in
        (
          ap (λ out. out.0) done,
          ap (λ out. out.1.1) done,
          ap (λ out. read_access_with_hal ops other out.1.0 out.1.1) done
              ∙ reads_state c t other r' hal h h'
              ∙ ap ok (read_state-set_state s t v r),
        )
