-- ===== src/Target/Pdo/Bytes.antt =====
-- Little-endian bytes inside a slice, as `to_le_bytes`, `from_le_bytes` and `copy_from_slice` give
-- them to crates/rbcpp_target/src/lib.rs. A `u8` is a number below 256.
use native.Mathlib.Nat
use mathlib.Core.Path.{ap₂}
use robocpp.Base.{
  ℕ, zero, suc, ◌+◌, ◌*◌, ◌%◌, ◌/◌, ◌^◌, ◌<◌, ◌≤◌, ◌≡◌, refl, ap, sym, ◌∙◌, ◌⊎◌, inl, inr, List,
  arith, length, get_or, set, length-set, get_or-set_self, get_or-set_ne,
}

-- The number of the `len` bytes from `offset` on, the least significant first.
unfoldable pub of_le_bytes : ℕ → ℕ → List ℕ → ℕ
of_le_bytes zero offset bytes = 0
of_le_bytes (suc len) offset bytes =
    get_or bytes offset 0 + 256 * of_le_bytes len (suc offset) bytes

-- Writes the `len` low bytes of `n` from `offset` on.
unfoldable pub put_le_bytes : ℕ → ℕ → ℕ → List ℕ → List ℕ
put_le_bytes zero offset n bytes = bytes
put_le_bytes (suc len) offset n bytes =
    put_le_bytes len (suc offset) (n / 256) (set bytes offset (n % 256))

pub length-put_le_bytes :
    (len offset n : ℕ) (bytes : List ℕ) → length (put_le_bytes len offset n bytes) ≡ length bytes
unfolding put_le_bytes
length-put_le_bytes zero offset n bytes = refl
length-put_le_bytes (suc len) offset n bytes =
    length-put_le_bytes len (suc offset) (n / 256) (set bytes offset (n % 256))
    ∙ length-set bytes offset (n % 256)

-- The bytes outside the window stay.
pub get_or-put_le_bytes :
    (len offset n i : ℕ) (bytes : List ℕ)
    → (i < offset) ⊎ (offset + len ≤ i)
    → get_or (put_le_bytes len offset n bytes) i 0 ≡ get_or bytes i 0
unfolding put_le_bytes
get_or-put_le_bytes zero offset n i bytes h = refl
get_or-put_le_bytes (suc len) offset n i bytes h =
    get_or-put_le_bytes len (suc offset) (n / 256) i (set bytes offset (n % 256))
      (elim h [ inl l ↦ inl (omega arith) | inr l ↦ inr (omega arith) ])
    ∙ get_or-set_ne bytes offset i (n % 256) 0
        (λ e. elim h [ inl l ↦ omega arith | inr l ↦ omega arith ])

-- One byte split off a number modulo a power.
split_byte : (n m : ℕ) → 0 < m → n % 256 + 256 * (n / 256 % m) ≡ n % (256 * m)
split_byte n m h =
    sym (ap (λ x. x % (256 * m)) whole ∙ Nat.add-mul-mod_self_left _ _ _ ∙ Nat.mod-eq_of_lt below)
  where
    inner : m * (n / 256 / m) + n / 256 % m ≡ n / 256
    inner = Nat.div-add-mod (n / 256) m

    whole : n ≡ n % 256 + 256 * (n / 256 % m) + 256 * m * (n / 256 / m)
    whole = omega (arith, inner, Nat.mul_assoc 256 m (n / 256 / m))

    below : n % 256 + 256 * (n / 256 % m) < 256 * m
    below = omega (arith, Nat.mod-lt (n / 256) h)

-- What was written is read back, modulo the width.
pub of_le_bytes-put_le_bytes :
    (len offset n : ℕ) (bytes : List ℕ)
    → offset + len ≤ length bytes
    → of_le_bytes len offset (put_le_bytes len offset n bytes) ≡ n % 256 ^ len
unfolding put_le_bytes of_le_bytes
of_le_bytes-put_le_bytes zero offset n bytes h = omega arith
of_le_bytes-put_le_bytes (suc len) offset n bytes h =
    let next = set bytes offset (n % 256) in
    let room : suc offset + len ≤ length next = omega (arith, length-set bytes offset (n % 256)) in
    let low : get_or (put_le_bytes len (suc offset) (n / 256) next) offset 0 ≡ n % 256 =
      get_or-put_le_bytes len (suc offset) (n / 256) offset next (inl (omega arith))
      ∙ get_or-set_self bytes offset (n % 256) 0 (omega arith) in
    let high = of_le_bytes-put_le_bytes len (suc offset) (n / 256) next room in
    ap₂ (λ b x. b + 256 * x) low high
    ∙ split_byte n (256 ^ len) (Nat.one-le-pow len 256 (omega arith))
    ∙ ap (λ x. n % x) (sym (Nat.pow-succ' 256 len))
