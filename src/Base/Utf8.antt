-- ===== src/Base/Utf8.antt =====
-- Byte offsets into a text: Rust's `len_utf8`, `str::len` and slices at offsets of characters.
use robocpp.Base.{false, ℕ, ◌+◌, ◌-◌, ◌<◌, ◌≡◌, refl, ap, [], ◌∷◌, ◌++◌, arith, ltb, if◌then◌else◌}
use robocpp.Base.Text.{Text}

unfoldable pub len_utf8 : ℕ → ℕ
len_utf8 c = if ltb c 0x80 then 1 else if ltb c 0x800 then 2 else if ltb c 0x1_0000 then 3 else 4

unfoldable pub byte_length : Text → ℕ
byte_length [] = 0
byte_length (c ∷ s) = len_utf8 c + byte_length s

-- `&s[..n]` and `&s[n..]`.
unfoldable pub take_bytes : ℕ → Text → Text
take_bytes n [] = []
take_bytes n (c ∷ s) =
    let front = take_bytes (n - len_utf8 c) s in if ltb n (len_utf8 c) then [] else c ∷ front

unfoldable pub drop_bytes : ℕ → Text → Text
drop_bytes n [] = []
drop_bytes n (c ∷ s) =
    let back = drop_bytes (n - len_utf8 c) s in if ltb n (len_utf8 c) then c ∷ s else back

-- `&s[start..end]`
unfoldable pub slice : ℕ → ℕ → Text → Text
unfolding take_bytes drop_bytes
slice start end s = take_bytes (end - start) (drop_bytes start s)

pub len_utf8_pos : (c : ℕ) → 0 < len_utf8 c
unfolding len_utf8
len_utf8_pos c = ground arith

pub byte_length-append : (s t : Text) → byte_length (s ++ t) ≡ byte_length s + byte_length t
unfolding byte_length
byte_length-append [] t = omega arith
byte_length-append (c ∷ s) t = omega (arith, byte_length-append s t)

take_bytes-zero : (t : Text) → take_bytes 0 t ≡ []
unfolding take_bytes
take_bytes-zero [] = refl
take_bytes-zero (c ∷ t) = ground (arith, len_utf8_pos c)

drop_bytes-zero : (t : Text) → drop_bytes 0 t ≡ t
unfolding drop_bytes
drop_bytes-zero [] = refl
drop_bytes-zero (c ∷ t) = ground (arith, len_utf8_pos c)

less_length : (a b : ℕ) → a + b - a ≡ b
less_length a b = omega arith

not_ltb : (a b : ℕ) → ltb (a + b) a ≡ false
not_ltb a b = ground arith

pub take_bytes-append : (s t : Text) → take_bytes (byte_length s) (s ++ t) ≡ s
unfolding take_bytes byte_length
take_bytes-append [] t = take_bytes-zero t
take_bytes-append (c ∷ s) t =
    rw (not_ltb (len_utf8 c) (byte_length s), less_length (len_utf8 c) (byte_length s))
      (ap (λ r. c ∷ r) (take_bytes-append s t))

pub drop_bytes-append : (s t : Text) → drop_bytes (byte_length s) (s ++ t) ≡ t
unfolding drop_bytes byte_length
drop_bytes-append [] t = drop_bytes-zero t
drop_bytes-append (c ∷ s) t =
    rw (not_ltb (len_utf8 c) (byte_length s), less_length (len_utf8 c) (byte_length s))
      (drop_bytes-append s t)

-- The slice of a text at the place where a part of it stands.
pub slice-append :
    (before part after : Text)
    → slice (byte_length before) (byte_length before + byte_length part) (before ++ (part ++ after))
      ≡ part
unfolding slice
slice-append before part after =
    rw
      (
        drop_bytes-append before (part ++ after),
        less_length (byte_length before) (byte_length part),
      )
      (take_bytes-append part after)
