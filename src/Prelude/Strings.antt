-- ===== src/Prelude/Strings.antt =====
-- `std::string` as its list of bytes.
use Prim.Native.Nat.{ℕ, zero, suc, ◌+◌, ◌/◌, ◌%◌}
use Prim.Native.Char.{code}
use Prim.Native.String.{String}
use mathlib.Core.Path.{◌≡◌, refl}
use mathlib.Core.Logic.{◌↔◌}
use mathlib.Core.Bool.{Bool, true, false, ◌&&◌, ◌||◌}
use mathlib.Core.List.{List, [], ◌∷◌}
use native.Mathlib.Omega.{arith}
use trainer.Prelude.Tests.{Comparable, ltb, nat_beq, if◌then◌else◌}

abbrev pub Bytes : Type 0
Bytes = List ℕ

-- The bytes of an ASCII literal.
unfoldable pub codes : String → Bytes
codes String.[] = []
codes (String.◌∷◌ c s) = code c ∷ codes s

unfoldable pub bytes_beq : Bytes → Bytes → Bool
bytes_beq [] [] = true
bytes_beq [] (y ∷ ys) = false
bytes_beq (x ∷ xs) [] = false
bytes_beq (x ∷ xs) (y ∷ ys) = nat_beq x y && bytes_beq xs ys

pub bytes_beq_iff : (a b : Bytes) → (bytes_beq a b ≡ true) ↔ (a ≡ b)
unfolding bytes_beq
bytes_beq_iff [] [] = (λ _. refl, λ _. refl)
bytes_beq_iff [] (y ∷ ys) = (λ p. cc, λ p. cc)
bytes_beq_iff (x ∷ xs) [] = (λ p. cc, λ p. cc)
bytes_beq_iff (x ∷ xs) (y ∷ ys) =
    (λ p. ground (arith, bytes_beq_iff xs ys), λ p. ground (arith, bytes_beq_iff xs ys))

instance abbrev pub byte_eq : Comparable Bytes
byte_eq = record { same = bytes_beq; same_iff = bytes_beq_iff }

starts_with : Bytes → Bytes → Bool
starts_with [] text = true
starts_with (p ∷ ps) [] = false
starts_with (p ∷ ps) (c ∷ cs) = nat_beq p c && starts_with ps cs

-- `text.ends_with(suffix)`.
unfoldable pub ends_with : Bytes → Bytes → Bool
unfolding bytes_beq
ends_with suffix [] = bytes_beq suffix []
ends_with suffix (c ∷ cs) = bytes_beq suffix (c ∷ cs) || ends_with suffix cs

-- `text.find(part) != npos`.
unfoldable pub contains_bytes : Bytes → Bytes → Bool
unfolding starts_with
contains_bytes part [] = starts_with part []
contains_bytes part (c ∷ cs) = starts_with part (c ∷ cs) || contains_bytes part cs

digits_on : ℕ → ℕ → Bytes → Bytes
digits_on zero n out = out
digits_on (suc fuel) n out =
    let more = digits_on fuel (n / 10) ((b'0' + n % 10) ∷ out) in
    if ltb n 10 then (b'0' + n) ∷ out else more

-- `std::to_string` of a number that is not negative. A number has at most n + 1 digits.
unfoldable pub decimal : ℕ → Bytes
unfolding digits_on
decimal n = digits_on (suc n) n []
