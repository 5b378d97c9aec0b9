-- ===== src/Base/Words.antt =====
-- Bytes as native numbers, and the fixed-width integer codecs of Rust's `to_le_bytes`,
-- `from_le_bytes`, `to_be_bytes` and `from_be_bytes`.
use Prim.Native.Nat.{ℕ, zero, suc, ◌+◌, ◌*◌, ◌/◌, ◌%◌, ◌^◌, ◌<◌}
use mathlib.Core.Path.{◌≡◌, refl, sym, ap, ◌∙◌}
use mathlib.Core.List.{List, [], ◌∷◌, reverse, reverse-append, reverse-reverse}
use mathlib.Core.Bool.{Bool, true, false, ◌&&◌}
use native.Mathlib.Omega.{arith}
use native.Mathlib.Nat.{pow-suc}
use cross_xagent.Base.Tests.{◌==◌}
use cross_xagent.Base.Lists.{length, length-append}

abbrev pub Bytes : Type 0
Bytes = List ℕ

abbrev pub u32_max : ℕ
u32_max = 4294967295

abbrev pub u64_max : ℕ
u64_max = 18446744073709551615

-- The `k` lowest bytes of `n`, lowest first.
unfoldable pub le_bytes : ℕ → ℕ → Bytes
le_bytes zero n = []
le_bytes (suc k) n = (n % 256) ∷ le_bytes k (n / 256)

unfoldable pub le_value : Bytes → ℕ
le_value [] = 0
le_value (b ∷ bs) = b + 256 * le_value bs

-- The same, highest first.
unfoldable pub be_bytes : ℕ → ℕ → Bytes
be_bytes k n = reverse (le_bytes k n)

unfoldable pub be_value : Bytes → ℕ
be_value bytes = le_value (reverse bytes)

abbrev pub beq_bytes : Bytes → Bytes → Bool
beq_bytes [] [] = true
beq_bytes [] (y ∷ ys) = false
beq_bytes (x ∷ xs) [] = false
beq_bytes (x ∷ xs) (y ∷ ys) = (x == y) && beq_bytes xs ys

pub length-le_bytes : (k n : ℕ) → length (le_bytes k n) ≡ k
unfolding le_bytes
length-le_bytes zero n = refl
length-le_bytes (suc k) n = ap suc (length-le_bytes k (n / 256))

pub le_value-le_bytes : (k n : ℕ) → n < 256 ^ k → le_value (le_bytes k n) ≡ n
unfolding le_bytes le_value
le_value-le_bytes zero n h = omega arith
le_value-le_bytes (suc k) n h =
    omega (arith, le_value-le_bytes k (n / 256) (omega (arith, pow-suc 256 k)))

pub beq_bytes_refl : (xs : Bytes) → beq_bytes xs xs ≡ true
beq_bytes_refl [] = refl
beq_bytes_refl (x ∷ xs) = ground (arith, beq_bytes_refl xs)

pub beq_bytes→eq : (xs ys : Bytes) → beq_bytes xs ys ≡ true → xs ≡ ys
beq_bytes→eq [] [] h = refl
beq_bytes→eq [] (y ∷ ys) h = ground arith
beq_bytes→eq (x ∷ xs) [] h = ground arith
beq_bytes→eq (x ∷ xs) (y ∷ ys) h = ground (arith, beq_bytes→eq xs ys)

pub le_bytes-injective :
    (k n m : ℕ) → n < 256 ^ k → m < 256 ^ k → le_bytes k n ≡ le_bytes k m → n ≡ m
le_bytes-injective k n m hn hm e =
    sym (le_value-le_bytes k n hn) ∙ ap le_value e ∙ le_value-le_bytes k m hm

pub be_value-be_bytes : (k n : ℕ) → n < 256 ^ k → be_value (be_bytes k n) ≡ n
unfolding be_value be_bytes
be_value-be_bytes k n h = ap le_value (reverse-reverse (le_bytes k n)) ∙ le_value-le_bytes k n h

pub be_bytes-injective :
    (k n m : ℕ) → n < 256 ^ k → m < 256 ^ k → be_bytes k n ≡ be_bytes k m → n ≡ m
be_bytes-injective k n m hn hm e =
    sym (be_value-be_bytes k n hn) ∙ ap be_value e ∙ be_value-be_bytes k m hm

length-reverse : (xs : Bytes) → length (reverse xs) ≡ length xs
length-reverse [] = refl
length-reverse (x ∷ xs) =
    ap length (reverse-append (x ∷ []) xs)
    ∙ length-append (reverse xs) (x ∷ [])
    ∙ omega (arith, length-reverse xs)

pub length-be_bytes : (k n : ℕ) → length (be_bytes k n) ≡ k
unfolding be_bytes
length-be_bytes k n = length-reverse (le_bytes k n) ∙ length-le_bytes k n
