-- ===== src/Wal/Naming.antt =====
-- A segment is found again under the name that it was written with.
use cross_xagent.Base.{
  ℕ, zero, suc, ◌+◌, ◌-◌, ◌*◌, ◌/◌, ◌%◌, ◌^◌, ◌≤◌, ◌<◌, ◌≡◌, refl, ap, ◌∙◌, Bool-cases, inl, inr,
  Option, none, some, [], ◌∷◌, ◌++◌, arith, Bytes, u64_max, length, length-append, take-append,
  drop-append, ltb, ltb→le, beq_bytes_refl, Option-cases,
}
use native.Mathlib.Nat.{pow-suc}
use cross_xagent.Relay.Auth.{ascii}
use cross_xagent.Wal.Names.{
  decimal_from, segment_name, parse_digit, parse_digits, parse_u64, strip_prefix, strip_suffix,
  sequence_of_name,
}

strip_prefix-append : (prefix s : Bytes) → strip_prefix prefix (prefix ++ s) ≡ some s
unfolding strip_prefix
strip_prefix-append prefix s =
    rw
      (
        take-append (length prefix) prefix s refl,
        drop-append (length prefix) prefix s refl,
        beq_bytes_refl prefix,
      )
      refl

strip_suffix-append : (s suffix : Bytes) → strip_suffix suffix (s ++ suffix) ≡ some s
unfolding strip_suffix
strip_suffix-append s suffix =
    let n : length (s ++ suffix) - length suffix ≡ length s =
      omega (arith, length-append s suffix) in
    rw
      (
        n,
        take-append (length s) s suffix refl,
        drop-append (length s) s suffix refl,
        beq_bytes_refl suffix,
      )
      refl

-- A digit behind others is read last.
some-injective : (a b : ℕ) → some a ≡ some b → a ≡ b
some-injective a b h = cc

parse_digits-append :
    (value c : ℕ) (s : Bytes) (n : ℕ)
    → parse_digits value s ≡ some n
    → parse_digits value (s ++ (c ∷ [])) ≡ parse_digit n c
unfolding parse_digits
parse_digits-append value c [] n h =
    again (parse_digit value c) ∙ ap (λ v. parse_digit v c) (some-injective value n h)
  where
    again : (o : Option ℕ) → elim o as (λ x. Option ℕ) [ none ↦ none | some v ↦ some v ] ≡ o
    again none = refl
    again (some v) = refl
parse_digits-append value c (d ∷ s) n h = elim (Option-cases (parse_digit value d)) [
  | inl e ↦ absurd (cc (rw (e, parse_digits) at h))
  | inr (v, e) ↦ rw (e, parse_digits) (parse_digits-append v c s n (rw (e, parse_digits) at h))
]

parse_digit_lem :
    (value d : ℕ)
    → d < 10
    → value * 10 + d ≤ u64_max
    → parse_digit value (b'0' + d) ≡ some (value * 10 + d)
unfolding parse_digit
parse_digit_lem value d small le = ground arith

fuel_left : (fuel n : ℕ) → n < 10 ^ suc fuel → 10 ≤ n → 0 < fuel
fuel_left zero n h le = absurd (omega (arith, pow-suc 10 0))
fuel_left (suc fuel) n h le = omega arith

parse_digits-decimal_from :
    (fuel n : ℕ)
    → n < 10 ^ fuel
    → 0 < fuel
    → n ≤ u64_max
    → parse_digits 0 (decimal_from fuel n) ≡ some n
unfolding decimal_from parse_digits
parse_digits-decimal_from zero n h some_fuel le = absurd (omega arith)
parse_digits-decimal_from (suc fuel) n h some_fuel le =
    let power = pow-suc 10 fuel in
    let later = parse_digits-decimal_from fuel (n / 10) (omega (arith, power)) in
    elim (Bool-cases (ltb n 10)) [
      | inl e ↦
          let one = parse_digit_lem 0 n (ground arith) (omega arith) in
          rw e (parse_digits-append 0 (b'0' + n) [] 0 refl ∙ one ∙ ap some (omega arith))
      | inr e ↦
          let enough = fuel_left fuel n h (ltb→le n 10 e) in
          let last = parse_digit_lem (n / 10) (n % 10) (omega arith) (omega arith) in
          rw e (
            parse_digits-append 0 (b'0' + n % 10) (decimal_from fuel (n / 10)) (n / 10)
              (later enough (omega arith))
            ∙ last
            ∙ ap some (omega arith))
    ]

-- The digits start with a digit, so that no sign is taken from them.
abbrev FirstDigit : Bytes → Type 0
FirstDigit [] = ⊥
FirstDigit (c ∷ s) = b'0' ≤ c

FirstDigit-append : (s t : Bytes) → FirstDigit s → FirstDigit (s ++ t)
FirstDigit-append [] t h = absurd h
FirstDigit-append (c ∷ s) t h = h

decimal_from-FirstDigit : (fuel n : ℕ) → n < 10 ^ fuel → 0 < fuel → FirstDigit (decimal_from fuel n)
unfolding decimal_from
decimal_from-FirstDigit zero n h some_fuel = absurd (omega arith)
decimal_from-FirstDigit (suc fuel) n h some_fuel =
    let later = decimal_from-FirstDigit fuel (n / 10) (omega (arith, pow-suc 10 fuel)) in
    elim (Bool-cases (ltb n 10)) [
      | inl e ↦ rw e (omega arith)
      | inr e ↦ rw e (
          FirstDigit-append (decimal_from fuel (n / 10)) _
            (later (fuel_left fuel n h (ltb→le n 10 e))))
    ]

parse_u64-FirstDigit : (s : Bytes) → FirstDigit s → parse_u64 s ≡ parse_digits 0 s
unfolding parse_u64
parse_u64-FirstDigit [] h = absurd h
parse_u64-FirstDigit (c ∷ []) h = refl
parse_u64-FirstDigit (c ∷ d ∷ s) h = ground arith

-- The sequence number of a segment is read back from the name of its file, where it fits a u64.
pub sequence_of_name-segment_name :
    (sequence : ℕ) → sequence ≤ u64_max → sequence_of_name (segment_name sequence) ≡ some sequence
unfolding segment_name sequence_of_name
sequence_of_name-segment_name sequence le =
    let digits = decimal_from 20 sequence in
    let few : sequence < 10 ^ 20 = omega arith in
    let first = decimal_from-FirstDigit 20 sequence few (omega arith) in
    rw (strip_prefix-append (ascii "wal-") (digits ++ ascii ".log"), sequence_of_name)
      (rw (strip_suffix-append digits (ascii ".log"), sequence_of_name)
        (parse_u64-FirstDigit digits first
          ∙ parse_digits-decimal_from 20 sequence few (omega arith) le))
