-- ===== src/Wal/Names.antt =====
-- The names of the segment files in crates/crossx-agent/src/wal.rs: `segment_path` prints them, and
-- `segment_sequences` reads them.
use cross_xagent.Base.{
  ℕ, zero, suc, ◌+◌, ◌-◌, ◌*◌, ◌/◌, ◌%◌, Bool, ◌&&◌, Option, none, some, [], ◌∷◌, ◌++◌, Bytes,
  u64_max, length, take, drop, ltb, leb, ◌==◌, beq_bytes, if◌then◌else◌,
}
use cross_xagent.Relay.Auth.{ascii}

-- The decimal digits, of which a u64 has at most twenty.
unfoldable pub decimal_from : ℕ → ℕ → Bytes
decimal_from zero n = []
decimal_from (suc fuel) n =
    let front = decimal_from fuel (n / 10) in
    if ltb n 10 then (b'0' + n) ∷ [] else front ++ ((b'0' + n % 10) ∷ [])

unfoldable pub segment_name : ℕ → Bytes
segment_name sequence = ascii "wal-" ++ (decimal_from 20 sequence ++ ascii ".log")

abbrev pub is_digit : ℕ → Bool
is_digit c = leb b'0' c && leb c b'9'

-- One digit of `str::parse`, which fails where the value leaves a u64.
unfoldable pub parse_digit : ℕ → ℕ → Option ℕ
parse_digit value c =
    if is_digit c
    then (if ltb u64_max (value * 10 + (c - b'0')) then none else some (value * 10 + (c - b'0')))
    else none

unfoldable pub parse_digits : ℕ → Bytes → Option ℕ
parse_digits value [] = some value
parse_digits value (c ∷ s) = elim (parse_digit value c) [
  | none ↦ none
  | some value' ↦ parse_digits value' s
]

-- `str::parse::<u64>`, which takes a sign in front of digits.
abbrev after_sign : ℕ → Bytes → Option ℕ
after_sign c [] = parse_digits 0 (c ∷ [])
after_sign c (d ∷ s) = if c == b'+' then parse_digits 0 (d ∷ s) else parse_digits 0 (c ∷ d ∷ s)

unfoldable pub parse_u64 : Bytes → Option ℕ
parse_u64 [] = none
parse_u64 (c ∷ s) = after_sign c s

unfoldable pub strip_prefix : Bytes → Bytes → Option Bytes
strip_prefix prefix s =
    if beq_bytes (take (length prefix) s) prefix then some (drop (length prefix) s) else none

unfoldable pub strip_suffix : Bytes → Bytes → Option Bytes
strip_suffix suffix s =
    let n = length s - length suffix in
    if beq_bytes (drop n s) suffix then some (take n s) else none

-- What `segment_sequences` makes of a file name.
unfoldable pub sequence_of_name : Bytes → Option ℕ
sequence_of_name name = elim (strip_prefix (ascii "wal-") name) [
  | none ↦ none
  | some value ↦ elim (strip_suffix (ascii ".log") value) [
    | none ↦ none
    | some digits ↦ parse_u64 digits
  ]
]
