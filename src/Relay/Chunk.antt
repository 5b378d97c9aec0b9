-- ===== src/Relay/Chunk.antt =====
-- `append_chunk` of crates/crossx-relay-rs/src/auth.rs, which enroll.rs and cert.rs repeat: a
-- big-endian u32 length and the bytes. A sequence of chunks determines its parts.
use mathlib.Core.List.{append_assoc, append-nil}
use cross_xagent.Base.{
  ℕ, ◌≤◌, ◌≡◌, refl, sym, ap, ◌∙◌, List, [], ◌∷◌, ◌++◌, arith, Bytes, u32_max, be_bytes,
  be_bytes-injective, length-be_bytes, length, length-append, take, drop, take-append, drop-append,
  ltb, le→ltb, if◌then◌else◌,
}

-- `u32::try_from(value.len()).unwrap_or(u32::MAX)`
abbrev pub length_u32 : ℕ → ℕ
length_u32 n = if ltb u32_max n then u32_max else n

unfoldable pub append_chunk : Bytes → Bytes → Bytes
append_chunk output value = (output ++ be_bytes 4 (length_u32 (length value))) ++ value

-- The bytes that `append_chunk` appends.
unfoldable pub chunk : Bytes → Bytes
chunk value = be_bytes 4 (length_u32 (length value)) ++ value

abbrev pub chunks : List Bytes → Bytes
chunks [] = []
chunks (v ∷ vs) = chunk v ++ chunks vs

pub append_chunk-chunk : (output value : Bytes) → append_chunk output value ≡ output ++ chunk value
unfolding append_chunk chunk
append_chunk-chunk output value = append_assoc output _ value

-- Appending the chunks one after another, as the encoders do.
abbrev pub append_chunks : Bytes → List Bytes → Bytes
append_chunks out [] = out
append_chunks out (v ∷ vs) = append_chunks (append_chunk out v) vs

pub append_chunks-chunks : (out : Bytes) (vs : List Bytes) → append_chunks out vs ≡ out ++ chunks vs
append_chunks-chunks out [] = sym (append-nil out)
append_chunks-chunks out (v ∷ vs) =
    append_chunks-chunks (append_chunk out v) vs
    ∙ ap (λ o. o ++ chunks vs) (append_chunk-chunk out v)
    ∙ append_assoc out (chunk v) (chunks vs)

-- Lengths that the prefix can hold.
abbrev pub FitsU32 : List Bytes → Type 0
FitsU32 [] = Unit
FitsU32 (v ∷ vs) = (length v ≤ u32_max) × FitsU32 vs

length_u32_lem : (v : Bytes) → length v ≤ u32_max → length_u32 (length v) ≡ length v
length_u32_lem v h = rw (le→ltb u32_max (length v) h)

pub append-injective :
    (xs ys us vs : Bytes) → length xs ≡ length ys → xs ++ us ≡ ys ++ vs → (xs ≡ ys) × (us ≡ vs)
append-injective xs ys us vs h e = (
  sym (take-append (length xs) xs us refl)
      ∙ ap (take (length xs)) e
      ∙ take-append (length xs) ys vs h,
  sym (drop-append (length xs) xs us refl)
      ∙ ap (drop (length xs)) e
      ∙ drop-append (length xs) ys vs h,
)

-- A chunk in front tells where it ends.
chunk-injective :
    (v w xs ys : Bytes)
    → length v ≤ u32_max
    → length w ≤ u32_max
    → chunk v ++ xs ≡ chunk w ++ ys
    → (v ≡ w) × (xs ≡ ys)
unfolding chunk
chunk-injective v w xs ys hv hw e =
    let prefix = λ (u : Bytes). be_bytes 4 (length_u32 (length u)) in
    let e' : prefix v ++ (v ++ xs) ≡ prefix w ++ (w ++ ys) =
      sym (append_assoc (prefix v) v xs) ∙ e ∙ append_assoc (prefix w) w ys in
    let (lengths, rest) =
      append-injective (prefix v) (prefix w) (v ++ xs) (w ++ ys)
        (length-be_bytes 4 _ ∙ sym (length-be_bytes 4 _)) e' in
    let same : length v ≡ length w =
      be_bytes-injective 4 (length v) (length w) (omega arith) (omega arith) (
        sym (ap (be_bytes 4) (length_u32_lem v hv))
        ∙ lengths
        ∙ ap (be_bytes 4) (length_u32_lem w hw)) in
    append-injective v w xs ys same rest

chunk-ne-nil : (v xs : Bytes) → ¬ (chunk v ++ xs ≡ [])
unfolding chunk
chunk-ne-nil v xs e = absurd (
    omega (
      arith,
      ap length e,
      length-append (be_bytes 4 (length_u32 (length v)) ++ v) xs,
      length-append (be_bytes 4 (length_u32 (length v))) v,
      length-be_bytes 4 (length_u32 (length v)),
    ))

-- Two sequences of chunks with the same bytes are the same sequence.
pub chunks-injective :
    (vs ws : List Bytes) → FitsU32 vs → FitsU32 ws → chunks vs ≡ chunks ws → vs ≡ ws
chunks-injective [] [] hv hw e = refl
chunks-injective [] (w ∷ ws) hv hw e = absurd (chunk-ne-nil w (chunks ws) (sym e))
chunks-injective (v ∷ vs) [] hv hw e = absurd (chunk-ne-nil v (chunks vs) e)
chunks-injective (v ∷ vs) (w ∷ ws) hv hw e =
    let (here, rest) = chunk-injective v w (chunks vs) (chunks ws) hv.0 hw.0 e in
    cc (here, chunks-injective vs ws hv.1 hw.1 rest)

pub append_chunks-injective :
    (vs ws : List Bytes)
    → FitsU32 vs
    → FitsU32 ws
    → append_chunks [] vs ≡ append_chunks [] ws
    → vs ≡ ws
append_chunks-injective vs ws hv hw e =
    chunks-injective vs ws hv hw (sym (append_chunks-chunks [] vs) ∙ e ∙ append_chunks-chunks [] ws)
