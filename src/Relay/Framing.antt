-- ===== src/Relay/Framing.antt =====
-- A frame that `write_frame` wrote is read back by `read_frame`.
use cross_xagent.Base.{
  ◌^◌, ◌<◌, ◌≡◌, refl, sym, ap, ◌∙◌, false, some, ◌++◌, arith, Bytes, be_bytes, be_value-be_bytes,
  length-be_bytes, length, length-append, take-append, drop-append, ltb, le→ltb, Bool-cases,
  Option-cases, inl, inr, beq_bytes_refl,
}
use mathlib.Core.List.{append_assoc}
use cross_xagent.Relay.Errors.{ok}
use cross_xagent.Relay.Frame.{
  Json, is_invalid_length, write_frame, decode_envelope, read_body, read_frame,
}

module _ {T Value : Type 0} (json : Json T Value) where
  -- serde_json reads an envelope back that it wrote.
  abbrev pub ReadsBack : Bytes → T → Type 0
  ReadsBack t payload =
      (envelope : Bytes)
      → json.to_vec t payload ≡ some envelope
      → (value : Value) × (json.from_slice envelope ≡ some (t, value))
        × (json.from_value value ≡ some payload)

  -- What a write that succeeds wrote.
  written :
      (t : Bytes) (payload : T) (bytes : Bytes)
      → write_frame json t payload ≡ ok bytes
      → (envelope : Bytes) × (json.to_vec t payload ≡ some envelope)
        × (is_invalid_length (length envelope) ≡ false)
        × (bytes ≡ be_bytes 4 (length envelope) ++ envelope)
  unfolding write_frame
  written t payload bytes h = elim (Option-cases (json.to_vec t payload)) [
    | inl e ↦ absurd (cc (rw (write_frame, e) at h))
    | inr (envelope, e) ↦ elim (Bool-cases (is_invalid_length (length envelope))) [
      | inl d ↦ absurd (cc (rw (write_frame, e, d) at h))
      | inr d ↦ (envelope, e, d, cc (rw (write_frame, e, d) at h))
    ]
  ]

  read_body-append :
      (t : Bytes) (payload : T) (value : Value) (envelope rest : Bytes)
      → json.from_slice envelope ≡ some (t, value)
      → json.from_value value ≡ some payload
      → is_invalid_length (length envelope) ≡ false
      → read_body json t (length envelope) (envelope ++ rest) ≡ ok (payload, rest)
  unfolding read_body decode_envelope
  read_body-append t payload value envelope rest parsed payload_of valid =
      let enough : ltb (length (envelope ++ rest)) (length envelope) ≡ false =
        le→ltb _ _ (omega (arith, length-append envelope rest)) in
      rw
        (
          valid,
          enough,
          take-append (length envelope) envelope rest refl,
          parsed,
          beq_bytes_refl t,
          payload_of,
        )
        (ap (λ r. ok (payload, r)) (drop-append (length envelope) envelope rest refl))

  -- Where serde_json reads back what it wrote, a frame that was written is read back as its payload
  -- under its own type, and what follows it stays in the stream.
  pub read_frame-write_frame :
      (t : Bytes) (payload : T) (bytes rest : Bytes)
      → ReadsBack t payload
      → write_frame json t payload ≡ ok bytes
      → read_frame json t (bytes ++ rest) ≡ ok (payload, rest)
  unfolding read_frame
  read_frame-write_frame t payload bytes rest back h =
      let (envelope, e, valid, same) = written t payload bytes h in
      let (value, parsed, read) = back envelope e in
      let n = length envelope in
      let head = be_bytes 4 n in
      let four : length head ≡ 4 = length-be_bytes 4 n in
      let small : n < 256 ^ 4 = ground (arith, valid) in
      let split : bytes ++ rest ≡ head ++ (envelope ++ rest) =
        ap (λ b. b ++ rest) same ∙ append_assoc head envelope rest in
      let long : ltb (length (head ++ (envelope ++ rest))) 4 ≡ false =
        le→ltb _ _ (omega (arith, four, length-append head (envelope ++ rest))) in
      rw
        (
          split,
          long,
          take-append 4 head (envelope ++ rest) (sym four),
          drop-append 4 head (envelope ++ rest) (sym four),
          be_value-be_bytes 4 n small,
        )
        (read_body-append t payload value envelope rest parsed read valid)
