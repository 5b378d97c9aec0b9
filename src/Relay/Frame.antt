-- ===== src/Relay/Frame.antt =====
-- crates/crossx-relay-rs/src/frame.rs: control frames of a big-endian u32 length and a JSON envelope.
-- serde_json is a parameter; a stream is the bytes that it still has.
use cross_xagent.Base.{
  ℕ, Bool, ◌||◌, Option, none, some, ◌++◌, Bytes, be_bytes, be_value, length, take, drop, ltb, ◌==◌,
  if◌then◌else◌, beq_bytes, not,
}
use cross_xagent.Relay.Errors.{
  protocol, io, Result, failed, ok, invalid_length, invalid_json, not_serialized, unexpected_type,
  invalid_payload,
}

abbrev pub max_frame_size : ℕ
max_frame_size = 1048576

-- `to_vec` of an envelope with this type and payload, `from_slice`, and `from_value`.
pub record Json (T Value : Type 0) : Type 0 where
  pub to_vec : Bytes → T → Option Bytes
  pub from_slice : Bytes → Option (Bytes × Value)
  pub from_value : Value → Option T

-- `validate_length`
abbrev pub is_invalid_length : ℕ → Bool
is_invalid_length length = length == 0 || ltb max_frame_size length

module _ {T Value : Type 0} (json : Json T Value) where
  -- What is written. A valid length fits a u32.
  unfoldable pub write_frame : Bytes → T → Result Bytes
  write_frame message_type payload = elim (json.to_vec message_type payload) [
    | none ↦ failed (protocol not_serialized)
    | some envelope ↦
        if is_invalid_length (length envelope)
        then failed (protocol (invalid_length (length envelope)))
        else ok (be_bytes 4 (length envelope) ++ envelope)
  ]

  unfoldable pub decode_envelope : Bytes → Bytes → Result T
  decode_envelope expected_type bytes = elim (json.from_slice bytes) [
    | none ↦ failed (protocol invalid_json)
    | some (t, d) ↦
        if not (beq_bytes t expected_type)
        then failed (protocol (unexpected_type expected_type t))
        else elim (json.from_value d) [
          | none ↦ failed (protocol (invalid_payload expected_type))
          | some payload ↦ ok payload
        ]
  ]

  -- `decode_envelope` after the bytes of the frame, with what the stream has behind it.
  unfoldable pub read_body : Bytes → ℕ → Bytes → Result (T × Bytes)
  read_body expected_type n stream =
      if is_invalid_length n
      then failed (protocol (invalid_length n))
      else if ltb (length stream) n
      then failed io
      else elim (decode_envelope expected_type (take n stream)) [
        | failed e ↦ failed e
        | ok payload ↦ ok (payload, drop n stream)
      ]

  unfoldable pub read_frame : Bytes → Bytes → Result (T × Bytes)
  read_frame expected_type stream =
      if ltb (length stream) 4
      then failed io
      else read_body expected_type (be_value (take 4 stream)) (drop 4 stream)
