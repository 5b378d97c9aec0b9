-- ===== src/Telemetry/Lines.antt =====
-- What one poll of `FileTailer` hands over: whole lines of the window, from its start on.
use cross_xagent.Base.{
  ℕ, zero, suc, ◌+◌, ◌≤◌, ◌≡◌, refl, ap, ◌∙◌, Bool, true, false, not, ◌&&◌, Bool-cases, inl, inr,
  ◌⊎◌, List, [], ◌∷◌, ◌++◌, map, arith, Bytes, length, length-append, ◌==◌,
}
use cross_xagent.Telemetry.Tailer.{push_first, split_inclusive, is_complete, body_of, poll_lines}

abbrev pub concat : List Bytes → Bytes
concat [] = []
concat (line ∷ lines) = line ++ concat lines

concat-push_first :
    (byte : ℕ) (lines : List Bytes) → concat (push_first byte lines) ≡ byte ∷ concat lines
concat-push_first byte [] = refl
concat-push_first byte (line ∷ lines) = refl

-- The lines that a window is split into are the window.
pub concat-split_inclusive : (bytes : Bytes) → concat (split_inclusive bytes) ≡ bytes
unfolding split_inclusive
concat-split_inclusive [] = refl
concat-split_inclusive (byte ∷ bytes) = elim (Bool-cases (byte == 10)) [
  | inl e ↦ rw e (ap (λ l. byte ∷ l) (concat-split_inclusive bytes))
  | inr e ↦ rw e (
      concat-push_first byte (split_inclusive bytes)
      ∙ ap (λ l. byte ∷ l) (concat-split_inclusive bytes))
]

-- A line that may be handed over: it is whole, or it is the start of a full window.
abbrev pub Whole : Bool → ℕ → List Bytes → Type 0
Whole full consumed [] = Unit
Whole full consumed (line ∷ lines) =
    ((is_complete line ≡ true) ⊎ ((full ≡ true) × (consumed ≡ 0)))
    × Whole full (consumed + length line) lines

-- What the loop of `poll` took of the lines.
pub record Polled (full : Bool) (allowed consumed : ℕ) (lines : List Bytes) (r : List Bytes × ℕ)
    : Type 0 where
  pub taken : List Bytes
  pub left : List Bytes
  pub split : lines ≡ taken ++ left
  pub bodies : r.0 ≡ map body_of taken
  pub bytes : r.1 ≡ consumed + length (concat taken)
  pub few : length taken ≤ allowed
  pub whole : Whole full consumed taken
  pub stopped :
      (length taken ≡ allowed)
      ⊎ ((left ≡ [])
          ⊎ ((line : Bytes) × (rest : List Bytes) × (left ≡ line ∷ rest)
              × (is_complete line ≡ false)))

-- The loop of `poll` takes lines from the front, each whole or the start of a full window, hands
-- over their bodies, counts exactly their bytes, and stops at the bound on records, at the end, or
-- at a line without its newline.
pub poll_lines_lem :
    (full : Bool) (allowed consumed : ℕ) (lines : List Bytes)
    → Polled full allowed consumed lines (poll_lines full allowed consumed lines)
unfolding poll_lines
poll_lines_lem full zero consumed lines = record {
  taken = [];
  left = lines;
  split = refl;
  bodies = refl;
  bytes = omega arith;
  few = omega arith;
  whole = tt;
  stopped = inl refl;
}
poll_lines_lem full (suc allowed) consumed [] = record {
  taken = [];
  left = [];
  split = refl;
  bodies = refl;
  bytes = omega arith;
  few = omega arith;
  whole = tt;
  stopped = inr (inl refl);
}
poll_lines_lem full (suc allowed) consumed (line ∷ lines) =
    let p = poll_lines_lem full allowed (consumed + length line) lines in
    elim (Bool-cases (not (is_complete line) && not (full && consumed == 0))) [
      | inl e ↦ rw e (record {
        taken = [];
        left = line ∷ lines;
        split = refl;
        bodies = refl;
        bytes = omega arith;
        few = omega arith;
        whole = tt;
        stopped = inr (inr (line, lines, refl, ground arith));
      })
      | inr e ↦ rw e (record {
        taken = line ∷ p.taken;
        left = p.left;
        split = ap (λ l. line ∷ l) p.split;
        bodies = ap (λ l. body_of line ∷ l) p.bodies;
        bytes = omega (arith, p.bytes, length-append line (concat p.taken));
        few = omega (arith, p.few);
        whole = (ground arith, p.whole);
        stopped = elim p.stopped [ inl same ↦ inl (ap suc same) | inr other ↦ inr other ];
      })
    ]
