-- ===== src/Wal/Settled.antt =====
-- What `next` and `ack` leave of a log besides its queue: its directory still determines it, its
-- active segment and its cap stay, and its files do not grow.
use cross_xagent.Base.{◌≤◌, ◌≡◌, refl, sym, ◌∙◌, arith, Bool-cases, inl, inr}
use mathlib.Core.Path.{subst}
use cross_xagent.Wal.Record.{WalEntry}
use cross_xagent.Wal.Ops.{Wal, is_head, next, ack}
use cross_xagent.Wal.Files.{file_bytes}
use cross_xagent.Wal.Queue.{next_lem}
use cross_xagent.Wal.Acked.{ack-IsStored}
use cross_xagent.Wal.Reopening.{IsDurable, IsDurable-IsValid, ack-IsDurable}

pub record Settled (w w' : Wal) : Type 0 where
  pub durable : IsDurable w'
  pub same_active : w'.active_segment ≡ w.active_segment
  pub same_max : w'.max_bytes ≡ w.max_bytes
  pub smaller : file_bytes w'.disk.files ≤ file_bytes w.disk.files

pub Settled-refl : (w : Wal) → IsDurable w → Settled w w
Settled-refl w v = record {
  durable = v;
  same_active = refl;
  same_max = refl;
  smaller = omega arith;
}

pub Settled-then : (w w1 w2 : Wal) → Settled w w1 → Settled w1 w2 → Settled w w2
Settled-then w w1 w2 s t = record {
  durable = t.durable;
  same_active = t.same_active ∙ s.same_active;
  same_max = t.same_max ∙ s.same_max;
  smaller = omega (arith, s.smaller, t.smaller);
}

pub next-Settled : (w : Wal) → IsDurable w → Settled w (next w).1
next-Settled w v =
    subst (Settled w) (sym (next_lem w _ (IsDurable-IsValid w v)).0) (Settled-refl w v)

active_segment-ack :
    (w : Wal) (entry : WalEntry)
    → ((ack entry w).1.active_segment ≡ w.active_segment)
      × ((ack entry w).1.max_bytes ≡ w.max_bytes)
unfolding ack
active_segment-ack w entry = elim (Bool-cases (is_head entry w.records)) [
  | inl head ↦ rw head (refl, refl)
  | inr other ↦ rw other (refl, refl)
]

pub ack-Settled : (w : Wal) (entry : WalEntry) → IsDurable w → Settled w (ack entry w).1
ack-Settled w entry v = record {
  durable = ack-IsDurable w entry v;
  same_active = (active_segment-ack w entry).0;
  same_max = (active_segment-ack w entry).1;
  smaller = (ack-IsStored w entry v.stored).1;
}
