-- ===== src/Agent/Agreeing.antt =====
-- A round of the logs loop over two exporters: where they accept the same batches, the sources and
-- their checkpoints come out the same.
use cross_xagent.Base.{
  ◌≡◌, refl, sym, ap, Bool, true, false, Bool-cases, Option-cases, inl, inr, Option, none, some,
  List, [], ◌∷◌, Bytes,
}
use mathlib.Core.Path.{subst}
use cross_xagent.Telemetry.Tailer.{Tailer, Result, failed, ok, poll, persist_checkpoint}
use cross_xagent.Agent.Sources.{
  Tick, FileSource, warn_unavailable, opened, deliver, poll_into, poll_file_sources,
}

-- What a poll comes to before the exporter is called.
pub data Polled : Type 0 where
  idle : FileSource → Polled
  batch : List Bytes → Tailer → FileSource → Polled

abbrev gone : FileSource → FileSource
gone source = warn_unavailable (record source { tailer = none })

abbrev view_poll : FileSource → Result (List Bytes × Tailer) → Polled
view_poll source (failed e) = idle (gone source)
view_poll source (ok (bodies, tailer)) = batch bodies tailer source

abbrev pub view : Tick → Option Bytes → FileSource → Polled
view tick checkpoint source =
    let source' = opened tick checkpoint source in
    elim source'.tailer [
      | none ↦ idle source'
      | some tailer ↦ elim tick.at_poll [
        | none ↦ idle (gone source')
        | some file ↦ view_poll source' (poll tailer file)
      ]
    ]

-- The source and the checkpoint behind an export.
abbrev delivered : Bool → Bool → Tailer → FileSource → Option Bytes → FileSource × Option Bytes
delivered false writable tailer source checkpoint =
    (record source { tailer = some tailer }, checkpoint)
delivered true false tailer source checkpoint = (record source { tailer = some tailer }, checkpoint)
delivered true true tailer source checkpoint = (
  record source { tailer = some (persist_checkpoint tailer).1 },
  some (persist_checkpoint tailer).0,
)

module _ {S : Type 0} (export_records : List Bytes → S → Bool × S) where
  abbrev finish : Bool → Option Bytes → Polled → S → FileSource × Option Bytes × S
  finish writable checkpoint (idle source) s = (source, checkpoint, s)
  finish writable checkpoint (batch bodies tailer source) s =
      deliver export_records writable bodies tailer source checkpoint s

  poll_into-view :
      (tick : Tick) (source : FileSource) (checkpoint : Option Bytes) (s : S)
      → poll_into export_records tick source checkpoint s
        ≡ finish tick.writable checkpoint (view tick checkpoint source) s
  unfolding poll_into
  poll_into-view tick source checkpoint s =
      let source' = opened tick checkpoint source in
      elim (Option-cases source'.tailer) [
        | inl e ↦ rw (poll_into, view, e) refl
        | inr (tailer, e) ↦ elim (Option-cases tick.at_poll) [
          | inl f ↦ rw (poll_into, view, e, f) refl
          | inr (file, f) ↦ rw (poll_into, view, e, f) (polled source' (poll tailer file))
        ]
      ]
    where
      polled :
          (source' : FileSource) (r : Result (List Bytes × Tailer))
          → (elim r [
            | failed e ↦ (gone source', checkpoint, s)
            | ok (bodies, tailer) ↦
                deliver export_records tick.writable bodies tailer source' checkpoint s
          ])
            ≡ finish tick.writable checkpoint (view_poll source' r) s
      polled source' (failed e) = refl
      polled source' (ok (bodies, tailer)) = refl

  deliver-cons :
      (writable : Bool) (body : Bytes) (bodies : List Bytes) (tailer : Tailer) (source : FileSource)
      (checkpoint : Option Bytes) (s : S)
      → let r = export_records (body ∷ bodies) s in
        let d = delivered r.0 writable tailer source checkpoint in
        deliver export_records writable (body ∷ bodies) tailer source checkpoint s ≡ (d.0, d.1, r.1)
  unfolding deliver
  deliver-cons writable body bodies tailer source checkpoint s =
      elim (Bool-cases (export_records (body ∷ bodies) s).0) [
        | inl e ↦ elim (Bool-cases writable) [
          | inl f ↦ rw (deliver, delivered, e, f) refl
          | inr f ↦ rw (deliver, delivered, e, f) refl
        ]
        | inr e ↦ rw (deliver, delivered, e) refl
      ]

-- Two exporters and a relation of their states. They agree as long as `P` holds behind the second,
-- and then it held before.
module _ {A B : Type 0} (export_a : List Bytes → A → Bool × A)
    (export_b : List Bytes → B → Bool × B) (R : A → B → Type 0) (P : B → Type 0)
    (back : (bodies : List Bytes) (b : B) → P (export_b bodies b).1 → P b)
    (agree : (bodies : List Bytes) (a : A) (b : B)
      → R a b
      → P (export_b bodies b).1
      → ((export_a bodies a).0 ≡ (export_b bodies b).0)
        × R (export_a bodies a).1 (export_b bodies b).1) where
  abbrev Agree : FileSource × Option Bytes × A → FileSource × Option Bytes × B → Type 0
  Agree x y = (x.0 ≡ y.0) × (x.1 ≡ y.1) × R x.2 y.2

  finish-back :
      (writable : Bool) (checkpoint : Option Bytes) (p : Polled) (b : B)
      → P (finish export_b writable checkpoint p b).2
      → P b
  unfolding deliver
  finish-back writable checkpoint (idle source) b h = h
  finish-back writable checkpoint (batch [] tailer source) b h = h
  finish-back writable checkpoint (batch (body ∷ bodies) tailer source) b h =
      back (body ∷ bodies) b (
        subst (λ x. P x.2) (deliver-cons export_b writable body bodies tailer source checkpoint b)
          h)

  finish-Agree :
      (writable : Bool) (checkpoint : Option Bytes) (p : Polled) (a : A) (b : B)
      → R a b
      → P (finish export_b writable checkpoint p b).2
      → Agree (finish export_a writable checkpoint p a) (finish export_b writable checkpoint p b)
  unfolding deliver
  finish-Agree writable checkpoint (idle source) a b r h = (refl, refl, r)
  finish-Agree writable checkpoint (batch [] tailer source) a b r h = (refl, refl, r)
  finish-Agree writable checkpoint (batch (body ∷ bodies) tailer source) a b r h =
      let bs = body ∷ bodies in
      let ea = deliver-cons export_a writable body bodies tailer source checkpoint a in
      let eb = deliver-cons export_b writable body bodies tailer source checkpoint b in
      let (flag, r') = agree bs a b r (subst (λ x. P x.2) eb h) in
      let d = λ (f : Bool). delivered f writable tailer source checkpoint in
      subst (λ x. Agree x (deliver export_b writable bs tailer source checkpoint b)) (sym ea)
        (subst (Agree ((d (export_a bs a).0).0, (d (export_a bs a).0).1, (export_a bs a).1))
          (sym eb) (ap (λ f. (d f).0) flag, ap (λ f. (d f).1) flag, r'))

  poll_into-Agree :
      (tick : Tick) (source : FileSource) (checkpoint : Option Bytes) (a : A) (b : B)
      → R a b
      → P (poll_into export_b tick source checkpoint b).2
      → Agree
          (poll_into export_a tick source checkpoint a)
          (poll_into export_b tick source checkpoint b)
  poll_into-Agree tick source checkpoint a b r h =
      let ea = poll_into-view export_a tick source checkpoint a in
      let eb = poll_into-view export_b tick source checkpoint b in
      let p = view tick checkpoint source in
      subst (λ x. Agree x (poll_into export_b tick source checkpoint b)) (sym ea)
        (subst (Agree (finish export_a tick.writable checkpoint p a)) (sym eb)
          (finish-Agree tick.writable checkpoint p a b r (subst (λ x. P x.2) eb h)))

  poll_into-back :
      (tick : Tick) (source : FileSource) (checkpoint : Option Bytes) (b : B)
      → P (poll_into export_b tick source checkpoint b).2
      → P b
  poll_into-back tick source checkpoint b h =
      finish-back tick.writable checkpoint (view tick checkpoint source) b
        (subst (λ x. P x.2) (poll_into-view export_b tick source checkpoint b) h)

  pub poll_file_sources-back :
      (sources : List (Tick × FileSource × Option Bytes)) (b : B)
      → P (poll_file_sources export_b sources b).1
      → P b
  unfolding poll_file_sources
  poll_file_sources-back [] b h = h
  poll_file_sources-back ((tick, source, checkpoint) ∷ rest) b h =
      poll_into-back tick source checkpoint b
        (poll_file_sources-back rest (poll_into export_b tick source checkpoint b).2 h)

  pub poll_file_sources-agree :
      (sources : List (Tick × FileSource × Option Bytes)) (a : A) (b : B)
      → R a b
      → P (poll_file_sources export_b sources b).1
      → ((poll_file_sources export_a sources a).0 ≡ (poll_file_sources export_b sources b).0)
        × R (poll_file_sources export_a sources a).1 (poll_file_sources export_b sources b).1
  unfolding poll_file_sources
  poll_file_sources-agree [] a b r h = (refl, r)
  poll_file_sources-agree ((tick, source, checkpoint) ∷ rest) a b r h =
      let x = poll_into export_a tick source checkpoint a in
      let y = poll_into export_b tick source checkpoint b in
      let (s, c, r') =
        poll_into-Agree tick source checkpoint a b r (poll_file_sources-back rest y.2 h) in
      let (l, r'') = poll_file_sources-agree rest x.2 y.2 r' h in (cc (s, c, l), r'')
