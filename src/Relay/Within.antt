-- ===== src/Relay/Within.antt =====
-- `within` of crates/crossx-relay-rs/src/cert.rs says that the segments of the namespace are the
-- first segments of the project.
use cross_xagent.Base.{
  ℕ, ◌≡◌, refl, sym, ap, ◌∙◌, ◌↔◌, true, ◌||◌, List, [], ◌∷◌, ◌++◌, arith, Bytes, beq_bytes,
  beq_bytes_refl, beq_bytes→eq, &&-eq-true, ==→eq, ◌==◌, Bool-cases, inl, inr,
}
use mathlib.Core.List.{append-nil, append_assoc}
use cross_xagent.Relay.Cert.{split, add_to_first, clean_path, starts_with, within}

-- The inverse of `split`.
abbrev join : List Bytes → Bytes
join [] = []
join (seg ∷ []) = seg
join (seg ∷ next ∷ segs) = seg ++ (b'/' ∷ join (next ∷ segs))

-- `split` never returns an empty list.
split-ne-nil : (s : Bytes) → (seg : Bytes) × (segs : List Bytes) × (split s ≡ seg ∷ segs)
unfolding split
split-ne-nil [] = ([], [], refl)
split-ne-nil (c ∷ s) = elim (Bool-cases (c == b'/')) [
  | inl e ↦ ([], split s, rw e)
  | inr e ↦ let (seg, segs, h) = split-ne-nil s in (c ∷ seg, segs, rw (e, h))
]

join-add_to_first :
    (c : ℕ) (seg : Bytes) (segs : List Bytes)
    → join (add_to_first c (seg ∷ segs)) ≡ c ∷ join (seg ∷ segs)
join-add_to_first c seg [] = refl
join-add_to_first c seg (next ∷ segs) = refl

join-split : (s : Bytes) → join (split s) ≡ s
unfolding split
join-split [] = refl
join-split (c ∷ s) =
    let (seg, segs, h) = split-ne-nil s in
    elim (Bool-cases (c == b'/')) [
      | inl e ↦
          let rest : join (seg ∷ segs) ≡ s = rw h at (join-split s) in
          rw (e, h) (cc (rest, ==→eq c b'/' e))
      | inr e ↦ rw (e, h) (join-add_to_first c seg segs ∙ ap (λ r. c ∷ r) (rw h at (join-split s)))
    ]

-- Splitting where a slash stands.
split-slash : (a b : Bytes) → split (a ++ (b'/' ∷ b)) ≡ split a ++ split b
unfolding split
split-slash [] b = refl
split-slash (c ∷ a) b =
    let (seg, segs, h) = split-ne-nil a in
    elim (Bool-cases (c == b'/')) [
      | inl e ↦ rw e (ap (λ r. [] ∷ r) (split-slash a b))
      | inr e ↦ rw (e, split-slash a b, h) refl
    ]

join-append :
    (seg : Bytes) (segs : List Bytes) (next : Bytes) (rest : List Bytes)
    → join ((seg ∷ segs) ++ (next ∷ rest)) ≡ join (seg ∷ segs) ++ (b'/' ∷ join (next ∷ rest))
join-append seg [] next rest = refl
join-append seg (t ∷ segs) next rest =
    ap (λ r. seg ++ (b'/' ∷ r)) (join-append t segs next rest)
    ∙ sym (append_assoc seg (b'/' ∷ join (t ∷ segs)) (b'/' ∷ join (next ∷ rest)))

starts_with-append : (p rest : Bytes) → starts_with (p ++ rest) p ≡ true
unfolding starts_with
starts_with-append [] [] = refl
starts_with-append [] (x ∷ rest) = refl
starts_with-append (x ∷ p) rest = ground (arith, starts_with-append p rest)

starts_with→append : (s p : Bytes) → starts_with s p ≡ true → (rest : Bytes) × (s ≡ p ++ rest)
unfolding starts_with
starts_with→append [] [] h = ([], refl)
starts_with→append (c ∷ s) [] h = (c ∷ s, refl)
starts_with→append [] (x ∷ p) h = ground arith
starts_with→append (c ∷ s) (x ∷ p) h =
    let (here, there) = &&-eq-true (c == x) (starts_with s p) h in
    let (rest, e) = starts_with→append s p there in (rest, cc (==→eq c x here, e))

-- The segments of `ns` are the first ones of `project`.
abbrev pub IsUnder : Bytes → Bytes → Type 0
IsUnder project ns = (rest : List Bytes) × (split project ≡ split ns ++ rest)

IsUnder-of_test :
    (project ns : Bytes)
    → (beq_bytes project ns || starts_with project (ns ++ (b'/' ∷ []))) ≡ true
    → IsUnder project ns
IsUnder-of_test project ns h = elim (Bool-cases (beq_bytes project ns)) [
  | inl same ↦ ([], ap split (beq_bytes→eq project ns same) ∙ sym (append-nil (split ns)))
  | inr other ↦
      let (rest, e) = starts_with→append project (ns ++ (b'/' ∷ [])) (rw other at h) in
      (split rest, ap split (e ∙ append_assoc ns (b'/' ∷ []) rest) ∙ split-slash ns rest)
]

test_of_under :
    (project ns : Bytes) (rest : List Bytes)
    → split project ≡ split ns ++ rest
    → (beq_bytes project ns || starts_with project (ns ++ (b'/' ∷ []))) ≡ true
test_of_under project ns [] e =
    let same : project ≡ ns =
      sym (join-split project) ∙ ap join (e ∙ append-nil (split ns)) ∙ join-split ns in
    rw (same, beq_bytes_refl ns)
test_of_under project ns (next ∷ rest) e =
    let (seg, segs, h) = split-ne-nil ns in
    let below : project ≡ ns ++ (b'/' ∷ join (next ∷ rest)) =
      sym (join-split project)
      ∙ ap join (e ∙ ap (λ l. l ++ (next ∷ rest)) h)
      ∙ join-append seg segs next rest
      ∙ ap (λ n. n ++ (b'/' ∷ join (next ∷ rest))) (ap join (sym h) ∙ join-split ns) in
    let starts : starts_with project (ns ++ (b'/' ∷ [])) ≡ true =
      rw (below, ← append_assoc ns (b'/' ∷ []) (join (next ∷ rest)))
        (starts_with-append (ns ++ (b'/' ∷ [])) (join (next ∷ rest))) in
    ground (arith, starts)

-- `within` holds exactly where both paths are clean and the segments of the namespace are the
-- first segments of the project.
pub within_iff :
    (project ns : Bytes)
    → (within project ns ≡ true)
      ↔ ((clean_path project ≡ true) × (clean_path ns ≡ true) × IsUnder project ns)
unfolding within
within_iff project ns = (
  λ h. (ground arith, ground arith, IsUnder-of_test project ns (ground arith)),
  λ h. ground (arith, test_of_under project ns h.2.0 h.2.1),
)
