-- ===== src/Relay/Scope.antt =====
-- The scope of an enrollment: sorting makes the canonical bytes independent of the order of the
-- targets, and they determine the sorted targets.
use mathlib.Core.List.{Perm, Permᴰ}
use mathlib.Core.List.Perm
use mathlib.Core.Logic.{∥∥₁_elim}
use cross_xagent.Base.{
  suc, ◌≤◌, ◌≡◌, refl, sym, ap, ◌∙◌, true, false, List, [], ◌∷◌, arith, Bytes, u32_max, be_bytes,
  be_bytes-injective, length-be_bytes, length, Bool-cases, inl, inr,
}
use cross_xagent.Relay.Enroll.{
  Claims, lex_le, insert_lex, sort_scope, scope_block, canonical, bits, tag,
}
use cross_xagent.Relay.Chunk.{
  append_chunk, append_chunks, length_u32, chunks, FitsU32, append-injective, append_chunks-chunks,
  chunks-injective, append_chunks-injective,
}
use cross_xagent.Relay.Layout.{ClaimsFit, claim_fields, claim_fields-FitsU32, exp-injective}

lex_le_total : (a b : Bytes) → lex_le a b ≡ false → lex_le b a ≡ true
unfolding lex_le
lex_le_total [] b h = ground arith
lex_le_total (x ∷ a) [] h = refl
lex_le_total (x ∷ a) (y ∷ b) h = ground (arith, lex_le_total a b)

lex_le_antisymm : (a b : Bytes) → lex_le a b ≡ true → lex_le b a ≡ true → a ≡ b
unfolding lex_le
lex_le_antisymm [] [] h k = refl
lex_le_antisymm [] (y ∷ b) h k = ground arith
lex_le_antisymm (x ∷ a) [] h k = ground arith
lex_le_antisymm (x ∷ a) (y ∷ b) h k = ground (arith, lex_le_antisymm a b)

lex_le_trans : (a b c : Bytes) → lex_le a b ≡ true → lex_le b c ≡ true → lex_le a c ≡ true
unfolding lex_le
lex_le_trans [] b c h k = refl
lex_le_trans (x ∷ a) [] c h k = ground arith
lex_le_trans (x ∷ a) (y ∷ b) [] h k = ground arith
lex_le_trans (x ∷ a) (y ∷ b) (z ∷ c) h k = ground (arith, lex_le_trans a b c)

insert_lex_swap :
    (x y : Bytes) (l : List Bytes) → insert_lex x (insert_lex y l) ≡ insert_lex y (insert_lex x l)
unfolding insert_lex
insert_lex_swap x y [] = ground (arith, lex_le_total x y, lex_le_total y x, lex_le_antisymm x y)
insert_lex_swap x y (z ∷ l) = ground (
  arith,
  lex_le_total x y,
  lex_le_total y x,
  lex_le_antisymm x y,
  lex_le_trans x y z,
  lex_le_trans y x z,
  insert_lex_swap x y l,
)

sort_scope-Permᴰ : {a b : List Bytes} → Permᴰ a b → sort_scope a ≡ sort_scope b
unfolding sort_scope
sort_scope-Permᴰ Permᴰ.nil = refl
sort_scope-Permᴰ (Permᴰ.cons e d) = λ i. insert_lex (e i) (sort_scope-Permᴰ d i)
sort_scope-Permᴰ (Permᴰ.swap {a = a} {b = b} {l = l} e e') =
    insert_lex_swap a b (sort_scope l) ∙ λ i. insert_lex (e' i) (insert_lex (e i) (sort_scope l))
sort_scope-Permᴰ (Permᴰ.trans d d') = sort_scope-Permᴰ d ∙ sort_scope-Permᴰ d'

length-Permᴰ : {a b : List Bytes} → Permᴰ a b → length a ≡ length b
length-Permᴰ Permᴰ.nil = refl
length-Permᴰ (Permᴰ.cons e d) = ap suc (length-Permᴰ d)
length-Permᴰ (Permᴰ.swap e e') = refl
length-Permᴰ (Permᴰ.trans d d') = length-Permᴰ d ∙ length-Permᴰ d'

scope_block-Permᴰ : {a b : List Bytes} → Permᴰ a b → scope_block a ≡ scope_block b
unfolding scope_block
scope_block-Permᴰ d =
    λ i. append_chunks (be_bytes 4 (length_u32 (length-Permᴰ d i))) (sort_scope-Permᴰ d i)

-- The canonical bytes before the scope block.
abbrev with_fields : Claims → Bytes
with_fields c =
    append_chunk
      (append_chunk
        (append_chunk (append_chunk (append_chunk (append_chunk [] tag) (be_bytes 2 c.v)) c.project)
          c.peer)
        c.kind)
      c.pub_key

Bytes-set : IsSet Bytes
Bytes-set = hlevel

-- The canonical bytes of claims are those of the claims with the scope in another order.
pub canonical-Perm :
    (c : Claims) (scope : List Bytes)
    → Perm c.scope scope
    → canonical c ≡ canonical (record c { scope = scope })
unfolding canonical
canonical-Perm c scope p = ∥∥₁_elim p (Bytes-set _ _) λ d.
    ap (λ block. append_chunk (append_chunk (with_fields c) block) (be_bytes 8 (bits c.exp)))
      (scope_block-Permᴰ d)

insert_lex-perm : (x : Bytes) (l : List Bytes) → Perm (insert_lex x l) (x ∷ l)
unfolding insert_lex
insert_lex-perm x [] = Perm.refl (x ∷ [])
insert_lex-perm x (y ∷ l) = elim (Bool-cases (lex_le x y)) [
  | inl e ↦ rw e (Perm.refl (x ∷ y ∷ l))
  | inr e ↦ rw e (Perm.trans (Perm.cons y (insert_lex-perm x l)) (Perm.swap x y l))
]

sort_scope-perm : (l : List Bytes) → Perm (sort_scope l) l
unfolding sort_scope
sort_scope-perm [] = Perm.refl []
sort_scope-perm (x ∷ l) =
    Perm.trans (insert_lex-perm x (sort_scope l)) (Perm.cons x (sort_scope-perm l))

insert_lex-FitsU32 :
    (x : Bytes) (l : List Bytes) → length x ≤ u32_max → FitsU32 l → FitsU32 (insert_lex x l)
unfolding insert_lex
insert_lex-FitsU32 x [] h k = (h, k)
insert_lex-FitsU32 x (y ∷ l) h k = elim (Bool-cases (lex_le x y)) [
  | inl e ↦ rw e (h, k)
  | inr e ↦ rw e (k.0, insert_lex-FitsU32 x l h k.1)
]

sort_scope-FitsU32 : (l : List Bytes) → FitsU32 l → FitsU32 (sort_scope l)
unfolding sort_scope
sort_scope-FitsU32 [] h = h
sort_scope-FitsU32 (x ∷ l) h = insert_lex-FitsU32 x (sort_scope l) h.0 (sort_scope-FitsU32 l h.1)

-- The scope block determines the targets, up to their order.
scope_block-perm :
    (a b : List Bytes) → FitsU32 a → FitsU32 b → scope_block a ≡ scope_block b → Perm a b
unfolding scope_block
scope_block-perm a b ha hb e =
    let count = λ (l : List Bytes). be_bytes 4 (length_u32 (length l)) in
    let (_, rest) =
      append-injective (count a) (count b) (chunks (sort_scope a)) (chunks (sort_scope b))
        (length-be_bytes 4 _ ∙ sym (length-be_bytes 4 _))
        (sym (append_chunks-chunks (count a) (sort_scope a))
          ∙ e
          ∙ append_chunks-chunks (count b) (sort_scope b)) in
    let same =
      chunks-injective (sort_scope a) (sort_scope b) (sort_scope-FitsU32 a ha)
        (sort_scope-FitsU32 b hb) rest in
    Perm.trans (Perm.symm (sort_scope-perm a)) (rw same (sort_scope-perm b))

-- The canonical bytes of claims whose parts fit their prefixes determine every field, and the
-- scope up to its order.
pub canonical-injective :
    (c d : Claims)
    → ClaimsFit c
    → ClaimsFit d
    → FitsU32 c.scope
    → FitsU32 d.scope
    → canonical c ≡ canonical d
    → (record c { scope = d.scope } ≡ d) × Perm c.scope d.scope
unfolding canonical
canonical-injective c d hc hd sc sd e =
    let same =
      append_chunks-injective (claim_fields c) (claim_fields d) (claim_fields-FitsU32 c hc)
        (claim_fields-FitsU32 d hd) e in
    let exp : c.exp ≡ d.exp = exp-injective c.exp d.exp hc.2 hd.2 (cc same) in
    let v : c.v ≡ d.v = be_bytes-injective 2 c.v d.v (omega arith) (omega arith) (cc same) in
    (ground (arith, same, exp, v), scope_block-perm c.scope d.scope sc sd (cc same))
