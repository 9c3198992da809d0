-- ===== src/Allocator/FixedBlock/Chains.antt =====
-- A block that is taken off a free list or put back.
use mathlib.Core.Path.{subst}
use native.Mathlib.Decide.{ℕ_discrete}
use lobster_os_legacy.Prelude.{
  ℕ, ◌<◌, ◌≡◌, ◌≢◌, sym, ap, ◌∙◌, Option, none, some, List, ◌∷◌, true, false, arith, length-set,
  get_or, get_or-set_self, get_or-set_ne, set, Bool-cases, inl, inr,
}
use lobster_os_legacy.Allocator.FixedBlock.{Heap, FixedBlockAlloc, write, free_block, alloc_block}
use lobster_os_legacy.Allocator.FixedBlock.Free.{
  has, Chain, nil, cons, Chain-write, Lists, update, IsValid,
}

Chain-some :
    {mem : ℕ → Option ℕ} {h : Option ℕ} {qs : List ℕ} (p : ℕ)
    → Chain mem h qs
    → h ≡ some p
    → (ps : List ℕ) × (qs ≡ p ∷ ps) × (has p ps ≡ false) × Chain mem (mem p) ps
Chain-some p nil e = cc
Chain-some {mem} p (cons {p = q} {n} {ps} m out c) e =
    let same : q ≡ p = cc in
    (
      ps,
      ap (λ a. a ∷ ps) same,
      subst (λ a. has a ps ≡ false) same out,
      subst (λ o. Chain mem o ps) (sym m ∙ ap mem same) c,
    )

behind : (p q : ℕ) (ps : List ℕ) → has q ps ≡ true → has q (p ∷ ps) ≡ true
behind p q ps h = ground arith

update_self : (free : Lists) (i : ℕ) (ps : List ℕ) → update free i ps i ≡ ps
update_self free i ps = ground arith

update_ne : (free : Lists) (i j : ℕ) (ps : List ℕ) → i ≢ j → update free i ps j ≡ free j
update_ne free i j ps ne = ground arith

module _ (x : Heap) (a : FixedBlockAlloc (x.H)) (free : Lists) (live : List ℕ) where
  -- A live block goes to the front of a free list.
  pub free_block-IsValid :
      (i p : ℕ)
      → i < 9
      → has p live ≡ false
      → IsValid a free (p ∷ live)
      → IsValid (free_block x i p a) (update free i (p ∷ free i)) live
  free_block-IsValid i p l out v =
      let not_free : (j : ℕ) → j < 9 → has p (free j) ≡ false = λ j lj.
        elim (Bool-cases (has p (free j))) [
          | inl e ↦ absurd (ground (arith, v.unused j p lj e))
          | inr e ↦ e
        ] in
      record {
        nine = length-set a.list_heads i (some p) ∙ v.nine;
        chains = λ j lj. elim (ℕ_discrete i j) [
          | yes e ↦
              subst (λ k. Chain m (get_or heads k none) (update free i (p ∷ free i) k)) e
                (rw
                  (
                    get_or-set_self a.list_heads i (some p) none (omega (arith, v.nine)),
                    update_self free i (p ∷ free i),
                  )
                  (cons (ground arith) (not_free i l)
                    (Chain-write p _ (v.chains i l) (not_free i l))))
          | no ne ↦
              rw (get_or-set_ne a.list_heads (some p) none ne, update_ne free i j (p ∷ free i) ne)
                (Chain-write p _ (v.chains j lj) (not_free j lj))
        ];
        apart =
            λ j k q lj lk hj hk. ground (arith, v.apart j k q lj lk, not_free j lj, not_free k lk);
        unused = λ j q lj h. ground (arith, v.unused j q lj, not_free j lj, v.unused i q l);
      }
    where
      m : ℕ → Option ℕ
      m = write a.mem p (get_or a.list_heads i none)

      heads : List (Option ℕ)
      heads = set a.list_heads i (some p)

  -- The first block of a free list becomes live.
  pub alloc_block-IsValid :
      (i p : ℕ)
      → i < 9
      → get_or a.list_heads i none ≡ some p
      → IsValid a free live
      → let (q, a') = alloc_block x i (some p) a in
        (has p live ≡ false)
        × (ps : List ℕ) × (free i ≡ p ∷ ps)
        × IsValid a' (update free i ps) (p ∷ live)
  unfolding alloc_block
  alloc_block-IsValid i p l head v =
      let (ps, split, out, rest) = Chain-some p (v.chains i l) head in
      let mine : has p (free i) ≡ true = rw split (ground arith) in
      let not_free : (j : ℕ) → j < 9 → i ≢ j → has p (free j) ≡ false = λ j lj ne.
        elim (Bool-cases (has p (free j))) [
          | inl e ↦ absurd (ne (v.apart i j p l lj mine e))
          | inr e ↦ e
        ] in
      let before : (j q : ℕ) → has q (update free i ps j) ≡ true → has q (free j) ≡ true =
        λ j q h. rest_of i j q ps split h in
      (
        v.unused i p l mine,
        ps,
        split,
        record {
          nine = length-set a.list_heads i (a.mem p) ∙ v.nine;
          chains = λ j lj. elim (ℕ_discrete i j) [
            | yes e ↦
                subst
                  (λ k.
                    Chain (write a.mem p none) (get_or (set a.list_heads i (a.mem p)) k none)
                      (update free i ps k))
                  e
                  (rw
                    (
                      get_or-set_self a.list_heads i (a.mem p) none (omega (arith, v.nine)),
                      update_self free i ps,
                    )
                    (Chain-write p none rest out))
            | no ne ↦
                rw (get_or-set_ne a.list_heads (a.mem p) none ne, update_ne free i j ps ne)
                  (Chain-write p none (v.chains j lj) (not_free j lj ne))
          ];
          apart = λ j k q lj lk hj hk. v.apart j k q lj lk (before j q hj) (before k q hk);
          unused = λ j q lj h.
              ground (arith, v.unused j q lj (before j q h), taken j lj ps out not_free);
        },
      )
    where
      taken :
          (j : ℕ)
          → j < 9
          → (ps : List ℕ) → has p ps ≡ false
          → ((k : ℕ) → k < 9 → i ≢ k → has p (free k) ≡ false)
          → has p (update free i ps j) ≡ false
      taken j lj ps out others = elim (ℕ_discrete i j) [
        | yes e ↦ subst (λ k. has p (update free i ps k) ≡ false) e (rw (update_self free i ps) out)
        | no ne ↦ rw (update_ne free i j ps ne) (others j lj ne)
      ]

      rest_of :
          (i j q : ℕ) (ps : List ℕ)
          → free i ≡ p ∷ ps
          → has q (update free i ps j) ≡ true
          → has q (free j) ≡ true
      rest_of i j q ps split h = elim (ℕ_discrete i j) [
        | yes e ↦
            let own = subst (λ k. has q (update free i ps k) ≡ true) (sym e) h in
            let tail : has q ps ≡ true = subst (λ l. has q l ≡ true) (update_self free i ps) own in
            subst (λ k. has q (free k) ≡ true) e (rw split (behind p q ps tail))
        | no ne ↦ rw (update_ne free i j ps ne) at h
      ]
