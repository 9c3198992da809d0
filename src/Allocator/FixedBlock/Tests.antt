-- ===== src/Allocator/FixedBlock/Tests.antt =====
-- The block allocator with one free block of 8 bytes and one live block of 16, over a fallback heap
-- that gives blocks from an address upwards.
use lobster_os_legacy.Prelude.{
  ℕ, zero, suc, ◌+◌, ◌<◌, ◌≡◌, refl, sym, get_or, none, some, List, [], ◌∷◌, arith, ok,
  if◌then◌else◌, ◌==◌,
}
use lobster_os_legacy.Allocator.FixedBlock.{
  Heap, Layout, FixedBlockAlloc, alloc, dealloc, block_index,
}
use lobster_os_legacy.Allocator.FixedBlock.Free.{Chain, nil, cons, Lists, update, IsValid}
use lobster_os_legacy.Allocator.FixedBlock.Blocks.{
  Served, alloc-Served, dealloc-IsValid, alloc-dealloc,
}

-- Gives the next address at which nothing was given, and takes nothing back.
abbrev bump : Heap
bump = record {
  H = ℕ;
  empty = 0;
  init = λ start size h. start;
  allocate_first_fit = λ l h. (some (h + 1), h + 1 + l.size);
  deallocate = λ p l h. h;
}

abbrev allocator : FixedBlockAlloc ℕ
allocator = record {
  list_heads = some 64 ∷ none ∷ none ∷ none ∷ none ∷ none ∷ none ∷ none ∷ none ∷ [];
  mem = λ p. none;
  fallback = 4096;
}

abbrev free : Lists
free i = if i == 0 then 64 ∷ [] else []

abbrev live : List ℕ
live = 128 ∷ []

abbrev word : Layout
word = record { size = 8; align = 4 }

abbrev pair : Layout
pair = record { size = 12; align = 8 }

allocator-IsValid : IsValid allocator free live
allocator-IsValid = record {
  nine = refl;
  chains = λ i l. chain i l;
  apart = λ i j p li lj hi hj. ground arith;
  unused = λ i p l h. ground arith;
}
  where
    chain : (i : ℕ) → i < 9 → Chain allocator.mem (get_or allocator.list_heads i none) (free i)
    chain zero l = cons refl refl nil
    chain (suc zero) l = nil
    chain (suc (suc zero)) l = nil
    chain (suc (suc (suc zero))) l = nil
    chain (suc (suc (suc (suc zero)))) l = nil
    chain (suc (suc (suc (suc (suc zero))))) l = nil
    chain (suc (suc (suc (suc (suc (suc zero)))))) l = nil
    chain (suc (suc (suc (suc (suc (suc (suc zero))))))) l = nil
    chain (suc (suc (suc (suc (suc (suc (suc (suc zero)))))))) l = nil
    chain (suc (suc (suc (suc (suc (suc (suc (suc (suc i))))))))) l = absurd (omega arith)

-- The fallback would give 4097 to the layout of 16 bytes.
alloc-Served_example : Served bump allocator free live (alloc bump pair allocator)
unfolding block_index
alloc-Served_example = alloc-Served bump allocator free live pair allocator-IsValid (λ p e.
    let q : p ≡ 4097 = sym (inj e) in
    (λ z. absurd (omega arith), ground (arith, q), λ i l. ground (arith, q)))
  where
    inj : {a b : ℕ} → some a ≡ some b → a ≡ b
    inj e = cc

dealloc-IsValid_example :
    (a' : FixedBlockAlloc ℕ) × (dealloc bump 128 pair allocator ≡ ok a')
    × IsValid a' (update free 1 (128 ∷ [])) []
unfolding block_index
dealloc-IsValid_example =
    dealloc-IsValid bump allocator free [] pair 1 128 refl refl allocator-IsValid

alloc-dealloc_example :
    (a' : FixedBlockAlloc ℕ) × (dealloc bump 128 pair allocator ≡ ok a')
    × ((alloc bump (record { size = 3; align = 16 }) a').0 ≡ 128)
    × ((alloc bump (record { size = 3; align = 16 }) a').1.list_heads ≡ allocator.list_heads)
unfolding block_index
alloc-dealloc_example =
    alloc-dealloc bump allocator free [] pair (record { size = 3; align = 16 }) 1 128 refl refl refl
