-- ===== src/Syscall/Words.antt =====
-- The words of the stack while registers are pushed and popped.
use lobster_os_legacy.Prelude.{
  ℕ, zero, suc, ◌+◌, ◌-◌, ◌*◌, ◌≤◌, ◌≡◌, ◌≢◌, refl, ap, ◌∙◌, List, [], ◌∷◌, ==_iff, ≢→==,
  if◌then◌else◌, length, arith,
}
use lobster_os_legacy.Syscall.Machine.{store}

-- The words from an address on.
unfoldable pub words : (ℕ → ℕ) → ℕ → ℕ → List ℕ
words memory a zero = []
words memory a (suc n) = memory a ∷ words memory (a + 8) n

pub store_same : (memory : ℕ → ℕ) (a v : ℕ) → store memory a v a ≡ v
store_same memory a v = ap (λ b. if b then v else memory a) ((==_iff a a).1 refl)

pub store_other : (memory : ℕ → ℕ) (a v b : ℕ) → b ≢ a → store memory a v b ≡ memory b
store_other memory a v b ne = ap (λ t. if t then v else memory b) (≢→== b a ne)

pub words_same :
    (f g : ℕ → ℕ) (a n : ℕ)
    → ((b : ℕ) → a ≤ b → b + 8 ≤ a + 8 * n → f b ≡ g b)
    → words f a n ≡ words g a n
unfolding words
words_same f g a zero h = refl
words_same f g a (suc n) h =
    ap (λ v. v ∷ words f (a + 8) n) (h a (omega arith) (omega arith))
    ∙ ap (λ vs. g a ∷ vs) (words_same f g (a + 8) n (λ b lo hi. h b (omega arith) (omega arith)))

words_push :
    (memory : ℕ → ℕ) (top v n : ℕ)
    → 8 ≤ top
    → words (store memory (top - 8) v) (top - 8) (suc n) ≡ v ∷ words memory top n
unfolding words
words_push memory top v n h =
    let back : top - 8 + 8 ≡ top = omega arith in
    ap (λ w. w ∷ words (store memory (top - 8) v) (top - 8 + 8) n) (store_same memory (top - 8) v)
    ∙ ap (λ a. v ∷ words (store memory (top - 8) v) a n) back
    ∙ ap (λ vs. v ∷ vs)
        (words_same _ memory top n
          (λ b lo hi. store_other memory (top - 8) v b (λ e. absurd (omega arith))))

pub words_pop :
    (memory : ℕ → ℕ) (a n v : ℕ) (vs : List ℕ)
    → words memory a (suc n) ≡ v ∷ vs
    → (memory a ≡ v) × (words memory (a + 8) n ≡ vs)
unfolding words
words_pop memory a n v vs h = (cc, cc)

-- The memory and the top of the stack once values are pushed.
abbrev pub pushed : List ℕ → (ℕ → ℕ) → ℕ → (ℕ → ℕ) × ℕ
pushed [] memory top = (memory, top)
pushed (v ∷ vs) memory top = pushed vs (store memory (top - 8) v) (top - 8)

abbrev pub onto : List ℕ → List ℕ → List ℕ
onto [] ws = ws
onto (v ∷ vs) ws = onto vs (v ∷ ws)

abbrev pub more : List ℕ → ℕ → ℕ
more [] n = n
more (v ∷ vs) n = more vs (suc n)

pub pushed-words :
    (vs : List ℕ) (memory : ℕ → ℕ) (top n : ℕ)
    → 8 * length vs ≤ top
    → words (pushed vs memory top).0 (pushed vs memory top).1 (more vs n)
      ≡ onto vs (words memory top n)
pushed-words [] memory top n h = refl
pushed-words (v ∷ vs) memory top n h =
    pushed-words vs (store memory (top - 8) v) (top - 8) (suc n) (omega arith)
    ∙ ap (onto vs) (words_push memory top v n (omega arith))
