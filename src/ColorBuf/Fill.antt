-- ===== src/ColorBuf/Fill.antt =====
-- The last loop of `ssmp_color_buf_init_platf`: what stands in the arrays after it.
use ssmp.Base.{
  ℕ, zero, suc, ◌+◌, ◌%◌, ◌^◌, ◌<◌, ◌≤◌, ◌≡◌, refl, List, [], ◌∷◌, some, get_elem?, set, get_or,
  length, if◌then◌else◌, ◌==◌, arith, get_elem?-set_self, get_elem?-set_ne, length-set, Bool-cases,
  inl, inr, ◌∙◌,
}
use ssmp.ColorBuf.{ColorBuf, fill, store_entry}

-- the processes marked, in order
unfoldable pub chosen : List ℕ → ℕ → List ℕ
chosen [] ue = []
chosen (p ∷ ps) ue = let rest = chosen ps (ue + 1) in if p == 0 then rest else ue ∷ rest

-- the loop for one of the arrays
pub fill_array : (ℕ → ℕ) → List ℕ → ℕ → ℕ → List ℕ → List ℕ
fill_array f [] ue k xs = xs
fill_array f (p ∷ ps) ue k xs =
    fill_array f ps (ue + 1) (if p == 0 then k else k + 1) (if p == 0 then xs else set xs k (f ue))

pub fill-arrays :
    (ps : List ℕ) (ue k : ℕ) (c : ColorBuf)
    → ((fill ps ue k c).buf ≡ fill_array (λ u. u) ps ue k c.buf)
      × ((fill ps ue k c).buf_state ≡ fill_array (λ u. u) ps ue k c.buf_state)
      × ((fill ps ue k c).from ≡ fill_array (λ u. u % 2 ^ 8) ps ue k c.from)
      × ((fill ps ue k c).num_ues ≡ c.num_ues)
unfolding fill fill_array store_entry
fill-arrays [] ue k c = (refl, refl, refl, refl)
fill-arrays (p ∷ ps) ue k c =
    ground
      (arith, fill-arrays ps (ue + 1) k c, fill-arrays ps (ue + 1) (k + 1) (store_entry k ue c))

module _ (f : ℕ → ℕ) where
  fill_array_below :
      (ps : List ℕ) (ue k : ℕ) (xs : List ℕ) (i : ℕ)
      → i < k
      → get_elem? (fill_array f ps ue k xs) i ≡ get_elem? xs i
  unfolding fill_array
  fill_array_below [] ue k xs i lt = refl
  fill_array_below (p ∷ ps) ue k xs i lt = elim (Bool-cases (p == 0)) [
    | inl e ↦ rw e (fill_array_below ps (ue + 1) k xs i lt)
    | inr e ↦ rw e (
        fill_array_below ps (ue + 1) (k + 1) (set xs k (f ue)) i (omega arith)
        ∙ get_elem?-set_ne xs (f ue) (omega arith))
  ]

  pub fill_array_at :
      (ps : List ℕ) (ue k : ℕ) (xs : List ℕ) (i : ℕ)
      → i < length (chosen ps ue)
      → k + length (chosen ps ue) ≤ length xs
      → get_elem? (fill_array f ps ue k xs) (k + i) ≡ some (f (get_or (chosen ps ue) i 0))
  unfolding fill_array chosen
  fill_array_at [] ue k xs i lt room = absurd (omega arith)
  fill_array_at (p ∷ ps) ue k xs zero lt room =
      let same : k + 0 ≡ k = omega arith in
      ground (
        arith,
        same,
        fill_array_at ps (ue + 1) k xs 0,
        fill_array_below ps (ue + 1) (k + 1) (set xs k (f ue)) k,
        get_elem?-set_self xs k (f ue),
      )
  fill_array_at (p ∷ ps) ue k xs (suc i) lt room =
      let same : k + suc i ≡ k + 1 + i = omega arith in
      ground (
        arith,
        same,
        length-set xs k (f ue),
        fill_array_at ps (ue + 1) k xs (suc i),
        fill_array_at ps (ue + 1) (k + 1) (set xs k (f ue)) i,
      )
