-- ===== src/ColorBuf/Partners.antt =====
-- What `ssmp_color_buf_init_platf` returns: which processes the color buffer is about.
use ssmp.Base.{
  ℕ, zero, suc, ◌+◌, ◌%◌, ◌^◌, ◌<◌, ◌≤◌, ◌≡◌, ◌≢◌, ◌↔◌, get_or, length, if◌then◌else◌, ◌==◌, arith,
  Bool-cases, true, some, inl, inr, ℕ_discrete,
}
use ssmp.Base.Outcome.{done}
use ssmp.ColorBuf.{ColorBuf, IsFilled, Malloc, marks, color_buf_init}
use ssmp.ColorBuf.Fill.{chosen}
use ssmp.ColorBuf.Init.{partners, partner, color_buf_init-IsFilled}

module _ (color : ℕ → ℕ) (id : ℕ) where
  abbrev mark : ℕ → ℕ
  mark ue = if ue == id then 0 else color ue % 2 ^ 32

  -- every process chosen is another one, of the color
  chosen_sound :
      (k ue i : ℕ)
      → i < length (chosen (marks color id k ue) ue)
      → let p = get_or (chosen (marks color id k ue) ue) i 0 in
        (ue ≤ p) × (p < ue + k) × (p ≢ id) × (color p % 2 ^ 32 ≢ 0)
  unfolding marks chosen
  chosen_sound zero ue i lt = absurd (omega arith)
  chosen_sound (suc k) ue zero lt = ground (arith, chosen_sound k (ue + 1) 0)
  chosen_sound (suc k) ue (suc i) lt =
      ground (arith, chosen_sound k (ue + 1) (suc i), chosen_sound k (ue + 1) i)

  -- and every such process is chosen
  chosen_complete :
      (k ue p : ℕ)
      → ue ≤ p
      → p < ue + k
      → p ≢ id
      → color p % 2 ^ 32 ≢ 0
      → (i : ℕ) × (i < length (chosen (marks color id k ue) ue))
        × (get_or (chosen (marks color id k ue) ue) i 0 ≡ p)
  unfolding marks chosen
  chosen_complete zero ue p le lt ne c = absurd (omega arith)
  chosen_complete (suc k) ue p le lt ne c = elim (ℕ_discrete ue p) [
    | yes e ↦ (0, ground arith, ground arith)
    | no other ↦
        let (i, below, found) = chosen_complete k (ue + 1) p (omega arith) (omega arith) ne c in
        elim (Bool-cases (mark ue == 0)) [
          | inl e ↦ (i, ground arith, ground arith)
          | inr e ↦ (suc i, ground arith, ground arith)
        ]
  ]

  -- in increasing order
  chosen_increasing :
      (k ue i j : ℕ)
      → i < j
      → j < length (chosen (marks color id k ue) ue)
      → get_or (chosen (marks color id k ue) ue) i 0 < get_or (chosen (marks color id k ue) ue) j 0
  unfolding marks chosen
  chosen_increasing zero ue i j lt below = absurd (omega arith)
  chosen_increasing (suc k) ue i zero lt below = absurd (omega arith)
  chosen_increasing (suc k) ue zero (suc j) lt below =
      ground (arith, chosen_increasing k (ue + 1) 0 (suc j), chosen_sound k (ue + 1) j)
  chosen_increasing (suc k) ue (suc i) (suc j) lt below =
      ground (arith, chosen_increasing k (ue + 1) (suc i) (suc j), chosen_increasing k (ue + 1) i j)

module _ (color : ℕ → ℕ) (id num_ues : ℕ) where
  -- The partners that the color buffer of process `id` is filled with are exactly the other
  -- processes, below `num_ues`, whose color is not 0.
  partners_exact :
      (p : ℕ)
      → ((i : ℕ) × (i < length (partners color id num_ues)) × (partner color id num_ues i ≡ p))
        ↔ ((p < num_ues) × (p ≢ id) × (color p % 2 ^ 32 ≢ 0))
  partners_exact p = (
    λ (i, lt, e).
        let (_, below, ne, c) = chosen_sound color id num_ues 0 i lt in
        rw (← e) ((omega arith), ne, c),
    λ (lt, ne, c). chosen_complete color id num_ues 0 p (omega arith) (omega arith) ne c,
  )

  -- The partners of a process stand in the order of their ids, so each has one entry.
  partner-increasing :
      (i j : ℕ)
      → i < j
      → j < length (partners color id num_ues)
      → partner color id num_ues i < partner color id num_ues j
  partner-increasing i j lt below = chosen_increasing color id num_ues 0 i j lt below

-- If every allocation succeeds and there are fewer than 2^27 processes, `ssmp_color_buf_init` of process
-- `id` returns a color buffer whose three arrays have, at entry `i`, the buffer from process `peer i` and
-- its id as a byte; and the processes that have an entry are exactly those below `num_ues` whose color is
-- not 0, other than `id` itself. They stand in the order of their ids, so each has one entry.
pub color_buf_init_lem :
    (malloc : Malloc) (junk id num_ues : ℕ) (c : ColorBuf) (color : ℕ → ℕ)
    → ((k size : ℕ) → malloc k size ≡ true)
    → num_ues < 2 ^ 27
    → (c' : ColorBuf) × (peer : ℕ → ℕ) × (color_buf_init malloc junk id num_ues (some c) color
        ≡ done (some c'))
      × IsFilled c' peer
      × ((p : ℕ)
          → ((i : ℕ) × (i < c'.num_ues) × (peer i ≡ p))
            ↔ ((p < num_ues) × (p ≢ id) × (color p % 2 ^ 32 ≢ 0)))
      × ((i j : ℕ) → i < j → j < c'.num_ues → peer i < peer j)
color_buf_init_lem malloc junk id num_ues c color enough small =
    let (c', ret, count, filled) =
      color_buf_init-IsFilled malloc junk id num_ues c color enough small in
    let exact = partners_exact color id num_ues in
    (
      c',
      partner color id num_ues,
      ret,
      filled,
      λ p. (
        λ (i, lt, e). (exact p).0 (i, omega (arith, lt, count), e),
        λ other. (let (i, lt, e) = (exact p).1 other in (i, omega (arith, lt, count), e)),
      ),
      λ i j lt below. partner-increasing color id num_ues i j lt (omega (arith, below, count)),
    )
