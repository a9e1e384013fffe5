-- ===== src/ColorBuf/Init.antt =====
-- What `ssmp_color_buf_init_platf` leaves in the color buffer.
use ssmp.Base.{
  ℕ, zero, suc, ◌+◌, ◌/◌, ◌%◌, ◌^◌, ◌<◌, ◌≤◌, ◌≡◌, refl, List, [], ◌∷◌, some, get_elem?, get_or,
  length, true, arith, length-replicate, ap,
}
use ssmp.Base.Outcome.{done}
use ssmp.ColorBuf.{
  ColorBuf, IsFilled, marks, count_marks, fill, size_buf, size_from, allocated, need, Malloc,
  color_buf_init,
}
use ssmp.ColorBuf.Fill.{chosen, fill_array, fill_array_at, fill-arrays}

length-marks : (color : ℕ → ℕ) (id k ue : ℕ) → length (marks color id k ue) ≡ k
unfolding marks
length-marks color id zero ue = refl
length-marks color id (suc k) ue = ap suc (length-marks color id k (ue + 1))

length-chosen-le : (ps : List ℕ) (ue : ℕ) → length (chosen ps ue) ≤ length ps
unfolding chosen
length-chosen-le [] ue = omega arith
length-chosen-le (p ∷ ps) ue = ground (arith, length-chosen-le ps (ue + 1))

count_marks-chosen :
    (ps : List ℕ) (ue n : ℕ) → n + length ps < 2 ^ 32 → count_marks ps n ≡ n + length (chosen ps ue)
unfolding count_marks chosen
count_marks-chosen [] ue n small = omega arith
count_marks-chosen (p ∷ ps) ue n small =
    ground (arith, count_marks-chosen ps (ue + 1) n, count_marks-chosen ps (ue + 1) (n + 1))

-- the processes of the color, other than `id` itself, in order
abbrev pub partners : (ℕ → ℕ) → ℕ → ℕ → List ℕ
partners color id num_ues = chosen (marks color id num_ues 0) 0

abbrev pub partner : (ℕ → ℕ) → ℕ → ℕ → ℕ → ℕ
partner color id num_ues i = get_or (partners color id num_ues) i 0

size_buf-room : (n : ℕ) → n < 2 ^ 27 → n ≤ size_buf n / 8
unfolding size_buf
size_buf-room n lt = ground arith

size_from-room : (n : ℕ) → n < 2 ^ 27 → n ≤ size_from n
unfolding size_from
size_from-room n lt = ground arith

module _ (junk : ℕ) (ps : List ℕ) (small : length (chosen ps 0) < 2 ^ 27) where
  abbrev room : ColorBuf
  room = allocated junk (length (chosen ps 0))

  fill_entry :
      (f : ℕ → ℕ) (xs : List ℕ) (i : ℕ)
      → length (chosen ps 0) ≤ length xs
      → i < length (chosen ps 0)
      → get_elem? (fill_array f ps 0 0 xs) i ≡ some (f (get_or (chosen ps 0) i 0))
  fill_entry f xs i le lt =
      let same : 0 + i ≡ i = omega arith in
      rw same at (fill_array_at f ps 0 0 xs i lt (omega arith))

  fill-IsFilled : IsFilled (fill ps 0 0 room) (λ i. get_or (chosen ps 0) i 0)
  unfolding allocated
  fill-IsFilled = record {
    states = λ i lt. ground (
      arith,
      fill-arrays ps 0 0 room,
      fill_entry (λ u. u) room.buf_state i,
      length-replicate (size_buf (length (chosen ps 0)) / 8) junk,
      size_buf-room (length (chosen ps 0)),
    );
    bufs = λ i lt. ground (
      arith,
      fill-arrays ps 0 0 room,
      fill_entry (λ u. u) room.buf i,
      length-replicate (size_buf (length (chosen ps 0)) / 8) junk,
      size_buf-room (length (chosen ps 0)),
    );
    froms = λ i lt. ground (
      arith,
      fill-arrays ps 0 0 room,
      fill_entry (λ u. u % 2 ^ 8) room.from i,
      length-replicate (size_from (length (chosen ps 0))) junk,
      size_from-room (length (chosen ps 0)),
    );
  }

num_ues-fill : (junk : ℕ) (ps : List ℕ) (n : ℕ) → (fill ps 0 0 (allocated junk n)).num_ues ≡ n
unfolding allocated
num_ues-fill junk ps n = (fill-arrays ps 0 0 (allocated junk n)).3

need-done :
    (malloc : Malloc)
    → ((k size : ℕ) → malloc k size ≡ true)
    → (k size : ℕ) → need malloc k size ≡ done tt
unfolding need
need-done malloc enough k size = rw (enough k size)

module _ (malloc : Malloc) (junk id num_ues : ℕ) (c : ColorBuf) (color : ℕ → ℕ) where
  -- If every allocation succeeds and there are fewer than 2 ^ 27 processes, `ssmp_color_buf_init`
  -- returns a color buffer that is not NULL with as many entries as there are partners, and the
  -- three arrays hold the partners in order: every write stands inside the arrays.
  pub color_buf_init-IsFilled :
      ((k size : ℕ) → malloc k size ≡ true)
      → num_ues < 2 ^ 27
      → (c' : ColorBuf) × (color_buf_init malloc junk id num_ues (some c) color ≡ done (some c'))
        × (c'.num_ues ≡ length (partners color id num_ues))
        × IsFilled c' (partner color id num_ues)
  unfolding color_buf_init
  color_buf_init-IsFilled enough small =
      let ps : List ℕ = marks color id num_ues 0 in
      let few : length (chosen ps 0) ≤ num_ues =
        omega (arith, length-chosen-le ps 0, length-marks color id num_ues 0) in
      let counted : count_marks ps 0 ≡ length (chosen ps 0) =
        omega (arith, count_marks-chosen ps 0 0 (omega (arith, length-marks color id num_ues 0))) in
      (
        fill ps 0 0 (allocated junk (length (chosen ps 0))),
        simp (need-done malloc enough, counted),
        num_ues-fill junk ps (length (chosen ps 0)),
        fill-IsFilled junk ps (omega arith),
      )
