-- ===== src/Gpu/Alike.antt =====
-- A whole thread of the kernel on arrays that agree on its rows and columns.
use stellar_bench.Base.{
  ℕ, zero, suc, ◌+◌, ◌*◌, ◌≡◌, ◌≤◌, ◌<◌, ap, ◌∙◌, Bool, some, List, ltb, length, get_elem?,
  Bool-cases, inl, inr, arith,
}
use stellar_bench.Worker.Descent.{Doubles}
use stellar_bench.Gpu.{over_cols, over_rows, cuda_mf}
use stellar_bench.Gpu.Footprint.{HasInts, int-same, below, next_step}
use stellar_bench.Gpu.Agree.{Agrees, Both, done, later, cell-Both}

module _ (d : Doubles) (is_zero : ℕ → Bool) (dim row_height col_height wn : ℕ) (ratings : List ℕ)
    (rated : length ratings ≡ row_height * col_height) (pos : HasInts dim row_height col_height wn)
    (r_rx r_cx : ℕ) where
  over_cols-Both :
      (fuel i j m l : ℕ) (rows cols rows' cols' : List ℕ)
      → i ≡ r_rx + m * wn
      → j ≡ r_cx + l * wn
      → i < row_height
      → col_height ≤ j + fuel
      → length rows ≡ row_height * dim
      → length cols ≡ col_height * dim
      → Agrees dim wn r_rx rows rows'
      → Agrees dim wn r_cx cols cols'
      → Both dim wn r_rx r_cx rows cols
          (over_cols d is_zero dim row_height col_height wn ratings fuel i j rows cols)
          (over_cols d is_zero dim row_height col_height wn ratings fuel i j rows' cols')
  unfolding over_cols
  over_cols-Both zero i j m l rows cols rows' cols' own_row own_col i_lt room hr hc ar ac =
      elim (Bool-cases (ltb j col_height)) [
        | inl inside ↦ absurd (omega (arith, below j col_height inside, room))
        | inr over ↦ rw over (
            done d is_zero dim row_height col_height wn ratings rated pos r_rx r_cx rows cols rows'
              cols' ar ac)
      ]
  over_cols-Both (suc fuel) i j m l rows cols rows' cols' own_row own_col i_lt room hr hc ar ac =
      elim (Bool-cases (ltb j col_height)) [
        | inr over ↦ rw over (
            done d is_zero dim row_height col_height wn ratings rated pos r_rx r_cx rows cols rows'
              cols' ar ac)
        | inl inside ↦
            let b =
              cell-Both d is_zero dim row_height col_height wn ratings rated pos r_rx r_cx i j m l
                own_row own_col rows cols rows' cols' i_lt (below j col_height inside) hr hc ar
                ac in
            rw
              (
                inside,
                b.first,
                b.second,
                int-same (j + wn) (omega (arith, below j col_height inside, pos.col_counter)),
              )
              (later d is_zero dim row_height col_height wn ratings rated pos r_rx r_cx b (
                over_cols-Both fuel i (j + wn) m (l + 1) b.rows₁ b.cols₁ b.rows₂ b.cols₂ own_row
                  (ap (λ (x : ℕ). x + wn) own_col ∙ next_step r_cx l wn) i_lt
                  (omega (arith, pos.some_threads)) (b.row_size ∙ hr) (b.col_size ∙ hc) b.row_agrees
                  b.col_agrees))
      ]

  over_rows-Both :
      (fuel i m : ℕ) (rows cols rows' cols' : List ℕ)
      → i ≡ r_rx + m * wn
      → row_height ≤ i + fuel
      → length rows ≡ row_height * dim
      → length cols ≡ col_height * dim
      → Agrees dim wn r_rx rows rows'
      → Agrees dim wn r_cx cols cols'
      → Both dim wn r_rx r_cx rows cols
          (over_rows d is_zero dim row_height col_height wn ratings fuel i r_cx rows cols)
          (over_rows d is_zero dim row_height col_height wn ratings fuel i r_cx rows' cols')
  unfolding over_rows
  over_rows-Both zero i m rows cols rows' cols' own_row room hr hc ar ac =
      elim (Bool-cases (ltb i row_height)) [
        | inl inside ↦ absurd (omega (arith, below i row_height inside, room))
        | inr over ↦ rw over (
            done d is_zero dim row_height col_height wn ratings rated pos r_rx r_cx rows cols rows'
              cols' ar ac)
      ]
  over_rows-Both (suc fuel) i m rows cols rows' cols' own_row room hr hc ar ac =
      elim (Bool-cases (ltb i row_height)) [
        | inr over ↦ rw over (
            done d is_zero dim row_height col_height wn ratings rated pos r_rx r_cx rows cols rows'
              cols' ar ac)
        | inl inside ↦
            let b =
              over_cols-Both col_height i r_cx m 0 rows cols rows' cols' own_row (omega arith)
                (below i row_height inside) (omega arith) hr hc ar ac in
            rw
              (
                inside,
                b.first,
                b.second,
                int-same (i + wn) (omega (arith, below i row_height inside, pos.row_counter)),
              )
              (later d is_zero dim row_height col_height wn ratings rated pos r_rx r_cx b (
                over_rows-Both fuel (i + wn) (m + 1) b.rows₁ b.cols₁ b.rows₂ b.cols₂
                  (ap (λ (x : ℕ). x + wn) own_row ∙ next_step r_rx m wn)
                  (omega (arith, pos.some_threads)) (b.row_size ∙ hr) (b.col_size ∙ hc) b.row_agrees
                  b.col_agrees))
      ]

  -- A thread with `r_rx` and `r_cx` to start from.
  pub cuda_mf-Both :
      (row_ids col_ids : List ℕ) (tid : ℕ) (rows cols rows' cols' : List ℕ)
      → get_elem? row_ids tid ≡ some r_rx
      → get_elem? col_ids tid ≡ some r_cx
      → length rows ≡ row_height * dim
      → length cols ≡ col_height * dim
      → Agrees dim wn r_rx rows rows'
      → Agrees dim wn r_cx cols cols'
      → Both dim wn r_rx r_cx rows cols
          (cuda_mf d is_zero dim row_height col_height wn ratings row_ids col_ids tid rows cols)
          (cuda_mf d is_zero dim row_height col_height wn ratings row_ids col_ids tid rows' cols')
  unfolding cuda_mf
  cuda_mf-Both row_ids col_ids tid rows cols rows' cols' er ec hr hc ar ac =
      rw (er, ec)
        (over_rows-Both row_height r_rx 0 rows cols rows' cols' (omega arith) (omega arith) hr hc ar
          ac)
