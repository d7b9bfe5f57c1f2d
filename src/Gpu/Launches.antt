-- ===== src/Gpu/Launches.antt =====
-- A call of gpu_mf from its start to its end.
use mathlib.Core.List.{Permᴰ}
use stellar_bench.Base.{
  ℕ, zero, suc, ◌+◌, ◌*◌, ◌≡◌, refl, sym, ap, ◌∙◌, Bool, Option, some, List, [], ◌∷◌, le→leb,
  length, take-length, get_elem?-lt, arith,
}
use stellar_bench.Worker.Descent.{Doubles}
use stellar_bench.Delivery.Buffers.{overwrite_all}
use stellar_bench.Gpu.Thread.{cuda_mf-Works}
use stellar_bench.Gpu.Footprint.{HasInts}
use stellar_bench.Gpu.Host.{to_device, number_from, Chance, iter_num, launch, launches, gpu_mf}
use stellar_bench.Gpu.Ids.{AreBelow, ids_from, number_from-ids, AreIds, shuffled-AreIds}

-- `random_shuffle` permutes the ids, and a launch runs threads below `wn`.
pub record IsFair (wn : ℕ) (ch : Chance) : Type 0 where
  pub rows : (iter : ℕ) (ids : List ℕ) → Permᴰ ids (ch.shuffle_rows iter ids)
  pub cols : (iter : ℕ) (ids : List ℕ) → Permᴰ ids (ch.shuffle_cols iter ids)
  pub threads : (iter : ℕ) → AreBelow wn (ch.order iter)

pub to_device_all : (xs : List ℕ) (n : ℕ) → length xs ≡ n → to_device xs n ≡ some xs
unfolding to_device
to_device_all xs n e = rw (le→leb n (length xs) (omega arith)) (ap some (rw (← e) (take-length xs)))

pub numbered :
    (wn : ℕ) (ids : List ℕ) → length ids ≡ wn → number_from wn 0 ids ≡ some (ids_from wn 0)
numbered wn ids e = number_from-ids wn 0 [] ids refl (sym e)

module _ (d : Doubles) (is_zero : ℕ → Bool) (dim row_height col_height wn : ℕ)
    (pos : HasInts dim row_height col_height wn) (ratings : List ℕ)
    (rated : length ratings ≡ row_height * col_height) where
  -- Arrays of the same sizes come out.
  abbrev pub HasArrays : Option (List ℕ × List ℕ) → Type 0
  HasArrays out =
      (rows cols : List ℕ) × (out ≡ some (rows, cols))
      × (length rows ≡ row_height * dim)
      × (length cols ≡ col_height * dim)

  pub launch-HasArrays :
      (row_ids col_ids order rows cols : List ℕ)
      → AreIds wn row_ids
      → AreIds wn col_ids
      → AreBelow wn order
      → length rows ≡ row_height * dim
      → length cols ≡ col_height * dim
      → HasArrays
          (launch d is_zero dim row_height col_height wn ratings row_ids col_ids order rows cols)
  unfolding launch
  launch-HasArrays row_ids col_ids [] rows cols r c threads hr hc = (rows, cols, refl, hr, hc)
  launch-HasArrays row_ids col_ids (tid ∷ order) rows cols r c threads hr hc =
      let (rx, er) = get_elem?-lt row_ids tid (omega (arith, r.count, threads.0)) in
      let (cx, ec) = get_elem?-lt col_ids tid (omega (arith, c.count, threads.0)) in
      let (rows₁, cols₁, run, kr, kc) =
        cuda_mf-Works d is_zero dim row_height col_height wn ratings row_ids col_ids rows cols tid
          rx cx pos rated hr hc er ec in
      let (rows₂, cols₂, run', hr', hc') =
        launch-HasArrays row_ids col_ids order rows₁ cols₁ r c threads.1 (kr.0 ∙ hr) (kc.0 ∙ hc) in
      (rows₂, cols₂, rw run run', hr', hc')

  module _ (ch : Chance) (fair : IsFair wn ch) where
    pub row_ids-AreIds : (iter : ℕ) → AreIds wn (ch.shuffle_rows iter (ids_from wn 0))
    row_ids-AreIds iter = shuffled-AreIds wn _ (fair.rows iter (ids_from wn 0))

    pub col_ids-AreIds : (iter : ℕ) → AreIds wn (ch.shuffle_cols iter (ids_from wn 0))
    col_ids-AreIds iter = shuffled-AreIds wn _ (fair.cols iter (ids_from wn 0))

    launches-HasArrays :
        (left iter : ℕ) (random_row_id random_col_id rows cols : List ℕ)
        → length random_row_id ≡ wn
        → length random_col_id ≡ wn
        → length rows ≡ row_height * dim
        → length cols ≡ col_height * dim
        → HasArrays (
            launches d is_zero dim row_height col_height wn ch ratings left iter random_row_id
              random_col_id rows cols)
    unfolding launches
    launches-HasArrays zero iter rr rc rows cols er ec hr hc = (rows, cols, refl, hr, hc)
    launches-HasArrays (suc left) iter rr rc rows cols er ec hr hc =
        let ir = row_ids-AreIds iter in
        let ic = col_ids-AreIds iter in
        let (rows₁, cols₁, run, hr₁, hc₁) =
          launch-HasArrays _ _ (ch.order iter) rows cols ir ic (fair.threads iter) hr hc in
        let (rows₂, cols₂, run', hr₂, hc₂) =
          launches-HasArrays left (iter + 1) _ _ rows₁ cols₁ ir.count ic.count hr₁ hc₁ in
        (
          rows₂,
          cols₂,
          rw
              (
                numbered wn rr er,
                numbered wn rc ec,
                to_device_all (ch.shuffle_rows iter (ids_from wn 0)) wn ir.count,
                to_device_all (ch.shuffle_cols iter (ids_from wn 0)) wn ic.count,
                run,
              )
              run',
          hr₂,
          hc₂,
        )

    -- With at least one thread, arrays of the sizes that the code takes, indices and counters that are
    -- `int`s (`HasInts`), shuffles that permute and launches of threads below `wn`: gpu_mf returns, no
    -- thread leaves an array or overflows an `int`, and the two factors keep their sizes.
    pub gpu_mf-HasArrays :
        (row_eles col_eles random_row_id random_col_id : List ℕ)
        → length row_eles ≡ row_height * dim
        → length col_eles ≡ col_height * dim
        → length random_row_id ≡ wn
        → length random_col_id ≡ wn
        → HasArrays (
            gpu_mf d is_zero dim row_height col_height wn ch row_eles col_eles ratings random_row_id
              random_col_id)
    unfolding gpu_mf
    gpu_mf-HasArrays row_eles col_eles rr rc hr hc er ec =
        let (rows, cols, run, hr', hc') =
          launches-HasArrays iter_num 0 rr rc row_eles col_eles er ec hr hc in
        (
          rows,
          cols,
          rw
              (
                to_device_all row_eles (row_height * dim) hr,
                to_device_all col_eles (col_height * dim) hc,
                to_device_all ratings (row_height * col_height) rated,
                run,
                overwrite_all row_eles rows (hr' ∙ sym hr),
                overwrite_all col_eles cols (hc' ∙ sym hc),
              )
              refl,
          hr',
          hc',
        )
