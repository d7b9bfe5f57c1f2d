-- ===== src/Gpu/AnyOrder.antt =====
-- Two calls of gpu_mf whose launches run their threads in different orders.
use mathlib.Core.List.{Permᴰ}
use stellar_bench.Base.{ℕ, zero, suc, ◌+◌, ◌*◌, ◌≡◌, refl, sym, ◌∙◌, Bool, List, length}
use stellar_bench.Worker.Descent.{Doubles}
use stellar_bench.Gpu.Footprint.{HasInts}
use stellar_bench.Gpu.Host.{Chance, iter_num, launches, gpu_mf}
use stellar_bench.Gpu.Ids.{ids_from}
use stellar_bench.Gpu.Order.{threads-shuffle}
use stellar_bench.Gpu.Launches.{
  IsFair, to_device_all, numbered, launch-HasArrays, row_ids-AreIds, col_ids-AreIds,
}

-- The same shuffles, and the threads of each launch in another order.
abbrev pub reordered : Chance → (ℕ → List ℕ) → Chance
reordered ch order = record ch { order = order }

module _ (d : Doubles) (is_zero : ℕ → Bool) (dim row_height col_height wn : ℕ)
    (pos : HasInts dim row_height col_height wn) (ratings : List ℕ)
    (rated : length ratings ≡ row_height * col_height) (ch : Chance) (fair : IsFair wn ch)
    (order : ℕ → List ℕ) (shuffled : (iter : ℕ) → Permᴰ (ch.order iter) (order iter)) where
  launches-any_order :
      (left iter : ℕ) (random_row_id random_col_id rows cols : List ℕ)
      → length random_row_id ≡ wn
      → length random_col_id ≡ wn
      → length rows ≡ row_height * dim
      → length cols ≡ col_height * dim
      → launches d is_zero dim row_height col_height wn ch ratings left iter random_row_id
          random_col_id rows cols
        ≡ launches d is_zero dim row_height col_height wn
            (reordered ch order)
            ratings
            left
            iter
            random_row_id
            random_col_id
            rows
            cols
  unfolding launches
  launches-any_order zero iter rr rc rows cols er ec hr hc = refl
  launches-any_order (suc left) iter rr rc rows cols er ec hr hc =
      let ir =
        row_ids-AreIds d is_zero dim row_height col_height wn pos ratings rated ch fair iter in
      let ic =
        col_ids-AreIds d is_zero dim row_height col_height wn pos ratings rated ch fair iter in
      let (rows₁, cols₁, run, hr₁, hc₁) =
        launch-HasArrays d is_zero dim row_height col_height wn pos ratings rated _ _
          (ch.order iter) rows cols ir ic (fair.threads iter) hr hc in
      let other =
        sym (
          threads-shuffle d is_zero dim row_height col_height wn pos ratings rated _ _ ir ic
            (shuffled iter) rows cols (fair.threads iter) (hr, hc))
        ∙ run in
      rw
        (
          numbered wn rr er,
          numbered wn rc ec,
          to_device_all (ch.shuffle_rows iter (ids_from wn 0)) wn ir.count,
          to_device_all (ch.shuffle_cols iter (ids_from wn 0)) wn ic.count,
          run,
          other,
        )
        (launches-any_order left (iter + 1) _ _ rows₁ cols₁ ir.count ic.count hr₁ hc₁)

  -- With at least one thread, arrays of the sizes that the code takes, indices and counters that are
  -- `int`s (`HasInts`), shuffles that permute and launches of threads below `wn`: in whatever order the
  -- threads of each launch run, whole threads one after another, gpu_mf returns the same factors.
  pub gpu_mf-any_order :
      (row_eles col_eles random_row_id random_col_id : List ℕ)
      → length row_eles ≡ row_height * dim
      → length col_eles ≡ col_height * dim
      → length random_row_id ≡ wn
      → length random_col_id ≡ wn
      → gpu_mf d is_zero dim row_height col_height wn ch row_eles col_eles ratings random_row_id
          random_col_id
        ≡ gpu_mf d is_zero dim row_height col_height wn
            (reordered ch order)
            row_eles
            col_eles
            ratings
            random_row_id
            random_col_id
  unfolding gpu_mf
  gpu_mf-any_order row_eles col_eles rr rc hr hc er ec =
      rw
        (
          to_device_all row_eles (row_height * dim) hr,
          to_device_all col_eles (col_height * dim) hc,
          to_device_all ratings (row_height * col_height) rated,
          launches-any_order iter_num 0 rr rc row_eles col_eles er ec hr hc,
        )
        refl
