-- ===== src/Worker/Descent.antt =====
-- `FakeSubMF` of worker.cpp: stochastic gradient descent on the two blocks at hand. The arithmetic of
-- `double` is a parameter, over the 64-bit patterns of the values. A read or write outside of an array
-- is the fault `none`, and so is a remainder by a height of zero.
use stellar_bench.Base.{
  ℕ, zero, suc, ◌+◌, ◌*◌, ◌%◌, Option, none, some, List, ◌>>=◌, ◌==◌, ltb, if◌then◌else◌, length,
  get_elem?, set,
}
use stellar_bench.Block.{Block, dim_count}

-- The constants 0.0, `yita` and `theta`, and the operations that the code uses.
pub record Doubles : Type 0 where
  pub nought : ℕ
  pub yita : ℕ
  pub theta : ℕ
  pub add : ℕ → ℕ → ℕ
  pub sub : ℕ → ℕ → ℕ
  pub mul : ℕ → ℕ → ℕ

-- `xs[i] = v`
unfoldable pub put : List ℕ → ℕ → ℕ → Option (List ℕ)
put xs i v = if ltb i (length xs) then some (set xs i v) else none

module _ (d : Doubles) where
  open d use {nought, yita, theta, add, sub, mul}

  -- The first loop over `k`, which adds up `predict_r`, with the rounds that are left.
  unfoldable pub predict : ℕ → ℕ → ℕ → ℕ → List ℕ → List ℕ → ℕ → Option ℕ
  predict zero k pr qc p q predict_r = some predict_r
  predict (suc left) k pr qc p q predict_r = do
    a ← get_elem? p (pr * dim_count + k)
    b ← get_elem? q (qc * dim_count + k)
    predict left (k + 1) pr qc p q (add predict_r (mul a b))

  -- `x + yita * (error * y - theta * x)`
  unfoldable pub step : ℕ → ℕ → ℕ → ℕ
  step error x y = add x (mul yita (sub (mul error y) (mul theta x)))

  -- The second loop over `k`: the Q element is updated from the new P element.
  unfoldable pub descend : ℕ → ℕ → ℕ → ℕ → ℕ → List ℕ → List ℕ → Option (List ℕ × List ℕ)
  unfolding step put
  descend zero k pr qc error p q = some (p, q)
  descend (suc left) k pr qc error p q = do
    let i = pr * dim_count + k
    let j = qc * dim_count + k
    a ← get_elem? p i
    b ← get_elem? q j
    p' ← put p i (step error a b)
    a' ← get_elem? p' i
    q' ← put q j (step error b a')
    descend left (k + 1) pr qc error p' q'

  -- One round of the loop over the samples, with the row and the column that were drawn.
  unfoldable pub sample : ℕ → ℕ → List ℕ → List ℕ → Option (List ℕ × List ℕ)
  unfolding predict descend
  sample pr qc p q = do
    predict_r ← predict dim_count 0 pr qc p q nought
    descend dim_count 0 pr qc (sub nought predict_r) p q

  -- The loop over the samples, with the rounds that are left. Sample `sn` takes the numbers `2 * sn`
  -- and `2 * sn + 1` of those that `random()` returns.
  unfoldable pub samples : (ℕ → ℕ) → ℕ → ℕ → ℕ → ℕ → List ℕ → List ℕ → Option (List ℕ × List ℕ)
  unfolding sample
  samples random p_height q_height zero sn p q = some (p, q)
  samples random p_height q_height (suc left) sn p q =
      let pr = random (2 * sn) % p_height in
      let qc = random (2 * sn + 1) % q_height in
      sample pr qc p q >>= λ (p', q'). samples random p_height q_height left (sn + 1) p' q'

-- sample_num
abbrev pub sample_num : ℕ
sample_num = 90000

unfoldable pub fake_sub_mf : Doubles → (ℕ → ℕ) → Block → Block → Option (Block × Block)
fake_sub_mf d random pb qb =
    if pb.height == 0
    then none
    else if qb.height == 0
    then none
    else (samples d random pb.height qb.height sample_num 0 pb.eles.words qb.eles.words
        >>= λ (p, q). some (
          record pb { eles = record (pb.eles) { words = p } },
          record qb { eles = record (qb.eles) { words = q } },
        ))
