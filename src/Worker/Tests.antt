-- ===== src/Worker/Tests.antt =====
-- A gradient step with integer arithmetic in place of `double`, and the theorems of Worker.
use stellar_bench.Base.{
  ℕ, ◌+◌, ◌-◌, ◌*◌, ◌≡◌, some, List, arith, replicate, length, length-replicate,
}
use stellar_bench.Block.{Block}
use stellar_bench.Worker.Descent.{Doubles, predict, sample, fake_sub_mf}
use stellar_bench.Worker.Safety.{Updated, sample-Updated, fake_sub_mf_total}

-- Any arithmetic will do for the accesses.
abbrev whole : Doubles
whole = record {
  nought = 0;
  yita = 1;
  theta = 2;
  add = λ a b. a + b;
  sub = λ a b. a - b;
  mul = λ a b. a * b;
}

abbrev one_row : Block
one_row = record {
  block_id = 0;
  data_age = 0;
  sta_idx = 0;
  height = 1;
  ele_num = 100;
  is_p = 0;
  padding = 0;
  eles = record { addr = 4096; words = replicate 100 1 };
}

sample-Updated_example :
    (predict_r : ℕ) × (p' q' : List ℕ) × (predict whole 100 0 0 0
        (replicate 100 1)
        (replicate 200 1)
        0
      ≡ some predict_r)
    × (sample whole 0 0 (replicate 100 1) (replicate 200 1) ≡ some (p', q'))
    × Updated whole 100 0 0 0 (whole.sub 0 predict_r) (replicate 100 1) (replicate 200 1) p' q'
sample-Updated_example =
    sample-Updated whole 0 0 (replicate 100 1) (replicate 200 1)
      (omega (arith, length-replicate {A = ℕ} 100 1))
      (omega (arith, length-replicate {A = ℕ} 200 1))

fake_sub_mf_total_example :
    (p q : List ℕ) × (fake_sub_mf whole (λ k. k) one_row one_row
      ≡ some (
        record one_row { eles = record (one_row.eles) { words = p } },
        record one_row { eles = record (one_row.eles) { words = q } },
      ))
    × (length p ≡ 100)
    × (length q ≡ 100)
fake_sub_mf_total_example =
    fake_sub_mf_total whole (λ k. k) one_row one_row (omega arith) (omega arith) (omega arith)
      (omega arith)
