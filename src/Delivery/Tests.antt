-- ===== src/Delivery/Tests.antt =====
-- The theorems of Delivery at a server with one worker and blocks of two and one elements.
use stellar_bench.Base.{◌≡◌, refl, some, pos, minus_one, ◌+ℤ◌, arith, length-replicate, set}
use stellar_bench.Context.{update}
use stellar_bench.Wire.{total_len, data_size}
use stellar_bench.Delivery.Buffers.{written}
use stellar_bench.Delivery.Down.{taken_by, aged, delivery_down}
use stellar_bench.Delivery.Up.{merged_with, delivery_up}
use stellar_bench.Delivery.Inputs.{
  p_part, q_part, p_part-IsRepresentable, q_part-IsRepresentable, server, trainer, alloc,
  rdma_write,
}
use stellar_bench.Ps
use stellar_bench.Ps.{Ps}
use stellar_bench.Worker
use stellar_bench.Worker.{Worker}

delivery_down_example :
    (s' : Ps) × (w' : Worker) × (Ps.send_round 0 server ≡ some s')
    × (Worker.recv_round alloc
          (record trainer { s_ctx = written rdma_write (s'.c_ctx 0) trainer.s_ctx })
        ≡ some w')
    × (w'.p_block ≡ taken_by alloc p_part (aged (pos 0) p_part))
    × (w'.q_block ≡ taken_by alloc q_part (aged (pos 0) q_part))
    × (w'.recved_age ≡ minus_one +ℤ pos 1)
    × (s'.to_send_iter 0 ≡ pos 0 +ℤ pos 1)
unfolding Ps.can_send total_len data_size
delivery_down_example =
    delivery_down rdma_write (λ src len dst. refl) alloc server 0 trainer p_part q_part
      (λ n. length-replicate n 0) refl refl p_part-IsRepresentable q_part-IsRepresentable
      (omega arith) refl refl

delivery_up_example :
    (w' : Worker) × (s' : Ps) × (Worker.send_round trainer ≡ some w')
    × (Ps.recv_round 0 (record server {
      s_ctx = update server.s_ctx 0 (written rdma_write w'.c_ctx (server.s_ctx 0));
    })
        ≡ some s')
    × (s'.p_blocks ≡ set server.p_blocks 0 (merged_with p_part p_part))
    × (s'.q_blocks ≡ set server.q_blocks 0 (merged_with q_part q_part))
    × (s'.recved_iter 0 ≡ minus_one +ℤ pos 1)
    × (w'.to_send_age ≡ pos 0 +ℤ pos 1)
unfolding Worker.can_send total_len data_size
delivery_up_example =
    delivery_up rdma_write (λ src len dst. refl) server 0 trainer p_part q_part refl refl refl refl
      p_part-IsRepresentable q_part-IsRepresentable (omega arith) refl refl
