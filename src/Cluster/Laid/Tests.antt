-- ===== src/Cluster/Laid/Tests.antt =====
-- The theorems of Cluster/Laid on the run of Cluster/Stuck/Inputs, up to the reply that the server takes.
use stellar_bench.Base.{
  zero, suc, ◌≡◌, refl, sym, ap, ◌∙◌, some, [], ◌∷◌, arith, get_elem?, map, length-replicate,
  some_inj,
}
use mathlib.Core.Path.{subst}
use stellar_bench.Ps
use stellar_bench.Worker
use stellar_bench.Memory.{read, le_value, words_of}
use stellar_bench.Wire.{receive, receive_block, load, data_size}
use stellar_bench.Block.{Block}
use stellar_bench.Wire.RoundTrip.{IsRepresentable}
use stellar_bench.Delivery.Inputs.{rdma_write}
use stellar_bench.Cluster.Stuck.Inputs.{zero_p, zero_q, got_p, first, arrived, trained, merged}
use stellar_bench.Cluster.Payloads.{payload}
use stellar_bench.Cluster.BlocksDelivered.{AreDelivered}
use stellar_bench.Cluster.Laid.{Place, place, AreIndexed, AllRepresentable, IsLaid, IsSane}
use stellar_bench.Cluster.Laid.Run.{server_places, worker_places, blocks_arrive}

one_indexed : (b : Block) → b.block_id ≡ 0 → AreIndexed 1 (λ j. j) (map place (b ∷ []))
one_indexed b e zero c lt h = ap Place.block_id (sym (some_inj h)) ∙ e
one_indexed b e (suc i) c lt h = cc

one_representable : (b : Block) → IsRepresentable b → AllRepresentable (b ∷ [])
one_representable b r zero c h = subst IsRepresentable (some_inj h) r
one_representable b r (suc i) c h = cc

zero_p-IsRepresentable : IsRepresentable zero_p
zero_p-IsRepresentable = record {
  well_formed = record { counted = refl; small = omega arith };
  id_fits = omega arith;
  age_fits = omega arith;
  sta_fits = omega arith;
  height_fits = omega arith;
  is_p_fits = omega arith;
  words_fit = omega arith;
}

zero_q-IsRepresentable : IsRepresentable zero_q
zero_q-IsRepresentable = record {
  well_formed = record { counted = refl; small = omega arith };
  id_fits = omega arith;
  age_fits = omega arith;
  sta_fits = omega arith;
  height_fits = omega arith;
  is_p_fits = omega arith;
  words_fit = omega arith;
}

first-IsLaid : IsLaid 1 first
first-IsLaid = record {
  p_indexed = one_indexed zero_p refl;
  q_indexed = one_indexed zero_q refl;
  p_representable = one_representable zero_p zero_p-IsRepresentable;
  q_representable = one_representable zero_q zero_q-IsRepresentable;
  at_workers = λ j lt. (zero_p-IsRepresentable, zero_q-IsRepresentable);
  small_down = λ j lt. omega arith;
  small_up = λ j lt. omega arith;
}

-- The seventh turn takes a message, the eighth computes.
merged-IsSane : IsSane merged.run
merged-IsSane =
    let before : IsSane arrived.run = ((((((tt, tt), tt), tt), tt), tt), tt) in
    let taken_computed : IsSane trained.run =
      ((before, λ k. length-replicate k 0), λ a b. omega arith) in
    ((((((taken_computed, tt), tt), tt), tt), tt), tt)

server_places_example :
    (map place merged.state.ps.p_blocks ≡ map place (zero_p ∷ []))
    × (map place merged.state.ps.q_blocks ≡ map place (zero_q ∷ []))
server_places_example =
    server_places rdma_write (λ src len dst. refl) 1 merged.state merged.run first-IsLaid
      merged-IsSane

worker_places_example :
    (get_elem? (map place merged.state.ps.p_blocks) 0
      ≡ some (place (merged.state.worker 0).p_block))
    × (get_elem? (map place merged.state.ps.q_blocks) 0
        ≡ some (place (merged.state.worker 0).q_block))
worker_places_example =
    worker_places rdma_write (λ src len dst. refl) 1 merged.state merged.run 0 first-IsLaid
      merged-IsSane (omega arith) (omega arith)

blocks_arrive_example :
    AreDelivered ((zero_p, zero_q) ∷ []) ((payload zero_p, payload zero_q) ∷ [])
    × AreDelivered ((got_p, got_p) ∷ []) ((payload got_p, payload got_p) ∷ [])
unfolding Ps.can_send Worker.can_send receive receive_block load read le_value data_size words_of
blocks_arrive_example =
    blocks_arrive rdma_write (λ src len dst. refl) 1 merged.state merged.run 0 first-IsLaid
      merged-IsSane (omega arith)
