-- ===== src/Cluster/Laid/Sends.antt =====
-- The blocks under the server's send thread.
use mathlib.Core.Path.{subst}
use stellar_bench.Base.{
  ℕ, ◌≡◌, sym, true, some, List, get_elem?, >>=-eq-some, some_inj, Bool-cases, inl, inr,
}
use stellar_bench.Wire.{copy_in}
use stellar_bench.Ps
use stellar_bench.Ps.{Ps}
use stellar_bench.Delivery.Down.{aged}
use stellar_bench.Cluster.Blocks.{chosen, blocks_for}
use stellar_bench.Cluster.BlocksSent.{blocks_for-some}
use stellar_bench.Cluster.Laid.{Place, Stay, AllSit}
use stellar_bench.Cluster.Laid.Store.{Stay-Sits, aged-Sits, aged-Stay}

-- The send thread of the server: its blocks stay, and those that it sends sit at the worker's indices.
module _ (ps qs : List Place) (i : ℕ) (s : Ps) {s' : Ps} (h : Ps.send_round i s ≡ some s')
    (p_stay : Stay ps s.p_blocks) (q_stay : Stay qs s.q_blocks) where
  pub Ps-send-Stay : Stay ps s'.p_blocks × Stay qs s'.q_blocks
  unfolding Ps.send_round
  Ps-send-Stay = elim (Bool-cases (Ps.can_send (s.to_send_iter i) s.completed_iter)) [
    | inr waits ↦
        subst (λ (t : Ps). Stay ps t.p_blocks × Stay qs t.q_blocks) (some_inj (rw waits at h))
          (p_stay, q_stay)
    | inl sends ↦
        let e = rw sends at h in
        let (pb, e₁, h₁) = >>=-eq-some (get_elem? s.p_blocks (s.worker_pidx i)) _ e in
        let (qb, e₂, h₂) = >>=-eq-some (get_elem? s.q_blocks (s.worker_qidx i)) _ h₁ in
        let pb' = aged (s.to_send_iter i) pb in
        let qb' = aged (s.to_send_iter i) qb in
        let (buf, e₃, h₃) = >>=-eq-some (copy_in pb' qb' (s.c_ctx i).buffer) _ h₂ in
        subst (λ (t : Ps). Stay ps t.p_blocks × Stay qs t.q_blocks) (some_inj h₃)
          (
            aged-Stay ps s.p_blocks (s.worker_pidx i) pb (s.to_send_iter i) p_stay e₁,
            aged-Stay qs s.q_blocks (s.worker_qidx i) qb (s.to_send_iter i) q_stay e₂,
          )
  ]

  pub Ps-put-AllSit :
      AllSit ps qs
        (s.worker_pidx i)
        (s.worker_qidx i)
        (chosen (Ps.can_send (s.to_send_iter i) s.completed_iter) (blocks_for s i))
  unfolding Ps.send_round
  Ps-put-AllSit = elim (Bool-cases (Ps.can_send (s.to_send_iter i) s.completed_iter)) [
    | inr waits ↦ rw waits tt
    | inl sends ↦
        let e = rw sends at h in
        let (pb, e₁, h₁) = >>=-eq-some (get_elem? s.p_blocks (s.worker_pidx i)) _ e in
        let (qb, e₂, h₂) = >>=-eq-some (get_elem? s.q_blocks (s.worker_qidx i)) _ h₁ in
        let age = s.to_send_iter i in
        rw sends (
          subst (λ o. AllSit ps qs (s.worker_pidx i) (s.worker_qidx i) (chosen true o))
            (sym (blocks_for-some s i pb qb e₁ e₂))
            (
              aged-Sits ps age (s.worker_pidx i) pb (Stay-Sits ps s.p_blocks _ pb p_stay e₁),
              aged-Sits qs age (s.worker_qidx i) qb (Stay-Sits qs s.q_blocks _ qb q_stay e₂),
              tt,
            ))
  ]
