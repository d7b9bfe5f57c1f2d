-- ===== src/Cluster/BlocksSent.antt =====
-- The messages of a run as images of the blocks that are sent.
use mathlib.Core.List.{map-append}
use stellar_bench.Base.{
  ℕ, ◌≡◌, refl, sym, ap, ◌∙◌, ◌&&◌, Bool, true, List, [], ◌∷◌, ◌++◌, Option, some, get_elem?, take,
  drop, take-length_append, >>=-eq-some, some_inj, Bool-cases, inl, inr, map,
}
use stellar_bench.Block.{Block}
use stellar_bench.Context.{update_self}
use stellar_bench.Wire.{total_len, copy_in}
use stellar_bench.Wire.Image.{image, length-image, copy_in-image}
use stellar_bench.Wire.RoundTrip.{IsRepresentable}
use stellar_bench.Ps
use stellar_bench.Ps.{Ps}
use stellar_bench.Worker
use stellar_bench.Worker.{Worker}
use stellar_bench.Delivery.Down.{aged}
use stellar_bench.Cluster.{
  Cluster, Turn, ps_main, ps_send, ps_recv, worker_main, worker_send, worker_recv, net_down, net_up,
}
use stellar_bench.Cluster.Rounds.{copy_in_bounds}
use stellar_bench.Cluster.Channel.{sent_bytes}
use stellar_bench.Cluster.Refinement.{Runs, started, follow}
use stellar_bench.Cluster.Logs.{logged, put_down, put_up, sent_down, sent_up, at_index}
use stellar_bench.Cluster.Payloads.{BlockPair, message, AreRepresentable, AreRepresentable-append}
use stellar_bench.Cluster.Blocks.{
  chosen, blocks_for, put_blocks_down, put_blocks_up, blocks_down, blocks_up,
}

-- What `copy_in` leaves at the start of the buffer.
copied :
    (p q : Block) (old buf : List ℕ)
    → copy_in p q old ≡ some buf
    → IsRepresentable p
    → IsRepresentable q
    → take (total_len p q) buf ≡ image p q
copied p q old buf h rp rq =
    let (fits, same) = copy_in_bounds p q old h in
    let whole = some_inj (sym h ∙ copy_in-image p q old rp.well_formed rq.well_formed fits) in
    let rest = drop (total_len p q) old in
    rw whole (
      ap (λ k. take k (image p q ++ rest)) (sym (length-image p q rp.well_formed rq.well_formed))
      ∙ take-length_append (image p q) rest)

-- If a thread logs `m`, then it is the message of the blocks `o`.
abbrev IsImage : Bool → List ℕ → Option BlockPair → Type 0
IsImage b m o = AreRepresentable (chosen b o) → logged b m ≡ map message (chosen b o)

put-IsImage :
    (g : Bool) (o : Option BlockPair) (p q : Block) (old buf m : List ℕ)
    → g ≡ true
    → o ≡ some (p, q)
    → copy_in p q old ≡ some buf
    → m ≡ take (total_len p q) buf
    → IsImage g m o
put-IsImage g o p q old buf m sends e h bytes =
    rw (sends, e, bytes) (λ rep. ap (λ k. k ∷ []) (copied p q old buf h rep.0 rep.1))

pub blocks_for-some :
    (s : Ps) (i : ℕ) (pb qb : Block)
    → get_elem? s.p_blocks (s.worker_pidx i) ≡ some pb
    → get_elem? s.q_blocks (s.worker_qidx i) ≡ some qb
    → blocks_for s i ≡ some (aged (s.to_send_iter i) pb, aged (s.to_send_iter i) qb)
blocks_for-some s i pb qb ep eq = rw (ep, eq) refl

Ps-put :
    (i : ℕ) (s : Ps) {p : Ps}
    → Ps.send_round i s ≡ some p
    → IsImage
        (Ps.can_send (s.to_send_iter i) s.completed_iter)
        (sent_bytes (p.c_ctx i))
        (blocks_for s i)
unfolding Ps.send_round
Ps-put i s {p} h = elim (Bool-cases (Ps.can_send (s.to_send_iter i) s.completed_iter)) [
  | inr waits ↦ rw waits (λ rep. refl)
  | inl sends ↦
      let e = rw sends at h in
      let (pb, e₁, h₁) = >>=-eq-some (get_elem? s.p_blocks (s.worker_pidx i)) _ e in
      let (qb, e₂, h₂) = >>=-eq-some (get_elem? s.q_blocks (s.worker_qidx i)) _ h₁ in
      let pb' = aged (s.to_send_iter i) pb in
      let qb' = aged (s.to_send_iter i) qb in
      let (buf, e₃, h₃) = >>=-eq-some (copy_in pb' qb' (s.c_ctx i).buffer) _ h₂ in
      put-IsImage _ _ pb' qb' (s.c_ctx i).buffer buf _ sends (blocks_for-some s i pb qb e₁ e₂) e₃ (
        ap (λ (t : Ps). sent_bytes (t.c_ctx i)) (sym (some_inj h₃))
        ∙ ap sent_bytes (update_self s.c_ctx i _))
]

Worker-put :
    (w : Worker) {w' : Worker}
    → Worker.send_round w ≡ some w'
    → IsImage
        (Worker.can_send w.to_send_age w.completed_iter)
        (sent_bytes w'.c_ctx)
        (some (w.p_block, w.q_block))
unfolding Worker.send_round
Worker-put w {w'} h = elim (Bool-cases (Worker.can_send w.to_send_age w.completed_iter)) [
  | inr waits ↦ rw waits (λ rep. refl)
  | inl sends ↦
      let e = rw sends at h in
      let (buf, e₁, h₁) = >>=-eq-some (copy_in w.p_block w.q_block w.c_ctx.buffer) _ e in
      put-IsImage _ _ w.p_block w.q_block w.c_ctx.buffer buf _ sends refl e₁
        (ap (λ (t : Worker). sent_bytes t.c_ctx) (sym (some_inj h₁)))
]

module _ {rdma_write : List ℕ → ℕ → List ℕ → List ℕ} {n : ℕ} where
  put_down-image :
      {s s' : Cluster} (m : Turn rdma_write n s s') (j : ℕ)
      → AreRepresentable (put_blocks_down m j)
      → put_down m j ≡ map message (put_blocks_down m j)
  put_down-image {s} (ps_send {p = p} i lt h) j rep =
      at_index
        (λ b k.
          IsImage (b && Ps.can_send (s.ps.to_send_iter i) s.ps.completed_iter)
            (sent_bytes (p.c_ctx k)) (blocks_for s.ps k))
        i j (Ps-put i s.ps h) (λ k rep. refl) rep
  put_down-image (ps_main h) j rep = refl
  put_down-image (ps_recv i lt h) j rep = refl
  put_down-image (worker_main i d random lt h) j rep = refl
  put_down-image (worker_send i lt h) j rep = refl
  put_down-image (worker_recv i alloc lt h) j rep = refl
  put_down-image (net_down i lt m) j rep = refl
  put_down-image (net_up i lt m) j rep = refl

  put_up-image :
      {s s' : Cluster} (m : Turn rdma_write n s s') (j : ℕ)
      → AreRepresentable (put_blocks_up m j)
      → put_up m j ≡ map message (put_blocks_up m j)
  put_up-image {s} (worker_send {w = w} i lt h) j rep =
      at_index
        (λ b k.
          IsImage (b && Worker.can_send (s.worker i).to_send_age (s.worker i).completed_iter)
            (sent_bytes w.c_ctx) (some ((s.worker k).p_block, (s.worker k).q_block)))
        i j (Worker-put (s.worker i) h) (λ k rep. refl) rep
  put_up-image (ps_main h) j rep = refl
  put_up-image (ps_send i lt h) j rep = refl
  put_up-image (ps_recv i lt h) j rep = refl
  put_up-image (worker_main i d random lt h) j rep = refl
  put_up-image (worker_recv i alloc lt h) j rep = refl
  put_up-image (net_down i lt m) j rep = refl
  put_up-image (net_up i lt m) j rep = refl

  pub sent_down-image :
      {s : Cluster} (r : Runs rdma_write n s) (j : ℕ)
      → AreRepresentable (blocks_down r j)
      → sent_down r j ≡ map message (blocks_down r j)
  sent_down-image (started h) j rep = refl
  sent_down-image (follow r m) j rep =
      let (before, now) = AreRepresentable-append (blocks_down r j) (put_blocks_down m j) rep in
      rw (sent_down-image r j before, put_down-image m j now)
        (sym (map-append message (blocks_down r j) (put_blocks_down m j)))

  pub sent_up-image :
      {s : Cluster} (r : Runs rdma_write n s) (j : ℕ)
      → AreRepresentable (blocks_up r j)
      → sent_up r j ≡ map message (blocks_up r j)
  sent_up-image (started h) j rep = refl
  sent_up-image (follow r m) j rep =
      let (before, now) = AreRepresentable-append (blocks_up r j) (put_blocks_up m j) rep in
      rw (sent_up-image r j before, put_up-image m j now)
        (sym (map-append message (blocks_up r j) (put_blocks_up m j)))
