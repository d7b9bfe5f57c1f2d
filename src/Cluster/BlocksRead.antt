-- ===== src/Cluster/BlocksRead.antt =====
-- What the receivers' blocks hold of the messages that they take in a run.
use stellar_bench.Base.{
  ℕ, ◌≡◌, refl, sym, ap, ◌∙◌, ◌&&◌, not, Bool, true, false, List, Option, some, pos, minus_one, ◌+◌,
  ◌+ℤ◌, ltb_ℤ, leb_ℤ, get_elem?, >>=-eq-some, some_inj, Bool-cases, inl, inr,
}
use stellar_bench.Block.{Block, Region, block_size}
use stellar_bench.Wire.{data_size, Received, receive_block, receive}
use stellar_bench.Ps
use stellar_bench.Ps.{Ps}
use stellar_bench.Worker
use stellar_bench.Worker.{Worker}
use stellar_bench.Cluster.{
  Cluster, Turn, ps_main, ps_send, ps_recv, worker_main, worker_send, worker_recv, net_down, net_up,
}
use stellar_bench.Cluster.Channel.{got_bytes}
use stellar_bench.Cluster.Refinement.{Runs, started, follow}
use stellar_bench.Cluster.Logs.{logged, took_down, took_up, taken_down, taken_up, at_index}
use stellar_bench.Cluster.Payloads.{PayloadPair, payload, IsRead, Reads, nil, cons, Reads-append}
use stellar_bench.Cluster.Stored.{Worker-IsStored, Ps-IsStored, stored-IsRead}
use stellar_bench.Cluster.Blocks.{
  chosen, stored_from, read_blocks_down, read_blocks_up, read_down, read_up,
}

pub receive_of_parts :
    (buf : List ℕ) (a b : Received)
    → receive_block buf 0 ≡ some a
    → receive_block buf (block_size + data_size a.ele_num) ≡ some b
    → receive buf ≡ some (a, b)
unfolding receive
receive_of_parts buf a b e₁ e₂ = rw (e₁, e₂) refl

-- If a thread takes `m`, then its blocks hold what `m` carries.
abbrev IsTaken : Bool → List ℕ → Option PayloadPair → Type 0
IsTaken g m o = Reads (logged g m) (chosen g o)

waits-IsTaken : (g : Bool) (m : List ℕ) (o : Option PayloadPair) → g ≡ true → IsTaken (not g) m o
waits-IsTaken g m o waits = rw waits nil

takes-IsTaken :
    (g : Bool) (m : List ℕ) (o : Option PayloadPair) (x : PayloadPair)
    → g ≡ false
    → o ≡ some x
    → IsRead m x
    → IsTaken (not g) m o
takes-IsTaken g m o x takes e reads = rw (takes, e) (cons reads nil)

Worker-took :
    (alloc : ℕ → Region) (w : Worker) {w' : Worker}
    → Worker.recv_round alloc w ≡ some w'
    → IsTaken
        (not (leb_ℤ (pos w.s_ctx.buf_recv_counter) (w.recved_age +ℤ pos 1)))
        (got_bytes w.s_ctx)
        (some (payload w'.p_block, payload w'.q_block))
unfolding Worker.recv_round
Worker-took alloc w {w'} h =
    elim (Bool-cases (leb_ℤ (pos w.s_ctx.buf_recv_counter) (w.recved_age +ℤ pos 1))) [
      | inl waits ↦ waits-IsTaken _ _ _ waits
      | inr takes ↦
          let e = rw takes at h in
          let (a, e₁, h₁) = >>=-eq-some (receive_block w.s_ctx.buffer 0) _ e in
          let (p, e₂, h₂) = >>=-eq-some (Worker.store_block alloc w.p_block a) _ h₁ in
          let (b, e₃, h₃) =
            >>=-eq-some (receive_block w.s_ctx.buffer (block_size + data_size a.ele_num)) _ h₂ in
          let (q, e₄, h₄) = >>=-eq-some (Worker.store_block alloc w.q_block b) _ h₃ in
          takes-IsTaken _ _ _ _ takes
            (ap (λ (t : Worker). some (payload t.p_block, payload t.q_block)) (sym (some_inj h₄)))
            (stored-IsRead w.s_ctx a b p q (receive_of_parts w.s_ctx.buffer a b e₁ e₃)
              (Worker-IsStored alloc w.p_block a e₂) (Worker-IsStored alloc w.q_block b e₄))
    ]

stored_from-some :
    (s : Ps) (buf : List ℕ) (a b : Received) (x y : Block)
    → receive buf ≡ some (a, b)
    → get_elem? s.p_blocks a.block_id ≡ some x
    → get_elem? s.q_blocks b.block_id ≡ some y
    → stored_from s buf ≡ some (payload x, payload y)
stored_from-some s buf a b x y e ex ey = rw (e, ex, ey) refl

Ps-took :
    (i : ℕ) (s : Ps) {p : Ps}
    → Ps.recv_round i s ≡ some p
    → IsTaken
        (not (ltb_ℤ (pos (s.s_ctx i).buf_recv_counter +ℤ minus_one) (s.recved_iter i +ℤ pos 1)))
        (got_bytes (s.s_ctx i))
        (stored_from p (s.s_ctx i).buffer)
unfolding Ps.recv_round
Ps-took i s {p} h =
    let none_new =
      ltb_ℤ (pos (s.s_ctx i).buf_recv_counter +ℤ minus_one) (s.recved_iter i +ℤ pos 1) in
    elim (Bool-cases none_new) [
      | inl waits ↦ waits-IsTaken _ _ _ waits
      | inr takes ↦
          let e = rw takes at h in
          let (a, e₁, h₁) = >>=-eq-some (receive_block (s.s_ctx i).buffer 0) _ e in
          let (ps, e₂, h₂) = >>=-eq-some (Ps.store_block s.p_blocks a) _ h₁ in
          let (b, e₃, h₃) =
            >>=-eq-some (receive_block (s.s_ctx i).buffer (block_size + data_size a.ele_num)) _
              h₂ in
          let (qs, e₄, h₄) = >>=-eq-some (Ps.store_block s.q_blocks b) _ h₃ in
          let (x, ex, sx) = Ps-IsStored s.p_blocks a e₂ in
          let (y, ey, sy) = Ps-IsStored s.q_blocks b e₄ in
          let both = receive_of_parts (s.s_ctx i).buffer a b e₁ e₃ in
          takes-IsTaken _ _ _ _ takes
            (stored_from-some p (s.s_ctx i).buffer a b x y both
              (ap (λ (t : Ps). get_elem? t.p_blocks a.block_id) (sym (some_inj h₄)) ∙ ex)
              (ap (λ (t : Ps). get_elem? t.q_blocks b.block_id) (sym (some_inj h₄)) ∙ ey))
            (stored-IsRead (s.s_ctx i) a b x y both sx sy)
    ]

module _ {rdma_write : List ℕ → ℕ → List ℕ → List ℕ} {n : ℕ} where
  took_down-Reads :
      {s s' : Cluster} (m : Turn rdma_write n s s') (j : ℕ)
      → Reads (took_down m j) (read_blocks_down m j)
  took_down-Reads {s} (worker_recv {w = w} i alloc lt h) j =
      at_index
        (λ b k.
          IsTaken
            (b
              && not (
                  leb_ℤ (pos (s.worker i).s_ctx.buf_recv_counter)
                    ((s.worker i).recved_age +ℤ pos 1)))
            (got_bytes (s.worker k).s_ctx) (some (payload w.p_block, payload w.q_block)))
        i j (Worker-took alloc (s.worker i) h) (λ k. nil)
  took_down-Reads (ps_main h) j = nil
  took_down-Reads (ps_send i lt h) j = nil
  took_down-Reads (ps_recv i lt h) j = nil
  took_down-Reads (worker_main i d random lt h) j = nil
  took_down-Reads (worker_send i lt h) j = nil
  took_down-Reads (net_down i lt m) j = nil
  took_down-Reads (net_up i lt m) j = nil

  took_up-Reads :
      {s s' : Cluster} (m : Turn rdma_write n s s') (j : ℕ)
      → Reads (took_up m j) (read_blocks_up m j)
  took_up-Reads {s} (ps_recv {p = p} i lt h) j =
      at_index
        (λ b k.
          IsTaken
            (b
              && not (
                  ltb_ℤ (pos (s.ps.s_ctx i).buf_recv_counter +ℤ minus_one)
                    (s.ps.recved_iter i +ℤ pos 1)))
            (got_bytes (s.ps.s_ctx k)) (stored_from p (s.ps.s_ctx k).buffer))
        i j (Ps-took i s.ps h) (λ k. nil)
  took_up-Reads (ps_main h) j = nil
  took_up-Reads (ps_send i lt h) j = nil
  took_up-Reads (worker_main i d random lt h) j = nil
  took_up-Reads (worker_send i lt h) j = nil
  took_up-Reads (worker_recv i alloc lt h) j = nil
  took_up-Reads (net_down i lt m) j = nil
  took_up-Reads (net_up i lt m) j = nil

  pub taken_down-Reads :
      {s : Cluster} (r : Runs rdma_write n s) (j : ℕ) → Reads (taken_down r j) (read_down r j)
  taken_down-Reads (started h) j = nil
  taken_down-Reads (follow r m) j = Reads-append (taken_down-Reads r j) (took_down-Reads m j)

  pub taken_up-Reads :
      {s : Cluster} (r : Runs rdma_write n s) (j : ℕ) → Reads (taken_up r j) (read_up r j)
  taken_up-Reads (started h) j = nil
  taken_up-Reads (follow r m) j = Reads-append (taken_up-Reads r j) (took_up-Reads m j)
