-- ===== src/Cluster/Rounds.antt =====
-- What a round of a thread's loop changes, when it does not fault: nothing, or what its guard allows.
use stellar_bench.Base.{
  ℕ, ◌+◌, ◌≤◌, ◌≡◌, sym, Bool, true, false, some, List, ◌⊎◌, inl, inr, pos, minus_one, ◌+ℤ◌, ltb_ℤ,
  leb_ℤ, eqb_ℤ, Bool-cases, length, get_elem?, >>=-eq-some, some_inj, arith,
}
use stellar_bench.Block.{Block, Region, block_size}
use stellar_bench.Context.{ClientContext, update}
use stellar_bench.Memory.{memcpy, read, words_bytes}
use stellar_bench.Memory.Bounds.{memcpy_bounds, read_bounds}
use stellar_bench.Wire.{data_size, total_len, copy_in, header, receive_block}
use stellar_bench.Ps
use stellar_bench.Ps.{Ps, int_bits}
use stellar_bench.Worker
use stellar_bench.Worker.{Worker}
use stellar_bench.Worker.Descent.{Doubles, fake_sub_mf}

-- A message that is copied in has room in the buffer, which keeps its size.
pub copy_in_bounds :
    (pb qb : Block) (buf : List ℕ) {out : List ℕ}
    → copy_in pb qb buf ≡ some out
    → (total_len pb qb ≤ length buf) × (length out ≡ length buf)
unfolding copy_in total_len
copy_in_bounds pb qb buf {out} h =
    let (buf₁, e₁, h₁) = >>=-eq-some (memcpy buf 0 (header pb)) _ h in
    let (p_data, e₂, h₂) =
      >>=-eq-some (read (words_bytes pb.eles.words) 0 (data_size pb.ele_num)) _ h₁ in
    let (buf₂, e₃, h₃) = >>=-eq-some (memcpy buf₁ block_size p_data) _ h₂ in
    let (buf₃, e₄, h₄) =
      >>=-eq-some (memcpy buf₂ (block_size + data_size pb.ele_num) (header qb)) _ h₃ in
    let (q_data, e₅, h₅) =
      >>=-eq-some (read (words_bytes qb.eles.words) 0 (data_size qb.ele_num)) _ h₄ in
    let a = memcpy_bounds buf 0 (header pb) e₁ in
    let b = memcpy_bounds buf₁ block_size p_data e₃ in
    let c = memcpy_bounds buf₂ (block_size + data_size pb.ele_num) (header qb) e₄ in
    let d = memcpy_bounds buf₃ (block_size + data_size pb.ele_num + block_size) q_data h₅ in
    let size = read_bounds (words_bytes qb.eles.words) 0 (data_size qb.ele_num) e₅ in omega arith

-- The sender's context with a message in its buffer.
abbrev pub filled : ClientContext → Bool → List ℕ → ℕ → ClientContext
filled ctx prepared buf len = record ctx {
  buffer = buf;
  buf_len = len;
  buf_prepared = prepared;
  can_send = true;
}

pub main_round-cases :
    (s : Ps) {p : Ps}
    → Ps.main_round s ≡ some p
    → (p ≡ s)
      ⊎ ((Ps.can_merge s.iter_t s.recved_iter s.worker_num ≡ true)
          × (p ≡ record s { completed_iter = s.iter_t; iter_t = s.iter_t +ℤ pos 1 }))
unfolding Ps.main_round
main_round-cases s {p} h = elim (Bool-cases (Ps.can_merge s.iter_t s.recved_iter s.worker_num)) [
  | inr no_merge ↦ let e = rw no_merge at h in inl (sym (some_inj e))
  | inl merges ↦
      let e = rw merges at h in
      elim (Bool-cases (eqb_ℤ (s.iter_t +ℤ pos 1) (pos 1200))) [
        | inl over ↦ let f = rw over at e in cc
        | inr more ↦ let f = rw more at e in inr (merges, sym (some_inj f))
      ]
]

-- A round of the server's send thread that filled the buffer.
abbrev pub Filled : ℕ → Ps → Ps → Type 0
Filled i s p =
    (Ps.can_send (s.to_send_iter i) s.completed_iter ≡ true)
    × (ps qs : List Block) × (buf : List ℕ) × (len : ℕ) × (len ≤ length (s.c_ctx i).buffer)
    × (length buf ≡ length (s.c_ctx i).buffer)
    × (p ≡ record s {
      p_blocks = ps;
      q_blocks = qs;
      c_ctx = update s.c_ctx i (filled (s.c_ctx i) true buf len);
      to_send_iter = update s.to_send_iter i (s.to_send_iter i +ℤ pos 1);
    })

pub send_round-cases :
    (i : ℕ) (s : Ps) {p : Ps}
    → Ps.send_round i s ≡ some p
    → ((Ps.can_send (s.to_send_iter i) s.completed_iter ≡ false) × (p ≡ s)) ⊎ Filled i s p
unfolding Ps.send_round
send_round-cases i s {p} h = elim (Bool-cases (Ps.can_send (s.to_send_iter i) s.completed_iter)) [
  | inr waits ↦ let e = rw waits at h in inl (waits, sym (some_inj e))
  | inl sends ↦
      let e = rw sends at h in
      let (pb, e₁, h₁) = >>=-eq-some (get_elem? s.p_blocks (s.worker_pidx i)) _ e in
      let (qb, e₂, h₂) = >>=-eq-some (get_elem? s.q_blocks (s.worker_qidx i)) _ h₁ in
      let pb' = record pb { data_age = int_bits (s.to_send_iter i) } in
      let qb' = record qb { data_age = int_bits (s.to_send_iter i) } in
      let (buf, e₃, h₃) = >>=-eq-some (copy_in pb' qb' (s.c_ctx i).buffer) _ h₂ in
      let (room, same) = copy_in_bounds pb' qb' (s.c_ctx i).buffer e₃ in
      inr (sends, _, _, buf, _, room, same, sym (some_inj h₃))
]

-- A round of the server's receive thread that took a message.
abbrev pub Took : ℕ → Ps → Ps → Type 0
Took i s p =
    (ltb_ℤ (pos (s.s_ctx i).buf_recv_counter +ℤ minus_one) (s.recved_iter i +ℤ pos 1) ≡ false)
    × (ps qs : List Block) × (p ≡ record s {
      p_blocks = ps;
      q_blocks = qs;
      recved_iter = update s.recved_iter i (s.recved_iter i +ℤ pos 1);
      s_ctx = update s.s_ctx i (record (s.s_ctx i) { buf_prepared = false; can_recv = true });
    })

pub recv_round-cases :
    (i : ℕ) (s : Ps) {p : Ps}
    → Ps.recv_round i s ≡ some p
    → ((ltb_ℤ (pos (s.s_ctx i).buf_recv_counter +ℤ minus_one) (s.recved_iter i +ℤ pos 1) ≡ true)
        × (p ≡ s))
      ⊎ Took i s p
unfolding Ps.recv_round
recv_round-cases i s {p} h =
    let none_new =
      ltb_ℤ (pos (s.s_ctx i).buf_recv_counter +ℤ minus_one) (s.recved_iter i +ℤ pos 1) in
    elim (Bool-cases none_new) [
      | inl waits ↦ let e = rw waits at h in inl (waits, sym (some_inj e))
      | inr takes ↦
          let e = rw takes at h in
          let (a, e₁, h₁) = >>=-eq-some (receive_block (s.s_ctx i).buffer 0) _ e in
          let (ps, e₂, h₂) = >>=-eq-some (Ps.store_block s.p_blocks a) _ h₁ in
          let (b, e₃, h₃) =
            >>=-eq-some (receive_block (s.s_ctx i).buffer (block_size + data_size a.ele_num)) _
              h₂ in
          let (qs, e₄, h₄) = >>=-eq-some (Ps.store_block s.q_blocks b) _ h₃ in
          inr (takes, ps, qs, sym (some_inj h₄))
    ]

-- A worker's round of `main` that computed an iteration.
abbrev pub Computed : Worker → Worker → Type 0
Computed w w' =
    (Worker.can_compute w.iter_t w.recved_age ≡ true)
    × (p q : Block) × (w' ≡ record w {
      p_block = p;
      q_block = q;
      completed_iter = w.iter_t;
      iter_t = w.iter_t +ℤ pos 1;
    })

pub worker_main_round-cases :
    (d : Doubles) (random : ℕ → ℕ) (w : Worker) {w' : Worker}
    → Worker.main_round d random w ≡ some w'
    → (w' ≡ w) ⊎ Computed w w'
unfolding Worker.main_round
worker_main_round-cases d random w {w'} h =
    elim (Bool-cases (Worker.can_compute w.iter_t w.recved_age)) [
      | inr waits ↦ let e = rw waits at h in inl (sym (some_inj e))
      | inl computes ↦
          let e = rw computes at h in
          let (blocks, e₁, h₁) = >>=-eq-some (fake_sub_mf d random w.p_block w.q_block) _ e in
          inr (computes, blocks.0, blocks.1, sym (some_inj h₁))
    ]

-- A worker's round that filled its buffer.
abbrev pub Replied : Worker → Worker → Type 0
Replied w w' =
    (Worker.can_send w.to_send_age w.completed_iter ≡ true)
    × (buf : List ℕ) × (len : ℕ) × (len ≤ length w.c_ctx.buffer)
    × (length buf ≡ length w.c_ctx.buffer)
    × (w' ≡ record w {
      c_ctx = filled w.c_ctx w.c_ctx.buf_prepared buf len;
      to_send_age = w.to_send_age +ℤ pos 1;
    })

pub worker_send_round-cases :
    (w : Worker) {w' : Worker}
    → Worker.send_round w ≡ some w'
    → ((Worker.can_send w.to_send_age w.completed_iter ≡ false) × (w' ≡ w)) ⊎ Replied w w'
unfolding Worker.send_round
worker_send_round-cases w {w'} h =
    elim (Bool-cases (Worker.can_send w.to_send_age w.completed_iter)) [
      | inr waits ↦ let e = rw waits at h in inl (waits, sym (some_inj e))
      | inl sends ↦
          let e = rw sends at h in
          let (buf, e₁, h₁) = >>=-eq-some (copy_in w.p_block w.q_block w.c_ctx.buffer) _ e in
          let (room, same) = copy_in_bounds w.p_block w.q_block w.c_ctx.buffer e₁ in
          inr (sends, buf, _, room, same, sym (some_inj h₁))
    ]

-- A worker's round that took a message.
abbrev pub Got : Worker → Worker → Type 0
Got w w' =
    (leb_ℤ (pos w.s_ctx.buf_recv_counter) (w.recved_age +ℤ pos 1) ≡ false)
    × (p q : Block) × (w' ≡ record w {
      p_block = p;
      q_block = q;
      recved_age = w.recved_age +ℤ pos 1;
      s_ctx = record (w.s_ctx) { can_recv = true };
    })

pub worker_recv_round-cases :
    (alloc : ℕ → Region) (w : Worker) {w' : Worker}
    → Worker.recv_round alloc w ≡ some w'
    → ((leb_ℤ (pos w.s_ctx.buf_recv_counter) (w.recved_age +ℤ pos 1) ≡ true) × (w' ≡ w)) ⊎ Got w w'
unfolding Worker.recv_round
worker_recv_round-cases alloc w {w'} h =
    elim (Bool-cases (leb_ℤ (pos w.s_ctx.buf_recv_counter) (w.recved_age +ℤ pos 1))) [
      | inl waits ↦ let e = rw waits at h in inl (waits, sym (some_inj e))
      | inr takes ↦
          let e = rw takes at h in
          let (a, e₁, h₁) = >>=-eq-some (receive_block w.s_ctx.buffer 0) _ e in
          let (p, e₂, h₂) = >>=-eq-some (Worker.store_block alloc w.p_block a) _ h₁ in
          let (b, e₃, h₃) =
            >>=-eq-some (receive_block w.s_ctx.buffer (block_size + data_size a.ele_num)) _ h₂ in
          let (q, e₄, h₄) = >>=-eq-some (Worker.store_block alloc w.q_block b) _ h₃ in
          inr (takes, p, q, sym (some_inj h₄))
    ]
