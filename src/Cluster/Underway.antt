-- ===== src/Cluster/Underway.antt =====
-- The bytes of the message that is under way on a connection, through the moves of the poll threads and
-- the adapter.
use mathlib.Core.Path.{subst}
use stellar_bench.Base.{
  ℕ, ◌+◌, ◌%◌, ◌^◌, ◌≤◌, ◌<◌, ◌≡◌, refl, sym, ap, ◌∙◌, true, List, [], ◌∷◌, ◌++◌, length, take,
  drop, arith, take-length_append,
}
use stellar_bench.Memory.Bounds.{length-take}
use stellar_bench.Round.{ClientPc, polling, spinning, posted, Link}
use stellar_bench.Round.Invariant.{writes, raised}
use stellar_bench.Cluster.{Ends, Net}
use stellar_bench.Cluster.Abstraction.{LinkOf}
use stellar_bench.Cluster.Channel.{Channel, posts, posts_at, Holds, Sound}

-- A message is under way, and where.
pub record Underway (e : Ends) (taken : ℕ) : Type 0 where
  arrived_posts :
      e.conn.buf_recv_counter + (length e.traffic.unwritten + length e.traffic.landed) ≡ posts e
  in_order : taken ≤ e.conn.buf_recv_counter
  at_most : posts e ≤ taken + 1
  ready_to_post : e.traffic.client ≡ spinning → e.client.can_send ≡ true → posts e ≡ taken

pub posts-writes : (e : Ends) (l : Link) → LinkOf e l → posts e ≡ writes l
posts-writes e l v = rw (← v.client, ← v.write_counter) (at l.client refl)
  where
    at : (pc : ClientPc) → l.client ≡ pc → posts_at l.client l.write_counter ≡ writes l
    at polling h = rw h refl
    at spinning h = rw h refl
    at posted h = rw h refl

spinning-raised : (l : Link) → l.client ≡ spinning → l.can_send ≡ true → raised l ≡ 1
spinning-raised l at_loop up = rw (up, at_loop) refl

pub underway :
    (c : Channel) (x : Sound c) → x.link.to_send ≡ x.link.taken + 1 → Underway c.ends x.link.taken
underway c x one =
    let l = x.link in
    let v = x.stands_for in
    let same = posts-writes c.ends l v in
    record {
      arrived_posts = omega (arith, x.inv.arrived, same, v.recv_counter, v.in_flight);
      in_order = omega (arith, x.inv.in_order, v.recv_counter);
      at_most = omega (arith, x.inv.sent, same);
      ready_to_post = λ at_loop up. omega (
        arith,
        spinning-raised l (v.client ∙ at_loop) (v.can_send ∙ up),
        x.inv.sent,
        x.inv.in_order,
        x.inv.arrived,
        same,
      );
    }

pub absent : {A : Type 0} (xs : List A) (x : A) (rest : List A) → length xs ≡ 0 → ¬ (xs ≡ x ∷ rest)
absent {A} xs x rest h e = omega (arith, h, ap (length {A = A}) e)

-- The only element of a list that was empty.
head_of_only :
    (xs : List ℕ) (x y : ℕ) (rest : List ℕ) → length xs ≡ 0 → (xs ++ (x ∷ [])) ≡ y ∷ rest → x ≡ y
head_of_only [] x y rest h e = cc
head_of_only (a ∷ xs) x y rest h e = absurd (omega arith)

module _ (rdma_write : List ℕ → ℕ → List ℕ → List ℕ)
    (writes_start : (src : List ℕ) (len : ℕ) (dst : List ℕ)
      → rdma_write src len dst ≡ take len src ++ drop len dst) where
  pub take-write :
      (src : List ℕ) (len : ℕ) (dst : List ℕ)
      → len ≤ length src
      → take len (rdma_write src len dst) ≡ take len src
  take-write src len dst h = rw (writes_start src len dst) (
      ap (λ k. take k (take len src ++ drop len dst)) (sym (length-take len src h))
      ∙ take-length_append (take len src) (drop len dst))

  pub Net-Holds :
      {e e' : Ends} (t : ℕ) (m : List ℕ)
      → Underway e t
      → length e.client.buffer < 2 ^ 32
      → Net rdma_write e e'
      → Holds e t m
      → Holds e' t m
  Net-Holds {e} t m u small (Net.receive msg rest pc r) h = record {
    fits = h.fits;
    unposted = λ p. h.unposted (rw pc p);
    unwritten = h.unwritten;
    landed = h.landed;
    arrived = h.arrived;
  }
  Net-Holds {e} t m u small (Net.post pc up) h =
      let at = u.ready_to_post pc up in
      let counter : e.client.buf_write_counter ≡ t = rw pc at at in
      let none : length e.traffic.unwritten ≡ 0 = omega (arith, at, u.arrived_posts, u.in_order) in
      let len : e.client.buf_len % 2 ^ 32 ≡ e.client.buf_len = omega (arith, h.fits, small) in
      record {
        fits = h.fits;
        unposted = λ p. absurd (omega (arith, p, counter));
        unwritten = λ len' rest' w'.
            let same = sym len ∙ head_of_only _ _ len' rest' none w' in
            (
              subst (λ k. k ≤ length e.client.buffer) same h.fits,
              subst (λ k. m ≡ take k e.client.buffer) same (h.unposted at),
            );
        landed = h.landed;
        arrived = h.arrived;
      }
  Net-Holds {e} t m u small (Net.clear pc) h = record {
    fits = h.fits;
    unposted = λ p. h.unposted (rw pc p);
    unwritten = h.unwritten;
    landed = h.landed;
    arrived = h.arrived;
  }
  Net-Holds {e} t m u small (Net.land len rest w) h =
      let (fits, same) = h.unwritten len rest w in
      record {
        fits = h.fits;
        unposted = h.unposted;
        unwritten = λ len' rest' w'. absurd (
            omega (
              arith,
              u.in_order,
              u.at_most,
              u.arrived_posts,
              ap (length {A = ℕ}) w,
              ap (length {A = ℕ}) w',
            ));
        landed = λ len' rest' w'.
            let none : length e.traffic.landed ≡ 0 =
              omega (arith, u.in_order, u.at_most, u.arrived_posts, ap (length {A = ℕ}) w) in
            subst (λ k. m ≡ take k (rdma_write e.client.buffer len e.conn.buffer))
              (head_of_only _ len len' rest' none w')
              (same ∙ sym (take-write e.client.buffer len e.conn.buffer fits));
        arrived = λ p. absurd (omega (arith, p, u.arrived_posts, u.at_most, ap (length {A = ℕ}) w));
      }
  Net-Holds {e} t m u small (Net.arrive len rest pc w) h = record {
    fits = h.fits;
    unposted = h.unposted;
    unwritten = h.unwritten;
    landed = λ len' rest' w'. absurd (
        omega (
          arith,
          u.in_order,
          u.at_most,
          u.arrived_posts,
          ap (length {A = ℕ}) w,
          ap (length {A = ℕ}) w',
        ));
    arrived = λ p. h.landed len rest w;
  }
  Net-Holds {e} t m u small (Net.answer pc up) h = record {
    fits = h.fits;
    unposted = h.unposted;
    unwritten = h.unwritten;
    landed = h.landed;
    arrived = h.arrived;
  }
