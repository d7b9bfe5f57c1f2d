-- ===== src/TestPrograms/Overwrite.antt =====
-- test_send counts a message as written once its write is posted, whether or not the adapter has read the
-- buffer.
use stellar_bench.Base.{
  ℕ, zero, suc, ◌+◌, ◌≡◌, ◌≤◌, ◌<◌, refl, sym, ap, ◌∙◌, false, List, [], ◌∷◌, ◌++◌, length, arith,
  take, drop, replicate,
}
use stellar_bench.Round.{Link, polling, idle}
use stellar_bench.Round.Invariant.{LinkInv, writes, raised}
use stellar_bench.Cluster.{Net}
use stellar_bench.Cluster.Safety.{empty}
use stellar_bench.Cluster.Underway.{take-write}
use stellar_bench.TestPrograms.{Pair, letter, Reach, Turns, done, more, sends, moves}
use stellar_bench.TestPrograms.Rounds.{send_round-fills, lettered, length-lettered}
use stellar_bench.TestPrograms.Invariant.{Reach-Inv}

take-replicate :
    (len n v : ℕ) (ys : List ℕ) → len ≤ n → take len (replicate n v ++ ys) ≡ replicate len v
take-replicate zero n v ys h = refl
take-replicate (suc len) zero v ys h = absurd (omega arith)
take-replicate (suc len) (suc n) v ys h = ap (◌∷◌ v) (take-replicate len n v ys (omega arith))

-- The link while a write is posted and the poll thread is done with it.
posted_quiet :
    (l : Link)
    → LinkInv l
    → l.client ≡ polling
    → l.can_send ≡ false
    → 0 < l.in_flight
    → writes l + raised l ≡ l.to_send
    → (l.in_flight ≡ 1)
      × (l.server ≡ idle)
      × (l.to_send ≡ l.write_counter)
      × (l.recv_counter + 1 ≡ l.to_send)
posted_quiet l v at down flies b = ground arith

module _ (rdma_write : List ℕ → ℕ → List ℕ → List ℕ)
    (writes_start : (src : List ℕ) (len : ℕ) (dst : List ℕ)
      → rdma_write src len dst ≡ take len src ++ drop len dst) where
  -- Once the poll thread has posted the write of a message and is done with it, and the adapter has yet
  -- to read the buffer, the two programs can go on so that this message, counted as the one it is,
  -- arrives with the letter of the next one in all of its bytes.
  pub overwritten :
      (s : Pair) (len : ℕ) (rest : List ℕ)
      → Reach rdma_write s
      → s.ends.traffic.client ≡ polling
      → s.ends.client.can_send ≡ false
      → s.ends.traffic.unwritten ≡ len ∷ rest
      → len ≤ 100
      → (t : Pair) × Turns rdma_write s t
        × (t.ends.conn.buf_recv_counter ≡ s.to_send_counter)
        × (t.ends.conn.buf_len ≡ len)
        × (take len t.ends.conn.buffer ≡ replicate len (letter s.to_send_counter))
  overwritten s len rest r pc down u small =
      let v = Reach-Inv r in
      let o = v.stands_for in
      let flies : 0 < v.link.in_flight = omega (arith, o.in_flight, ap (length {A = ℕ}) u) in
      let (one, at_idle, even, last) =
        posted_quiet v.link v.inv (o.client ∙ pc) (o.can_send ∙ down) flies v.balanced in
      let fills =
        send_round-fills s (omega (arith, even, v.sent, o.write_counter))
          (omega (arith, v.length_set, v.registered)) in
      let src = lettered s.ends.client.buf_len s.to_send_counter s.ends.client.buffer in
      let within : len ≤ s.ends.client.buf_len = omega (arith, small, v.length_set) in
      let fits : len ≤ length src = omega (
        arith,
        within,
        v.length_set,
        v.registered,
        length-lettered s.ends.client.buf_len s.to_send_counter s.ends.client.buffer
            (omega (arith, v.length_set, v.registered)),
      ) in
      let none : s.ends.traffic.landed ≡ [] =
        empty s.ends.traffic.landed (omega (arith, one, o.in_flight, ap (length {A = ℕ}) u)) in
      (
        _,
        more (more (more done (sends fills)) (moves (Net.land len rest u)))
            (moves (Net.arrive len [] (sym o.server ∙ at_idle) (rw none refl))),
        omega (arith, last, o.recv_counter, v.sent),
        refl,
        take-write rdma_write writes_start src len s.ends.conn.buffer fits
            ∙ take-replicate len s.ends.client.buf_len (letter s.to_send_counter) _ within,
      )
