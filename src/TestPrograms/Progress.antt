-- ===== src/TestPrograms/Progress.antt =====
-- What the two test programs have sent, posted and read, and how they go on.
use stellar_bench.Base.{
  ℕ, ◌+◌, ◌≡◌, ◌≤◌, ◌<◌, refl, sym, ap, ◌∙◌, Bool, true, false, some, List, [], ◌∷◌, length,
  Bool-cases, inl, inr, ◌⊎◌, arith,
}
use stellar_bench.Round.{Link, ClientPc, polling, spinning, posted, idle, waiting}
use stellar_bench.Round.Invariant.{LinkInv, writes, raised}
use stellar_bench.Cluster.{Ends, Net}
use stellar_bench.Cluster.Channel.{posts}
use stellar_bench.Cluster.Underway.{posts-writes}
use stellar_bench.Cluster.Abstraction.{LinkOf}
use stellar_bench.TestPrograms.{Pair, send_round, Reach}
use stellar_bench.TestPrograms.Rounds.{put_in, send_round-fills}
use stellar_bench.TestPrograms.Invariant.{Inv, Reach-Inv}

abbrev pub pending_at : Bool → ClientPc → ℕ
pending_at false pc = 0
pending_at true posted = 0
pending_at true _ = 1

-- 1 while a message waits in the sender's buffer to be posted.
abbrev pub pending : Ends → ℕ
pending e = pending_at e.client.can_send e.traffic.client

pending-raised : (e : Ends) (l : Link) → LinkOf e l → pending e ≡ raised l
pending-raised e l v = rw (← v.client, ← v.can_send) (at l.can_send l.client refl refl)
  where
    at :
        (up : Bool) (pc : ClientPc)
        → l.can_send ≡ up
        → l.client ≡ pc
        → pending_at l.can_send l.client ≡ raised l
    at false pc h k = rw h refl
    at true polling h k = rw (h, k) refl
    at true spinning h k = rw (h, k) refl
    at true posted h k = rw (h, k) refl

-- The counters of the two programs and what is under way.
pub record IsBalanced (s : Pair) : Type 0 where
  pub posted_all : posts s.ends + pending s.ends ≡ s.to_send_counter
  pub arrived_posts :
      s.ends.conn.buf_recv_counter
        + (length s.ends.traffic.unwritten + length s.ends.traffic.landed)
      ≡ posts s.ends
  pub one_behind : s.to_send_counter ≤ s.ends.client.buf_write_counter + 1
  pub read_arrived : s.read_counter ≤ s.ends.conn.buf_recv_counter

one_behind-link : (l : Link) → writes l + raised l ≡ l.to_send → l.to_send ≤ l.write_counter + 1
one_behind-link l h = ground arith

-- In every reachable state each message that test_send has put into its buffer has been posted once, but
-- for at most one that waits for it, and each that was posted has arrived or is under way.
pub balanced :
    (rdma_write : List ℕ → ℕ → List ℕ → List ℕ) (s : Pair) → Reach rdma_write s → IsBalanced s
balanced rdma_write s r =
    let v = Reach-Inv r in
    let l = v.link in
    let o = v.stands_for in
    let same = posts-writes s.ends l o in
    let wait = pending-raised s.ends l o in
    record {
      posted_all = omega (arith, same, wait, v.balanced, v.sent);
      arrived_posts = omega (arith, same, v.inv.arrived, o.recv_counter, o.in_flight);
      one_behind = omega (arith, one_behind-link l v.balanced, o.write_counter, v.sent);
      read_arrived = omega (arith, v.inv.in_order, v.taken, o.recv_counter);
    }

spinning-down :
    (l : Link)
    → l.client ≡ spinning
    → l.can_send ≡ false
    → writes l + raised l ≡ l.to_send
    → l.to_send ≡ l.write_counter
spinning-down l at down h = ground arith

nonempty : {A : Type 0} (xs : List A) → 0 < length xs → (x : A) × (rest : List A) × (xs ≡ x ∷ rest)
nonempty [] h = absurd (omega arith)
nonempty (x ∷ xs) h = (x, xs, refl)

empty_or : {A : Type 0} (xs : List A) → (xs ≡ []) ⊎ ((x : A) × (rest : List A) × (xs ≡ x ∷ rest))
empty_or [] = inl refl
empty_or (x ∷ xs) = inr (x, xs, refl)

-- What a poll thread can do at `polling`, for a token in one of four places.
moves_at_polling :
    (l : Link)
    → LinkInv l
    → l.client ≡ polling
    → (0 < l.ready) ⊎ ((0 < l.in_flight) × (l.server ≡ idle)) ⊎ (l.server ≡ waiting)
moves_at_polling l v h = ground arith

module _ (rdma_write : List ℕ → ℕ → List ℕ → List ℕ) (s : Pair) (r : Reach rdma_write s) where
  -- In every reachable state test_send puts its next message into the buffer, or a thread of the
  -- connection or the adapter has a move.
  pub goes_on : (send_round s ≡ some (put_in s)) ⊎ ((e : Ends) × Net rdma_write s.ends e)
  goes_on = at s.ends.traffic.client refl
    where
      v : Inv s
      v = Reach-Inv r

      o : LinkOf s.ends v.link
      o = v.stands_for

      at_spinning :
          s.ends.traffic.client ≡ spinning
          → (send_round s ≡ some (put_in s)) ⊎ ((e : Ends) × Net rdma_write s.ends e)
      at_spinning pc = elim (Bool-cases s.ends.client.can_send) [
        | inl up ↦ inr (_, Net.post pc up)
        | inr down ↦
            let even = spinning-down v.link (o.client ∙ pc) (o.can_send ∙ down) v.balanced in
            inl (
              send_round-fills s (omega (arith, even, v.sent, o.write_counter))
                (omega (arith, v.length_set, v.registered)))
      ]

      at_polling : s.ends.traffic.client ≡ polling → (e : Ends) × Net rdma_write s.ends e
      at_polling pc = elim (moves_at_polling v.link v.inv (o.client ∙ pc)) [
        | inl ready ↦
            let (m, rest, e) = nonempty s.ends.traffic.ready (omega (arith, ready, o.ready)) in
            (_, Net.receive m rest pc e)
        | inr (inl (flies, at_idle)) ↦ elim (empty_or s.ends.traffic.unwritten) [
          | inl none ↦
              let (len, rest, e) =
                nonempty s.ends.traffic.landed
                  (omega (arith, flies, o.in_flight, ap (length {A = ℕ}) none)) in
              (_, Net.arrive len rest (sym o.server ∙ at_idle) e)
          | inr (len, rest, e) ↦ (_, Net.land len rest e)
        ]
        | inr (inr waits) ↦ (_, Net.answer (sym o.server ∙ waits) v.allowed)
      ]

      at :
          (pc : ClientPc)
          → s.ends.traffic.client ≡ pc
          → (send_round s ≡ some (put_in s)) ⊎ ((e : Ends) × Net rdma_write s.ends e)
      at polling pc = inr (at_polling pc)
      at spinning pc = at_spinning pc
      at posted pc = inr (_, Net.clear pc)
