-- ===== src/TestPrograms/Invariant.antt =====
-- The link of the round protocol that the connection of the two test programs stands for, with their
-- counters. test_send waits for `buf_write_counter`, which the poll thread raises after it has lowered
-- `can_send`.
use mathlib.Core.Path.{subst}
use stellar_bench.Base.{
  ℕ, ◌+◌, ◌≡◌, ◌≤◌, ◌<◌, refl, sym, ap, ◌∙◌, true, List, length, inl, inr, arith,
}
use stellar_bench.Round.{Link, Move, receive, post, clear, arrive, answer, take, fresh, fill}
use stellar_bench.Round.Invariant.{LinkInv, Move-LinkInv, fill-LinkInv, writes, raised}
use stellar_bench.Cluster.{Ends, Net}
use stellar_bench.Cluster.Abstraction.{LinkOf, Net-LinkFollows}
use stellar_bench.Cluster.Pairs.{fill-LinkOf, take-LinkOf}
use stellar_bench.TestPrograms.{Pair, IsStart, Turn, sends, receives, moves, Reach, started, next}
use stellar_bench.TestPrograms.Rounds.{
  lettered, length-lettered, put_in, printed_line, send_round-cases, recv_round-cases,
}

-- Every message that was put into the buffer has been posted, or waits for it.
Move-balanced :
    {l l' : Link} → Move l l' → writes l + raised l ≡ l.to_send → writes l' + raised l' ≡ l'.to_send
Move-balanced (receive e h) b = ground arith
Move-balanced (post e h) b = ground arith
Move-balanced (clear e) b = ground arith
Move-balanced (arrive e h) b = b
Move-balanced (answer e h) b = b
Move-balanced (take h) b = b

fill-balanced :
    (l : Link)
    → l.to_send ≤ l.write_counter
    → writes l + raised l ≡ l.to_send
    → writes (fill l) + raised (fill l) ≡ (fill l).to_send
fill-balanced l h b = ground arith

pub record Inv (s : Pair) : Type 0 where
  pub link : Link
  pub stands_for : LinkOf s.ends link
  pub inv : LinkInv link
  pub sent : link.to_send ≡ s.to_send_counter
  pub taken : link.taken ≡ s.read_counter
  pub balanced : writes link + raised link ≡ link.to_send
  pub allowed : s.ends.conn.can_recv ≡ true
  pub length_set : s.ends.client.buf_len ≡ 100
  pub registered : 100 ≤ length s.ends.client.buffer

-- The moves on the connection leave this alone.
Net-kept :
    {rdma_write : List ℕ → ℕ → List ℕ → List ℕ} {e e' : Ends}
    → Net rdma_write e e'
    → (e'.conn.can_recv ≡ e.conn.can_recv)
      × (e'.client.buf_len ≡ e.client.buf_len)
      × (length e'.client.buffer ≡ length e.client.buffer)
Net-kept (Net.receive m rest pc r) = (refl, refl, refl)
Net-kept (Net.post pc up) = (refl, refl, refl)
Net-kept (Net.clear pc) = (refl, refl, refl)
Net-kept (Net.land len rest w) = (refl, refl, refl)
Net-kept (Net.arrive len rest pc w) = (refl, refl, refl)
Net-kept (Net.answer pc up) = (refl, refl, refl)

-- The link at the start: one on which the receiver may answer.
open_link : Link
open_link = record fresh { can_recv = true }

open_link-LinkInv : LinkInv open_link
unfolding open_link
open_link-LinkInv = record {
  one = refl;
  arrived = refl;
  sent = omega arith;
  in_order = omega arith;
  allowed = λ h. refl;
  counted = omega arith;
}

IsStart-Inv : (s : Pair) → IsStart s → Inv s
unfolding open_link
IsStart-Inv s h = record {
  link = open_link;
  stands_for = record {
    can_send = sym h.nothing_to_send;
    client = sym h.polls;
    write_counter = sym h.none_written;
    in_flight = rw (h.none_posted, h.none_landed) refl;
    server = sym h.idles;
    recv_counter = sym h.none_received;
    can_recv = sym h.allowed;
    ready = rw h.announced.1 refl;
  };
  inv = open_link-LinkInv;
  sent = sym h.none_sent;
  taken = sym h.none_read;
  balanced = refl;
  allowed = h.allowed;
  length_set = h.length_set;
  registered = h.registered;
}

put_in-Inv :
    (s : Pair) → Inv s → s.to_send_counter ≤ s.ends.client.buf_write_counter → Inv (put_in s)
put_in-Inv s v h =
    let l = v.link in
    let room : s.ends.client.buf_len ≤ length s.ends.client.buffer =
      omega (arith, v.length_set, v.registered) in
    record {
      link = fill l;
      stands_for =
          fill-LinkOf s.ends l s.ends.client.buf_prepared
            (lettered s.ends.client.buf_len s.to_send_counter s.ends.client.buffer)
            s.ends.client.buf_len v.stands_for;
      inv = fill-LinkInv v.inv;
      sent = ap (λ (k : ℕ). k + 1) v.sent;
      taken = v.taken;
      balanced = fill-balanced l (omega (arith, h, v.sent, v.stands_for.write_counter)) v.balanced;
      allowed = v.allowed;
      length_set = v.length_set;
      registered = omega (
        arith,
        v.registered,
        length-lettered s.ends.client.buf_len s.to_send_counter s.ends.client.buffer room,
      );
    }

printed_line-Inv :
    (s : Pair) (line : List ℕ)
    → Inv s
    → s.read_counter < s.ends.conn.buf_recv_counter
    → Inv (printed_line s line)
printed_line-Inv s line v h =
    let l = v.link in
    record {
      link = record l { taken = l.taken + 1; can_recv = true };
      stands_for =
          take-LinkOf s.ends l (record (s.ends.conn) { can_recv = true }) refl refl v.stands_for;
      inv = Move-LinkInv (take (omega (arith, h, v.taken, v.stands_for.recv_counter))) v.inv;
      sent = v.sent;
      taken = ap (λ (k : ℕ). k + 1) v.taken;
      balanced = v.balanced;
      allowed = refl;
      length_set = v.length_set;
      registered = v.registered;
    }

moves-Inv :
    {rdma_write : List ℕ → ℕ → List ℕ → List ℕ} (s : Pair) {e : Ends}
    → Inv s
    → Net rdma_write s.ends e
    → Inv (record s { ends = e })
moves-Inv s {e} v m =
    let (l', linked, sent, taken, how) = Net-LinkFollows v.link m v.stands_for in
    let (allowed, length_set, registered) = Net-kept m in
    record {
      link = l';
      stands_for = linked;
      inv = elim how [
        | inl same ↦ subst LinkInv (sym same) v.inv
        | inr move ↦ Move-LinkInv move v.inv
      ];
      sent = sent ∙ v.sent;
      taken = taken ∙ v.taken;
      balanced = elim how [
        | inl same ↦ subst (λ l. writes l + raised l ≡ l.to_send) (sym same) v.balanced
        | inr move ↦ Move-balanced move v.balanced
      ];
      allowed = allowed ∙ v.allowed;
      length_set = length_set ∙ v.length_set;
      registered = omega (arith, registered, v.registered);
    }

Turn-Inv :
    {rdma_write : List ℕ → ℕ → List ℕ → List ℕ} (s : Pair) {t : Pair}
    → Inv s
    → Turn rdma_write s t
    → Inv t
Turn-Inv s v (sends h) = elim (send_round-cases s (omega (arith, v.length_set, v.registered)) h) [
  | inl same ↦ rw same v
  | inr (le, same) ↦ rw same (put_in-Inv s v le)
]
Turn-Inv s v (receives h) = elim (recv_round-cases s h) [
  | inl same ↦ rw same v
  | inr (lt, line, same) ↦ rw same (printed_line-Inv s line v lt)
]
Turn-Inv s v (moves m) = moves-Inv s v m

pub Reach-Inv : {rdma_write : List ℕ → ℕ → List ℕ → List ℕ} {s : Pair} → Reach rdma_write s → Inv s
Reach-Inv {s = s} (started h) = IsStart-Inv s h
Reach-Inv (next {s} r m) = Turn-Inv s (Reach-Inv r) m
