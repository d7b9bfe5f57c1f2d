-- ===== src/Cluster/Channel.antt =====
-- A connection as a channel: the sender's messages, each the bytes that stand in its buffer when its send
-- thread raises `can_send`, and the receiver's, each the bytes in its buffer when its receive thread
-- takes one.
use stellar_bench.Base.{
  ℕ, ◌+◌, ◌≤◌, ◌≡◌, Bool, List, [], ◌∷◌, ◌++◌, ℤ, pos, ◌+ℤ◌, ◌≤ℤ◌, length, take,
}
use stellar_bench.Context.{ClientContext, ConnContext}
use stellar_bench.Round.{ClientPc, posted, Link, minus_1}
use stellar_bench.Round.Invariant.{LinkInv}
use stellar_bench.Cluster.{Ends, Net}
use stellar_bench.Cluster.Rounds.{filled}
use stellar_bench.Cluster.Abstraction.{LinkOf}
use stellar_bench.Cluster.Safety.{IsQuiet}

-- A connection with the counters of the threads that send and receive on it.
pub record Channel : Type 0 where
  pub ends : Ends
  pub sent : ℤ
  pub taken : ℤ

abbrev pub sent_bytes : ClientContext → List ℕ
sent_bytes ctx = take ctx.buf_len ctx.buffer

abbrev pub got_bytes : ConnContext → List ℕ
got_bytes ctx = take ctx.buf_len ctx.buffer

module _ (rdma_write : List ℕ → ℕ → List ℕ → List ℕ) where
  -- What happens on a connection, with the messages that are sent and taken by it.
  pub data Event (c : Channel) : List (List ℕ) → List (List ℕ) → Channel → Type 0 where
    stays : Event c [] [] c
    moves : {e : Ends} → Net rdma_write c.ends e → Event c [] [] (record c { ends = e })
    fills :
        (prepared : Bool) (buf : List ℕ) (len : ℕ)
        → len ≤ length buf
        → length buf ≡ length c.ends.client.buffer
        → IsQuiet c.ends c.sent c.taken
        → Event c (take len buf ∷ []) [] (record c {
          ends = record (c.ends) { client = filled c.ends.client prepared buf len };
          sent = c.sent +ℤ pos 1;
        })
    takes :
        (ctx : ConnContext)
        → (c.taken +ℤ pos 2) ≤ℤ pos c.ends.conn.buf_recv_counter
        → Event c []
            (got_bytes c.ends.conn ∷ [])
            (record c { ends = record (c.ends) { conn = ctx }; taken = c.taken +ℤ pos 1 })

abbrev pub posts_at : ClientPc → ℕ → ℕ
posts_at posted n = n + 1
posts_at _ n = n

-- Writes that have been posted.
abbrev pub posts : Ends → ℕ
posts e = posts_at e.traffic.client e.client.buf_write_counter

-- Where the message after the first `taken` ones is.
pub record Holds (e : Ends) (taken : ℕ) (m : List ℕ) : Type 0 where
  pub fits : e.client.buf_len ≤ length e.client.buffer
  pub unposted : posts e ≡ taken → m ≡ sent_bytes e.client
  pub unwritten :
      (len : ℕ) (rest : List ℕ)
      → e.traffic.unwritten ≡ len ∷ rest
      → (len ≤ length e.client.buffer) × (m ≡ take len e.client.buffer)
  pub landed :
      (len : ℕ) (rest : List ℕ) → e.traffic.landed ≡ len ∷ rest → m ≡ take len e.conn.buffer
  pub arrived : e.conn.buf_recv_counter ≡ taken + 1 → m ≡ got_bytes e.conn

-- The messages sent are those taken and at most one more.
pub record Carries (c : Channel) (sent taken : List (List ℕ)) : Type 0 where
  pub sent_all : c.sent ≡ pos (length sent)
  pub taken_all : c.taken ≡ minus_1 (length taken)
  pub none_more : length sent ≡ length taken → sent ≡ taken
  pub one_more :
      length sent ≡ length taken + 1
      → (m : List ℕ) × (sent ≡ taken ++ (m ∷ [])) × Holds c.ends (length taken) m

-- The protocol's view of a connection.
pub record Sound (c : Channel) : Type 0 where
  pub link : Link
  pub stands_for : LinkOf c.ends link
  pub inv : LinkInv link
  pub sends : c.sent ≡ pos link.to_send
  pub takes : c.taken ≡ minus_1 link.taken
  pub close : link.to_send ≤ link.taken + 1
