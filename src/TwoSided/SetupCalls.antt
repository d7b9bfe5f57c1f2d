-- ===== src/TwoSided/SetupCalls.antt =====
-- What both ends ask of the libraries while they set up a connection: the calls, the last one first, and
-- answers without errors.
use stellar_bench.Base.{ℕ, ◌≡◌, ◌≢◌, false, some, List, ◌∷◌, pos, eqb_ℤ, arith}
use stellar_bench.Context.{Mr, buffer_size}
use stellar_bench.Verbs.{
  Library, SharedContext, QpInitAttr, Call, Access, RecvWr, local_remote_write, malloc_context,
  ibv_alloc_pd, ibv_create_comp_channel, ibv_create_cq, ibv_req_notify_cq, pthread_create,
  rdma_create_qp, posix_memalign, ibv_reg_mr, ibv_post_recv,
}

abbrev pub AllNonnull : Library → Type 0
AllNonnull lib = (calls : List Call) → lib.pointer calls ≢ 0

abbrev pub AllRegistered : Library → Type 0
AllRegistered lib = (calls : List Call) → (mr : Mr) × (lib.region calls ≡ some mr)

pub nonnull-false :
    (lib : Library)
    → AllNonnull lib
    → (calls : List Call) → eqb_ℤ (pos (lib.pointer calls)) (pos 0) ≡ false
nonnull-false lib nonnull calls = let h = nonnull calls in ground arith

-- The shared context of a device: the domain, the channel and the queue that the libraries returned.
abbrev pub made_context : Library → ℕ → List Call → SharedContext
made_context lib verbs older =
    let domain_calls = ibv_alloc_pd verbs ∷ malloc_context ∷ older in
    let channel_calls = ibv_create_comp_channel verbs ∷ domain_calls in
    let channel = lib.pointer channel_calls in
    record {
      ctx = verbs;
      pd = lib.pointer domain_calls;
      comp_channel = channel;
      cq = lib.pointer (ibv_create_cq verbs 10 channel ∷ channel_calls);
    }

-- The calls that make it, with the poll thread at the end.
abbrev pub context_calls : SharedContext → List Call → List Call
context_calls s older =
    pthread_create s.comp_channel
    ∷ ibv_req_notify_cq s.cq
    ∷ ibv_create_cq s.ctx 10 s.comp_channel
    ∷ ibv_create_comp_channel s.ctx
    ∷ ibv_alloc_pd s.ctx
    ∷ malloc_context
    ∷ older

-- The queue pair of the connection.
abbrev pub connection_calls : ℕ → QpInitAttr → SharedContext → List Call → List Call
connection_calls id attr s older = rdma_create_qp id s.pd attr ∷ context_calls s older

-- Memory of that size, registered.
abbrev pub buffer_calls : ℕ → ℕ → ℕ → Access → List Call → List Call
buffer_calls pd addr size access older =
    ibv_reg_mr pd addr size access ∷ posix_memalign size ∷ older

-- The two buffers at `buffer` and `msg` are registered, in this order and with these keys, and after that
-- a receive is posted: these are the calls since `older`.
pub record AreReady (lib : Library) (id pd buffer msg msg_size : ℕ) (access : Access)
    (buffer_mr msg_mr : Mr) (receive : RecvWr) (older calls : List Call) : Type 0 where
  pub buffer_key : lib.region (buffer_calls pd buffer buffer_size access older) ≡ some buffer_mr
  pub msg_key :
      lib.region (
        buffer_calls pd msg msg_size local_remote_write
          (buffer_calls pd buffer buffer_size access older))
      ≡ some msg_mr
  pub order :
      calls
      ≡ ibv_post_recv id receive
        ∷ buffer_calls pd msg msg_size local_remote_write
            (buffer_calls pd buffer buffer_size access older)
