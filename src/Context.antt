-- ===== src/Context.antt =====
-- `struct client_context` and `struct conn_context` (rdma_two_sided_*_op.h), the message of common.h
-- that the receiving side sends back, and `InitContext` of ps.cpp. The counters count up from zero.
use stellar_bench.Base.{
  ℕ, zero, suc, ◌+◌, ◌≡◌, arith, Bool, true, false, List, ◌*◌, ◌==◌, if◌then◌else◌,
}

-- `BUFFER_SIZE` of common.h
abbrev pub buffer_size : ℕ
buffer_size = 500 * 1024 * 1024

-- `enum message_id`
pub data MessageId : Type 0 where
  msg_invalid msg_mr msg_ready msg_done : MessageId

-- `struct message`, with the memory region that `MSG_MR` announces.
pub record Message : Type 0 where
  pub id : MessageId
  pub addr : ℕ
  pub rkey : ℕ

-- What `ibv_reg_mr` returned.
pub record Mr : Type 0 where
  pub addr : ℕ
  pub lkey : ℕ
  pub rkey : ℕ

-- The pointers `buffer` and `msg` are an address and what it points to.
pub record ClientContext : Type 0 where
  pub buffer_addr : ℕ
  pub buffer : List ℕ
  pub buf_len : ℕ
  pub can_send : Bool
  pub buf_prepared : Bool
  pub buf_registered : Bool
  pub buf_write_counter : ℕ
  pub buffer_mr : Mr
  pub msg_addr : ℕ
  pub msg : Message
  pub msg_mr : Mr
  pub peer_addr : ℕ
  pub peer_rkey : ℕ

pub record ConnContext : Type 0 where
  pub buffer_addr : ℕ
  pub buffer : List ℕ
  pub buf_len : ℕ
  pub can_recv : Bool
  pub buf_recv_counter : ℕ
  pub buf_prepared : Bool
  pub buf_registered : Bool
  pub buffer_mr : Mr
  pub msg_addr : ℕ
  pub msg : Message
  pub msg_mr : Mr

-- An array as a function of the index.
abbrev pub update {ℓ} : {A : Type ℓ} → (ℕ → A) → ℕ → A → ℕ → A
update f i a j = if i == j then a else f j

-- One round of the loop of `InitContext`: neither `can_send` nor `can_recv` is written.
unfoldable pub init_client : ClientContext → ClientContext
init_client c = record c { buf_prepared = false; buf_registered = false; buf_write_counter = 0 }

unfoldable pub init_conn : ConnContext → ConnContext
init_conn c = record c { buf_prepared = false; buf_registered = false; buf_recv_counter = 0 }

-- The loop from entry `i` on, with the entries that are left.
unfoldable pub init_context :
    ℕ → ℕ → (ℕ → ClientContext) → (ℕ → ConnContext) → (ℕ → ClientContext) × (ℕ → ConnContext)
unfolding init_client init_conn
init_context zero i c_ctx s_ctx = (c_ctx, s_ctx)
init_context (suc left) i c_ctx s_ctx =
    init_context left (i + 1) (update c_ctx i (init_client (c_ctx i)))
      (update s_ctx i (init_conn (s_ctx i)))

==_self : (i : ℕ) → (i == i) ≡ true
==_self i = ground arith

pub update_self {ℓ} : {A : Type ℓ} (f : ℕ → A) (i : ℕ) (a : A) → update f i a i ≡ a
update_self f i a = rw (==_self i)
