-- ===== src/OneSided/Remote.antt =====
-- `client_remote_memory_ops` of client_rdma_op.cpp: a loop that puts random numbers into the source buffer,
-- behind their count, and writes the buffer to the server, a round for each key that is pressed. It stands
-- here over the list of the rounds, each with what `random` and `drand48` return; at the end of the list
-- it waits for a key, which is `out_of_fuel`. `src` is the pointer that the object has for its buffer, null as
-- it is declared; an access through a null pointer is a fault.
use stellar_bench.Base.{
  ℕ, zero, suc, ◌+◌, ◌*◌, ◌%◌, ◌≡◌, refl, ap, ◌∙◌, List, [], ◌∷◌, Option, some, none, ◌⊎◌, ℤ, pos,
  eqb_ℤ, ◌==◌, if◌then◌else◌, inl, inr,
}
use stellar_bench.Memory.{memcpy, le_bytes, words_bytes}
use stellar_bench.Fallible.{Fallible, out_of_fuel, null, ◌>>=◌, ◌>>◌, pure, deref}
use stellar_bench.OneSided.Calls.{
  Answers, Program, MemoryRegion, put, get, call, status_of, malloc, ibv_post_write, sleep,
}
use stellar_bench.OneSided.Client.{ClientOp}

-- The object with the bytes of its source buffer.
pub record Source : Type 0 where
  pub op : ClientOp
  pub src_bytes : List ℕ

-- What the two generators return in a round.
pub record Drawn : Type 0 where
  pub random : ℕ
  pub doubles : ℕ → ℕ

-- The array that the inner loop fills, from entry `i` on.
abbrev pub drawn_from : ℕ → ℕ → (ℕ → ℕ) → List ℕ
drawn_from zero i doubles = []
drawn_from (suc left) i doubles = doubles i ∷ drawn_from left (i + 1) doubles

module _ (lib : Answers) where
  -- An access through a pointer.
  abbrev nonnull : ℕ → Fallible (Program Source) (Unit {0})
  nonnull pointer = if pointer == 0 then null else pure tt

  -- A copy into the source buffer.
  abbrev copy_to_src : ℕ → List ℕ → Fallible (Program Source) (Unit {0})
  copy_to_src off bytes = do
    p ← get
    nonnull p.own.op.src
    src ← deref (memcpy p.own.src_bytes off bytes)
    put (λ s. record s { src_bytes = src })

  -- A round of the loop, up to its `getchar`: nothing frees the doubles, and nothing tests the pointer
  -- that `malloc` returns for them.
  unfoldable pub remote_round : MemoryRegion → Drawn → Fallible (Program Source) (Unit {0})
  remote_round mr d = do
    let ele_num = d.random % 10
    copy_to_src 0 (le_bytes 4 ele_num)
    call (malloc (ele_num * 8))
    q ← get
    if ele_num == 0 then pure tt else nonnull (lib.pointer q.calls)
    copy_to_src 4 (words_bytes (drawn_from ele_num 0 d.doubles))
    p ← get
    let attr = p.own.op.server_metadata_attr
    ret ← status_of lib (ibv_post_write p.own.op.client_qp mr attr.address attr.stag)
    if eqb_ℤ ret (pos 12) then call (sleep 1) else pure tt

  unfoldable pub remote_rounds : MemoryRegion → List Drawn → Fallible (Program Source) ℤ
  unfolding remote_round
  remote_rounds mr [] = out_of_fuel
  remote_rounds mr (d ∷ ds) = do remote_round mr d; remote_rounds mr ds

  -- What it does with its region, which it reads without a test.
  unfoldable pub remote_ops_on : Option MemoryRegion → List Drawn → Fallible (Program Source) ℤ
  unfolding remote_rounds
  remote_ops_on region ds = do mr ← deref region; copy_to_src 0 (le_bytes 4 0); remote_rounds mr ds

  unfoldable pub client_remote_memory_ops : List Drawn → Fallible (Program Source) ℤ
  unfolding remote_ops_on
  client_remote_memory_ops ds = do p ← get; remote_ops_on p.own.op.client_src_mr ds

-- With the null pointer that the object is declared with for its source buffer, the function faults
-- before it makes a call.
client_remote_memory_ops-null :
    (lib : Answers) (ds : List Drawn) (p : Program Source)
    → p.own.op.src ≡ 0
    → client_remote_memory_ops lib ds p ≡ null p
unfolding client_remote_memory_ops remote_ops_on
client_remote_memory_ops-null lib ds p none_set = elim (Option-cases p.own.op.client_src_mr) [
  | inl e ↦ ap (λ r. remote_ops_on lib r ds p) e
  | inr (mr, e) ↦ ap (λ r. remote_ops_on lib r ds p) e ∙ rw none_set refl
]
  where
    Option-cases : (o : Option MemoryRegion) → (o ≡ none) ⊎ ((mr : MemoryRegion) × (o ≡ some mr))
    Option-cases none = inl refl
    Option-cases (some mr) = inr (mr, refl)
