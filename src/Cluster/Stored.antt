-- ===== src/Cluster/Stored.antt =====
-- What a block holds after `rdma_recvTd` has stored a message in it.
use mathlib.Core.Path.{subst}
use stellar_bench.Base.{
  ℕ, ◌≡◌, sym, ap, ◌∙◌, List, [], ◌∷◌, ◌++◌, some, length, get_elem?, get_elem?-set_self, take,
  drop, take-length_append, take-append_drop, >>=-eq-some, some_inj, append-nil, zero, suc, ◌<◌,
  Bool-cases, inl, inr, arith, leb,
}
use stellar_bench.Block.{Block, Region}
use stellar_bench.Context.{ConnContext}
use stellar_bench.Wire.{overwrite, Received, receive}
use stellar_bench.Wire.Image.{image}
use stellar_bench.Wire.RoundTrip.{IsRepresentable, contents, receive-image}
use stellar_bench.Ps
use stellar_bench.Ps.{Ps}
use stellar_bench.Worker
use stellar_bench.Worker.{Worker}
use stellar_bench.Cluster.Channel.{got_bytes}
use stellar_bench.Cluster.Payloads.{Payload, payload, IsRead}

overwrite-take :
    (old new : List ℕ) {out : List ℕ} (n : ℕ)
    → overwrite old new ≡ some out
    → n ≡ length new
    → take n out ≡ take n new
unfolding overwrite
overwrite-take old new {out} n h e = elim (Bool-cases (leb (length new) (length old))) [
  | inr small ↦ let f = rw small at h in cc
  | inl room ↦
      let f = rw room at h in
      rw (e, ← some_inj f)
        (take-length_append new (drop (length new) old)
          ∙ sym (ap (take (length new)) (sym (append-nil new)) ∙ take-length_append new []))
]

-- What is stored of `r`, and that block `x` holds it.
abbrev pub kept : Received → List ℕ → Payload
kept r words = record {
  block_id = r.block_id;
  data_age = r.data_age;
  sta_idx = r.sta_idx;
  height = r.height;
  ele_num = r.ele_num;
  words = words;
}

abbrev pub IsStored : Received → Block → Type 0
IsStored r x = r.ele_num ≡ length r.words → payload x ≡ kept r (take r.ele_num r.words)

pub Worker-IsStored :
    (alloc : ℕ → Region) (old : Block) (r : Received) {x : Block}
    → Worker.store_block alloc old r ≡ some x
    → IsStored r x
unfolding Worker.store_block
Worker-IsStored alloc old r {x} h counted =
    let (words, e, h') = >>=-eq-some (overwrite (alloc r.ele_num).words r.words) _ h in
    ap payload (sym (some_inj h'))
    ∙ ap (kept r) (overwrite-take (alloc r.ele_num).words r.words r.ele_num e counted)

get_elem?-some-lt : (bs : List Block) (i : ℕ) (b : Block) → get_elem? bs i ≡ some b → i < length bs
get_elem?-some-lt [] i b h = cc
get_elem?-some-lt (x ∷ bs) zero b h = omega arith
get_elem?-some-lt (x ∷ bs) (suc i) b h = omega (arith, get_elem?-some-lt bs i b h)

-- The server's blocks hold it at the id that `r` has.
pub Ps-IsStored :
    (bs : List Block) (r : Received) {bs' : List Block}
    → Ps.store_block bs r ≡ some bs'
    → (x : Block) × (get_elem? bs' r.block_id ≡ some x) × IsStored r x
unfolding Ps.store_block
Ps-IsStored bs r {bs'} h =
    let (b, e₁, h₁) = >>=-eq-some (get_elem? bs r.block_id) _ h in
    let (words, e₂, h₂) = >>=-eq-some (overwrite b.eles.words r.words) _ h₁ in
    let x : Block = record b {
      block_id = r.block_id;
      sta_idx = r.sta_idx;
      height = r.height;
      ele_num = r.ele_num;
      is_p = r.is_p;
      eles = record { addr = b.eles.addr; words = words };
      data_age = r.data_age;
    } in
    (
      x,
      ap (λ (t : List Block). get_elem? t r.block_id) (sym (some_inj h₂))
          ∙ get_elem?-set_self bs r.block_id x (get_elem?-some-lt bs r.block_id b e₁),
      λ counted. ap (kept r) (overwrite-take b.eles.words r.words r.ele_num e₂ counted),
    )

-- A message at the start of the buffer is received as what it carries.
pub receive-got :
    (c : ConnContext) (p q : Block) (a b : Received)
    → receive c.buffer ≡ some (a, b)
    → IsRepresentable p
    → IsRepresentable q
    → got_bytes c ≡ image p q
    → (a ≡ contents p) × (b ≡ contents q)
receive-got c p q a b h rp rq got =
    let whole : c.buffer ≡ image p q ++ drop c.buf_len c.buffer =
      sym (take-append_drop c.buf_len c.buffer) ∙ ap (λ t. t ++ drop c.buf_len c.buffer) got in
    let e = sym h ∙ ap receive whole ∙ receive-image p q (drop c.buf_len c.buffer) rp rq in
    (ap (λ t. t.0) (some_inj e), ap (λ t. t.1) (some_inj e))

pub stored-IsRead :
    (c : ConnContext) (a b : Received) (x y : Block)
    → receive c.buffer ≡ some (a, b)
    → IsStored a x
    → IsStored b y
    → IsRead (got_bytes c) (payload x, payload y)
stored-IsRead c a b x y h sx sy (p, q) rp rq got =
    let (ea, eb) = receive-got c p q a b h rp rq got in
    let first = subst (λ r. IsStored r x) ea sx (sym rp.well_formed.counted) in
    let second = subst (λ r. IsStored r y) eb sy (sym rq.well_formed.counted) in
    ap (λ (t : Payload). (t, payload y)) first ∙ ap (λ (t : Payload). (payload p, t)) second
